-- ===== src/Timer/Delete.antt =====
-- `Del_Timer` takes one timer out of the list and frees it.
use mathlib.Core.List.{append_assoc}
use my_tcp_cs.Base.{
  ◌≡◌, refl, sym, ◌∙◌, inl, inr, none, some, List, [], ◌∷◌, ◌++◌, arith, ==-refl, ==-ne,
}
use my_tcp_cs.Timer.Memory.{null, write, State, write_self, write-ne}
use my_tcp_cs.Timer.Queue.{Entry, timer_of, ◌∉◌, first, final, ne_of_not-mem, not-mem_of_apart}
use my_tcp_cs.Timer.Chain.{
  SameOutside, IsList, has-append, first-append, final-append, Chain-frame, Chain-write,
  Chain-append, Disjoint-of_Chain, Chain-splice, first-ne, final-mem, last-cases,
}
use my_tcp_cs.Timer.Steps
use my_tcp_cs.Timer.Steps.{
  Returns, returns, get_head-ok, get_tail-ok, not_null, load-ok, set_next-ok, set_prev-ok,
  delete-ok,
}
use my_tcp_cs.Timer.Bypass.{bypass_lem}
use my_tcp_cs.Timer.{del_timer}

-- The list object stands for `es`, the timer `e` is freed, and only the timers `touched` changed.
pub record Removed {E : Type 0} (s : State E) (e : Entry) (touched es : List Entry) (s' : State E)
    : Type 0 where
  pub list : IsList s' es
  pub freed : s'.memory e.addr ≡ none
  pub same : SameOutside touched s.memory s'.memory
  pub same_env : s'.env ≡ s.env

module _ {E : Type 0} (s : State E) (e : Entry) where
  del_only : IsList s (e ∷ []) → Returns (λ _. Removed s e (e ∷ []) []) (del_timer e.addr s)
  unfolding del_timer write
  del_only l =
      rw
        (
          not_null s e.addr l.chain.0 l.chain.1,
          get_head-ok s e.addr l.head_first,
          get_tail-ok s e.addr l.tail_final,
          ==-refl e.addr,
          delete-ok s e.addr l.chain.0 l.chain.1,
        )
        (returns (record {
          list = record { chain = tt; head_first = refl; tail_final = refl };
          freed = ground arith;
          same = ground arith;
          same_env = refl;
        }))

  del_head :
      (g : Entry) (ys : List Entry)
      → IsList s (e ∷ g ∷ ys)
      → Returns (λ _. Removed s e (e ∷ g ∷ ys) (g ∷ ys)) (del_timer e.addr s)
  unfolding del_timer write
  del_head g ys l =
      let c = l.chain in
      let s₁ : State E = record s { head = g.addr } in
      let s₂ : State E = record s₁ {
        memory = write s.memory g.addr (some (timer_of g null (first ys null)));
      } in
      rw
        (
          not_null s e.addr c.0 c.1,
          get_head-ok s e.addr l.head_first,
          get_tail-ok s (final g.addr ys) l.tail_final,
          ==-refl e.addr,
          ==-ne e.addr (final g.addr ys) (ground (arith, final-mem g ys)),
          load-ok s e.addr c.0 c.1,
          set_prev-ok s₁ g.addr c.3.0 c.3.1 null,
          delete-ok s₂ e.addr {t = timer_of e null g.addr} c.0 (ground arith),
        )
        (returns (record {
          list = record {
            chain = (
              c.3.0,
              ground arith,
              c.3.2,
              Chain-frame s.memory g.addr null _ ys c.3.3 (ground arith),
            );
            head_first = refl;
            tail_final = l.tail_final;
          };
          freed = ground arith;
          same = ground arith;
          same_env = refl;
        }))

  -- The timer `f` in front of `e` becomes the last one.
  del_last :
      (xs : List Entry) (f : Entry)
      → IsList s (xs ++ f ∷ e ∷ [])
      → Returns (λ _. Removed s e (xs ++ f ∷ e ∷ []) (xs ++ f ∷ [])) (del_timer e.addr s)
  unfolding del_timer write
  del_last xs f l =
      let (cl, c) = Chain-append s.memory null null xs (f ∷ e ∷ []) l.chain in
      let apart = Disjoint-of_Chain s.memory null null xs (f ∷ e ∷ []) l.chain in
      let s₁ : State E = record s { tail = f.addr } in
      let s₂ : State E = record s₁ {
        memory = write s.memory f.addr (some (timer_of f (final null xs) null));
      } in
      rw
        (
          not_null s e.addr c.3.0 c.3.1,
          get_head-ok s _ l.head_first,
          get_tail-ok s e.addr (l.tail_final ∙ final-append s.tail xs (f ∷ e ∷ [])),
          first-append xs (f ∷ e ∷ []) null,
          ==-ne e.addr (first xs f.addr)
              (first-ne e.addr f.addr xs (ground (arith, apart e.addr)) (ground arith)),
          ==-refl e.addr,
          load-ok s e.addr c.3.0 c.3.1,
          set_next-ok s₁ f.addr c.0 c.1 null,
          delete-ok s₂ e.addr {t = timer_of e f.addr null} c.3.0 (ground arith),
        )
        (returns (record {
          list = record {
            chain =
                Chain-splice s.memory _ null null xs (f ∷ e ∷ []) (f ∷ []) l.chain refl
                  (λ a i. ground (arith, apart a i)) (c.0, ground arith, refl, tt)
                  (λ a i. ground (arith, apart a i));
            head_first =
                l.head_first
                ∙ first-append xs (f ∷ e ∷ []) null
                ∙ sym (first-append xs (f ∷ []) null);
            tail_final = sym (final-append f.addr xs (f ∷ []));
          };
          freed = ground arith;
          same = λ a o. ground (arith, has-append a xs (f ∷ e ∷ []));
          same_env = refl;
        }))

  del_middle :
      (xs : List Entry) (f g : Entry) (ys : List Entry)
      → IsList s (xs ++ f ∷ e ∷ g ∷ ys)
      → Returns (λ _. Removed s e (xs ++ f ∷ e ∷ g ∷ ys) (xs ++ f ∷ g ∷ ys)) (del_timer e.addr s)
  unfolding del_timer write
  del_middle xs f g ys l =
      let (cl, c) = Chain-append s.memory null null xs (f ∷ e ∷ g ∷ ys) l.chain in
      let apart = Disjoint-of_Chain s.memory null null xs (f ∷ e ∷ g ∷ ys) l.chain in
      rw
        (
          not_null s e.addr c.3.0 c.3.1,
          get_head-ok s _ l.head_first,
          get_tail-ok s (final g.addr ys) (l.tail_final ∙ final-append s.tail xs (f ∷ e ∷ g ∷ ys)),
          first-append xs (f ∷ e ∷ g ∷ ys) null,
          ==-ne e.addr (first xs f.addr) (
              first-ne e.addr f.addr xs
                (not-mem_of_apart xs (f ∷ e ∷ g ∷ ys) apart e.addr (ground arith))
                (ne_of_not-mem f.addr e (g ∷ ys) c.2)),
          ==-ne e.addr (final g.addr ys) (ground (arith, final-mem g ys)),
        )
        (Steps.bind (bypass_lem s e xs f g ys l) λ _ s' b. rw (delete-ok s' e.addr c.3.0 b.kept) (
          returns (record {
            list = record {
              chain =
                  Chain-write s'.memory null null (xs ++ f ∷ g ∷ ys) e.addr none b.list.chain b.out;
              head_first = b.list.head_first;
              tail_final = b.list.tail_final;
            };
            freed = write_self s'.memory e.addr none;
            same = λ a o.
                let o' : a ∉ f ∷ e ∷ g ∷ ys = ground (arith, has-append a xs (f ∷ e ∷ g ∷ ys)) in
                write-ne s'.memory e.addr a none (ground arith) ∙ b.same a (ground arith);
            same_env = b.same_env;
          })))

  -- `Del_Timer` takes a timer of the list out, wherever it stands, and frees it; the others keep
  -- their order, and nothing faults.
  pub del_timer-remove :
      (xs ys : List Entry)
      → IsList s (xs ++ e ∷ ys)
      → Returns (λ _. Removed s e (xs ++ e ∷ ys) (xs ++ ys)) (del_timer e.addr s)
  del_timer-remove xs ys l = elim (last-cases xs) [
    | inl front ↦ rw front (from_front ys (rw front at l))
    | inr (zs, f, split) ↦
        rw (split, append_assoc zs (f ∷ []) (e ∷ ys), append_assoc zs (f ∷ []) ys)
          (from_behind zs f ys (rw (split, append_assoc zs (f ∷ []) (e ∷ ys)) at l))
  ]
    where
      from_front :
          (ys : List Entry)
          → IsList s (e ∷ ys)
          → Returns (λ _. Removed s e (e ∷ ys) ys) (del_timer e.addr s)
      from_front [] l = del_only l
      from_front (g ∷ ys) l = del_head g ys l

      from_behind :
          (zs : List Entry) (f : Entry) (ys : List Entry)
          → IsList s (zs ++ f ∷ e ∷ ys)
          → Returns (λ _. Removed s e (zs ++ f ∷ e ∷ ys) (zs ++ f ∷ ys)) (del_timer e.addr s)
      from_behind zs f [] l = del_last zs f l
      from_behind zs f (g ∷ ys) l = del_middle zs f g ys l
