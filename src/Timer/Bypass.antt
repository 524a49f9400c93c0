-- ===== src/Timer/Bypass.antt =====
-- `timer->prev_->next_ = timer->next_; timer->next_->prev_ = timer->prev_;` between two neighbours.
use mathlib.Core.List.{append_assoc}
use my_tcp_cs.Base.{
  ◌≡◌, ◌≢◌, refl, sym, ◌∙◌, inl, inr, false, some, List, [], ◌∷◌, ◌++◌, arith, ◌==◌,
}
use my_tcp_cs.Timer.Memory.{null, write, State, write-ne}
use my_tcp_cs.Timer.Queue.{Entry, timer_of, ◌∈◌, ◌∉◌, final, not-mem_of_apart}
use my_tcp_cs.Timer.Chain.{
  SameOutside, IsList, has-append, first-append, final-append, Chain-frame, Chain-append,
  Disjoint-of_Chain, Chain-splice, last-cases,
}
use my_tcp_cs.Timer.Steps.{Returns, returns, load-ok, set_next-ok, set_prev-ok}
use my_tcp_cs.Timer.{bypass}

-- The list now leads past `e`, whose timer is still there.
pub record Bypassed {E : Type 0} (s : State E) (e f g : Entry) (es : List Entry) (s' : State E)
    : Type 0 where
  pub list : IsList s' es
  pub out : e.addr ∉ es
  pub kept : s'.memory e.addr ≡ some (timer_of e f.addr g.addr)
  pub same : SameOutside (f ∷ g ∷ []) s.memory s'.memory
  pub same_head : s'.head ≡ s.head
  pub same_env : s'.env ≡ s.env

module _ {E : Type 0} (s : State E) (e : Entry) where
  -- The neighbours `f` and `g` are linked to one another.
  pub bypass_lem :
      (xs : List Entry) (f g : Entry) (ys : List Entry)
      → IsList s (xs ++ f ∷ e ∷ g ∷ ys)
      → Returns (λ _. Bypassed s e f g (xs ++ f ∷ g ∷ ys)) (bypass e.addr s)
  unfolding bypass write
  bypass_lem xs f g ys l =
      let (cl, c) = Chain-append s.memory null null xs (f ∷ e ∷ g ∷ ys) l.chain in
      let apart = Disjoint-of_Chain s.memory null null xs (f ∷ e ∷ g ∷ ys) l.chain in
      let ef : (e.addr == f.addr) ≡ false = ground arith in
      let eg : (e.addr == g.addr) ≡ false = ground arith in
      let gf : (g.addr == f.addr) ≡ false = ground arith in
      let s₁ : State E = record s {
        memory = write s.memory f.addr (some (timer_of f (final null xs) g.addr));
      } in
      rw
        (
          load-ok s e.addr c.3.0 c.3.1,
          set_next-ok s f.addr c.0 c.1 g.addr,
          load-ok s₁ e.addr c.3.0 (write-ne s.memory f.addr e.addr _ ef ∙ c.3.1),
          set_prev-ok s₁ g.addr c.3.3.0 (write-ne s.memory f.addr g.addr _ gf ∙ c.3.3.1) f.addr,
        )
        (returns (record {
          list = record {
            chain =
                Chain-splice s.memory _ null null xs (f ∷ e ∷ g ∷ ys) (f ∷ g ∷ ys) l.chain refl
                  (λ a i. ground (arith, apart a i))
                  (
                    c.0,
                    ground arith,
                    ground arith,
                    (
                      c.3.3.0,
                      ground arith,
                      c.3.3.2,
                      Chain-frame s.memory g.addr null _ ys c.3.3.3 (ground arith),
                    ),
                  )
                  (λ a i. ground (arith, apart a i));
            head_first =
                l.head_first
                ∙ first-append xs (f ∷ e ∷ g ∷ ys) null
                ∙ sym (first-append xs (f ∷ g ∷ ys) null);
            tail_final =
                l.tail_final
                ∙ final-append s.tail xs (f ∷ e ∷ g ∷ ys)
                ∙ sym (final-append s.tail xs (f ∷ g ∷ ys));
          };
          out = ground (
            arith,
            has-append e.addr xs (f ∷ g ∷ ys),
            not-mem_of_apart xs (f ∷ e ∷ g ∷ ys) apart e.addr,
          );
          kept =
              write-ne s₁.memory g.addr e.addr _ eg ∙ write-ne s.memory f.addr e.addr _ ef ∙ c.3.1;
          same = ground arith;
          same_head = refl;
          same_env = refl;
        }))

  -- The same, where some timers `ws` stand in front, the last of which is the neighbour.
  pub bypass_behind :
      (ws : List Entry) (g : Entry) (ys : List Entry)
      → ws ≢ []
      → IsList s (ws ++ e ∷ g ∷ ys)
      → (f : Entry) × (f.addr ∈ ws)
        × Returns (λ _. Bypassed s e f g (ws ++ g ∷ ys)) (bypass e.addr s)
  bypass_behind ws g ys ne l = elim (last-cases ws) [
    | inl empty ↦ absurd (ne empty)
    | inr (xs, f, split) ↦ (
      f,
      rw split (ground (arith, has-append f.addr xs (f ∷ []))),
      rw (split, append_assoc xs (f ∷ []) (g ∷ ys))
          (bypass_lem xs f g ys (rw (split, append_assoc xs (f ∷ []) (e ∷ g ∷ ys)) at l)),
    )
  ]
