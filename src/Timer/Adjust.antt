-- ===== src/Timer/Adjust.antt =====
-- `Adjust_Timer` moves a timer whose expiry time was put off.
use my_tcp_cs.Base.{
  ℕ, ◌≤◌, ◌<◌, ◌≡◌, refl, sym, ◌∙◌, inl, inr, false, some, List, [], ◌∷◌, ◌++◌, arith, ltb, ◌==◌,
  ==-refl, ==-ne, Bool-cases, All, All-middle, length,
}
use my_tcp_cs.Timer.Memory.{Ptr, null, write, State, set_expire, write_self, write-ne}
use my_tcp_cs.Timer.Queue.{Entry, timer_of, ◌∈◌, ◌∉◌, first, insert, IsSorted, insert-append}
use my_tcp_cs.Timer.Chain.{
  IsList, has-append, first-append, final-append, Chain-frame, Chain-append, Disjoint-of_Chain,
  Chain-splice, ne_of_not-mem-append, not-mem-append_left, not-mem-append_right, ==-of_mem,
}
use my_tcp_cs.Timer.Steps
use my_tcp_cs.Timer.Steps.{
  Returns, returns, get_head-ok, not_null, load-ok, set_next-ok, set_prev-ok, set_expire-ok,
}
use my_tcp_cs.Timer.Bypass.{Bypassed, bypass_behind}
use my_tcp_cs.Timer.Add.{Became, add_timer_from-insert}
use my_tcp_cs.Timer.{bypass, relocate, adjust_timer}

module _ {E : Type 0} (s : State E) (e : Entry) where
  -- The first timer is moved behind at least one other.
  relocate_first :
      (k : ℕ) (g : Entry) (ys : List Entry)
      → IsList s (e ∷ g ∷ ys)
      → length ys < k
      → Returns (λ _. Became s (e ∷ g ∷ ys) (g ∷ insert e ys)) (relocate k e.addr s)
  unfolding relocate write
  relocate_first k g ys l fuel =
      let c = l.chain in
      let eg : (e.addr == g.addr) ≡ false = ground arith in
      let s₁ : State E = record s { head = g.addr } in
      let s₂ : State E = record s₁ {
        memory = write s.memory g.addr (some (timer_of g null (first ys null)));
      } in
      let s₃ : State E = record s₂ {
        memory = write s₂.memory e.addr (some (timer_of e null null));
      } in
      let l₃ : IsList s₃ (g ∷ ys) = record {
        chain = (
          c.3.0,
          ground arith,
          c.3.2,
          Chain-frame s.memory g.addr null _ ys c.3.3 (ground arith),
        );
        head_first = refl;
        tail_final = l.tail_final;
      } in
      rw
        (
          get_head-ok s e.addr l.head_first,
          ==-refl e.addr,
          load-ok s e.addr c.0 c.1,
          set_prev-ok s₁ g.addr c.3.0 c.3.1 null,
          set_next-ok s₂ e.addr c.0 (write-ne s.memory g.addr e.addr _ eg ∙ c.1) null,
        )
        (Steps.mono
          (add_timer_from-insert e c.0 k s₃ null null g ys (write_self s₂.memory e.addr _) l₃ c.2
            fuel)
          λ _ s' r. record {
            list = r.list;
            same = λ a o. r.same a (ground arith) ∙ ground arith;
            same_env = r.same_env;
          })

  relocate_past :
      (k : ℕ) (x : Entry) (zs : List Entry) (g : Entry) (ys : List Entry) (f : Entry)
      → IsList s (x ∷ zs ++ e ∷ g ∷ ys)
      → length (zs ++ g ∷ ys) < k
      → f.addr ∈ x ∷ zs
      → Returns (λ _. Bypassed s e f g (x ∷ zs ++ g ∷ ys)) (bypass e.addr s)
      → Returns
          (λ _. Became s (x ∷ zs ++ e ∷ g ∷ ys) (x ∷ insert e (zs ++ g ∷ ys)))
          (relocate k e.addr s)
  unfolding relocate
  relocate_past k x zs g ys f l fuel mem run =
      let (cl, c) = Chain-append s.memory null null (x ∷ zs) (e ∷ g ∷ ys) l.chain in
      rw
        (
          get_head-ok s x.addr l.head_first,
          ==-ne e.addr x.addr (ne_of_not-mem-append x.addr zs e (g ∷ ys) l.chain.2),
        )
        (Steps.bind run λ _ s₁ b. rw (get_head-ok s₁ x.addr b.list.head_first) (
          Steps.mono
            (add_timer_from-insert e c.0 k s₁ f.addr g.addr x (zs ++ g ∷ ys) b.kept b.list b.out
              fuel)
            λ _ s' r. record {
              list = r.list;
              same = λ a o. r.same a (moved a o) ∙ b.same a (linked a o);
              same_env = r.same_env ∙ b.same_env;
            }))
    where
      moved : (a : Ptr) → a ∉ x ∷ zs ++ e ∷ g ∷ ys → a ∉ x ∷ e ∷ (zs ++ g ∷ ys)
      moved a o = ground (arith, has-append a zs (e ∷ g ∷ ys), has-append a zs (g ∷ ys))

      linked : (a : Ptr) → a ∉ x ∷ zs ++ e ∷ g ∷ ys → a ∉ f ∷ g ∷ []
      linked a o = ground (
        arith,
        ==-of_mem a f.addr (x ∷ zs) (not-mem-append_left a (x ∷ zs) (e ∷ g ∷ ys) o) mem,
        not-mem-append_right a (x ∷ zs) (e ∷ g ∷ ys) o,
      )

  -- A timer between two others is moved behind the first one, `x`.
  relocate_inner :
      (k : ℕ) (x : Entry) (zs : List Entry) (g : Entry) (ys : List Entry)
      → IsList s (x ∷ zs ++ e ∷ g ∷ ys)
      → length (zs ++ g ∷ ys) < k
      → Returns
          (λ _. Became s (x ∷ zs ++ e ∷ g ∷ ys) (x ∷ insert e (zs ++ g ∷ ys)))
          (relocate k e.addr s)
  relocate_inner k x zs g ys l fuel =
      let (f, mem, run) = bypass_behind s e (x ∷ zs) g ys (λ q. cc) l in
      relocate_past k x zs g ys f l fuel mem run

  relocate_lem :
      (k : ℕ) (xs : List Entry) (g : Entry) (ys : List Entry)
      → IsList s (xs ++ e ∷ g ∷ ys)
      → IsSorted (xs ++ g ∷ ys)
      → g.expire ≤ e.expire
      → length (xs ++ g ∷ ys) ≤ k
      → Returns (λ _. Became s (xs ++ e ∷ g ∷ ys) (insert e (xs ++ g ∷ ys))) (relocate k e.addr s)
  unfolding insert
  relocate_lem k [] g ys l sorted late fuel =
      let behind : ltb e.expire g.expire ≡ false = ground arith in
      rw behind (relocate_first k g ys l fuel)
  relocate_lem k (x ∷ zs) g ys l sorted late fuel =
      let below : x.expire ≤ g.expire = All-middle (λ f. x.expire ≤ f.expire) zs g ys sorted.0 in
      let behind : ltb e.expire x.expire ≡ false = ground arith in
      rw behind (relocate_inner k x zs g ys l fuel)

  -- `Adjust_Timer`, given the timer `e` of a list that is in order but for `e`, whose expiry time
  -- is no earlier than those in front of it, puts the list in order: `e` goes to its place among
  -- the others. It faults nowhere, needs at most as many rounds as there are other timers, and
  -- changes nothing outside the list.
  pub adjust_timer-insert :
      (k : ℕ) (xs ys : List Entry)
      → IsList s (xs ++ e ∷ ys)
      → IsSorted (xs ++ ys)
      → All (λ f. f.expire ≤ e.expire) xs
      → length (xs ++ ys) ≤ k
      → Returns (λ _. Became s (xs ++ e ∷ ys) (insert e (xs ++ ys))) (adjust_timer k e.addr s)
  unfolding adjust_timer insert
  adjust_timer-insert k xs [] l sorted grown fuel =
      let (cl, c) = Chain-append s.memory null null xs (e ∷ []) l.chain in
      rw (insert-append e xs [] grown, not_null s e.addr c.0 c.1, load-ok s e.addr c.0 c.1)
        (returns (record { list = l; same = λ a o. refl; same_env = refl }))
  adjust_timer-insert k xs (g ∷ ys) l sorted grown fuel =
      let (cl, c) = Chain-append s.memory null null xs (e ∷ g ∷ ys) l.chain in
      rw
        (
          not_null s e.addr c.0 c.1,
          load-ok s e.addr c.0 c.1,
          not_null s g.addr c.3.0 c.3.1,
          load-ok s g.addr c.3.0 c.3.1,
        )
        (elim (Bool-cases (ltb e.expire g.expire)) [
          | inl lt ↦
              rw (insert-append e xs (g ∷ ys) grown, lt)
                (returns (record { list = l; same = λ a o. refl; same_env = refl }))
          | inr ge ↦ rw ge (relocate_lem k xs g ys l sorted (ground arith) fuel)
        ])

  -- `timer->expire_ = n` keeps the list, with the entry's expiry time given anew.
  pub set_expire-IsList :
      (n : ℕ) (xs ys : List Entry)
      → IsList s (xs ++ e ∷ ys)
      → Returns
          (λ _ s'. IsList s' (xs ++ record e { expire = n } ∷ ys) × (s'.env ≡ s.env))
          (set_expire e.addr n s)
  unfolding write
  set_expire-IsList n xs ys l =
      let (cl, c) = Chain-append s.memory null null xs (e ∷ ys) l.chain in
      let apart = Disjoint-of_Chain s.memory null null xs (e ∷ ys) l.chain in
      let e' : Entry = record e { expire = n } in
      rw (set_expire-ok s e.addr c.0 c.1 n) (
        returns (
          record {
            chain =
                Chain-splice s.memory _ null null xs (e ∷ ys) (e' ∷ ys) l.chain refl
                  (λ a i. ground (arith, apart a i))
                  (c.0, ground arith, c.2, Chain-frame s.memory e.addr null _ ys c.3 (ground arith))
                  (λ a i. ground (arith, apart a i));
            head_first =
                l.head_first ∙ first-append xs (e ∷ ys) null ∙ sym (first-append xs (e' ∷ ys) null);
            tail_final =
                l.tail_final
                ∙ final-append s.tail xs (e ∷ ys)
                ∙ sym (final-append s.tail xs (e' ∷ ys));
          },
          refl,
        ))
