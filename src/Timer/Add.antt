-- ===== src/Timer/Add.antt =====
-- `Add_Timer`, both overloads, is ordered insertion.
use my_tcp_cs.Base.{
  ℕ, zero, suc, ◌≤◌, ◌<◌, ◌≡◌, ◌≢◌, refl, ◌∙◌, inl, inr, true, false, some, List, [], ◌∷◌, arith,
  ltb, Bool-cases, length,
}
use my_tcp_cs.Timer.Memory.{Ptr, null, write, State}
use my_tcp_cs.Timer.Queue.{Entry, timer_of, ◌∉◌, first, final, insert, has-insert}
use my_tcp_cs.Timer.Chain.{Chain, SameOutside, IsList, Chain-frame}
use my_tcp_cs.Timer.Steps
use my_tcp_cs.Timer.Steps.{
  Returns, returns, get_head-ok, not_null, load-ok, set_next-ok, set_prev-ok,
}
use my_tcp_cs.Timer.{add_behind, add_timer_from, add_timer}

-- The list object stands for `es` now, and nothing outside the timers `touched` has changed.
pub record Became {E : Type 0} (s : State E) (touched es : List Entry) (s' : State E) : Type 0 where
  pub list : IsList s' es
  pub same : SameOutside touched s.memory s'.memory
  pub same_env : s'.env ≡ s.env

-- What an operation on the entries behind `before` leaves: they are now `es`, and nothing but the
-- timers `touched` and perhaps `tail_` has changed.
pub record Relinked {E : Type 0} (s : State E) (before : Ptr) (touched es : List Entry)
    (s' : State E) : Type 0 where
  pub chain : Chain s'.memory before es null
  pub tail_final : s'.tail ≡ final s'.tail es
  pub same : SameOutside touched s.memory s'.memory
  pub same_head : s'.head ≡ s.head
  pub same_env : s'.env ≡ s.env

module _ {E : Type 0} (e : Entry) (live : e.addr ≢ null) where
  -- The insertion between two neighbours.
  add_between :
      (k : ℕ) (s : State E) (p n before : Ptr) (f g : Entry) (fs : List Entry)
      → s.memory e.addr ≡ some (timer_of e p n)
      → Chain s.memory before (f ∷ g ∷ fs) null
      → e.addr ∉ f ∷ g ∷ fs
      → s.tail ≡ final g.addr fs
      → ltb e.expire g.expire ≡ true
      → Returns
          (λ _. Relinked s before (f ∷ e ∷ g ∷ fs) (f ∷ e ∷ g ∷ fs))
          (add_behind (suc k) e.addr f.addr g.addr s)
  unfolding add_behind write
  add_between k s p n before f g fs here c out last lt =
      let s₁ : State E = record s {
        memory = write s.memory f.addr (some (timer_of f before e.addr));
      } in
      let s₂ : State E = record s₁ {
        memory = write s₁.memory e.addr (some (timer_of e p g.addr));
      } in
      let s₃ : State E = record s₂ {
        memory = write s₂.memory g.addr (some (timer_of g e.addr (first fs null)));
      } in
      rw
        (
          not_null s g.addr c.3.0 c.3.1,
          load-ok s e.addr live here,
          load-ok s g.addr c.3.0 c.3.1,
          lt,
          set_next-ok s f.addr c.0 c.1 e.addr,
          set_next-ok s₁ e.addr {t = timer_of e p n} live (ground arith) g.addr,
          set_prev-ok s₂ g.addr {t = timer_of g f.addr (first fs null)} c.3.0 (ground arith) e.addr,
          set_prev-ok s₃ e.addr {t = timer_of e p g.addr} live (ground arith) f.addr,
          not_null s g.addr c.3.0 c.3.1,
        )
        (returns (record {
          chain = (
            c.0,
            ground arith,
            ground arith,
            (
              live,
              ground arith,
              ground arith,
              (
                c.3.0,
                ground arith,
                c.3.2,
                Chain-frame s.memory g.addr null _ fs c.3.3 (ground arith),
              ),
            ),
          );
          tail_final = last;
          same = ground arith;
          same_head = refl;
          same_env = refl;
        }))

  -- The insertion behind the last timer.
  add_last :
      (k : ℕ) (s : State E) (p n before : Ptr) (f : Entry)
      → s.memory e.addr ≡ some (timer_of e p n)
      → Chain s.memory before (f ∷ []) null
      → e.addr ∉ f ∷ []
      → Returns
          (λ _. Relinked s before (f ∷ e ∷ []) (f ∷ e ∷ []))
          (add_behind (suc k) e.addr f.addr null s)
  unfolding add_behind write
  add_last k s p n before f here c out =
      let s₁ : State E = record s {
        memory = write s.memory f.addr (some (timer_of f before e.addr));
      } in
      let s₂ : State E = record s₁ {
        memory = write s₁.memory e.addr (some (timer_of e f.addr n));
      } in
      rw
        (
          set_next-ok s f.addr c.0 c.1 e.addr,
          set_prev-ok s₁ e.addr {t = timer_of e p n} live (ground arith) f.addr,
          set_next-ok s₂ e.addr {t = timer_of e f.addr n} live (ground arith) null,
        )
        (returns (record {
          chain = (c.0, ground arith, ground arith, (live, ground arith, refl, tt));
          tail_final = refl;
          same = ground arith;
          same_head = refl;
          same_env = refl;
        }))

  -- The loop walks on past a timer that does not expire later.
  add_behind-step :
      (k : ℕ) (s : State E) (p n : Ptr) (f g : Entry) (b after : Ptr)
      → s.memory e.addr ≡ some (timer_of e p n)
      → g.addr ≢ null
      → s.memory g.addr ≡ some (timer_of g b after)
      → ltb e.expire g.expire ≡ false
      → add_behind (suc k) e.addr f.addr g.addr s ≡ add_behind k e.addr g.addr after s
  unfolding add_behind
  add_behind-step k s p n f g b after here ne holds ge =
      rw (not_null s g.addr ne holds, load-ok s e.addr live here, load-ok s g.addr ne holds, ge)
        refl

  -- Behind the timer `f` stand `fs`; the new timer goes to its place among them.
  pub add_behind-insert :
      (k : ℕ) (s : State E) (p n before : Ptr) (f : Entry) (fs : List Entry)
      → s.memory e.addr ≡ some (timer_of e p n)
      → Chain s.memory before (f ∷ fs) null
      → e.addr ∉ f ∷ fs
      → s.tail ≡ final f.addr fs
      → length fs < k
      → Returns
          (λ _. Relinked s before (f ∷ e ∷ fs) (f ∷ insert e fs))
          (add_behind k e.addr f.addr (first fs null) s)
  unfolding insert
  add_behind-insert zero s p n before f fs here c out last fuel = absurd (omega arith)
  add_behind-insert (suc k) s p n before f [] here c out last fuel =
      add_last k s p n before f here c out
  add_behind-insert (suc k) s p n before f (g ∷ gs) here c out last fuel =
      elim (Bool-cases (ltb e.expire g.expire)) [
        | inl lt ↦ rw lt (add_between k s p n before f g gs here c out last lt)
        | inr ge ↦
            rw (add_behind-step k s p n f g f.addr (first gs null) here c.3.0 c.3.1 ge, ge)
              (Steps.mono
                (add_behind-insert k s p n f.addr g gs here c.3 (ground arith) last (omega arith))
                λ _ s' r. record {
                  chain = (
                    c.0,
                    ground (arith, r.same f.addr),
                    ground (arith, has-insert f.addr e gs),
                    r.chain,
                  );
                  tail_final = r.tail_final;
                  same = λ a o. r.same a (ground arith);
                  same_head = r.same_head;
                  same_env = r.same_env;
                })
      ]

  -- `Add_Timer(timer, head_)`, where `f` is the first timer.
  pub add_timer_from-insert :
      (k : ℕ) (s : State E) (p n : Ptr) (f : Entry) (fs : List Entry)
      → s.memory e.addr ≡ some (timer_of e p n)
      → IsList s (f ∷ fs)
      → e.addr ∉ f ∷ fs
      → length fs < k
      → Returns (λ _. Became s (f ∷ e ∷ fs) (f ∷ insert e fs)) (add_timer_from k e.addr f.addr s)
  unfolding add_timer_from
  add_timer_from-insert k s p n f fs here l out fuel = rw (load-ok s f.addr l.chain.0 l.chain.1) (
      Steps.mono (add_behind-insert k s p n null f fs here l.chain out l.tail_final fuel) λ _ s' r.
        record {
          list = record {
            chain = r.chain;
            head_first = r.same_head ∙ l.head_first;
            tail_final = r.tail_final;
          };
          same = r.same;
          same_env = r.same_env;
        })

  -- The new timer in front of the first one.
  add_front :
      (k : ℕ) (s : State E) (f : Entry) (fs : List Entry)
      → s.memory e.addr ≡ some (timer_of e null null)
      → IsList s (f ∷ fs)
      → e.addr ∉ f ∷ fs
      → ltb e.expire f.expire ≡ true
      → Returns (λ _. Became s (e ∷ f ∷ fs) (e ∷ f ∷ fs)) (add_timer k e.addr s)
  unfolding add_timer write
  add_front k s f fs here l out lt =
      let s₁ : State E = record s {
        memory = write s.memory e.addr (some (timer_of e null f.addr));
      } in
      let c = l.chain in
      rw
        (
          not_null s e.addr live here,
          get_head-ok s f.addr l.head_first,
          not_null s f.addr c.0 c.1,
          load-ok s e.addr live here,
          load-ok s f.addr c.0 c.1,
          lt,
          set_next-ok s e.addr live here f.addr,
          set_prev-ok s₁ f.addr {t = timer_of f null (first fs null)} c.0 (ground arith) e.addr,
        )
        (returns (record {
          list = record {
            chain = (
              live,
              ground arith,
              ground arith,
              (c.0, ground arith, c.2, Chain-frame s.memory f.addr null _ fs c.3 (ground arith)),
            );
            head_first = refl;
            tail_final = l.tail_final;
          };
          same = ground arith;
          same_env = refl;
        }))

  -- `Add_Timer` puts a new timer, which no list holds yet, into its place by expiry time, behind
  -- those that expire at the same time. It needs at most as many rounds as there are timers, faults
  -- nowhere, and changes no other timer.
  pub add_timer-insert :
      (k : ℕ) (s : State E) (es : List Entry)
      → s.memory e.addr ≡ some (timer_of e null null)
      → IsList s es
      → e.addr ∉ es
      → length es ≤ k
      → Returns (λ _. Became s (e ∷ es) (insert e es)) (add_timer k e.addr s)
  unfolding add_timer insert
  add_timer-insert k s [] here l out fuel =
      rw (not_null s e.addr live here, get_head-ok s null l.head_first)
        (returns (record {
          list = record { chain = (live, here, refl, tt); head_first = refl; tail_final = refl };
          same = λ a o. refl;
          same_env = refl;
        }))
  add_timer-insert k s (f ∷ fs) here l out fuel = elim (Bool-cases (ltb e.expire f.expire)) [
    | inl lt ↦ rw lt (add_front k s f fs here l out lt)
    | inr ge ↦
        rw
          (
            ge,
            not_null s e.addr live here,
            get_head-ok s f.addr l.head_first,
            not_null s f.addr l.chain.0 l.chain.1,
            load-ok s e.addr live here,
            load-ok s f.addr l.chain.0 l.chain.1,
            ge,
          )
          (Steps.mono (add_timer_from-insert k s null null f fs here l out fuel) λ _ s' r. record {
            list = r.list;
            same = λ a o. r.same a (ground arith);
            same_env = r.same_env;
          })
  ]
