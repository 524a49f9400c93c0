-- ===== src/Timer/Tick.antt =====
-- `Tick`: with a callback that leaves the timers alone it drops those that have run out; with one
-- that frees the timer it was called for, it reads freed memory.
use my_tcp_cs.Base.{
  ℕ, zero, suc, ◌≤◌, ◌<◌, ◌≡◌, refl, ap, ◌∙◌, inl, inr, true, false, none, some, List, [], ◌∷◌,
  arith, ltb, Bool-cases, All, length,
}
use my_tcp_cs.Timer.Memory.{null, write, State, ok, fault, Cmd}
use my_tcp_cs.Timer.Queue.{Entry, timer_of, first, IsSorted, unexpired, expired, unexpired-lt}
use my_tcp_cs.Timer.Chain.{SameOutside, IsList, Chain-frame}
use my_tcp_cs.Timer.Steps
use my_tcp_cs.Timer.Steps.{
  Returns, returns, get_head-ok, not_null, load-ok, load-dead, set_prev-ok, delete-ok,
}
use my_tcp_cs.Timer.{tick_loop, tick}

-- What the callbacks of the timers `es`, called in order, make of the rest of the server.
pub run_all {ℓ} : {E : Type ℓ} → (ℕ → ℕ → E → E) → List Entry → E → E
run_all run [] env = env
run_all run (e ∷ es) env = run_all run es (run e.cb_func e.user_data env)

pub record Swept {E : Type 0} (run : ℕ → ℕ → E → E) (s : State E) (cur : ℕ) (es : List Entry)
    (s' : State E) : Type 0 where
  pub list : IsList s' (unexpired cur es)
  pub freed : All (λ e. s'.memory e.addr ≡ none) (expired cur es)
  pub same : SameOutside es s.memory s'.memory
  pub called : s'.env ≡ run_all run (expired cur es) s.env

module _ {E : Type 0} (invoke : ℕ → ℕ → Cmd E (Unit {0})) (run : ℕ → ℕ → E → E)
    (harmless : (f u : ℕ) (s : State E)
      → invoke f u s ≡ ok tt (record s { env = run f u s.env })) where
  Swept-nil : (cur : ℕ) (s : State E) → IsList s [] → Swept run s cur [] s
  unfolding unexpired expired run_all
  Swept-nil cur s l = record { list = l; freed = tt; same = λ a o. refl; called = refl }

  -- One round on a timer that has run out, with another timer behind it.
  round_more :
      (k cur : ℕ) (s : State E) (e g : Entry) (gs : List Entry)
      → IsList s (e ∷ g ∷ gs)
      → ltb cur e.expire ≡ false
      → (s' : State E) × (tick_loop invoke (suc k) cur e.addr s ≡ tick_loop invoke k cur g.addr s')
        × IsList s' (g ∷ gs)
        × (s'.memory e.addr ≡ none)
        × SameOutside (e ∷ g ∷ gs) s.memory s'.memory
        × (s'.env ≡ run e.cb_func e.user_data s.env)
  unfolding tick_loop write
  round_more k cur s e g gs l over =
      let c = l.chain in
      let s₁ : State E = record s { env = run e.cb_func e.user_data s.env } in
      let s₂ : State E = record s₁ { head = g.addr } in
      let s₃ : State E = record s₂ {
        memory = write s.memory g.addr (some (timer_of g null (first gs null)));
      } in
      let s₄ : State E = record s₃ { memory = write s₃.memory e.addr none } in
      (
        s₄,
        rw
            (
              not_null s e.addr c.0 c.1,
              load-ok s e.addr c.0 c.1,
              over,
              harmless e.cb_func e.user_data s,
              load-ok s₁ e.addr c.0 c.1,
              not_null s g.addr c.3.0 c.3.1,
              set_prev-ok s₂ g.addr c.3.0 c.3.1 null,
              delete-ok s₃ e.addr {t = timer_of e null g.addr} c.0 (ground arith),
            )
            refl,
        record {
          chain = (
            c.3.0,
            ground arith,
            c.3.2,
            Chain-frame s.memory g.addr null _ gs c.3.3 (ground arith),
          );
          head_first = refl;
          tail_final = l.tail_final;
        },
        ground arith,
        ground arith,
        refl,
      )

  round_last :
      (k cur : ℕ) (s : State E) (e : Entry)
      → IsList s (e ∷ [])
      → ltb cur e.expire ≡ false
      → (s' : State E) × (tick_loop invoke (suc k) cur e.addr s ≡ tick_loop invoke k cur null s')
        × IsList s' []
        × (s'.memory e.addr ≡ none)
        × SameOutside (e ∷ []) s.memory s'.memory
        × (s'.env ≡ run e.cb_func e.user_data s.env)
  unfolding tick_loop write
  round_last k cur s e l over =
      let c = l.chain in
      let s₁ : State E = record s { env = run e.cb_func e.user_data s.env } in
      let s₂ : State E = record s₁ { head = null } in
      (
        record s₂ { memory = write s.memory e.addr none },
        rw
            (
              not_null s e.addr c.0 c.1,
              load-ok s e.addr c.0 c.1,
              over,
              harmless e.cb_func e.user_data s,
              load-ok s₁ e.addr c.0 c.1,
              delete-ok s₂ e.addr c.0 c.1,
            )
            refl,
        record { chain = tt; head_first = refl; tail_final = refl },
        ground arith,
        ground arith,
        refl,
      )

  -- One round on a timer that has run out.
  round :
      (k cur : ℕ) (s : State E) (e : Entry) (es : List Entry)
      → IsList s (e ∷ es)
      → ltb cur e.expire ≡ false
      → (s' : State E) × (tick_loop invoke (suc k) cur e.addr s
          ≡ tick_loop invoke k cur (first es null) s')
        × IsList s' es
        × (s'.memory e.addr ≡ none)
        × SameOutside (e ∷ es) s.memory s'.memory
        × (s'.env ≡ run e.cb_func e.user_data s.env)
  round k cur s e [] l over = round_last k cur s e l over
  round k cur s e (g ∷ gs) l over = round_more k cur s e g gs l over

  -- The loop stops at the first timer that is still to expire.
  stop :
      (k cur : ℕ) (s : State E) (e : Entry) (es : List Entry)
      → IsList s (e ∷ es)
      → ltb cur e.expire ≡ true
      → Returns (λ _. Swept run s cur (e ∷ es)) (tick_loop invoke (suc k) cur e.addr s)
  unfolding tick_loop unexpired expired run_all
  stop k cur s e es l lt =
      rw (not_null s e.addr l.chain.0 l.chain.1, load-ok s e.addr l.chain.0 l.chain.1, lt)
        (returns
          (record { list = rw lt l; freed = rw lt tt; same = λ a o. refl; called = rw lt refl }))

  -- `Tick`'s loop from the first timer on.
  tick_loop-Swept :
      (k cur : ℕ) (s : State E) (es : List Entry)
      → IsList s es
      → length es < k
      → Returns (λ _. Swept run s cur es) (tick_loop invoke k cur (first es null) s)
  unfolding unexpired expired run_all
  tick_loop-Swept zero cur s es l fuel = absurd (omega arith)
  tick_loop-Swept (suc k) cur s [] l fuel = unfold tick_loop in returns {s = s} (Swept-nil cur s l)
  tick_loop-Swept (suc k) cur s (e ∷ es) l fuel = elim (Bool-cases (ltb cur e.expire)) [
    | inl lt ↦ stop k cur s e es l lt
    | inr over ↦
        let (s₁, step, l₁, gone, same₁, env₁) = round k cur s e es l over in
        rw step (
          Steps.mono (tick_loop-Swept k cur s₁ es l₁ (omega arith)) λ _ s' w. record {
            list = rw over w.list;
            freed = rw over (w.same e.addr l.chain.2 ∙ gone, w.freed);
            same = λ a o. w.same a (ground arith) ∙ same₁ a o;
            called = rw over (w.called ∙ ap (run_all run (expired cur es)) env₁);
          })
  ]

  -- With callbacks that leave the timers alone, as `cb_func` does where the kernel refuses to take
  -- the descriptor out of epoll, `Tick` frees exactly the timers in front of the
  -- first one that is still to expire and calls their callbacks in order, once each. The rest of
  -- the list stays as it is; where the list was in order, all of it is still to expire.
  pub tick-Swept :
      (k cur : ℕ) (s : State E) (es : List Entry)
      → IsList s es
      → IsSorted es
      → length es < k
      → Returns
          (λ _ s'. Swept run s cur es s' × All (λ e. cur < e.expire) (unexpired cur es))
          (tick invoke k cur s)
  unfolding tick
  tick-Swept k cur s [] l sorted fuel =
      rw (get_head-ok s null l.head_first) (returns (Swept-nil cur s l, unexpired-lt cur [] tt))
  tick-Swept k cur s (e ∷ es) l sorted fuel =
      rw (get_head-ok s e.addr l.head_first, not_null s e.addr l.chain.0 l.chain.1)
        (Steps.mono (tick_loop-Swept k cur s (e ∷ es) l fuel)
          λ _ s' w. (w, unexpired-lt cur (e ∷ es) sorted))

module _ {E : Type 0} (invoke : ℕ → ℕ → Cmd E (Unit {0})) where
  -- A callback that frees the timer it is called for, as `cb_func` does by way of `CloseConn` and
  -- `Del_Timer`, makes `Tick` read freed memory as soon as the first timer has run out.
  pub tick-fault :
      (k cur : ℕ) (s s' : State E) (e : Entry) (es : List Entry)
      → IsList s (e ∷ es)
      → e.expire ≤ cur
      → invoke e.cb_func e.user_data s ≡ ok tt s'
      → s'.memory e.addr ≡ none
      → tick invoke (suc k) cur s ≡ fault
  unfolding tick tick_loop
  tick-fault k cur s s' e es l over call freed =
      let due : ltb cur e.expire ≡ false = ground arith in
      rw
        (
          get_head-ok s e.addr l.head_first,
          not_null s e.addr l.chain.0 l.chain.1,
          load-ok s e.addr l.chain.0 l.chain.1,
          due,
          call,
          load-dead s' e.addr l.chain.0 freed,
        )
        refl
