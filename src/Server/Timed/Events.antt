-- ===== src/Server/Timed/Events.antt =====
-- The event loop of webserver/src/main.cpp keeps a timer for every open connection.
use my_tcp_cs.Base.{
  ℕ, ◌≤◌, ◌≡◌, ◌≢◌, refl, sym, ◌∙◌, ap, subst, inl, inr, true, none, some, List, [], ◌∷◌, All,
  Bool-cases, ltb, ◌==◌, arith, length,
}
use my_tcp_cs.Base.Int.{exceeds}
use my_tcp_cs.Timer.{add_timer}
use my_tcp_cs.Timer.Memory.{State, null, pure, ◌>>◌, store, write, write_self}
use my_tcp_cs.Timer.Queue.{Entry, insert, insert-IsSorted, timer_of}
use my_tcp_cs.Timer.Chain.{IsList, Chain-write, not-mem_of_none}
use my_tcp_cs.Timer.Steps
use my_tcp_cs.Timer.Steps.{Returns, returns}
use my_tcp_cs.Timer.Add.{add_timer-insert}
use my_tcp_cs.Http.Types.{HttpConn, init, init_same}
use my_tcp_cs.Server.{Kernel, Env, max_fd, addfd, init_conn}
use my_tcp_cs.Server.Closing.{put_user_self, put_user-ne}
use my_tcp_cs.Server.Loop.{accepted, Event, on_accept}
use my_tcp_cs.Server.Timed.{deadline, Timed, Timed-env}
use my_tcp_cs.Server.Timed.Entries.{In-insert, In-insert_self, All-insert}

pub sooner-All :
    (now now' : ℕ) (es : List Entry)
    → now ≤ now'
    → All (λ f. f.expire ≤ deadline now) es
    → All (λ f. f.expire ≤ deadline now') es
sooner-All now now' [] h a = tt
sooner-All now now' (e ∷ es) h a = (omega (arith, a.0, h), sooner-All now now' es h a.1)

module _ {K : Type 0} where
  -- Later, the same holds.
  pub Timed-mono : (now now' : ℕ) (s : State (Env K)) → now ≤ now' → Timed now s → Timed now' s
  Timed-mono now now' s h t = record {
    entries = t.entries;
    list = t.list;
    sorted = t.sorted;
    recent = sooner-All now now' t.entries h t.recent;
    timers = t.timers;
  }

  -- A new timer `e` for the connection `fd`, which was closed.
  added-Timed :
      (now now' : ℕ) (s s₁ : State (Env K)) (t : Timed now s) (e : Entry) (fd : ℕ) (env' : Env K)
      → now ≤ now'
      → IsList s₁ (insert e t.entries)
      → e.user_data ≡ fd
      → e.expire ≤ deadline now'
      → (env'.users fd).timer ≡ e.addr
      → ((v : ℕ) → v ≢ fd → env'.users v ≡ s.env.users v)
      → Timed now' (record s₁ { env = env' })
  added-Timed now now' s s₁ t e fd env' h l of soon at others = record {
    entries = insert e t.entries;
    list = record { chain = l.chain; head_first = l.head_first; tail_final = l.tail_final };
    sorted = insert-IsSorted e t.entries t.sorted;
    recent =
        All-insert (λ f. f.expire ≤ deadline now') e t.entries soon
          (sooner-All now now' t.entries h t.recent);
    timers = λ u g open_g. elim (Bool-cases (u == fd)) [
      | inl same ↦
          let is_fd : u ≡ fd = ground (arith, same) in
          (
            e,
            In-insert_self e t.entries,
            sym at ∙ ap (λ w. (env'.users w).timer) (sym is_fd),
            of ∙ sym is_fd,
          )
      | inr other ↦
          let kept = others u (ground (arith, other)) in
          let (f, i, here, mine) = t.timers u g (sym (ap (λ x. x.sockfd) kept) ∙ open_g) in
          (f, In-insert e t.entries i, here ∙ sym (ap (λ x. x.timer) kept), mine)
    ];
  }

-- What the code relies on when it accepts a client: `new` gives unused memory, `accept` a
-- descriptor of no open connection that fits into `users`, and the clock does not go back.
pub record Accepts {K : Type 0} (now fuel : ℕ) (s : State (Env K)) (e : Event) (fd : ℕ)
    (es : List Entry) : Type 0 where
  pub in_users : ltb fd max_fd ≡ true
  pub live : e.fresh ≢ null
  pub unused : s.memory e.fresh ≡ none
  pub clock : now ≤ e.now
  pub rounds : length es ≤ fuel

module _ {K : Type 0} (os : Kernel K) where
  -- `Init` returns, and leaves the connection with its timer.
  init_conn-leaves :
      (s : State (Env K)) (fd addr timer : ℕ)
      → Returns
          (λ b s'.
            (env' : Env K) × (s' ≡ record s { env = env' })
            × ((env'.users fd).timer ≡ timer)
            × ((v : ℕ) → v ≢ fd → env'.users v ≡ s.env.users v))
          (init_conn os fd fd addr timer s)
  unfolding init_conn
  init_conn-leaves s fd addr timer =
      let c : HttpConn = record (s.env.users fd) { sockfd = some fd; addr = addr; timer = timer } in
      elim (Bool-cases (addfd os (os.set_reuse s.env.kernel fd) fd true).1) [
        | inl added ↦ rw added (
            returns (
              _,
              refl,
              ap (λ d. d.timer) (put_user_self s.env.users fd (init c)) ∙ (init_same c).1,
              λ v ne. put_user-ne s.env.users fd v (init c) ne,
            ))
        | inr refused ↦ rw refused (
            returns (
              _,
              refl,
              ap (λ d. d.timer) (put_user_self s.env.users fd c),
              λ v ne. put_user-ne s.env.users fd v c ne,
            ))
      ]

  -- The timer of the client that the event brings.
  abbrev entry_of : Event → (fd : ℕ) → Entry
  entry_of e fd = record { addr = e.fresh; cb_func = 1; expire = deadline e.now; user_data = fd }

  accepting-Timed :
      (now fuel : ℕ) (s : State (Env K)) (e : Event) (fd addr : ℕ)
      → (t : Timed now s) → Accepts now fuel s e fd t.entries
      → Returns
          (λ _ s'. Timed e.now s')
          ((do
            store e.fresh (some (timer_of (entry_of e fd) null null))
            add_timer fuel e.fresh
            init_conn os fd fd addr e.fresh
            pure tt)
            s)
  accepting-Timed now fuel s e fd addr t c =
      let out = not-mem_of_none s.memory null null e.fresh t.entries t.list.chain c.unused in
      let s₀ : State (Env K) = record s {
        memory = write s.memory e.fresh (some (timer_of (entry_of e fd) null null));
      } in
      let l : IsList s₀ t.entries = record {
        chain = Chain-write s.memory null null t.entries e.fresh _ t.list.chain out;
        head_first = t.list.head_first;
        tail_final = t.list.tail_final;
      } in
      Steps.bind
        (add_timer-insert (entry_of e fd) c.live fuel s₀ t.entries (write_self s.memory e.fresh _) l
          out c.rounds)
        λ _ s₁ b. Steps.bind (init_conn-leaves s₁ fd addr e.fresh) λ added s₂ p. returns (
          subst (Timed e.now) (sym p.1) (
            added-Timed now e.now s s₁ t (entry_of e fd) fd p.0 c.clock b.list refl (omega arith)
              p.2 λ v ne. p.3 v ne ∙ ap (λ env. env.users v) b.same_env))

  -- A client that is accepted gets its timer: with the descriptor inside `users`, unused memory
  -- from `new`, and as many rounds as there are timers, the handler returns, whether `Init` can
  -- register the descriptor or not, and every open connection has its timer in the list, which is
  -- in order.
  pub on_accept-Timed :
      (now fuel : ℕ) (s : State (Env K)) (e : Event) (fd addr : ℕ)
      → (t : Timed now s) → Accepts now fuel s e fd t.entries
      → Returns (λ _ s'. Timed e.now s') (on_accept os fuel e (accepted fd addr) s)
  unfolding on_accept
  on_accept-Timed now fuel s e fd addr t c = elim (Bool-cases (exceeds s.env.user_count max_fd)) [
    | inl full ↦
        rw full
          (returns (Timed-env e.now s _ (λ u. (refl, refl)) (Timed-mono now e.now s c.clock t)))
    | inr room ↦ rw (room, c.in_users) (accepting-Timed now fuel s e fd addr t c)
  ]
