-- ===== src/Server/Turns/Accepting.antt =====
-- Whose turn a connection is after the handlers of new clients and of signals in
-- webserver/src/main.cpp, and with `Init` of webserver/src/http_conn.cpp.
use my_tcp_cs.Base.{
  ℕ, ◌+◌, ◌≤◌, ◌≡◌, ◌≢◌, refl, sym, ◌∙◌, ap, subst, inl, inr, true, false, not, none, some, List,
  [], ◌∷◌, Option-cases, ltb, ◌==◌, ==-ne, arith, if◌then◌else◌,
}
use mathlib.Core.Option.{some-injective, none-ne-some}
use my_tcp_cs.Base.Int.{exceeds, suc_ℤ}
use my_tcp_cs.Timer.Memory.{State}
use my_tcp_cs.Timer.Keeps.{Keeps-then, Keeps-store, Keeps-add_timer}
use my_tcp_cs.Http.Types.{HttpConn, init, init_same}
use my_tcp_cs.Server.{Interest, Kernel, Env, max_fd, put_user, set_nonblocking, addfd, init_conn}
use my_tcp_cs.Server.Closing.{put_user_self, put_user-ne}
use my_tcp_cs.Server.Loop.{
  Accept, accepted, accept_failed, Signals, raised, signals_again, signals_failed, Event, sigalrm,
  sigterm, on_signal, on_signals, on_accept, on_pipe,
}
use my_tcp_cs.Server.Turns.{Oneshot, bit, slot, count, Fixed, IsClient, turns, Turns}
use my_tcp_cs.Server.Turns.Moves.{Turns-same, Turns-one}
use my_tcp_cs.Server.Turns.Yields.{Yields, yields, faults, Yields-bind, Yields-if, Yields-of_Within}

-- The descriptor that `accept` returns is a client's, and no entry of `users` has it: it is not
-- one that `CloseConn` has closed and not forgotten yet.
pub record Fresh {K : Type 0} (f : Fixed) (env : Env K) (fd : ℕ) : Type 0 where
  pub client : IsClient f fd
  pub unused : (env.users fd).sockfd ≡ none

module _ {K : Type 0} (os : Kernel K) (one : Oneshot os) (f : Fixed) (Lost : ℕ → Type 0)
    (held : ℕ → ℕ) where
  -- A new connection has the turn with epoll, or none if it cannot be registered.
  opened-Turns :
      (env env' : Env K) (fd : ℕ)
      → Fresh f env fd
      → (env'.users fd).sockfd ≡ some fd
      → ((v : ℕ) → v ≢ fd → env'.users v ≡ env.users v)
      → env'.tasks ≡ env.tasks
      → ((v : ℕ) → v ≢ fd → one.armed env'.kernel v ≡ one.armed env.kernel v)
      → Turns os one f Lost held env
      → Turns os one f Lost held env'
  opened-Turns env env' fd new is_open others same armed t =
      let none_left : turns os one held env fd ≤ 0 =
        subst (λ o. turns os one held env fd ≤ slot o) new.unused (t.single fd new.client) in
      Turns-one os one {held = held} {held' = held} {env = env} {env' = env'} fd
        (λ l. absurd (none-ne-some fd (sym new.unused ∙ (t.lost fd l).0)))
        (λ v ne. (ap (λ d. d.sockfd) (others v ne), rw (armed v ne, same) (omega arith)))
        (λ g e. sym (some-injective _ _ (sym is_open ∙ e)))
        (λ _. rw (is_open, same) (ground (arith, none_left))) t

  pub init_conn-Turns :
      (s : State (Env K)) (fd addr timer : ℕ)
      → Fresh f s.env fd
      → Turns os one f Lost held s.env
      → Yields (λ _ s'. Turns os one f Lost held s'.env) (init_conn os fd fd addr timer s)
  unfolding init_conn addfd set_nonblocking
  init_conn-Turns s fd addr timer new t =
      let c : HttpConn = record (s.env.users fd) { sockfd = some fd; addr = addr; timer = timer } in
      let k = os.set_reuse s.env.kernel fd in
      let i : Interest = record { input = true; output = false; oneshot = true } in
      elim (Option-cases (set_nonblocking os k fd)) [
        | inl refused ↦
            rw (addfd, refused)
              (yields (
                opened-Turns s.env (record s.env { kernel = k; users = put_user s.env.users fd c })
                  fd new (ap (λ d. d.sockfd) (put_user_self s.env.users fd c))
                  (λ v ne. put_user-ne s.env.users fd v c ne) refl
                  (λ v ne. one.reused s.env.kernel fd v) t))
        | inr (k', granted) ↦ elim (Option-cases (os.epoll_add k' fd i)) [
          | inl refused ↦
              rw (addfd, granted, refused)
                (yields (
                  opened-Turns s.env
                    (record s.env { kernel = k'; users = put_user s.env.users fd c }) fd new
                    (ap (λ d. d.sockfd) (put_user_self s.env.users fd c))
                    (λ v ne. put_user-ne s.env.users fd v c ne) refl
                    (λ v ne. one.unblocked k k' fd v _ granted ∙ one.reused s.env.kernel fd v) t))
          | inr (k'', added) ↦
              rw (addfd, granted, added)
                (yields (
                  opened-Turns s.env
                    (record s.env {
                      kernel = k'';
                      users = put_user s.env.users fd (init c);
                      user_count = suc_ℤ s.env.user_count;
                    })
                    fd new
                    (ap (λ d. d.sockfd) (put_user_self s.env.users fd (init c)) ∙ (init_same c).0)
                    (λ v ne. put_user-ne s.env.users fd v (init c) ne) refl
                    (λ v ne.
                      one.added k' k'' fd v i refl added
                      ∙ ap (λ b. if b then true else one.armed k' v) (==-ne v fd ne)
                      ∙ one.unblocked k k' fd v _ granted
                      ∙ one.reused s.env.kernel fd v)
                    t))
        ]
      ]

  pub on_accept-Turns :
      (fuel : ℕ) (s : State (Env K)) (e : Event) (a : Accept)
      → ((fd addr : ℕ) → a ≡ accepted fd addr → Fresh f s.env fd)
      → Turns os one f Lost held s.env
      → Yields (λ _ s'. Turns os one f Lost held s'.env) (on_accept os fuel e a s)
  unfolding on_accept
  on_accept-Turns fuel s e accept_failed new t = yields t
  on_accept-Turns fuel s e (accepted fd addr) new t =
      Yields-if (exceeds s.env.user_count max_fd) _ _ s
        (λ full. yields (
          Turns-same os one {held = held} {held' = held} {env = s.env}
            {env' = record s.env { kernel = os.close s.env.kernel fd }}
            (λ v. (refl, rw (one.closed s.env.kernel fd v) (gone v))) t))
        λ room.
          Yields-if (not (ltb fd max_fd)) _ _ s (λ out. faults)
            λ inside.
              Yields-bind _
                (Yields-of_Within (
                  Keeps-then (λ env. env ≡ s.env) _ _ (Keeps-store _ e.fresh _)
                    (Keeps-add_timer _ fuel e.fresh) s refl))
                λ _ s₁ same.
                  Yields-bind _
                    (init_conn-Turns s₁ fd addr e.fresh
                      (subst (λ env. Fresh f env fd) (sym same) (new fd addr refl))
                      (subst (Turns os one f Lost held) (sym same) t))
                    λ b s₂ t'. yields t'
    where
      gone :
          (v : ℕ)
          → bit (if v == fd then false else one.armed s.env.kernel v) + count v s.env.tasks + held v
            ≤ turns os one held s.env v
      gone v = ground arith

  on_signals-Turns :
      (sigs : List ℕ) (s : State (Env K))
      → Turns os one f Lost held s.env
      → Yields (λ _ s'. Turns os one f Lost held s'.env) (on_signals sigs s)
  unfolding on_signals on_signal
  on_signals-Turns [] s t = yields t
  on_signals-Turns (sig ∷ sigs) s t =
      Yields-bind {P = λ _ s'. Turns os one f Lost held s'.env} _
        (Yields-if (sig == sigalrm) _ _ s (λ _. yields t)
          λ _.
            Yields-if (sig == sigterm) _ _ s
              (λ _. yields (
                Turns-same os one {held = held} {held' = held} {env = s.env}
                  {env' = record s.env { stop_server = true }} (λ v. (refl, omega arith)) t))
              λ _. yields t)
        λ _ s' t'. on_signals-Turns sigs s' t'

  pub on_pipe-Turns :
      (sigs : Signals) (s : State (Env K))
      → Turns os one f Lost held s.env
      → Yields (λ _ s'. Turns os one f Lost held s'.env) (on_pipe os sigs s)
  unfolding on_pipe
  on_pipe-Turns (raised sigs) s t = Yields-bind _ (on_signals-Turns sigs s t) λ _ s' t'. yields t'
  on_pipe-Turns signals_again s t = yields t
  on_pipe-Turns signals_failed s t = yields t
