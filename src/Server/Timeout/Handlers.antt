-- ===== src/Server/Timeout/Handlers.antt =====
-- What the handlers of webserver/src/main.cpp leave of the flag `timeout`.
use my_tcp_cs.Base.{
  ℕ, ◌≡◌, refl, inl, inr, Bool, true, false, not, Option, none, some, List, [], ◌∷◌, Outcome, done,
  undefined, terminated, ◌==◌, if◌then◌else◌, Option-cases,
}
use my_tcp_cs.Base.Int.{pred_ℤ}
use my_tcp_cs.Timer.Memory.{
  State, Run, fault, out_of_fuel, Cmd, and_then, pure, ◌>>=◌, ◌>>◌, get_env, put_env,
}
use my_tcp_cs.Timer.Keeps.{
  Within, ends, faults, spins, Keeps, Keeps-bind, Keeps-then, Keeps-pure, Keeps-if, Keeps-store,
  Keeps-set_expire, Keeps-add_timer, Keeps-adjust_timer, Keeps-del_timer,
}
use my_tcp_cs.Timer.{del_timer}
use my_tcp_cs.Http.Transfer.{Rearm, keep, for_input, for_output}
use my_tcp_cs.Server.{Kernel, Env, put_user, lift, removefd, modfd, init_conn, close_conn}
use my_tcp_cs.Server.Loop.{
  Accept, accepted, accept_failed, Signals, raised, signals_again, signals_failed, Event, on_signal,
  on_signals, append_task, on_accept, on_pipe, on_input, rearmed, on_output, on_event, on_events,
}

-- Something that holds of the flags `stop_server` and `timeout`.
abbrev pub Flags : (Bool → Bool → Type 0) → {K : Type 0} → Env K → Type 0
Flags R env = R env.stop_server env.timeout

module _ {K : Type 0} where
  pub Within-cong :
      {A B : Type 0} {P : State (Env K) → Type 0} {r : Run (Env K) A}
      → Within P r
      → (m n : A → Cmd (Env K) B) → ((a : A) (s : State (Env K)) → P s → m a s ≡ n a s)
      → and_then r m ≡ and_then r n
  Within-cong (ends q) m n same = same _ _ q
  Within-cong faults m n same = refl
  Within-cong spins m n same = refl

  pub if-else :
      {A : Type 0} (b : Bool) (l m n : Cmd (Env K) A) (s : State (Env K))
      → m s ≡ n s
      → (if b then l else m) s ≡ (if b then l else n) s
  if-else true l m n s same = refl
  if-else false l m n s same = same

module _ (R : Bool → Bool → Type 0)
    (raises : (stop timeout : Bool) → R stop timeout → R true timeout) {K : Type 0}
    (os : Kernel K) where
  Keeps-get_env :
      {A : Type 0} (k : Env K → Cmd (Env K) A)
      → ((env : Env K) → Flags R env → Keeps (Flags R) (k env))
      → Keeps (Flags R) (get_env >>= k)
  Keeps-get_env k next s q = next s.env q s q

  Keeps-put_env : (env : Env K) → Flags R env → Keeps (Flags R) (put_env env)
  Keeps-put_env env q s _ = ends q

  Keeps-lift : {A : Type 0} (o : Outcome A) → Keeps (Flags R {K = K}) (lift o)
  unfolding lift
  Keeps-lift (done a) = λ s q. ends q
  Keeps-lift undefined = λ s q. faults
  Keeps-lift terminated = λ s q. faults

  Keeps-get_env_only : Keeps (Flags R {K = K}) get_env
  Keeps-get_env_only s q = ends q

  Keeps-option :
      {A B : Type 0} (o : Option A) (m : Cmd (Env K) B) (k : A → Cmd (Env K) B)
      → Keeps (Flags R) m
      → ((a : A) → Keeps (Flags R) (k a))
      → Keeps (Flags R) (elim o [ none ↦ m | some a ↦ k a ])
  Keeps-option none m k l r = l
  Keeps-option (some a) m k l r = r a

  Keeps-out_of_fuel : {B : Type 0} → Keeps {A = B} (Flags R {K = K}) (λ s. out_of_fuel)
  Keeps-out_of_fuel s q = spins

  Keeps-fault : {B : Type 0} → Keeps {A = B} (Flags R {K = K}) (λ s. fault)
  Keeps-fault s q = faults

  ruleset calm = (
    Keeps-option, Keeps-out_of_fuel, Keeps-fault, Keeps-bind, Keeps-then, Keeps-pure, Keeps-if,
    Keeps-get_env, Keeps-put_env, Keeps-lift,
  )

  Keeps-append_task : (u : ℕ) → Keeps (Flags R {K = K}) (append_task u)
  unfolding append_task
  Keeps-append_task u = search calm depth 10

  Keeps-raise :
      (env : Env K) → Flags R env → Keeps (Flags R) (put_env (record env { stop_server = true }))
  Keeps-raise env q s _ = ends (raises env.stop_server env.timeout q)

  pub Keeps-on_signal : (sig : ℕ) → Keeps (Flags R {K = K}) (on_signal sig)
  unfolding on_signal
  Keeps-on_signal sig = search (calm, Keeps-raise) depth 10

  Keeps-init_conn : (u fd addr timer : ℕ) → Keeps (Flags R) (init_conn os u fd addr timer)
  unfolding init_conn
  Keeps-init_conn u fd addr timer = search calm depth 12

  Keeps-modfd : (sockfd : Option ℕ) (output : Bool) → Keeps (Flags R) (modfd os sockfd output)
  unfolding modfd
  Keeps-modfd none output s q = spins
  Keeps-modfd (some fd) output s q =
      elim (Option-cases (
        os.epoll_mod s.env.kernel fd
          (record { input = not output; output = output; oneshot = true }))) [
            | inl refused ↦ rw refused spins
            | inr (k, granted) ↦ rw granted (ends q)
          ]

  Keeps-close_conn : (u : ℕ) → Keeps (Flags R) (close_conn os u)
  unfolding close_conn
  Keeps-close_conn u s q = elim (Option-cases (s.env.users u).sockfd) [
    | inl shut ↦ rw shut (ends q)
    | inr (fd, open_fd) ↦ elim (Option-cases (removefd os s.env.kernel fd)) [
      | inl refused ↦ rw (open_fd, refused) (ends q)
      | inr (k, gone) ↦ rw (open_fd, gone) (closing fd k s q)
    ]
  ]
    where
      closing :
          (fd : ℕ) (k : K)
          → Keeps (Flags R) (do
            env ← get_env
            let c = record (env.users u) { sockfd = none }
            put_env (record env {
              kernel = os.close k fd;
              users = put_user env.users u c;
              user_count = pred_ℤ env.user_count;
            })
            if c.timer == 0 then pure true else (do
              del_timer c.timer
              env' ← get_env
              put_env (record env' { users = put_user env'.users u (record c { timer = 0 }) })
              pure true))
      closing fd k = search (calm, Keeps-del_timer) depth 16

  Keeps-rearmed : (sockfd : Option ℕ) (r : Rearm) → Keeps (Flags R) (rearmed os sockfd r)
  unfolding rearmed
  Keeps-rearmed sockfd keep = Keeps-pure (Flags R) _
  Keeps-rearmed sockfd for_input = Keeps-modfd sockfd false
  Keeps-rearmed sockfd for_output = Keeps-modfd sockfd true

  pub Keeps-on_signals : (sigs : List ℕ) → Keeps (Flags R {K = K}) (on_signals sigs)
  unfolding on_signals
  Keeps-on_signals [] = Keeps-pure (Flags R) _
  Keeps-on_signals (sig ∷ sigs) =
      Keeps-then (Flags R) _ _ (Keeps-on_signal sig) (Keeps-on_signals sigs)

  Keeps-on_accept : (fuel : ℕ) (e : Event) (a : Accept) → Keeps (Flags R) (on_accept os fuel e a)
  unfolding on_accept
  Keeps-on_accept fuel e accept_failed = Keeps-pure (Flags R) _
  Keeps-on_accept fuel e (accepted fd addr) =
      search (calm, Keeps-store, Keeps-add_timer, Keeps-init_conn) depth 14

  Keeps-on_pipe : (sigs : Signals) → Keeps (Flags R) (on_pipe os sigs)
  unfolding on_pipe
  Keeps-on_pipe (raised sigs) =
      Keeps-then (Flags R) _ _ (Keeps-on_signals sigs) (Keeps-pure (Flags R) _)
  Keeps-on_pipe signals_again = Keeps-pure (Flags R) _
  Keeps-on_pipe signals_failed = Keeps-pure (Flags R) _

  Keeps-on_input : (fuel : ℕ) (e : Event) → Keeps (Flags R) (on_input os fuel e)
  unfolding on_input
  Keeps-on_input fuel e =
      search (calm, Keeps-close_conn, Keeps-set_expire, Keeps-adjust_timer, Keeps-append_task) depth
        16

  Keeps-on_output : (e : Event) → Keeps (Flags R) (on_output os e)
  unfolding on_output
  Keeps-on_output e = search (calm, Keeps-close_conn, Keeps-rearmed) depth 16

  Keeps-on_event :
      (listenfd pipefd fuel : ℕ) (e : Event) → Keeps (Flags R) (on_event os listenfd pipefd fuel e)
  unfolding on_event
  Keeps-on_event listenfd pipefd fuel e =
      search
        (calm, Keeps-on_accept, Keeps-on_pipe, Keeps-close_conn, Keeps-on_input, Keeps-on_output)
        depth 16

  pub Keeps-on_events :
      (listenfd pipefd fuel : ℕ) (es : List Event)
      → Keeps (Flags R) (on_events os listenfd pipefd fuel es)
  unfolding on_events
  Keeps-on_events listenfd pipefd fuel [] = Keeps-pure (Flags R) _
  Keeps-on_events listenfd pipefd fuel (e ∷ es) =
      Keeps-bind (Flags R) _ _ (Keeps-on_event listenfd pipefd fuel e) λ more.
        Keeps-if (Flags R) more _ _ (Keeps-on_events listenfd pipefd fuel es)
          (Keeps-pure (Flags R) _)
