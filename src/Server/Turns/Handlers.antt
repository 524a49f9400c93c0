-- ===== src/Server/Turns/Handlers.antt =====
-- Whose turn a connection is after a worker's `Process` of webserver/src/http_conn.cpp, and after
-- the handlers of input and output in webserver/src/main.cpp.
use my_tcp_cs.Base.{
  ℕ, ◌+◌, ◌*◌, ◌≡◌, refl, sym, ◌∙◌, ap, subst, inl, inr, Bool, true, false, not, Option, none, some,
  done, ◌==◌, arith, if◌then◌else◌,
}
use my_tcp_cs.Timer.{timeslot, adjust_timer}
use my_tcp_cs.Timer.Memory.{
  State, Cmd, null, out_of_fuel, pure, ◌>>=◌, ◌>>◌, get_env, put_env, set_expire,
}
use my_tcp_cs.Timer.Keeps.{Keeps-then, Keeps-set_expire, Keeps-adjust_timer}
use my_tcp_cs.Http.Types.{HttpConn, HttpCode, no_request}
use my_tcp_cs.Http.Respond.{Files, process_request, process_write}
use my_tcp_cs.Http.Transfer.{read, write, Rearm, keep, for_input, for_output}
use my_tcp_cs.Server.{Kernel, Env, put_user, lift, modfd, close_conn, close_repeatedly, process}
use my_tcp_cs.Server.Closing.{put_user_self}
use my_tcp_cs.Server.Loop.{Event, append_task, on_input, rearmed, on_output}
use my_tcp_cs.Server.Timed.Sockets.{read-SameSocket, write-SameSocket}
use my_tcp_cs.Server.Timed.Responding.{process_request-IsBound, process_write-IsBound}
use my_tcp_cs.Server.Turns.{Oneshot, hold, Fixed, IsClient, Turns}
use my_tcp_cs.Server.Turns.Moves.{Turns-same}
use my_tcp_cs.Server.Turns.Commands.{Resting, release, modfd-Turns, append_task-Turns}
use my_tcp_cs.Server.Turns.Closing.{put_same, close_conn-Turns, close_repeatedly-Turns}
use my_tcp_cs.Server.Turns.Yields.{
  Yields, yields, spins, Yields-bind, Yields-if, Yields-lift, Yields-of_Within, Yields-mono,
}

module _ {K : Type 0} (os : Kernel K) (one : Oneshot os) (f : Fixed) (Lost : ℕ → Type 0)
    (held : ℕ → ℕ) (u : ℕ) (client : IsClient f u) where
  put-Turns :
      (h : ℕ → ℕ) (env : Env K) (c : HttpConn)
      → c.sockfd ≡ (env.users u).sockfd
      → Turns os one f Lost h env
      → Turns os one f Lost h (record env { users = put_user env.users u c })
  put-Turns h env c same t =
      Turns-same os one {held = h} {held' = h} {env = env}
        {env' = record env { users = put_user env.users u c }}
        (λ v. (put_same env u c same v, omega arith)) t

  -- The end of `Process`, once the answer is built or not.
  ending-Turns :
      (built : Bool) (s : State (Env K)) (sockfd : Option ℕ)
      → sockfd ≡ (s.env.users u).sockfd
      → Turns os one f Lost (hold u held) s.env
      → Yields
          (λ _ s'. Turns os one f Lost held s'.env)
          ((if built then modfd os sockfd true else (do
            closed ← close_repeatedly os 5 u
            env' ← get_env
            if closed then pure tt else modfd os (env'.users u).sockfd true))
            s)
  ending-Turns built s sockfd at t =
      Yields-if built _ _ s
        (λ _.
          Yields-mono (modfd-Turns os one f Lost held s u sockfd true client at t)
            λ a s' p. p.0.turned)
        λ _.
          Yields-bind _
            (close_repeatedly-Turns os one f Lost held u 4 s
              (release os one f Lost held s.env u client t))
            λ b s' p. elim p [
              | inl (closed, t', shut) ↦ rw closed (yields t')
              | inr (kept, same) ↦ rw kept (
                  Yields-mono
                    (modfd-Turns os one f Lost held s' u (s'.env.users u).sockfd true client refl
                      (subst (λ r. Turns os one f Lost (hold u held) r.env) (sym same) t))
                    λ a s'' q. q.0.turned)
            ]

  -- What `Process` does once the request is parsed.
  abbrev answering : (env : Env K) (stray : Bool) (c : HttpConn) → HttpCode → Cmd (Env K) (Unit {0})
  answering env stray c code = elim code [
    | no_request ↦ modfd os c.sockfd false
    | other ↦ (do
      (c', built) ← lift (process_write stray c other)
      put_env (record env { users = put_user env.users u c' })
      if built then modfd os c'.sockfd true else (do
        closed ← close_repeatedly os 5 u
        env' ← get_env
        if closed then pure tt else modfd os (env'.users u).sockfd true))
  ]

  answering-Turns :
      (stray : Bool) (s : State (Env K)) (c : HttpConn) (code : HttpCode)
      → c.sockfd ≡ (s.env.users u).sockfd
      → Turns os one f Lost (hold u held) s.env
      → Yields
          (λ _ s'. Turns os one f Lost held s'.env)
          (answering s.env stray c code
            (record s { env = record s.env { users = put_user s.env.users u c } }))
  answering-Turns stray s c no_request same t =
      Yields-mono
        (modfd-Turns os one f Lost held
          (record s { env = record s.env { users = put_user s.env.users u c } }) u c.sockfd false
          client (sym (ap (λ d. d.sockfd) (put_user_self s.env.users u c)))
          (put-Turns (hold u held) s.env c same t))
        λ a s' p. p.0.turned
  answering-Turns stray s c code same t =
      Yields-lift (process_write stray c code) _ _ λ (c', built) e.
        let same' = (process_write-IsBound stray c c' code built e).0 ∙ same in
        ending-Turns built (record s { env = record s.env { users = put_user s.env.users u c' } })
          c'.sockfd (sym (ap (λ d. d.sockfd) (put_user_self s.env.users u c')))
          (put-Turns (hold u held) s.env c' same' t)

  -- A worker that has the turn on a connection passes it on, or ends it by closing.
  pub process-Turns :
      (fuel : ℕ) (fs : Files) (stray_code : HttpCode) (stray : Bool) (s : State (Env K))
      → Turns os one f Lost (hold u held) s.env
      → Yields (λ _ s'. Turns os one f Lost held s'.env) (process os fs stray_code stray fuel u s)
  unfolding process
  process-Turns fuel fs stray_code stray s t =
      Yields-lift (process_request fs stray_code fuel (s.env.users u)) s _ parsed
    where
      parsed :
          (r : Option (HttpConn × HttpCode))
          → process_request fs stray_code fuel (s.env.users u) ≡ done r
          → Yields
              (λ _ s'. Turns os one f Lost held s'.env)
              ((elim r as (λ r. Cmd (Env K) (Unit {0})) [
                | none ↦ (λ s. out_of_fuel)
                | some (c, code) ↦ (do
                  put_env (record s.env { users = put_user s.env.users u c })
                  answering s.env stray c code)
              ])
                s)
      parsed none e = spins
      parsed (some (c, code)) e =
          answering-Turns stray s c code
            (process_request-IsBound fs stray_code fuel (s.env.users u) c code e).0 t

  ends_closed :
      {A : Type 0} (a : A) (s : State (Env K))
      → Resting os one f Lost held s.env u
      → Yields (λ _ s'. Turns os one f Lost held s'.env) ((close_conn os u >> pure a) s)
  ends_closed a s r = Yields-bind _ (close_conn-Turns os one f Lost held u s r) λ b s' p. elim p [
    | inl (_, t', _) ↦ yields t'
    | inr (_, same) ↦ yields (subst (λ w. Turns os one f Lost held w.env) (sym same) r.turned)
  ]

  pub closing :
      {A : Type 0} (a : A) (s : State (Env K))
      → Turns os one f Lost (hold u held) s.env
      → Yields (λ _ s'. Turns os one f Lost held s'.env) ((close_conn os u >> pure a) s)
  closing a s t = ends_closed a s (release os one f Lost held s.env u client t)

  -- What the handler of input does behind `Read`, the connection's timer being `p`.
  after_read-Turns :
      (now fuel p : ℕ) (complete : Bool) (s : State (Env K))
      → Turns os one f Lost (hold u held) s.env
      → Yields
          (λ _ s'. Turns os one f Lost held s'.env)
          ((if not complete then (close_conn os u >> pure tt) else (do
            if p == null then pure tt else (set_expire p now >> adjust_timer fuel p)
            append_task u))
            s)
  after_read-Turns now fuel p complete s t =
      Yields-if (not complete) _ _ s (λ _. closing tt s t)
        λ _.
          Yields-bind {P = λ _ s'. Turns os one f Lost (hold u held) s'.env} _
            (Yields-if (p == null) _ _ s (λ _. yields t)
              λ _. Yields-of_Within (
                Keeps-then (Turns os one f Lost (hold u held)) _ _ (Keeps-set_expire _ p now)
                  (Keeps-adjust_timer _ fuel p) s t))
            λ _ s' t'. append_task-Turns os one f Lost held s' u t'

  pub on_input-Turns :
      (fuel : ℕ) (s : State (Env K)) (e : Event)
      → e.fd ≡ u
      → Turns os one f Lost (hold u held) s.env
      → Yields (λ _ s'. Turns os one f Lost held s'.env) (on_input os fuel e s)
  unfolding on_input
  on_input-Turns fuel s e at t = rw at (
      Yields-lift (read e.eagain (s.env.users u) e.recvs) s _ λ (c, complete) reads.
        after_read-Turns (e.now + 3 * timeslot) fuel c.timer complete
          (record s { env = record s.env { users = put_user s.env.users u c } })
          (put-Turns (hold u held) s.env c
            (read-SameSocket e.eagain (s.env.users u) c e.recvs complete reads).0 t))

  -- `Write`'s effect on the registration.
  rearmed-Turns :
      (s : State (Env K)) (sockfd : Option ℕ) (r : Rearm)
      → sockfd ≡ (s.env.users u).sockfd
      → Turns os one f Lost (hold u held) s.env
      → Yields
          (λ _ s'. Resting os one f Lost held s'.env u × ((v : ℕ) → s'.env.users v ≡ s.env.users v))
          (rearmed os sockfd r s)
  unfolding rearmed
  rearmed-Turns s sockfd keep at t = yields (release os one f Lost held s.env u client t, λ v. refl)
  rearmed-Turns s sockfd for_input at t =
      modfd-Turns os one f Lost held s u sockfd false client at t
  rearmed-Turns s sockfd for_output at t =
      modfd-Turns os one f Lost held s u sockfd true client at t

  put-Resting :
      (env : Env K) (c : HttpConn)
      → c.sockfd ≡ (env.users u).sockfd
      → Resting os one f Lost held env u
      → Resting os one f Lost held (record env { users = put_user env.users u c }) u
  put-Resting env c same r = record {
    turned = put-Turns held env c same r.turned;
    here = r.here;
    idle = r.idle;
  }

  pub on_output-Turns :
      (s : State (Env K)) (e : Event)
      → e.fd ≡ u
      → Turns os one f Lost (hold u held) s.env
      → Yields (λ _ s'. Turns os one f Lost held s'.env) (on_output os e s)
  unfolding on_output
  on_output-Turns s e at t =
      let w = write e.eagain (s.env.users u) e.writevs in
      let same = (write-SameSocket e.eagain (s.env.users u) e.writevs).0 in
      rw at (
        Yields-bind _ (rearmed-Turns s w.conn.sockfd w.rearm same t) λ _ s₁ (r, kept).
          let r' = put-Resting s₁.env w.conn (same ∙ ap (λ d. d.sockfd) (sym (kept u))) r in
          Yields-if w.result _ _ _ (λ _. yields r'.turned) λ _. ends_closed tt _ r')
