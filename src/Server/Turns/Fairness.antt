-- ===== src/Server/Turns/Fairness.antt =====
-- Over any run of the server of webserver/src/main.cpp, no two threads have the same connection in
-- hand, and one that nobody has the turn on is never served again.
use my_tcp_cs.Base.{
  ℕ, ◌+◌, ◌≤◌, ◌≡◌, ◌≢◌, refl, ◌∙◌, ap, subst, inl, inr, Bool-cases, true, ◌&&◌, List, ◌∷◌, ◌++◌,
  ◌==◌, arith,
}
use my_tcp_cs.Timer.Memory.{State, Run, pure, and_then}
use my_tcp_cs.Server.{Kernel, Env}
use my_tcp_cs.Server.Loop.{Event, accepted, on_event}
use my_tcp_cs.Server.Turns.{Oneshot, count, count-append, hold, IsClient, turns, Turns}
use my_tcp_cs.Server.Turns.Moves.{Turns-same}
use my_tcp_cs.Server.Turns.Handlers.{process-Turns, closing, on_input-Turns, on_output-Turns}
use my_tcp_cs.Server.Turns.Accepting.{Fresh, on_accept-Turns, on_pipe-Turns}
use my_tcp_cs.Server.Turns.Yields.{Yields, yields, of_Yields, Yields-bind, Yields-if}
use my_tcp_cs.Server.Turns.Runs.{
  World, Setting, Step, report, handle, listen, signal, take, work, held, Fair,
}

passing :
    {E : Type 0} {P : State E → Type 0} {r : Run E (Unit {0})}
    → Yields (λ _ s. P s) r
    → Yields (λ _ s. P s) (and_then r λ _. pure true)
passing y = Yields-bind _ y λ _ s p. yields p

module _ {K : Type 0} (os : Kernel K) (one : Oneshot os) (g : Setting) (Lost : ℕ → Type 0) where
  -- An event for a connection, which the event loop has the turn on.
  client-Turns :
      (h : ℕ → ℕ) (fuel : ℕ) (e : Event) (s : State (Env K))
      → IsClient g.fixed e.fd
      → Turns os one g.fixed Lost (hold e.fd h) s.env
      → Yields
          (λ _ s'. Turns os one g.fixed Lost h s'.env)
          (on_event os g.fixed.listenfd g.fixed.pipefd fuel e s)
  unfolding on_event
  client-Turns h fuel e s c t =
      Yields-if (e.fd == g.fixed.listenfd) _ _ s (λ is. absurd (c.0 (ground (arith, is))))
        λ _.
          Yields-if ((e.fd == g.fixed.pipefd) && e.input) _ _ s
            (λ is. absurd (c.1 (ground (arith, is))))
            λ _.
              Yields-if e.hangup _ _ s (λ _. closing os one g.fixed Lost h e.fd c true s t)
                λ _.
                  Yields-if e.input _ _ s
                    (λ _. passing (on_input-Turns os one g.fixed Lost h e.fd c fuel s e refl t))
                    λ _.
                      Yields-if e.output _ _ s
                        (λ _. passing (on_output-Turns os one g.fixed Lost h e.fd c s e refl t))
                        λ _. yields (
                          Turns-same os one {held = hold e.fd h} {held' = h} {env = s.env}
                            {env' = s.env} (λ v. (refl, omega arith)) t)

  listening-Turns :
      (h : ℕ → ℕ) (fuel : ℕ) (e : Event) (s : State (Env K))
      → e.fd ≡ g.fixed.listenfd
      → ((fd addr : ℕ) → e.accept ≡ accepted fd addr → Fresh g.fixed s.env fd)
      → Turns os one g.fixed Lost h s.env
      → Yields
          (λ _ s'. Turns os one g.fixed Lost h s'.env)
          (on_event os g.fixed.listenfd g.fixed.pipefd fuel e s)
  unfolding on_event
  listening-Turns h fuel e s at new t =
      Yields-if (e.fd == g.fixed.listenfd) _ _ s
        (λ _. passing (on_accept-Turns os one g.fixed Lost h fuel s e e.accept new t))
        λ isnt. absurd (ground (arith, isnt, at))

  signal-Turns :
      (h : ℕ → ℕ) (fuel : ℕ) (e : Event) (s : State (Env K))
      → e.fd ≢ g.fixed.listenfd
      → e.fd ≡ g.fixed.pipefd
      → e.input ≡ true
      → Turns os one g.fixed Lost h s.env
      → Yields
          (λ _ s'. Turns os one g.fixed Lost h s'.env)
          (on_event os g.fixed.listenfd g.fixed.pipefd fuel e s)
  unfolding on_event
  signal-Turns h fuel e s other at input t =
      Yields-if (e.fd == g.fixed.listenfd) _ _ s (λ is. absurd (other (ground (arith, is))))
        λ _.
          Yields-if ((e.fd == g.fixed.pipefd) && e.input) _ _ s
            (λ _. on_pipe-Turns os one g.fixed Lost h e.signals s t)
            λ isnt. absurd (ground (arith, isnt, at, input))

  -- A turn that is held by one of a list is held by the others beside it.
  split_held :
      (u : ℕ) (xs ys zs us : List ℕ) (v : ℕ)
      → zs ≡ xs ++ u ∷ ys
      → hold u (λ w. count w (xs ++ ys) + count w us) v ≡ count v zs + count v us
  unfolding count
  split_held u xs ys zs us v e =
      rw e (omega (arith, count-append v xs (u ∷ ys), count-append v xs ys))

  reheld :
      (h h' : ℕ → ℕ) (env : Env K)
      → ((v : ℕ) → h' v ≡ h v)
      → Turns os one g.fixed Lost h env
      → Turns os one g.fixed Lost h' env
  reheld h h' env same t =
      Turns-same os one {held = h} {held' = h'} {env = env} {env' = env}
        (λ v. (refl, omega (arith, same v))) t

  -- A report moves the turn from the registration to the event loop.
  report-turns :
      (w : World K) (u v : ℕ)
      → one.armed w.state.env.kernel u ≡ true
      → turns os one
          (λ x. count x (u ∷ w.reported) + count x w.busy)
          (record w.state.env { kernel = one.report w.state.env.kernel u })
          v
        ≤ turns os one (held os one g w) w.state.env v
  unfolding count
  report-turns w u v armed = elim (Bool-cases (v == u)) [
    | inl is_u ↦
        let armed_v : one.armed w.state.env.kernel v ≡ true =
          ap (one.armed w.state.env.kernel) (ground (arith, is_u)) ∙ armed in
        rw (one.reported w.state.env.kernel u v, is_u, armed_v) (omega arith)
    | inr other ↦ rw (one.reported w.state.env.kernel u v, other) (omega arith)
  ]

  pub Step-Fair :
      {w w' : World K} → Step os one g w w' → Fair os one g Lost w → Fair os one g Lost w'
  unfolding count
  Step-Fair {w} (report u c armed) t =
      Turns-same os one {held = held os one g w}
        {held' = λ v. count v (u ∷ w.reported) + count v w.busy} {env = w.state.env}
        {env' = record w.state.env { kernel = one.report w.state.env.kernel u }}
        (λ v. (refl, report-turns w u v armed)) t
  Step-Fair {w} (handle fuel e xs ys more s c split runs) t = of_Yields more s (
      subst
        (Yields
          (λ _ s'. Turns os one g.fixed Lost (λ v. count v (xs ++ ys) + count v w.busy) s'.env))
        runs
        (client-Turns (λ v. count v (xs ++ ys) + count v w.busy) fuel e w.state c
          (reheld (held os one g w) _ w.state.env
            (λ v. split_held e.fd xs ys w.reported w.busy v split) t)))
  Step-Fair {w} (listen fuel e more s at new runs) t = of_Yields more s (
      subst (Yields (λ _ s'. Turns os one g.fixed Lost (held os one g w) s'.env)) runs
        (listening-Turns (held os one g w) fuel e w.state at new t))
  Step-Fair {w} (signal fuel e more s other at input runs) t = of_Yields more s (
      subst (Yields (λ _ s'. Turns os one g.fixed Lost (held os one g w) s'.env)) runs
        (signal-Turns (held os one g w) fuel e w.state other at input t))
  Step-Fair {w} (take u us tasks) t =
      Turns-same os one {held = held os one g w}
        {held' = λ v. count v w.reported + count v (u ∷ w.busy)} {env = w.state.env}
        {env' = record w.state.env { tasks = us }} (λ v. (refl, rw tasks (omega arith))) t
  Step-Fair {w} (work fuel u xs ys s c split runs) t = of_Yields tt s (
      subst
        (Yields
          (λ _ s'. Turns os one g.fixed Lost (λ v. count v w.reported + count v (xs ++ ys)) s'.env))
        runs
        (process-Turns os one g.fixed Lost (λ v. count v w.reported + count v (xs ++ ys)) u c fuel
          g.files g.stray_code g.stray w.state
          (reheld (held os one g w) _ w.state.env
            (λ v. omega (arith, split_held u xs ys w.busy w.reported v split)) t)))
