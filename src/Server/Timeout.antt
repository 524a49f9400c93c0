-- ===== src/Server/Timeout.antt =====
-- The event loop of webserver/src/main.cpp and its flag `timeout`, on which the expiry of timers
-- depends.
pub mod Handlers
use my_tcp_cs.Base.{
  ℕ, ◌≡◌, refl, inl, inr, Bool, true, false, not, Option, none, some, List, [], ◌∷◌, Outcome, done,
  undefined, terminated, ◌==◌, if◌then◌else◌, Option-cases,
}
use my_tcp_cs.Base.Int.{pred_ℤ}
use my_tcp_cs.Timer.Memory.{
  State, Run, ok, fault, out_of_fuel, Cmd, and_then, pure, ◌>>=◌, ◌>>◌, get_env, put_env,
}
use my_tcp_cs.Timer.Keeps.{
  Within, ends, faults, spins, Keeps, Keeps-bind, Keeps-then, Keeps-pure, Keeps-if, Keeps-store,
  Keeps-set_expire, Keeps-add_timer, Keeps-adjust_timer, Keeps-del_timer,
}
use my_tcp_cs.Timer.{del_timer}
use my_tcp_cs.Http.Transfer.{Rearm, keep, for_input, for_output}
use my_tcp_cs.Server.{Kernel, Env, put_user, lift, removefd, modfd, init_conn, close_conn}
use my_tcp_cs.Server.Loop.{
  Accept, accepted, accept_failed, Signals, raised, signals_again, signals_failed, Event, on_signal,
  on_signals, append_task, on_accept, on_pipe, on_input, rearmed, on_output, on_event, on_events,
  timer_handler, round, serve,
}
use my_tcp_cs.Server.Timeout.Handlers.{Flags, Within-cong, if-else, Keeps-on_events}

-- `timeout` is off.
abbrev Calm : Bool → Bool → Type 0
Calm stop timeout = timeout ≡ false

still-Calm : (stop timeout : Bool) → Calm stop timeout → Calm true timeout
still-Calm stop timeout off = off

module _ {K : Type 0} (os : Kernel K) where
  -- No handler turns `timeout` on.
  events-Calm :
      (listenfd pipefd fuel : ℕ) (es : List Event)
      → Keeps (Flags Calm) (on_events os listenfd pipefd fuel es)
  events-Calm listenfd pipefd fuel es = Keeps-on_events Calm still-Calm os listenfd pipefd fuel es

  -- A round of the event loop that starts with `timeout` off leaves it off, whatever signals and
  -- events come in, and does exactly what its events do: it does not run `timer_handler`.
  pub round-events :
      (listenfd pipefd fuel now : ℕ) (es : List Event) (s : State (Env K))
      → s.env.timeout ≡ false
      → round os listenfd pipefd fuel now es s ≡ on_events os listenfd pipefd fuel es s
  unfolding round
  round-events listenfd pipefd fuel now es s off =
      quiet _ (events-Calm listenfd pipefd fuel es s off)
    where
      quiet :
          (r : Run (Env K) (Unit {0}))
          → Within (λ s'. Flags Calm s'.env) r
          → and_then r (λ _. do
            env ← get_env
            if env.timeout
                then (do
                  timer_handler os fuel now
                  env' ← get_env
                  put_env (record env' { timeout = false }))
                else pure tt)
            ≡ r
      quiet (ok _ s') (ends q) = rw q refl
      quiet _ faults = refl
      quiet _ spins = refl

  Keeps-round :
      (listenfd pipefd fuel now : ℕ) (es : List Event)
      → Keeps (Flags Calm) (round os listenfd pipefd fuel now es)
  Keeps-round listenfd pipefd fuel now es s off =
      rw (round-events listenfd pipefd fuel now es s off)
        (events-Calm listenfd pipefd fuel es s off)

  -- The loop without the expiry of timers: what it does when `timer_handler` is never called.
  pub serve_untimed :
      (listenfd pipefd fuel : ℕ) → List (ℕ × Option (List Event)) → Cmd (Env K) (Unit {0})
  serve_untimed listenfd pipefd fuel [] = pure tt
  serve_untimed listenfd pipefd fuel ((now, batch) ∷ batches) = do
    env ← get_env
    if env.stop_server then pure tt else elim batch [
      | none ↦ pure tt
      | some es ↦
          (on_events os listenfd pipefd fuel es >> serve_untimed listenfd pipefd fuel batches)
    ]

  -- From `timeout` off, as `main` starts it, the server never expires a timer: over any sequence of
  -- rounds, whatever signals arrive, its run is the run of the loop with the call of
  -- `timer_handler` taken out.
  pub serve-untimed :
      (listenfd pipefd fuel : ℕ) (batches : List (ℕ × Option (List Event))) (s : State (Env K))
      → s.env.timeout ≡ false
      → serve os listenfd pipefd fuel batches s ≡ serve_untimed listenfd pipefd fuel batches s
  unfolding serve serve_untimed
  serve-untimed listenfd pipefd fuel [] s off = refl
  serve-untimed listenfd pipefd fuel ((now, none) ∷ batches) s off = refl
  serve-untimed listenfd pipefd fuel ((now, some es) ∷ batches) s off =
      if-else s.env.stop_server _ _ _ s (
        rw (round-events listenfd pipefd fuel now es s off) (
          Within-cong (events-Calm listenfd pipefd fuel es s off) _ _
            λ _ s' q. serve-untimed listenfd pipefd fuel batches s' q))
