-- ===== src/Server/Stopping.antt =====
-- SIGTERM ends the event loop of webserver/src/main.cpp.
use my_tcp_cs.Base.{
  ℕ, ◌≡◌, ◌≢◌, refl, ◌∙◌, ap, Bool, true, false, ◌&&◌, Option, some, List, [], ◌∷◌, ◌++◌, ◌==◌,
  if◌then◌else◌, arith,
}
use my_tcp_cs.Timer.Memory.{State, Run, ok, fault, out_of_fuel, Cmd, and_then, pure, ◌>>◌}
use my_tcp_cs.Timer.Keeps.{Within, ends, faults, spins, Keeps-if, Keeps-pure}
use my_tcp_cs.Server.{Kernel, Env}
use my_tcp_cs.Server.Loop.{
  Event, raised, sigterm, on_signal, on_signals, on_pipe, on_event, on_events, serve,
}
use my_tcp_cs.Server.Timeout.Handlers.{
  Flags, Within-cong, Keeps-on_events, Keeps-on_signal, Keeps-on_signals,
}
use my_tcp_cs.Server.Timeout.{round-events}

-- `stop_server` is on.
abbrev Stopping : Bool → Bool → Type 0
Stopping stop timeout = stop ≡ true

still-Stopping : (stop timeout : Bool) → Stopping stop timeout → Stopping true timeout
still-Stopping stop timeout on = refl

module _ {E A B : Type 0} {P Q : State E → Type 0} where
  Within-next :
      {r : Run E A} (k : A → Cmd E B)
      → Within P r
      → ((a : A) (s : State E) → P s → Within Q (k a s))
      → Within Q (and_then r k)
  Within-next k (ends p) next = next _ _ p
  Within-next k faults next = faults
  Within-next k spins next = spins

and_then-pure : {E : Type 0} (r : Run E (Unit {0})) → and_then r (λ _. pure tt) ≡ r
and_then-pure (ok tt s) = refl
and_then-pure fault = refl
and_then-pure out_of_fuel = refl

pub if-true : {A : Type 0} (b : Bool) (l m : A) → b ≡ true → (if b then l else m) ≡ l
if-true true l m e = refl
if-true false l m e = cc

pub if-false : {A : Type 0} (b : Bool) (l m : A) → b ≡ false → (if b then l else m) ≡ m
if-false true l m e = cc
if-false false l m e = refl

-- The event `e` says that the pipe has signals, SIGTERM among them.
pub record Tells (listenfd pipefd : ℕ) (e : Event) : Type 0 where
  pub before : List ℕ
  pub after : List ℕ
  pub other : listenfd ≢ pipefd
  pub at_pipe : e.fd ≡ pipefd
  pub input : e.input ≡ true
  pub signals : e.signals ≡ raised (before ++ sigterm ∷ after)

module _ {K : Type 0} (os : Kernel K) where
  -- Whatever signals come with it, SIGTERM turns `stop_server` on.
  on_signals-sigterm :
      (before after : List ℕ) (s : State (Env K))
      → Within (λ s'. Flags Stopping s'.env) (on_signals (before ++ sigterm ∷ after) s)
  unfolding on_signals on_signal
  on_signals-sigterm [] after s =
      Keeps-on_signals Stopping still-Stopping os after
        (record s { env = record s.env { stop_server = true } }) refl
  on_signals-sigterm (sig ∷ before) after s =
      Within-next {P = λ s'. Unit {0}} _
        (Keeps-on_signal (λ stop timeout. Unit {0}) (λ stop timeout u. u) os sig s tt)
        λ a s' u. on_signals-sigterm before after s'

  on_event-Tells :
      (listenfd pipefd fuel : ℕ) (e : Event) (t : Tells listenfd pipefd e) (s : State (Env K))
      → on_event os listenfd pipefd fuel e s
        ≡ (on_signals (t.before ++ sigterm ∷ t.after) >> pure true) s
  unfolding on_event on_pipe
  on_event-Tells listenfd pipefd fuel e t s =
      ap (λ m. m s)
        (if-false (e.fd == listenfd) _ _ (ground (arith, t.other, t.at_pipe))
          ∙ if-true ((e.fd == pipefd) && e.input) _ _ (ground (arith, t.at_pipe, t.input))
          ∙ ap (on_pipe os) t.signals)

  on_events-Tells :
      (listenfd pipefd fuel : ℕ) (e : Event) (es : List Event) (s : State (Env K))
      → Tells listenfd pipefd e
      → Within (λ s'. Flags Stopping s'.env) (on_events os listenfd pipefd fuel (e ∷ es) s)
  unfolding on_events
  on_events-Tells listenfd pipefd fuel e es s t = rw (on_event-Tells listenfd pipefd fuel e t s) (
      Within-next {P = λ s'. Flags Stopping s'.env} _
        (Within-next {P = λ s'. Flags Stopping s'.env} _ (on_signals-sigterm t.before t.after s)
          λ a s' q. ends q)
        λ more s' q.
          Keeps-if (λ env. Flags Stopping env) more _ _
            (Keeps-on_events Stopping still-Stopping os listenfd pipefd fuel es) (Keeps-pure _ tt)
            s' q)

  -- If the first event of a round tells of SIGTERM, the server takes the other events of that round
  -- and leaves its loop, whatever would come after: its run is that of this round's events alone.
  pub serve-Tells :
      (listenfd pipefd fuel now : ℕ) (e : Event) (es : List Event)
      (batches : List (ℕ × Option (List Event))) (s : State (Env K))
      → Tells listenfd pipefd e
      → s.env.timeout ≡ false
      → s.env.stop_server ≡ false
      → serve os listenfd pipefd fuel ((now, some (e ∷ es)) ∷ batches) s
        ≡ on_events os listenfd pipefd fuel (e ∷ es) s
  unfolding serve
  serve-Tells listenfd pipefd fuel now e es batches s t off on =
      ap (λ (m : Cmd (Env K) (Unit {0})). m s) (if-false s.env.stop_server _ _ on)
      ∙ ap (λ r. and_then r (λ _. serve os listenfd pipefd fuel batches))
          (round-events os listenfd pipefd fuel now (e ∷ es) s off)
      ∙ Within-cong (on_events-Tells listenfd pipefd fuel e es s t) _ (λ _. pure tt)
          (λ a s' q. stopped s' batches q)
      ∙ and_then-pure _
    where
      stopped :
          (s' : State (Env K)) (rest : List (ℕ × Option (List Event)))
          → s'.env.stop_server ≡ true
          → serve os listenfd pipefd fuel rest s' ≡ ok tt s'
      stopped s' [] q = refl
      stopped s' ((now, batch) ∷ rest) q = rw q refl
