-- ===== src/Server/Turns/Yields.antt =====
-- Partial correctness of a run, with its result, for the commands of webserver/src/main.cpp.
use my_tcp_cs.Base.{
  ◌≡◌, refl, Bool, true, false, Option, none, some, Outcome, done, undefined, terminated,
  if◌then◌else◌,
}
use my_tcp_cs.Timer.Memory.{State, Run, ok, fault, out_of_fuel, Cmd, and_then}
use my_tcp_cs.Timer.Keeps
use my_tcp_cs.Timer.Keeps.{Within, Keeps}
use my_tcp_cs.Server.{lift}

-- If the run ends well, its result and state satisfy `P`.
pub data Yields {E A : Type 0} (P : A → State E → Type 0) : Run E A → Type 0 where
  yields : {a : A} {s : State E} → P a s → Yields P (ok a s)
  faults : Yields P fault
  spins : Yields P out_of_fuel

pub of_Yields :
    {E A : Type 0} {P : A → State E → Type 0} (a : A) (s : State E) → Yields P (ok a s) → P a s
of_Yields a s (yields p) = p

module _ {E A B : Type 0} {P : A → State E → Type 0} {Q : B → State E → Type 0} where
  pub Yields-bind :
      {r : Run E A} (k : A → Cmd E B)
      → Yields P r
      → ((a : A) (s : State E) → P a s → Yields Q (k a s))
      → Yields Q (and_then r k)
  Yields-bind k (yields p) next = next _ _ p
  Yields-bind k faults next = faults
  Yields-bind k spins next = spins

module _ {E A B : Type 0} {Q : B → State E → Type 0} where
  pub Yields-lift :
      (o : Outcome A) (s : State E) (k : A → Cmd E B)
      → ((a : A) → o ≡ done a → Yields Q (k a s))
      → Yields Q (and_then (lift o s) k)
  unfolding lift
  Yields-lift (done a) s k next = next a refl
  Yields-lift undefined s k next = faults
  Yields-lift terminated s k next = faults

module _ {E A : Type 0} where
  pub Yields-if :
      {Q : A → State E → Type 0} (b : Bool) (m n : Cmd E A) (s : State E)
      → (b ≡ true → Yields Q (m s))
      → (b ≡ false → Yields Q (n s))
      → Yields Q ((if b then m else n) s)
  Yields-if true m n s l r = l refl
  Yields-if false m n s l r = r refl

  pub Yields-option :
      {B : Type 0} {Q : A → State E → Type 0} (o : Option B) (m : Cmd E A) (k : B → Cmd E A)
      (s : State E)
      → (o ≡ none → Yields Q (m s))
      → ((b : B) → o ≡ some b → Yields Q (k b s))
      → Yields Q ((elim o as (λ x. Cmd E A) [ none ↦ m | some b ↦ k b ]) s)
  Yields-option none m k s l r = l refl
  Yields-option (some b) m k s l r = r b refl

  pub Yields-of_Within : {P : State E → Type 0} {r : Run E A} → Within P r → Yields (λ a s. P s) r
  Yields-of_Within (Keeps.ends p) = yields p
  Yields-of_Within Keeps.faults = faults
  Yields-of_Within Keeps.spins = spins

  pub Yields-mono :
      {P Q : A → State E → Type 0} {r : Run E A}
      → Yields P r
      → ((a : A) (s : State E) → P a s → Q a s)
      → Yields Q r
  Yields-mono (yields p) weaken = yields (weaken _ _ p)
  Yields-mono faults weaken = faults
  Yields-mono spins weaken = spins
