-- ===== src/Timer/Steps.antt =====
-- Single accesses to a live timer, and total correctness of a run.
use my_tcp_cs.Base.{ℕ, ◌≡◌, ◌≢◌, refl, ap, false, none, some, arith, ◌==◌}
use my_tcp_cs.Timer.Memory.{
  Ptr, null, Timer, write, State, Run, ok, fault, Cmd, and_then, load, set_next, set_prev,
  set_expire, delete, get_head, get_tail,
}

-- The run ends without a fault and within its fuel, in a state that satisfies `P`.
pub data Returns {E A : Type 0} (P : A → State E → Type 0) : Run E A → Type 0 where
  returns : {a : A} {s : State E} → P a s → Returns P (ok a s)

module _ {E A : Type 0} {P : A → State E → Type 0} where
  pub bind :
      {B : Type 0} {Q : B → State E → Type 0} {r : Run E A} {k : A → Cmd E B}
      → Returns P r
      → ((a : A) (s : State E) → P a s → Returns Q (k a s))
      → Returns Q (and_then r k)
  bind (returns p) next = next _ _ p

  pub mono :
      {Q : A → State E → Type 0} {r : Run E A}
      → Returns P r
      → ((a : A) (s : State E) → P a s → Q a s)
      → Returns Q r
  mono (returns p) weaken = returns (weaken _ _ p)

module _ {E : Type 0} (s : State E) (p : Ptr) where
  pub get_head-ok : s.head ≡ p → get_head s ≡ ok p s
  unfolding get_head
  get_head-ok e = ap (λ q. ok q s) e

  pub get_tail-ok : s.tail ≡ p → get_tail s ≡ ok p s
  unfolding get_tail
  get_tail-ok e = ap (λ q. ok q s) e

module _ {E : Type 0} (s : State E) (p : Ptr) {t : Timer} (live : p ≢ null)
    (holds : s.memory p ≡ some t) where
  pub not_null : (p == null) ≡ false
  not_null = ground arith

  pub load-ok : load p s ≡ ok t s
  unfolding load
  load-ok = rw (not_null, holds)

  pub set_next-ok :
      (q : Ptr)
      → set_next p q s
        ≡ ok tt (record s { memory = write s.memory p (some (record t { next = q })) })
  unfolding set_next
  set_next-ok q = rw load-ok

  pub set_prev-ok :
      (q : Ptr)
      → set_prev p q s
        ≡ ok tt (record s { memory = write s.memory p (some (record t { prev = q })) })
  unfolding set_prev
  set_prev-ok q = rw load-ok

  pub set_expire-ok :
      (n : ℕ)
      → set_expire p n s
        ≡ ok tt (record s { memory = write s.memory p (some (record t { expire = n })) })
  unfolding set_expire
  set_expire-ok n = rw load-ok

  pub delete-ok : delete p s ≡ ok tt (record s { memory = write s.memory p none })
  unfolding delete
  delete-ok = rw load-ok

pub load-dead :
    {E : Type 0} (s : State E) (p : Ptr) → p ≢ null → s.memory p ≡ none → load p s ≡ fault
unfolding load
load-dead s p live dead = let alive : (p == null) ≡ false = ground arith in rw (alive, dead) refl
