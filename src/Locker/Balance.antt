-- ===== src/Locker/Balance.antt =====
-- The semaphore of webserver/include/locker.h as a counter.
use mathlib.Core.Option.{some-injective, none-ne-some}
use my_tcp_cs.Base.{
  ℕ, ◌+◌, ◌≡◌, ◌≢◌, ◌⊎◌, refl, ◌∙◌, ap, sym, subst, Option-cases, Bool, true, false, Option, none,
  some, List, [], ◌∷◌, if◌then◌else◌, inl, inr, arith,
}
use my_tcp_cs.Locker.{
  Pthreads, SemResult, succeeded, failed, sem_interrupted, sem_succeeds, wait_sem, post_sem,
}
use my_tcp_cs.Locker.Waits.{
  Interrupted, at_once, once_more, Waited, returned, held_up, wait_sem-Waited,
}

-- What sem_wait(3) and sem_post(3) say: a semaphore has a value, a wait that succeeds takes one
-- from it, a post that succeeds adds one, and a call that fails leaves it.
pub record Counts {W : Type 0} (os : Pthreads W) (sem : ℕ) : Type 0 where
  pub value : W → ℕ
  pub wait_takes :
      (w : W) → (os.sem_wait sem w).1 ≡ succeeded → value w ≡ value (os.sem_wait sem w).0 + 1
  pub wait_leaves :
      (w : W) → (os.sem_wait sem w).1 ≢ succeeded → value w ≡ value (os.sem_wait sem w).0
  pub post_adds :
      (w : W) → (os.sem_post w sem).1 ≡ succeeded → value (os.sem_post w sem).0 ≡ value w + 1
  pub post_leaves :
      (w : W) → (os.sem_post w sem).1 ≢ succeeded → value (os.sem_post w sem).0 ≡ value w

-- 1 for true.
abbrev pub unit_of : Bool → ℕ
unit_of b = if b then 1 else 0

SemResult-cases : (r : SemResult) → (r ≡ succeeded) ⊎ (r ≢ succeeded)
SemResult-cases succeeded = inl refl
SemResult-cases (failed errno) = inr λ e. cc

fails : (r : SemResult) → r ≢ succeeded → sem_succeeds r ≡ false
unfolding sem_succeeds
fails succeeded ne = absurd (ne refl)
fails (failed errno) ne = refl

again-fails : (r : SemResult) → sem_interrupted r ≡ true → r ≢ succeeded
unfolding sem_interrupted
again-fails succeeded e = cc
again-fails (failed errno) e = λ h. cc

module _ {W : Type 0} {os : Pthreads W} {sem : ℕ} (v : Counts os sem) where
  wait-counts :
      (w : W)
      → v.value w ≡ v.value (os.sem_wait sem w).0 + unit_of (sem_succeeds (os.sem_wait sem w).1)
  unfolding sem_succeeds
  wait-counts w = elim (SemResult-cases (os.sem_wait sem w).1) [
    | inl e ↦ rw e (v.wait_takes w e)
    | inr ne ↦ rw (fails _ ne) (omega (arith, v.wait_leaves w ne))
  ]

  -- Interrupted calls leave the value.
  Interrupted-counts :
      {k : ℕ} {w w' : W}
      → Interrupted sem_interrupted (os.sem_wait sem) k w w'
      → v.value w ≡ v.value w'
  Interrupted-counts at_once = refl
  Interrupted-counts {w} (once_more e i) =
      v.wait_leaves w (again-fails (os.sem_wait sem w).1 e) ∙ Interrupted-counts i

  Waited-counts :
      {fuel : ℕ} {w w' : W} {b : Bool} {o : Option (W × Bool)}
      → Waited sem_interrupted sem_succeeds (os.sem_wait sem) fuel w o
      → o ≡ some (w', b)
      → v.value w ≡ v.value w' + unit_of b
  Waited-counts (returned {w' = u} lt i last) e =
      Interrupted-counts i
      ∙ wait-counts u
      ∙ ap (λ r. v.value r.0 + unit_of r.1) (some-injective _ _ e)
  Waited-counts (held_up i) e = cc

  pub wait_sem-counts :
      (fuel : ℕ) (w w' : W) (b : Bool)
      → wait_sem os fuel w sem ≡ some (w', b)
      → v.value w ≡ v.value w' + unit_of b
  wait_sem-counts fuel w w' b e = Waited-counts (wait_sem-Waited os fuel w sem) e

  post_sem-counts :
      (w : W) → v.value (post_sem os w sem).0 ≡ v.value w + unit_of (post_sem os w sem).1
  unfolding post_sem sem_succeeds
  post_sem-counts w = elim (SemResult-cases (os.sem_post w sem).1) [
    | inl e ↦ rw e (v.post_adds w e)
    | inr ne ↦ rw (fails _ ne) (omega (arith, v.post_leaves w ne))
  ]

-- One call on the semaphore.
pub data SemCall : Type 0 where
  waits : SemCall
  posts : SemCall

-- What a run of calls leaves, and how many waits and how many posts have returned true.
pub record Tally (W : Type 0) : Type 0 where
  pub world : W
  pub waited : ℕ
  pub posted : ℕ

module _ {W : Type 0} (os : Pthreads W) (sem : ℕ) where
  -- One call, with its result in the tally.
  unfoldable pub call_one : ℕ → SemCall → Tally W → Option (Tally W)
  unfolding wait_sem post_sem
  call_one fuel waits t = elim (wait_sem os fuel t.world sem) [
    | none ↦ none
    | some (w, b) ↦ some (record t { world = w; waited = t.waited + unit_of b })
  ]
  call_one fuel posts t =
      let (w, b) = post_sem os t.world sem in
      some (record t { world = w; posted = t.posted + unit_of b })

  unfoldable pub call_all : ℕ → List SemCall → Tally W → Option (Tally W)
  unfolding call_one
  call_all fuel [] t = some t
  call_all fuel (c ∷ cs) t = elim (call_one fuel c t) [
    | none ↦ none
    | some t' ↦ call_all fuel cs t'
  ]

-- What is left of the units, and of the posts: the same before and after any calls.
abbrev Balance :
    {W : Type 0} {os : Pthreads W} {sem : ℕ} → Counts os sem → (before after : Tally W) → Type 0
Balance v t t' = v.value t'.world + t'.waited + t.posted ≡ v.value t.world + t.waited + t'.posted

module _ {W : Type 0} {os : Pthreads W} {sem : ℕ} (v : Counts os sem) (fuel : ℕ) where
  call_one-Balance :
      (c : SemCall) (t t' : Tally W) → call_one os sem fuel c t ≡ some t' → Balance v t t'
  unfolding call_one
  call_one-Balance waits t t' e = elim (Option-cases (wait_sem os fuel t.world sem)) [
    | inl never ↦ absurd (none-ne-some _ (sym (rw (call_one, never) refl) ∙ e))
    | inr ((w, b), p) ↦
        let read : call_one os sem fuel waits t
            ≡ some (record t { world = w; waited = t.waited + unit_of b }) =
          rw (call_one, p) refl in
        subst (Balance v t) (some-injective _ _ (sym read ∙ e))
          (omega (arith, wait_sem-counts v fuel t.world w b p))
  ]
  call_one-Balance posts t t' e =
      subst (Balance v t) (some-injective _ _ e) (omega (arith, post_sem-counts v t.world))

  -- In any run of calls that ends, on a semaphore that counts as the manual says, the waits that
  -- return true take exactly as many units as are gone: the value at the end and the waits that
  -- returned true are together the value at the beginning and the posts that returned true,
  -- whatever signals interrupt.
  pub call_all-Balance :
      (cs : List SemCall) (t t' : Tally W) → call_all os sem fuel cs t ≡ some t' → Balance v t t'
  unfolding call_all
  call_all-Balance [] t t' e = subst (Balance v t) (some-injective _ _ e) (omega arith)
  call_all-Balance (c ∷ cs) t t' e = elim (Option-cases (call_one os sem fuel c t)) [
    | inl never ↦ absurd (none-ne-some _ (sym (rw (call_all, never) refl) ∙ e))
    | inr (u, p) ↦ omega (
      arith,
      call_one-Balance c t u p,
      call_all-Balance cs u t' (sym (rw (call_all, p) refl) ∙ e),
    )
  ]
