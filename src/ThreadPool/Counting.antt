-- ===== src/ThreadPool/Counting.antt =====
-- How many of the first `n` workers stand where `w` gives 1.
use my_tcp_cs.Base.{ℕ, zero, suc, ◌+◌, ◌≤◌, ◌<◌, ◌≡◌, refl, arith, ltb, inl, inr, Bool-cases}
use my_tcp_cs.ThreadPool.{update}

module _ {ℓ} {A : Type ℓ} (w : A → ℕ) where
  pub sum_to : ℕ → (ℕ → A) → ℕ
  sum_to zero f = 0
  sum_to (suc n) f = w (f n) + sum_to n f

  outside_sum : (n i : ℕ) (f : ℕ → A) (a : A) → n ≤ i → sum_to n (update f i a) ≡ sum_to n f
  unfolding sum_to update
  outside_sum zero i f a h = refl
  outside_sum (suc n) i f a h = ground (arith, outside_sum n i f a)

  -- One worker's move changes the sum by its own weight.
  pub sum_to-update :
      (n i : ℕ) (f : ℕ → A) (a : A) → i < n → sum_to n (update f i a) + w (f i) ≡ sum_to n f + w a
  unfolding sum_to update
  sum_to-update zero i f a h = absurd (omega arith)
  sum_to-update (suc n) i f a h = elim (Bool-cases (ltb i n)) [
    | inl below ↦ ground (arith, sum_to-update n i f a)
    | inr last ↦ ground (arith, outside_sum n i f a)
  ]

  pub le-sum_to : (n i : ℕ) (f : ℕ → A) → i < n → w (f i) ≤ sum_to n f
  unfolding sum_to
  le-sum_to zero i f h = absurd (omega arith)
  le-sum_to (suc n) i f h = elim (Bool-cases (ltb i n)) [
    | inl below ↦ ground (arith, le-sum_to n i f)
    | inr last ↦ ground arith
  ]

  pub sum_to-zero : (n : ℕ) (a : A) → w a ≡ 0 → sum_to n (λ _. a) ≡ 0
  unfolding sum_to
  sum_to-zero zero a h = refl
  sum_to-zero (suc n) a h = omega (arith, sum_to-zero n a h)

  -- A sum that is not 0 has a worker that counts.
  pub sum_to-some : (n : ℕ) (f : ℕ → A) → 0 < sum_to n f → (i : ℕ) × (i < n) × (0 < w (f i))
  unfolding sum_to
  sum_to-some zero f h = absurd (omega (arith, h))
  sum_to-some (suc n) f h = elim (Bool-cases (ltb 0 (w (f n)))) [
    | inl here ↦ (n, omega arith, ground arith)
    | inr other ↦ let (i, lt, more) = sum_to-some n f (ground arith) in (i, omega arith, more)
  ]
