-- ===== src/ThreadPool/Safety.antt =====
-- What the users of the pool rely on.
use my_tcp_cs.Base.{
  ℕ, suc, ◌+◌, ◌≤◌, ◌<◌, ◌≡◌, zero, refl, sym, ap, subst, true, false, none, some, [], ◌∷◌, ◌++◌,
  arith, length, length-append,
}
use my_tcp_cs.ThreadPool.{
  Pool, outside, locking, looking, Append, System, Step, by_main, start, Reach, begin, next,
}
use my_tcp_cs.ThreadPool.Counting.{le-sum_to}
use my_tcp_cs.ThreadPool.Invariant.{Reach-Inv, in_append, in_run, due}

module _ {max_requests n : ℕ} {s : System} (r : Reach max_requests n s) where
  -- No two workers touch the queue at once, and none does while the main thread does.
  pub mutual_exclusion :
      (i j : ℕ)
      → in_run (s.worker i) ≡ true
      → ((in_run (s.worker j) ≡ true → i ≡ j) × (in_append s.main ≡ false))
  mutual_exclusion i j inside =
      let v = Reach-Inv r in
      let own : s.pool.holder ≡ some (suc i) = v.worker_holds i inside in
      ((λ h. ground (arith, v.worker_holds j h)), ground (arith, v.main_holds))

  -- A worker that looks into the queue finds a request there: the branch of `Run` for an empty
  -- queue is never taken.
  pub looking-finds : (i : ℕ) → i < n → s.worker i ≡ looking → 0 < length s.pool.queue
  looking-finds i lt e =
      let here : due (s.worker i) ≡ 1 = ap due e in
      omega (arith, (Reach-Inv r).units, le-sum_to due n i s.worker lt)

-- The system after the main thread alone has appended `k` requests.
record Filled (max_requests n k : ℕ) : Type 0 where
  system : System
  reach : Reach max_requests n system
  idle : system.main ≡ outside
  free : system.pool.holder ≡ none
  many : length system.pool.queue ≡ k

append_one :
    {max_requests n k : ℕ}
    → k ≤ max_requests
    → Filled max_requests n k
    → Filled max_requests n (suc k)
append_one {max_requests} {n} {k} room f =
    let s = f.system in
    let p₁ : Pool = record s.pool { holder = some 0 } in
    let p₂ : Pool = record p₁ { queue = p₁.queue ++ 1 ∷ []; accepted = p₁.accepted ++ 1 ∷ [] } in
    let p₃ : Pool = record p₂ { holder = none } in
    let p₄ : Pool = record p₃ { stat = p₃.stat + 1 } in
    let called : Step max_requests n s (record s { main = locking 1 }) =
      by_main (
        subst (λ m. Append max_requests s.pool m s.pool (locking 1)) (sym f.idle)
          (Append.call 1)) in
    record {
      system = record s { pool = p₄; main = outside };
      reach =
          next
            (next
              (next (next (next f.reach called) (by_main (Append.lock f.free)))
                (by_main (Append.push (omega (arith, f.many)))))
              (by_main Append.unlock))
            (by_main Append.post);
      idle = refl;
      free = refl;
      many = omega (arith, f.many, length-append s.pool.queue (1 ∷ []));
    }

fill : (max_requests n k : ℕ) → k ≤ max_requests + 1 → Filled max_requests n k
fill max_requests n zero h = record {
  system = start;
  reach = begin;
  idle = refl;
  free = refl;
  many = refl;
}
fill max_requests n (suc k) h = append_one (omega arith) (fill max_requests n k (omega arith))

-- The test of `Append` lets one request more into the queue than `max_requests`.
pub queue_overfull :
    (max_requests n : ℕ)
    → (s : System) × Reach max_requests n s × (length s.pool.queue ≡ max_requests + 1)
queue_overfull max_requests n =
    let f = fill max_requests n (max_requests + 1) (omega arith) in (f.system, f.reach, f.many)
