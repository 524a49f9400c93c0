-- ===== src/Tests/Locks.antt =====
-- The theorems on the lock wrappers and on the pool's start at a small machine.
use my_tcp_cs.Base.{
  ℕ, zero, suc, ◌+◌, ◌-◌, if◌then◌else◌, ◌≡◌, ◌≢◌, refl, Option, none, some, List, [], ◌∷◌, ◌==◌,
  length, arith,
}
use my_tcp_cs.Base.Int.{pos}
use my_tcp_cs.Locker.{Pthreads, SemResult, succeeded, failed, eintr, new_sem, new_locker}
use my_tcp_cs.Locker.Balance.{Counts, waits, posts, Tally, call_all, call_all-Balance}
use my_tcp_cs.ThreadPool.Startup.{Threads, threw, destroy_members, new_pool}
use my_tcp_cs.ThreadPool.Orphans.{
  StartedThreads, none_yet, one_more, MembersBuilt, members_built, new_pool-orphans,
}

-- The state is the number of signals still to come, the semaphore's value, and the threads that can
-- still be created. A wait without a unit fails with EAGAIN.
record Machine : Type 0 where
  signals : ℕ
  units : ℕ
  rooms : ℕ

wait_on : (signals units rooms : ℕ) → Machine × SemResult
wait_on (suc k) units rooms = (record { signals = k; units = units; rooms = rooms }, failed eintr)
wait_on zero (suc k) rooms = (record { signals = 0; units = k; rooms = rooms }, succeeded)
wait_on zero zero rooms = (record { signals = 0; units = 0; rooms = rooms }, failed 11)

wait_on-takes :
    (signals units rooms : ℕ)
    → (wait_on signals units rooms).1 ≡ succeeded
    → units ≡ (wait_on signals units rooms).0.units + 1
unfolding wait_on
wait_on-takes (suc k) units rooms e = cc
wait_on-takes zero (suc k) rooms e = omega arith
wait_on-takes zero zero rooms e = cc

wait_on-leaves :
    (signals units rooms : ℕ)
    → (wait_on signals units rooms).1 ≢ succeeded
    → units ≡ (wait_on signals units rooms).0.units
unfolding wait_on
wait_on-leaves (suc k) units rooms e = refl
wait_on-leaves zero (suc k) rooms e = absurd (e refl)
wait_on-leaves zero zero rooms e = refl

abbrev machine : Pthreads Machine
machine = record {
  mutex_init = λ m mutex. (m, 0);
  mutex_destroy = λ m mutex. m;
  mutex_lock = λ m mutex. (m, 0);
  mutex_unlock = λ m mutex. (m, 0);
  cond_init = λ m cond. (m, 0);
  cond_destroy = λ m cond. m;
  cond_wait =
      λ cond mutex m. (record m { signals = m.signals - 1 }, if m.signals == 0 then 0 else eintr);
  cond_timedwait = λ cond mutex time m.
      (record m { signals = m.signals - 1 }, if m.signals == 0 then 110 else eintr);
  cond_signal = λ m cond. (m, 0);
  cond_broadcast = λ m cond. (m, 0);
  sem_init = λ m sem value. (record m { units = value }, succeeded);
  sem_destroy = λ m sem. m;
  sem_wait = λ sem m. wait_on m.signals m.units m.rooms;
  sem_post = λ m sem. (record m { units = m.units + 1 }, succeeded);
}

machine-Counts : Counts machine 1
machine-Counts = record {
  value = λ m. m.units;
  wait_takes = λ m e. wait_on-takes m.signals m.units m.rooms e;
  wait_leaves = λ m e. wait_on-leaves m.signals m.units m.rooms e;
  post_adds = λ m e. refl;
  post_leaves = λ m e. absurd (e refl);
}

-- Two signals, and then the semaphore has three units.
abbrev busy : Machine
busy = record { signals = 2; units = 3; rooms = 2 }

abbrev tallied : (signals units waited posted : ℕ) → Tally Machine
tallied signals units waited posted = record {
  world = record { signals = signals; units = units; rooms = 2 };
  waited = waited;
  posted = posted;
}

-- Wait, which two signals interrupt; post; wait.
call_all-Balance_example : 2 + 2 + 0 ≡ 3 + 0 + 1
unfolding wait_on machine-Counts
call_all-Balance_example =
    call_all-Balance machine-Counts 4 (waits ∷ posts ∷ waits ∷ []) (tallied 2 3 0 0)
      (tallied 0 2 2 1) (unfold call_all in refl)

abbrev ids : List ℕ
ids = 1 ∷ 0 ∷ []

-- Threads can be created while there are rooms, and get the number of rooms left as their id.
create_in : ℕ → Machine → Machine × Option ℕ
create_in zero m = (m, none)
create_in (suc k) m = (record m { rooms = k }, some k)

abbrev hosts : Threads Machine
hosts = record { create = λ m. create_in m.rooms m; detach = λ m thread. (m, 0) }

abbrev with_rooms : ℕ → Machine
with_rooms k = record { signals = 2; units = 0; rooms = k }

busy-MembersBuilt : MembersBuilt machine 9 1 busy
unfolding new_locker new_sem
busy-MembersBuilt = record { locker = refl; stat = refl }

two_started : StartedThreads hosts 2 (members_built machine 9 1 busy) (with_rooms 0) ids
unfolding create_in new_locker new_sem
two_started = one_more refl refl (one_more refl refl none_yet)

new_pool-orphans_example :
    (new_pool machine hosts 9 1 busy (pos 8) (pos 10)
      ≡ (destroy_members machine 9 1 (hosts.create (with_rooms 0)).0, threw ids))
    × (length ids ≡ 2)
new_pool-orphans_example =
    new_pool-orphans machine hosts 9 1 8 10 busy busy-MembersBuilt (omega arith) (omega arith) 2
      (with_rooms 0) ids two_started (omega arith) (unfold create_in in refl)
