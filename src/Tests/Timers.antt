-- ===== src/Tests/Timers.antt =====
-- The timer list's theorems at a list of two timers.
use my_tcp_cs.Base.{◌≡◌, ℕ, refl, [], ◌∷◌, none, some, if◌then◌else◌, ◌==◌, arith}
use my_tcp_cs.Timer.{clear, add_timer, adjust_timer, del_timer}
use my_tcp_cs.Timer.Memory.{Memory, State, set_expire, ◌>>◌}
use my_tcp_cs.Timer.Queue.{Entry, timer_of, insert, IsSorted}
use my_tcp_cs.Timer.Chain.{IsList}
use my_tcp_cs.Timer.Steps.{Returns}
use my_tcp_cs.Timer.Add.{Became, add_timer-insert}
use my_tcp_cs.Timer.Delete.{Removed, del_timer-remove}
use my_tcp_cs.Timer.Adjust.{adjust_timer-insert}
use my_tcp_cs.Timer.Postpone.{set_expire-adjust_timer}
use my_tcp_cs.Timer.Clear.{Freed, clear-Freed}

abbrev pub early : Entry
early = record { addr = 1; cb_func = 1; expire = 15; user_data = 7 }

abbrev pub late : Entry
late = record { addr = 2; cb_func = 1; expire = 20; user_data = 8 }

abbrev pub fresh : Entry
fresh = record { addr = 3; cb_func = 1; expire = 17; user_data = 9 }

-- `early` and `late` are linked, `fresh` is new.
abbrev pub two_timers : Memory
two_timers p =
    if p == 1
    then some (timer_of early 0 2)
    else if p == 2
    then some (timer_of late 1 0)
    else if p == 3
    then some (timer_of fresh 0 0)
    else none

abbrev pub listing : {E : Type 0} → E → State E
listing env = record { memory = two_timers; head = 1; tail = 2; env = env }

pub listing-IsList : {E : Type 0} (env : E) → IsList (listing env) (early ∷ late ∷ [])
listing-IsList env = record {
  chain = (omega arith, refl, refl, (omega arith, refl, refl, tt));
  head_first = refl;
  tail_final = refl;
}

abbrev listed : State ℕ
listed = listing 0

add_timer-insert_example :
    Returns
      (λ _. Became listed (fresh ∷ early ∷ late ∷ []) (insert fresh (early ∷ late ∷ [])))
      (add_timer 2 3 listed)
add_timer-insert_example =
    add_timer-insert fresh (omega arith) 2 listed (early ∷ late ∷ []) refl (listing-IsList 0) refl
      (omega arith)

del_timer-remove_example :
    Returns (λ _. Removed listed late (early ∷ late ∷ []) (early ∷ [])) (del_timer 2 listed)
del_timer-remove_example = del_timer-remove listed late (early ∷ []) [] (listing-IsList 0)

-- `early`'s timer, put off to a time behind `late`.
abbrev postponed : Entry
postponed = record early { expire = 22 }

abbrev out_of_order : State ℕ
out_of_order = record {
  memory = λ p.
      if p == 1
      then some (timer_of postponed 0 2)
      else if p == 2
      then some (timer_of late 1 0)
      else none;
  head = 1;
  tail = 2;
  env = 0;
}

out_of_order-IsList : IsList out_of_order (postponed ∷ late ∷ [])
out_of_order-IsList = record {
  chain = (omega arith, refl, refl, (omega arith, refl, refl, tt));
  head_first = refl;
  tail_final = refl;
}

adjust_timer-insert_example :
    Returns
      (λ _. Became out_of_order (postponed ∷ late ∷ []) (insert postponed (late ∷ [])))
      (adjust_timer 1 1 out_of_order)
adjust_timer-insert_example =
    adjust_timer-insert out_of_order postponed 1 [] (late ∷ []) out_of_order-IsList (tt, tt) tt
      (omega arith)

-- `early` is put off to a time behind `late`.
set_expire-adjust_timer_example :
    let es = insert postponed (late ∷ []) in
    Returns
      (λ _ s'. IsList s' es × IsSorted es × (s'.env ≡ listed.env))
      ((set_expire 1 22 >> adjust_timer 1 1) listed)
set_expire-adjust_timer_example =
    set_expire-adjust_timer listed early 1 22 [] (late ∷ []) (listing-IsList 0)
      ((omega arith, tt), (tt, tt)) (omega arith) (omega arith)

clear-Freed_example : Returns (λ _. Freed listed (early ∷ late ∷ [])) (clear 3 listed)
clear-Freed_example = clear-Freed 3 listed (early ∷ late ∷ []) (listing-IsList 0) (omega arith)
