-- ===== src/Timer.antt =====
-- webserver/include/lst_timer.h and webserver/src/lst_timer.cpp: the timers on the C++ heap and
-- the sorted doubly linked list `Sort_Timer_List`. The operations run over a state that also
-- carries `env`, what the rest of the server keeps, since a timer's callback changes it.
pub mod Add
pub mod Memory
pub mod Queue
pub mod Chain
pub mod Delete
pub mod Bypass
pub mod Adjust
pub mod Clear
pub mod Postpone
pub mod Tick
pub mod Keeps
pub mod Steps
use Memory.{
  Ptr, null, Timer, State, Run, Cmd, out_of_fuel, pure, ◌>>=◌, ◌>>◌, load, set_next, set_prev,
  delete, get_head, get_tail, put_head, put_tail,
}
use my_tcp_cs.Base.{ℕ, zero, suc, ◌+◌, ◌*◌, Bool, ◌&&◌, ltb, ◌==◌, if◌then◌else◌}

-- #define TIMESLOT 5
abbrev pub timeslot : ℕ
timeslot = 5

-- `Util_Timer(cur, user_data, cbfun)`: it leaves `prev_` and `next_` as they are in memory.
pub util_timer : Timer → ℕ → ℕ → ℕ → Timer
util_timer raw cur user_data cbfun = record raw {
  cb_func = cbfun;
  expire = cur + 3 * timeslot;
  user_data = user_data;
}

module _ {E : Type 0} where
  -- The `while (temp)` of the overload of `Add_Timer`; the result is `prev_` and `temp` after it.
  pub add_loop : ℕ → (timer prev temp : Ptr) → Cmd E (Ptr × Ptr)
  add_loop zero timer prev temp = λ _. out_of_fuel
  add_loop (suc k) timer prev temp = if temp == null then pure (prev, temp) else do
    t ← load timer
    u ← load temp
    if ltb t.expire u.expire
        then (do
          set_next prev timer
          set_next timer temp
          set_prev temp timer
          set_prev timer prev
          pure (prev, temp))
        else add_loop k timer temp u.next

  -- That loop and the `if (!temp)` behind it.
  pub add_behind : ℕ → (timer prev temp : Ptr) → Cmd E (Unit {0})
  unfolding add_loop
  add_behind k timer prev temp = do
    (prev', temp') ← add_loop k timer prev temp
    if temp' == null
        then (do set_next prev' timer; set_prev timer prev'; set_next timer null; put_tail timer)
        else pure tt

  -- `Add_Timer(timer, lst_head_)`.
  pub add_timer_from : ℕ → (timer lst_head : Ptr) → Cmd E (Unit {0})
  add_timer_from k timer lst_head = do p ← load lst_head; add_behind k timer lst_head p.next

  -- `Add_Timer(timer)`.
  unfoldable pub add_timer : ℕ → (timer : Ptr) → Cmd E (Unit {0})
  add_timer k timer = if timer == null then pure tt else do
    head ← get_head
    if head == null then (do put_head timer; put_tail timer) else do
      t ← load timer
      u ← load head
      if ltb t.expire u.expire
          then (do set_next timer head; set_prev head timer; put_head timer)
          else add_timer_from k timer head

  -- `timer->prev_->next_ = timer->next_; timer->next_->prev_ = timer->prev_;`
  pub bypass : (timer : Ptr) → Cmd E (Unit {0})
  bypass timer = do
    t ← load timer
    set_next t.prev t.next
    t' ← load timer
    set_prev t'.next t'.prev

  -- The part of `Adjust_Timer` behind its early returns.
  pub relocate : ℕ → (timer : Ptr) → Cmd E (Unit {0})
  relocate k timer = do
    head ← get_head
    if timer == head
        then (do
          h ← load head
          put_head h.next
          set_prev h.next null
          set_next timer null
          add_timer_from k timer h.next)
        else (do bypass timer; head' ← get_head; add_timer_from k timer head')

  -- `Adjust_Timer(timer)`.
  pub adjust_timer : ℕ → (timer : Ptr) → Cmd E (Unit {0})
  adjust_timer k timer = if timer == null then pure tt else do
    t ← load timer
    if t.next == null
        then pure tt
        else do u ← load t.next; if ltb t.expire u.expire then pure tt else relocate k timer

  -- `Del_Timer(timer)`.
  pub del_timer : (timer : Ptr) → Cmd E (Unit {0})
  del_timer timer = if timer == null then pure tt else do
    head ← get_head
    tail ← get_tail
    if (timer == head) && (timer == tail)
        then (do delete timer; put_head null; put_tail null)
        else if timer == head
        then (do h ← load head; put_head h.next; set_prev h.next null; delete timer)
        else if timer == tail
        then (do l ← load tail; put_tail l.prev; set_next l.prev null; delete timer)
        else (do bypass timer; delete timer)

  -- The `while (temp)` of `Tick`; `invoke f u` is the call `(*f)(u)` of a callback.
  pub tick_loop :
      (invoke : ℕ → ℕ → Cmd E (Unit {0})) → ℕ → (cur : ℕ) (temp : Ptr) → Cmd E (Unit {0})
  tick_loop invoke zero cur temp = λ _. out_of_fuel
  tick_loop invoke (suc k) cur temp = if temp == null then pure tt else do
    t ← load temp
    if ltb cur t.expire then pure tt else do
      invoke t.cb_func t.user_data
      t' ← load temp
      put_head t'.next
      if t'.next == null then pure tt else set_prev t'.next null
      delete temp
      tick_loop invoke k cur t'.next

  -- `Tick()`, with the time that `time(nullptr)` returns.
  pub tick : (invoke : ℕ → ℕ → Cmd E (Unit {0})) → ℕ → (cur : ℕ) → Cmd E (Unit {0})
  unfolding tick_loop
  tick invoke k cur = do
    head ← get_head
    if head == null then pure tt else tick_loop invoke k cur head

  -- The destructor's loop, which frees every timer from `head_` on.
  pub clear_loop : ℕ → (temp : Ptr) → Cmd E (Unit {0})
  clear_loop zero temp = λ _. out_of_fuel
  clear_loop (suc k) temp =
      if temp == null
      then pure tt
      else do head ← get_head; h ← load head; put_head h.next; delete temp; clear_loop k h.next

  -- `~Sort_Timer_List()`.
  pub clear : ℕ → Cmd E (Unit {0})
  unfolding clear_loop
  clear k = do head ← get_head; clear_loop k head
