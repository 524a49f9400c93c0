-- ===== src/Timer/Clear.antt =====
-- The destructor `~Sort_Timer_List` of webserver/src/lst_timer.cpp.
use my_tcp_cs.Base.{ℕ, zero, suc, ◌<◌, ◌≡◌, refl, ◌∙◌, none, List, [], ◌∷◌, All, length, arith}
use my_tcp_cs.Timer.{clear_loop, clear}
use my_tcp_cs.Timer.Memory.{Ptr, null, State, write, write_self, write-ne}
use my_tcp_cs.Timer.Queue.{Entry, first}
use my_tcp_cs.Timer.Chain.{Chain, Chain-write, SameOutside, IsList}
use my_tcp_cs.Timer.Steps
use my_tcp_cs.Timer.Steps.{Returns, returns, get_head-ok, not_null, load-ok, delete-ok}

-- The list object is empty, the timers `es` are freed, and nothing else changed.
pub record Freed {E : Type 0} (s : State E) (es : List Entry) (s' : State E) : Type 0 where
  pub empty : s'.head ≡ null
  pub freed : All (λ e. s'.memory e.addr ≡ none) es
  pub same : SameOutside es s.memory s'.memory
  pub same_env : s'.env ≡ s.env

clear_loop-Freed :
    {E : Type 0} (k : ℕ) (s : State E) (before : Ptr) (es : List Entry)
    → Chain s.memory before es null
    → s.head ≡ first es null
    → length es < k
    → Returns (λ _. Freed s es) (clear_loop k (first es null) s)
unfolding clear_loop
clear_loop-Freed zero s before es c at fuel = absurd (omega arith)
clear_loop-Freed (suc k) s before [] c at fuel =
    returns (record { empty = at; freed = tt; same = λ a o. refl; same_env = refl })
clear_loop-Freed {E} (suc k) s before (e ∷ es) c at fuel =
    let s₁ : State E = record s { head = first es null } in
    let s₂ : State E = record s₁ { memory = write s.memory e.addr none } in
    rw
      (
        not_null s e.addr c.0 c.1,
        get_head-ok s e.addr at,
        load-ok s e.addr c.0 c.1,
        delete-ok s₁ e.addr c.0 c.1,
      )
      (Steps.mono
        (clear_loop-Freed k s₂ e.addr es (Chain-write s.memory e.addr null es e.addr none c.3 c.2)
          refl (omega arith))
        λ _ s' f. record {
          empty = f.empty;
          freed = (f.same e.addr c.2 ∙ write_self s.memory e.addr none, f.freed);
          same = λ a o. f.same a (ground arith) ∙ write-ne s.memory e.addr a none (ground arith);
          same_env = f.same_env;
        })

-- The destructor frees every timer of the list, each once, and no other memory; it faults nowhere,
-- and one round more than there are timers is enough.
pub clear-Freed :
    {E : Type 0} (k : ℕ) (s : State E) (es : List Entry)
    → IsList s es
    → length es < k
    → Returns (λ _. Freed s es) (clear k s)
unfolding clear
clear-Freed k s es l fuel =
    rw (get_head-ok s (first es null) l.head_first)
      (clear_loop-Freed k s null es l.chain l.head_first fuel)
