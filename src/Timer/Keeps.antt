-- ===== src/Timer/Keeps.antt =====
-- The timer operations leave `env` alone, whatever list they are given.
use my_tcp_cs.Base.{
  ℕ, zero, suc, inl, inr, Bool, true, false, Option, ltb, ◌==◌, if◌then◌else◌, Option-cases,
  Bool-cases,
}
use my_tcp_cs.Timer.Memory.{
  Ptr, null, Timer, State, Run, ok, fault, out_of_fuel, Cmd, and_then, pure, ◌>>=◌, ◌>>◌, load,
  store, set_next, set_prev, set_expire, delete, get_head, get_tail, put_head, put_tail,
}
use my_tcp_cs.Timer.{
  add_loop, add_behind, add_timer_from, add_timer, bypass, relocate, adjust_timer, del_timer,
}

-- If the run ends well, its state satisfies `P`.
pub data Within {E A : Type 0} (P : State E → Type 0) : Run E A → Type 0 where
  ends : {a : A} {s : State E} → P s → Within P (ok a s)
  faults : Within P fault
  spins : Within P out_of_fuel

-- A command that keeps `Q` of `env`, where it ends well.
abbrev pub Keeps : {E A : Type 0} → (E → Type 0) → Cmd E A → Type 0
Keeps {E} Q m = (s : State E) → Q s.env → Within (λ s'. Q s'.env) (m s)

module _ {E : Type 0} (Q : E → Type 0) where
  Within-bind :
      {A B : Type 0} {r : Run E A} (k : A → Cmd E B)
      → Within (λ s. Q s.env) r
      → ((a : A) → Keeps Q (k a))
      → Within (λ s. Q s.env) (and_then r k)
  Within-bind k (ends q) next = next _ _ q
  Within-bind k faults next = faults
  Within-bind k spins next = spins

  pub Keeps-bind :
      {A B : Type 0} (m : Cmd E A) (k : A → Cmd E B)
      → Keeps Q m
      → ((a : A) → Keeps Q (k a))
      → Keeps Q (m >>= k)
  Keeps-bind m k first next s q = Within-bind k (first s q) next

  pub Keeps-then :
      {B : Type 0} (m : Cmd E (Unit {0})) (k : Cmd E B) → Keeps Q m → Keeps Q k → Keeps Q (m >> k)
  Keeps-then m k first next = Keeps-bind m (λ _. k) first (λ _. next)

  pub Keeps-pure : {A : Type 0} (a : A) → Keeps Q (pure a)
  Keeps-pure a s q = ends q

  pub Keeps-if :
      {A : Type 0} (b : Bool) (m k : Cmd E A) → Keeps Q m → Keeps Q k → Keeps Q (if b then m else k)
  Keeps-if true m k l r = l
  Keeps-if false m k l r = r

  pub Keeps-load : (p : Ptr) → Keeps Q (load p)
  unfolding load
  Keeps-load p s q = elim (Bool-cases (p == null)) [
    | inl e ↦ rw e faults
    | inr e ↦ elim (Option-cases (s.memory p)) [
      | inl gone ↦ rw (e, gone) faults
      | inr (t, there) ↦ rw (e, there) (ends q)
    ]
  ]

  pub Keeps-store : (p : Ptr) (t : Option Timer) → Keeps Q (store p t)
  Keeps-store p t s q = ends q

  Keeps-set_next : (p v : Ptr) → Keeps Q (set_next p v)
  unfolding set_next
  Keeps-set_next p v = Keeps-bind _ _ (Keeps-load p) λ t. Keeps-store p _

  Keeps-set_prev : (p v : Ptr) → Keeps Q (set_prev p v)
  unfolding set_prev
  Keeps-set_prev p v = Keeps-bind _ _ (Keeps-load p) λ t. Keeps-store p _

  pub Keeps-set_expire : (p : Ptr) (n : ℕ) → Keeps Q (set_expire p n)
  unfolding set_expire
  Keeps-set_expire p n = Keeps-bind _ _ (Keeps-load p) λ t. Keeps-store p _

  Keeps-delete : (p : Ptr) → Keeps Q (delete p)
  unfolding delete
  Keeps-delete p = Keeps-bind _ _ (Keeps-load p) λ t. Keeps-store p _

  Keeps-get_head : Keeps Q get_head
  unfolding get_head
  Keeps-get_head s q = ends q

  Keeps-get_tail : Keeps Q get_tail
  unfolding get_tail
  Keeps-get_tail s q = ends q

  Keeps-put_head : (p : Ptr) → Keeps Q (put_head p)
  Keeps-put_head p s q = ends q

  Keeps-put_tail : (p : Ptr) → Keeps Q (put_tail p)
  Keeps-put_tail p s q = ends q

  ruleset keeping = (
    Keeps-bind, Keeps-then, Keeps-pure, Keeps-if, Keeps-load, Keeps-store, Keeps-set_next,
    Keeps-set_prev, Keeps-set_expire, Keeps-delete, Keeps-get_head, Keeps-get_tail, Keeps-put_head,
    Keeps-put_tail,
  )

  Keeps-bypass : (t : Ptr) → Keeps Q (bypass t)
  unfolding bypass
  Keeps-bypass t = search keeping

  Keeps-add_loop : (k : ℕ) (t p c : Ptr) → Keeps Q (add_loop k t p c)
  unfolding add_loop
  Keeps-add_loop zero t p c = λ s q. spins
  Keeps-add_loop (suc k) t p c = Keeps-if (c == null) _ _ (Keeps-pure _) (
      Keeps-bind _ _ (Keeps-load t) λ a.
        Keeps-bind _ _ (Keeps-load c)
          λ b. Keeps-if (ltb a.expire b.expire) _ _ (search keeping) (Keeps-add_loop k t c b.next))

  Keeps-add_behind : (k : ℕ) (t p c : Ptr) → Keeps Q (add_behind k t p c)
  unfolding add_behind
  Keeps-add_behind k t p c = Keeps-bind _ _ (Keeps-add_loop k t p c) λ r. search keeping

  Keeps-add_timer_from : (k : ℕ) (t h : Ptr) → Keeps Q (add_timer_from k t h)
  unfolding add_timer_from
  Keeps-add_timer_from k t h = Keeps-bind _ _ (Keeps-load h) λ p. Keeps-add_behind k t h p.next

  ruleset adding = (keeping, Keeps-add_timer_from, Keeps-bypass)

  pub Keeps-add_timer : (k : ℕ) (t : Ptr) → Keeps Q (add_timer k t)
  unfolding add_timer
  Keeps-add_timer k t = search adding depth 14

  Keeps-relocate : (k : ℕ) (t : Ptr) → Keeps Q (relocate k t)
  unfolding relocate
  Keeps-relocate k t = search adding depth 14

  pub Keeps-adjust_timer : (k : ℕ) (t : Ptr) → Keeps Q (adjust_timer k t)
  unfolding adjust_timer
  Keeps-adjust_timer k t = search (adding, Keeps-relocate) depth 14

  pub Keeps-del_timer : (t : Ptr) → Keeps Q (del_timer t)
  unfolding del_timer
  Keeps-del_timer t = search adding depth 14
