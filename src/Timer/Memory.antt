-- ===== src/Timer/Memory.antt =====
-- The memory that the timers live in: `new`, `delete` and member access through a `Util_Timer*`
-- of webserver/include/lst_timer.h, with a fault wherever C++ leaves the behaviour undefined.
use my_tcp_cs.Base.{ℕ, ◌≡◌, Option, none, some, false, arith, ◌==◌, if◌then◌else◌}

-- The address of a timer; `nullptr` is 0.
abbrev pub Ptr : Type 0
Ptr = ℕ

abbrev pub null : Ptr
null = 0

-- `Util_Timer`. A callback is named by a number, and so is the connection handed to it.
pub record Timer : Type 0 where
  pub cb_func : ℕ
  pub expire : ℕ
  pub user_data : ℕ
  pub prev : Ptr
  pub next : Ptr

abbrev pub Memory : Type 0
Memory = Ptr → Option Timer

-- `none` gives the address back, `some t` fills it.
unfoldable pub write : Memory → Ptr → Option Timer → Memory
write h p c a = if a == p then c else h a

-- The timers in memory, `Sort_Timer_List`'s two fields, and the state of the rest of the server.
pub record State (E : Type 0) : Type 0 where
  pub memory : Memory
  pub head : Ptr
  pub tail : Ptr
  pub env : E

-- A run ends well, with an access to a dead or null timer, or with its fuel used up.
pub data Run (E A : Type 0) : Type 0 where
  ok : A → State E → Run E A
  fault : Run E A
  out_of_fuel : Run E A

abbrev pub Cmd : Type 0 → Type 0 → Type 0
Cmd E A = State E → Run E A

module _ {E A B : Type 0} where
  abbrev pub and_then : Run E A → (A → Cmd E B) → Run E B
  and_then (ok a s) k = k a s
  and_then fault k = fault
  and_then out_of_fuel k = out_of_fuel

  infixl 5 ◌>>=◌ ◌>>◌
  abbrev pub ◌>>=◌ : Cmd E A → (A → Cmd E B) → Cmd E B
  m >>= k = λ s. and_then (m s) k

  abbrev pub ◌>>◌ : Cmd E A → Cmd E B → Cmd E B
  m >> n = m >>= λ _. n

module _ {E A : Type 0} where
  abbrev pub pure : A → Cmd E A
  pure = ok

module _ {E : Type 0} where
  -- A read of `*p`.
  unfoldable pub load : Ptr → Cmd E Timer
  load p s = if p == null then fault else elim (s.memory p) [ none ↦ fault | some t ↦ ok t s ]

  -- The raw write: a timer, or none.
  abbrev pub store : Ptr → Option Timer → Cmd E (Unit {0})
  store p c s = ok tt (record s { memory = write s.memory p c })

  -- `p->next_ = q`
  unfoldable pub set_next : Ptr → Ptr → Cmd E (Unit {0})
  set_next p q = do t ← load p; store p (some (record t { next = q }))

  -- `p->prev_ = q`
  unfoldable pub set_prev : Ptr → Ptr → Cmd E (Unit {0})
  set_prev p q = do t ← load p; store p (some (record t { prev = q }))

  -- `p->expire_ = e`
  unfoldable pub set_expire : Ptr → ℕ → Cmd E (Unit {0})
  set_expire p e = do t ← load p; store p (some (record t { expire = e }))

  -- `delete p`; a second `delete` is a fault. No caller passes a null pointer.
  unfoldable pub delete : Ptr → Cmd E (Unit {0})
  delete p = do load p; store p none

  unfoldable pub get_head : Cmd E Ptr
  get_head s = ok s.head s

  unfoldable pub get_tail : Cmd E Ptr
  get_tail s = ok s.tail s

  abbrev pub put_head : Ptr → Cmd E (Unit {0})
  put_head p s = ok tt (record s { head = p })

  abbrev pub put_tail : Ptr → Cmd E (Unit {0})
  put_tail p s = ok tt (record s { tail = p })

  abbrev pub get_env : Cmd E E
  get_env s = ok s.env s

  abbrev pub put_env : E → Cmd E (Unit {0})
  put_env e s = ok tt (record s { env = e })

pub write_self : (h : Memory) (p : Ptr) (t : Option Timer) → write h p t p ≡ t
unfolding write
write_self h p t = ground arith

pub write-ne : (h : Memory) (p a : Ptr) (t : Option Timer) → (a == p) ≡ false → write h p t a ≡ h a
unfolding write
write-ne h p a t ne = rw ne
