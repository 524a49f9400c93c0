-- ===== src/Http/Progress/Ending.antt =====
-- What the routines of webserver/src/http_conn.cpp leave, where they return.
use my_tcp_cs.Base.{
  ℕ, ◌<◌, ◌≡◌, ◌∙◌, Bool, true, false, inl, inr, Option, none, some, List, Outcome, done, undefined,
  terminated, ◌>>=◌, ltb, if◌then◌else◌, length, length-set, Bool-cases, arith,
}
use my_tcp_cs.Http.CStrings.{poke}
use my_tcp_cs.Http.Types.{HttpConn}

-- If the routine returns, its result satisfies `P`.
pub data Ends {A : Type 0} (P : A → Type 0) : Outcome A → Type 0 where
  ends : {a : A} → P a → Ends P (done a)
  breaks : Ends P undefined
  throws : Ends P terminated

pub Ends-bind :
    {A B : Type 0} {P : A → Type 0} {Q : B → Type 0} (o : Outcome A) (k : A → Outcome B)
    → Ends P o
    → ((a : A) → P a → Ends Q (k a))
    → Ends Q (o >>= k)
Ends-bind _ k (ends p) next = next _ p
Ends-bind _ k breaks next = breaks
Ends-bind _ k throws next = throws

pub Ends-if :
    {A : Type 0} {P : A → Type 0} (b : Bool) (l r : Outcome A)
    → Ends P l
    → Ends P r
    → Ends P (if b then l else r)
Ends-if true l r x y = x
Ends-if false l r x y = y

pub of_Ends : {A : Type 0} {P : A → Type 0} (a : A) → Ends P (done a) → P a
of_Ends a (ends p) = p

pub Ends-any : {A : Type 0} (o : Outcome A) → Ends (λ _. Unit {0}) o
Ends-any (done a) = ends tt
Ends-any undefined = breaks
Ends-any terminated = throws

pub Ends-option :
    {A B : Type 0} {P : B → Type 0} (o : Option A) (n : Outcome B) (k : A → Outcome B)
    → Ends P n
    → ((a : A) → Ends P (k a))
    → Ends P (elim o [ none ↦ n | some a ↦ k a ])
Ends-option none n k l r = l
Ends-option (some a) n k l r = r a

pub bind-any :
    {A B : Type 0} {Q : B → Type 0} (o : Outcome A) (k : A → Outcome B)
    → ((a : A) → Ends Q (k a))
    → Ends Q (o >>= k)
bind-any (done a) k next = next a
bind-any undefined k next = breaks
bind-any terminated k next = throws

-- A store keeps the buffer's length.
pub Ends-poke :
    {L : ℕ} (buf : List ℕ) (i v : ℕ)
    → length buf ≡ L
    → Ends (λ buf'. length buf' ≡ L) (poke buf i v)
unfolding poke
Ends-poke buf i v len = Ends-if (ltb i (length buf)) _ _ (ends (length-set buf i v ∙ len)) breaks

-- A store is inside the buffer.
pub Ends-store :
    {L : ℕ} (buf : List ℕ) (i v : ℕ)
    → length buf ≡ L
    → Ends (λ buf'. (length buf' ≡ L) × (i < L)) (poke buf i v)
unfolding poke
Ends-store buf i v len = elim (Bool-cases (ltb i (length buf))) [
  | inl inside ↦ rw inside (ends (length-set buf i v ∙ len, grind (arith, inside, len)))
  | inr outside ↦ rw outside breaks
]

-- The buffer's length is `L` and `m_checked_idx_` is `i`.
pub data Still (L i : ℕ) {X : Type 0} : HttpConn × X → Type 0 where
  still : {c : HttpConn} {x : X} → length c.read_buf ≡ L → c.checked_idx ≡ i → Still L i (c, x)
