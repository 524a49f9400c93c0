-- ===== src/Echo/Slots.antt =====
-- The table of clients in server_thread_copy.c, whose entries are never given back.
use mathlib.Core.List.{append_assoc, append-nil, map}
use my_tcp_cs.Base.{
  ℕ, zero, suc, ◌-◌, ◌≡◌, refl, sym, ◌∙◌, ap, true, false, Option, none, some, List, [], ◌∷◌, ◌++◌,
  leb, if◌then◌else◌, length, set, replicate, arith,
}
use my_tcp_cs.Echo.{
  SockInfo, free_info, max, infos, Client, find_free, find_slot, info_of, take_client, take_clients,
}

-- The entries of clients, and then `k` free ones.
abbrev table : List Client → ℕ → List SockInfo
table cs k = map info_of cs ++ replicate k free_info

find_free-table :
    (cs : List Client) (k : ℕ)
    → find_free (table cs k)
      ≡ (elim k as (λ x. Option ℕ) [ zero ↦ none | suc j ↦ some (length cs) ])
unfolding find_free
find_free-table [] zero = refl
find_free-table [] (suc k) = refl
find_free-table (c ∷ cs) zero = rw (find_free-table cs zero) refl
find_free-table (c ∷ cs) (suc k) = rw (find_free-table cs (suc k)) (ap some (omega arith))

set-table :
    (cs : List Client) (k : ℕ) (d : Client)
    → set (table cs (suc k)) (length cs) (info_of d) ≡ table (cs ++ d ∷ []) k
set-table [] k d = refl
set-table (c ∷ cs) k d = ap (◌∷◌ (info_of c)) (set-table cs k d)

find_slot-full : (fuel : ℕ) (cs : List Client) → find_slot fuel (table cs 0) ≡ none
unfolding find_slot
find_slot-full zero cs = refl
find_slot-full (suc fuel) cs = rw (find_slot, find_free-table cs 0) (find_slot-full fuel cs)

find_slot-room :
    (fuel k : ℕ) (cs : List Client) → find_slot (suc fuel) (table cs (suc k)) ≡ some (length cs)
unfolding find_slot
find_slot-room fuel k cs = rw (find_slot, find_free-table cs (suc k)) refl

take_client-full :
    (fuel : ℕ) (cs : List Client) (c : Client) → take_client fuel (table cs 0) c ≡ none
unfolding take_client
take_client-full fuel cs c = rw (take_client, find_slot-full fuel cs) refl

take_client-room :
    (fuel k : ℕ) (cs : List Client) (c : Client)
    → take_client (suc fuel) (table cs (suc k)) c ≡ some (table (cs ++ c ∷ []) k)
unfolding take_client
take_client-room fuel k cs c =
    rw (take_client, find_slot-room fuel k cs) (ap some (set-table cs k c))

-- What comes of clients for `k` free entries.
abbrev served : (before cs : List Client) (k : ℕ) → Option (List SockInfo)
served before cs k = if leb (length cs) k then some (table (before ++ cs) (k - length cs)) else none

leb_zero : (k : ℕ) → leb 0 k ≡ true
leb_zero k = ground arith

leb_none : (n : ℕ) → leb (suc n) 0 ≡ false
leb_none n = ground arith

leb-suc : (n k : ℕ) → leb (suc n) (suc k) ≡ leb n k
leb-suc n k = ground arith

minus_zero : (k : ℕ) → k - 0 ≡ k
minus_zero k = omega arith

minus-suc : (n k : ℕ) → suc k - suc n ≡ k - n
minus-suc n k = omega arith

take_clients-table :
    (fuel k : ℕ) (before cs : List Client)
    → take_clients (suc fuel) (table before k) cs ≡ served before cs k
unfolding take_clients
take_clients-table fuel k before [] = sym (rw (append-nil before, leb_zero k, minus_zero k) refl)
take_clients-table fuel zero before (c ∷ cs) =
    rw (take_clients, take_client-full (suc fuel) before c) (sym (rw (leb_none (length cs)) refl))
take_clients-table fuel (suc k) before (c ∷ cs) =
    rw (take_clients, take_client-room fuel k before c)
      (take_clients-table fuel k (before ++ c ∷ []) cs
        ∙ rw (append_assoc before (c ∷ []) cs, leb-suc (length cs) k, minus-suc (length cs) k) refl)

-- The server takes exactly as many clients as `infos` has entries, in order, each with one pass of
-- the search; for one more it searches for ever, though all the others may have gone: no number of
-- passes is enough.
pub take_clients-served :
    (fuel : ℕ) (cs : List Client)
    → take_clients (suc fuel) infos cs ≡ (
        if leb (length cs) max
        then some (map info_of cs ++ replicate (max - length cs) free_info)
        else none)
take_clients-served fuel cs = take_clients-table fuel max [] cs
