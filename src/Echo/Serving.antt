-- ===== src/Echo/Serving.antt =====
-- `main` of server_thread_copy.c around its table of clients.
use mathlib.Core.List.{map}
use my_tcp_cs.Base.{
  ℕ, suc, ◌-◌, ◌≡◌, refl, ◌∙◌, ap, Bool, true, false, not, Option, none, some, List, [], ◌∷◌, ◌++◌,
  leb, if◌then◌else◌, length, replicate,
}
use my_tcp_cs.Base.Int.{ℤ, negsuc}
use my_tcp_cs.Echo.{SockInfo, free_info, max, infos, Client, info_of, take_client, take_clients}
use my_tcp_cs.Echo.Slots.{take_clients-served}

-- What `main` comes to: it waits in `accept` with its table, sleeps for ever in the search for a
-- free entry, or has ended the process.
pub data Fate : Type 0 where
  accepting : List SockInfo → Fate
  searching : Fate
  ended : (status : ℤ) → Fate

-- The `while (1)` with what its `accept`s return, none for -1.
unfoldable pub accept_loop : (fuel : ℕ) → List SockInfo → List (Option Client) → Fate
accept_loop fuel is [] = accepting is
accept_loop fuel is (none ∷ later) = ended (negsuc 0)
accept_loop fuel is (some c ∷ later) = elim (take_client fuel is c) [
  | none ↦ searching
  | some is' ↦ accept_loop fuel is' later
]

-- `main`. The result of `bind` is dropped.
unfoldable pub serve_main :
    (fuel : ℕ) → (socket : Option ℕ) → (binds listens : Bool) → List (Option Client) → Fate
unfolding accept_loop
serve_main fuel none binds listens accepts = ended (negsuc 0)
serve_main fuel (some sfd) binds listens accepts =
    if not listens then ended (negsuc 0) else accept_loop fuel infos accepts

-- The table that a run of `take_clients` has come to.
abbrev pub fate_of : Option (List SockInfo) → Fate
fate_of none = searching
fate_of (some is) = accepting is

accept_loop-some :
    (fuel : ℕ) (is : List SockInfo) (cs : List Client)
    → accept_loop fuel is (map some cs) ≡ fate_of (take_clients fuel is cs)
unfolding accept_loop take_clients
accept_loop-some fuel is [] = refl
accept_loop-some fuel is (c ∷ cs) =
    elim (take_client fuel is c)
      as (λ o.
        (elim o as (λ x. Fate) [ none ↦ searching | some is' ↦ accept_loop fuel is' (map some cs) ])
        ≡ fate_of (elim o as (λ x. Option (List SockInfo)) [
          | none ↦ none
          | some is' ↦ take_clients fuel is' cs
        ])) [ none ↦ refl | some is' ↦ accept_loop-some fuel is' cs ]

fate_of-if :
    (b : Bool) (is : List SockInfo)
    → fate_of (if b then some is else none) ≡ (if b then accepting is else searching)
fate_of-if true is = refl
fate_of-if false is = refl

-- Whether the port could be bound or not, a server that has its socket and listens takes the first
-- 128 clients, in order, into the first entries of its table, and then waits for the next; from the
-- 129th client on, whoever of the others has gone meanwhile, it searches for a free entry, however
-- often.
pub serve_main-clients :
    (fuel sfd : ℕ) (binds : Bool) (cs : List Client)
    → serve_main (suc fuel) (some sfd) binds true (map some cs) ≡ (
        if leb (length cs) max
        then accepting (map info_of cs ++ replicate (max - length cs) free_info)
        else searching)
unfolding serve_main
serve_main-clients fuel sfd binds cs =
    accept_loop-some (suc fuel) infos cs
    ∙ ap fate_of (take_clients-served fuel cs)
    ∙ fate_of-if (leb (length cs) max) _
