-- ===== src/Echo.antt =====
-- server_thread_copy.c: an echo server with one thread for each client.
pub mod Slots
pub mod Caller
pub mod Rounds
pub mod Serving
use my_tcp_cs.Base.{
  ℕ, zero, suc, ◌+◌, Bool, true, false, Option, none, some, List, [], ◌∷◌, ◌++◌, Outcome, done,
  undefined, ◌>>=◌, leb, ◌==◌, if◌then◌else◌, length, drop, set, replicate,
}
use my_tcp_cs.Http.CStrings.{until_nul}

-- `struct sockinfo`; `tid` and `cfd` are none for -1.
pub record SockInfo : Type 0 where
  pub tid : Option ℕ
  pub addr : ℕ
  pub cfd : Option ℕ

-- An entry that no client has.
abbrev pub free_info : SockInfo
free_info = record { tid = none; addr = 0; cfd = none }

-- The length of `infos`.
abbrev pub max : ℕ
max = 128

-- `infos` when `main` begins to accept.
abbrev pub infos : List SockInfo
infos = replicate max free_info

-- A client that `accept` brings, with the id of its thread: `pthread_create` succeeds.
pub record Client : Type 0 where
  pub cfd : ℕ
  pub addr : ℕ
  pub tid : ℕ

-- One pass of the search for a free entry.
unfoldable pub find_free : List SockInfo → Option ℕ
find_free [] = none
find_free (i ∷ is) =
    let rest = find_free is in
    elim i.cfd [ none ↦ some 0 | some fd ↦ elim rest [ none ↦ none | some n ↦ some (n + 1) ] ]

-- The search, which after each pass without success sleeps and begins again: none if the fuel runs
-- out. No thread writes to `infos` meanwhile.
unfoldable pub find_slot : ℕ → List SockInfo → Option ℕ
unfolding find_free
find_slot zero is = none
find_slot (suc fuel) is = elim (find_free is) [ none ↦ find_slot fuel is | some n ↦ some n ]

-- The entry that a client gets.
abbrev pub info_of : Client → SockInfo
info_of c = record { tid = some c.tid; addr = c.addr; cfd = some c.cfd }

-- One round of the loop in `main`.
unfoldable pub take_client : ℕ → List SockInfo → Client → Option (List SockInfo)
unfolding find_slot
take_client fuel is c = elim (find_slot fuel is) [
  | none ↦ none
  | some n ↦ some (set is n (info_of c))
]

unfoldable pub take_clients : ℕ → List SockInfo → List Client → Option (List SockInfo)
unfolding take_client
take_clients fuel is [] = some is
take_clients fuel is (c ∷ cs) = elim (take_client fuel is c) [
  | none ↦ none
  | some is' ↦ take_clients fuel is' cs
]

-- What a `read` of a client's thread returns: some bytes, none if the client has closed, or -1.
pub data Read : Type 0 where
  got : List ℕ → Read
  read_failed : Read

-- How a client's thread stands: it waits for more, has closed its descriptor, or has ended the
-- process.
pub data Stand : Type 0 where
  reading closed exited : Stand

-- `working(pinfo)` on the bytes in `recvBuf` and what its `read`s return: the messages written
-- back, and how it stands. A buffer without a NUL is read past its end.
unfoldable pub working : (recv_buf : List ℕ) → List Read → Outcome (List (List ℕ) × Stand)
unfolding until_nul
working buf [] = done ([], reading)
working buf (read_failed ∷ rs) = done ([], exited)
working buf (got [] ∷ rs) = done ([], closed)
working buf (got (b ∷ bs) ∷ rs) =
    let buf' = (b ∷ bs) ++ drop (length (b ∷ bs)) buf in
    let rest = working buf' rs in
    if leb (length (b ∷ bs)) (length buf)
    then (do s ← until_nul buf'; (sent, stand) ← rest; done ((s ++ 0 ∷ []) ∷ sent, stand))
    else undefined
