-- ===== src/Echo/Caller.antt =====
-- client_copy.c: a client that numbers its messages and prints what comes back.
use my_tcp_cs.Base.{
  ℕ, ◌+◌, ◌^◌, Bool, not, Option, none, some, List, [], ◌∷◌, ◌++◌, Outcome, done, undefined, ◌>>=◌,
  leb, if◌then◌else◌, length, drop, replicate, codes, lf, decimal,
}
use my_tcp_cs.Base.Int.{ℤ, pos, negsuc}
use my_tcp_cs.Http.CStrings.{until_nul}
use my_tcp_cs.Echo.{Read, got, read_failed, Stand, reading, closed, exited}

-- "data : %d\n"
unfoldable pub line : (i : ℕ) → List ℕ
line i = codes "data : " ++ decimal i ++ lf ∷ []

-- What is written for it, its NUL included.
abbrev pub message : (i : ℕ) → List ℕ
message i = line i ++ 0 ∷ []

-- The length of `recvBuf`.
abbrev pub buffer_size : ℕ
buffer_size = 1024

-- `recvBuf` when a message has been written.
abbrev pub prepared : (i : ℕ) → List ℕ
prepared i = message i ++ drop (length (message i)) (replicate buffer_size 0)

-- `recvBuf` behind a `read`, and the text that is then printed.
unfoldable pub heard : (i : ℕ) → (bs : List ℕ) → Outcome (List ℕ)
unfolding until_nul line
heard i bs =
    if leb (length bs) buffer_size
    then until_nul (bs ++ drop (length bs) (prepared i))
    else undefined

-- What the client has written and printed, and how it stands.
pub record Talk : Type 0 where
  pub written : List (List ℕ)
  pub printed : List (List ℕ)
  pub stand : Stand

abbrev pub last_words : (i : ℕ) → Stand → Talk
last_words i stand = record { written = message i ∷ []; printed = []; stand = stand }

-- `i++`, which must not overflow, and what is done next.
unfoldable pub counting : {A : Type 0} → (i : ℕ) → Outcome A → Outcome A
counting i o = if leb (2 ^ 31) (i + 1) then undefined else o

-- The `while (1)` from the number `i` on, with what its `read`s return.
unfoldable pub talk : (i : ℕ) → List Read → Outcome Talk
unfolding counting heard
talk i [] = counting i (done (last_words i reading))
talk i (read_failed ∷ rs) = counting i (done (last_words i exited))
talk i (got [] ∷ rs) = counting i (done (last_words i closed))
talk i (got (b ∷ bs) ∷ rs) =
    let rest = talk (i + 1) rs in
    counting i (do
      text ← heard i (b ∷ bs)
      more ← rest
      done (record {
        written = message i ∷ more.written;
        printed = text ∷ more.printed;
        stand = more.stand;
      }))

-- `main`: what has been said, with the status of its end, if it has ended.
unfoldable pub call_server :
    (socket : Option ℕ) → (connects : Bool) → List Read → Outcome (Option Talk × Option ℤ)
unfolding talk
call_server none connects rs = done (none, some (negsuc 0))
call_server (some fd) connects rs = if not connects then done (none, some (negsuc 0)) else (do
  said ← talk 1 rs
  done (
    some said,
    elim said.stand [ reading ↦ none | closed ↦ some (pos 0) | exited ↦ some (negsuc 0) ],
  ))
