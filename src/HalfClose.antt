-- ===== src/HalfClose.antt =====
-- servertest.cpp and clienttest.cpp: a client that sends one line and closes its half of the
-- connection, and a server that reads until then and answers on the other half.
pub mod Texts
pub mod Closing
pub mod Together
use my_tcp_cs.Base.{
  ℕ, Bool, true, false, not, ◌&&◌, Option, none, some, List, [], ◌∷◌, ◌++◌, Outcome, done,
  undefined, ◌>>=◌, leb, ltb, ◌==◌, if◌then◌else◌, length, drop, replicate, codes,
}
use my_tcp_cs.Base.Int.{ℤ, pos, negsuc}
use my_tcp_cs.Http.CStrings.{until_nul, poke}
use my_tcp_cs.Echo.{Read, got, read_failed}

-- MAXLINE, the length of the server's `message`.
abbrev pub max_line : ℕ
max_line = 1024

-- Bytes that a `read` puts at the front of a buffer. The call is given at most `limit` bytes of it.
unfoldable pub fill : (limit : ℕ) → (buf bs : List ℕ) → Outcome (List ℕ)
fill limit buf bs =
    if leb (length bs) limit && leb (length bs) (length buf)
    then done (bs ++ drop (length bs) buf)
    else undefined

-- `buf[n] = 0` behind what a `read` has brought, and the text that is then printed.
unfoldable pub ended : (buf : List ℕ) → (n : ℕ) → Outcome (List ℕ × List ℕ)
unfolding until_nul poke
ended buf n = do buf' ← poke buf n 0; text ← until_nul buf'; done (buf', text)

-- The server's `while (1)`: the texts that it prints. None, if it waits for more.
unfoldable pub receive : (message : List ℕ) → List Read → Outcome (Option (List (List ℕ)))
unfolding fill ended
receive message [] = done none
receive message (read_failed ∷ rs) = done (some [])
receive message (got [] ∷ rs) = done (some [])
receive message (got (b ∷ bs) ∷ rs) = do
  filled ← fill max_line message (b ∷ bs)
  (message', text) ← ended filled (length (b ∷ bs))
  rest ← receive message' rs
  done (elim rest [ none ↦ none | some texts ↦ some (text ∷ texts) ])

-- What the calls in `main` return; `sends` is the result of `send`.
pub record ServerCalls : Type 0 where
  pub socket : Option ℕ
  pub binds : Bool
  pub listens : Bool
  pub accepts : Option ℕ
  pub reads : List Read
  pub sends : ℕ → Option ℕ

pub record ClientCalls : Type 0 where
  pub socket : Option ℕ
  pub connects : Bool
  pub sends : ℕ → Option ℕ
  pub reply : Read

-- What a program has done when it ends: its status, the texts that it has printed from what it has
-- read, what it has sent, and whether it has called `shutdown` on one of its sockets.
pub record Report : Type 0 where
  pub status : ℤ
  pub printed : List (List ℕ)
  pub sent : Option (List ℕ)
  pub shut : Bool

-- An end before anything is sent.
abbrev pub early : (status : ℤ) → Report
early status = record { status = status; printed = []; sent = none; shut = false }

-- `overstring` and `sendline`.
abbrev pub over_text : List ℕ
over_text = codes "it is over !"

abbrev pub hello_text : List ℕ
hello_text = codes "hello, i am xiaolin"

-- The test of `ret != strlen(text)`.
abbrev pub all_sent : (ret : Option ℕ) → (text : List ℕ) → Bool
all_sent none text = false
all_sent (some n) text = n == length text

-- The end of the server's `main`, behind its loop.
unfoldable pub say_over : ServerCalls → (printed : List (List ℕ)) → Report
say_over calls printed =
    if all_sent (calls.sends (length over_text)) over_text
    then record { status = pos 0; printed = printed; sent = some over_text; shut = true }
    else record { status = negsuc 0; printed = printed; sent = some over_text; shut = false }

-- `main` of servertest.cpp. None, if it waits for more.
unfoldable pub server_main : ServerCalls → Outcome (Option Report)
unfolding receive say_over
server_main calls = elim calls.socket [
  | none ↦ done (some (early (negsuc 0)))
  | some listenfd ↦
      if not calls.binds
      then done (some (early (negsuc 0)))
      else if not calls.listens
      then done (some (early (pos 0)))
      else elim calls.accepts [
        | none ↦ done (some (early (pos 0)))
        | some clientfd ↦ (do
          r ← receive (replicate max_line 0) calls.reads
          done (elim r [ none ↦ none | some texts ↦ some (say_over calls texts) ]))
      ]
]

-- The client's `read` of the answer into `messages`, for which it asks as many bytes as it has
-- sent. After a failure it writes to `messages[-1]`.
unfoldable pub read_reply : Read → Outcome (List ℕ)
unfolding fill ended
read_reply read_failed = undefined
read_reply (got bs) = do
  filled ← fill (length hello_text) (replicate 64 0) bs
  (messages, text) ← ended filled (length bs)
  done text

-- `main` of clienttest.cpp.
unfoldable pub client_main : ClientCalls → Outcome Report
unfolding read_reply
client_main calls = elim calls.socket [
  | none ↦ done (early (negsuc 0))
  | some connectfd ↦
      if not calls.connects
      then done (early (negsuc 0))
      else if not (all_sent (calls.sends (length hello_text)) hello_text)
      then done (record { status = negsuc 0; printed = []; sent = some hello_text; shut = false })
      else (do
        text ← read_reply calls.reply
        done (record { status = pos 0; printed = text ∷ []; sent = some hello_text; shut = true }))
]
