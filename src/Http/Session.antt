-- ===== src/Http/Session.antt =====
-- A connection of webserver/src/http_conn.cpp from `Init` on: request after request, each read by
-- the event loop, answered by a worker, and sent by the event loop, as main.cpp has it.
pub mod Renewing
pub mod Pages
use my_tcp_cs.Base.{
  ℕ, Bool, true, false, not, Option, none, some, List, [], ◌∷◌, ◌++◌, Outcome, done, ◌>>=◌,
  if◌then◌else◌,
}
use my_tcp_cs.Http.Types.{HttpConn, HttpCode}
use my_tcp_cs.Http.Respond.{Files, process_request, process_write}
use my_tcp_cs.Http.Transfer.{Recv, read, Writev, Written, write}

-- What the kernel answers while one request is read and answered.
pub record Calls : Type 0 where
  pub recvs : List Recv
  pub writevs : List Writev

-- `Read`, `Process` and `Write` for one request that comes whole. None, if the connection is closed
-- before an answer is ready, or if `Process` waits for more input.
unfoldable pub exchange :
    Files
    → (stray_code : HttpCode) → (stray : Bool) → (fuel : ℕ) → HttpConn
    → Calls
    → Outcome (Option Written)
exchange fs stray_code stray fuel c calls = do
  (c₁, complete) ← read false c calls.recvs
  if not complete then done none else (do
    r ← process_request fs stray_code fuel c₁
    elim r [
      | none ↦ done none
      | some (c₂, code) ↦ (do
        (c₃, built) ← process_write stray c₂ code
        if not built then done none else done (some (write false c₃ calls.writevs)))
    ])

-- The bytes that a connection sends for one request after another, as long as it stays open.
unfoldable pub session :
    Files
    → (stray_code : HttpCode) → (stray : Bool) → (fuel : ℕ) → HttpConn
    → List Calls
    → Outcome (Option (List ℕ))
unfolding exchange
session fs stray_code stray fuel c [] = done (some [])
session fs stray_code stray fuel c (calls ∷ later) =
    exchange fs stray_code stray fuel c calls >>= λ r. elim r [
      | none ↦ done none
      | some w ↦
          let rest = session fs stray_code stray fuel w.conn later in
          if not w.result
          then done (some w.output)
          else (rest >>= λ o. done (elim o [ none ↦ none | some out ↦ some (w.output ++ out) ]))
    ]
