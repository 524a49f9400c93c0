-- ===== src/Tests/Echo.antt =====
-- The theorem on the echo server at two clients, and its thread at short messages.
use my_tcp_cs.Base.{
  ℕ, ◌+◌, ◌-◌, ◌≡◌, refl, true, false, arith, length-replicate, some, List, [], ◌∷◌, ◌++◌, map,
  codes, leb, if◌then◌else◌, length, replicate, done,
}
use my_tcp_cs.Http.CStrings.{until_nul}
use my_tcp_cs.Echo.{free_info, max, Client, info_of, got, closed, reading, working}
use my_tcp_cs.Echo.Caller.{buffer_size, talk}
use my_tcp_cs.Echo.Rounds.{messages, lines, working-talk}
use my_tcp_cs.Echo.Serving.{accepting, searching, serve_main, serve_main-clients}

abbrev two_callers : List Client
two_callers = record { cfd = 4; addr = 1; tid = 8 } ∷ record { cfd = 5; addr = 2; tid = 9 } ∷ []

serve_main-clients_example : serve_main 1 (some 3) false true (map some two_callers) ≡ (
    if leb (length two_callers) max
    then accepting (map info_of two_callers ++ replicate (max - length two_callers) free_info)
    else searching)
serve_main-clients_example = serve_main-clients 0 3 false two_callers

-- A short message without a NUL comes back with the end of the one before it.
stale :
    working (replicate 8 0) (got (codes "hello") ∷ got (codes "hi") ∷ got [] ∷ [])
    ≡ done ((codes "hello" ++ 0 ∷ []) ∷ (codes "hillo" ++ 0 ∷ []) ∷ [], closed)
unfolding working until_nul
stale = refl

-- Two rounds, with a buffer that holds other bytes before.
working-talk_example :
    (working (replicate buffer_size 65) (map got (messages 1 2)) ≡ done (messages 1 2, reading))
    × (talk 1 (map got (messages 1 2))
        ≡ done (record { written = messages 1 (2 + 1); printed = lines 1 2; stand = reading }))
working-talk_example =
    working-talk 2 (replicate buffer_size 65) (omega arith)
      (length-replicate {A = ℕ} buffer_size 65)
