-- ===== src/HalfClose/Closing.antt =====
-- servertest.cpp reads all that its client sends, and answers when the client has closed its half.
use mathlib.Core.List.{append-nil}
use my_tcp_cs.Base.{
  ℕ, ◌≡◌, refl, ◌∙◌, ap, true, none, some, List, [], ◌∷◌, ◌++◌, map, All, done, undefined, ◌>>=◌,
  length, length-replicate, replicate,
}
use my_tcp_cs.Base.Int.{pos}
use my_tcp_cs.Http.Nul.{text_of}
use my_tcp_cs.Http.Lines.{bind-done}
use my_tcp_cs.Echo.{Read, got}
use my_tcp_cs.HalfClose.{max_line, receive, ServerCalls, over_text, say_over, server_main}
use my_tcp_cs.HalfClose.Texts.{
  Portion, EndsLoop, bind_undefined, receive-end, receive-portions, receive-overrun,
}

-- The server has its client.
pub record HasClient (calls : ServerCalls) : Type 0 where
  pub listenfd : ℕ
  pub clientfd : ℕ
  pub socket : calls.socket ≡ some listenfd
  pub binds : calls.binds ≡ true
  pub listens : calls.listens ≡ true
  pub accepts : calls.accepts ≡ some clientfd

server_main-HasClient :
    (calls : ServerCalls)
    → HasClient calls
    → server_main calls ≡ (
        receive (replicate max_line 0) calls.reads >>= λ r.
        done (elim r [ none ↦ none | some texts ↦ some (say_over calls texts) ]))
unfolding server_main
server_main-HasClient calls h = rw (server_main, h.socket, h.binds, h.listens, h.accepts) refl

-- Where each `read` brings fewer bytes than the buffer holds, the server prints the text of each,
-- in order, until the client has closed its half or a `read` fails, and then sends its answer; it
-- ends with status 0 if the kernel takes the answer whole.
pub server_main-portions :
    (calls : ServerCalls) (portions : List (List ℕ)) (r : Read) (rs : List Read)
    → HasClient calls
    → All Portion portions
    → EndsLoop r
    → calls.reads ≡ map got portions ++ r ∷ rs
    → calls.sends (length over_text) ≡ some (length over_text)
    → server_main calls
      ≡ done (
          some (record {
            status = pos 0;
            printed = map text_of portions;
            sent = some over_text;
            shut = true;
          }))
unfolding say_over
server_main-portions calls portions r rs h a last reads sends =
    server_main-HasClient calls h
    ∙ bind-done _ (
        ap (receive (replicate max_line 0)) reads
        ∙ receive-portions (replicate max_line 0) portions (r ∷ rs) []
            (length-replicate {A = ℕ} max_line 0) a (λ buf' len. receive-end buf' r rs last))
    ∙ ap (λ t. done (some (say_over calls t))) (append-nil (map text_of portions))
    ∙ rw (say_over, sends) refl

-- A `read` that fills the server's buffer has it write behind the buffer's end.
pub server_main-overrun :
    (calls : ServerCalls) (portions : List (List ℕ)) (bs : List ℕ) (rs : List Read)
    → HasClient calls
    → All Portion portions
    → length bs ≡ max_line
    → calls.reads ≡ map got portions ++ got bs ∷ rs
    → server_main calls ≡ undefined
server_main-overrun calls portions bs rs h a whole reads =
    server_main-HasClient calls h
    ∙ bind_undefined _ (
        ap (receive (replicate max_line 0)) reads
        ∙ receive-overrun (replicate max_line 0) portions bs rs
            (length-replicate {A = ℕ} max_line 0) a whole)
