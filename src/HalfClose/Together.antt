-- ===== src/HalfClose/Together.antt =====
-- clienttest.cpp and servertest.cpp together: each gets what the other has sent.
use my_tcp_cs.Base.{
  ℕ, ◌≤◌, ◌<◌, ◌≡◌, refl, sym, ◌∙◌, ap, ap₂, subst, inl, true, some, List, [], ◌∷◌, ◌++◌, map, All,
  done, length, length-replicate, replicate, arith,
}
use my_tcp_cs.Base.Int.{pos}
use my_tcp_cs.Http.Nul.{text_of, NonNul, text_of-NonNul, NonNul-parts}
use my_tcp_cs.Http.Lines.{bind-done}
use my_tcp_cs.Http.Receiving.{joined}
use my_tcp_cs.Echo.{Read, got}
use my_tcp_cs.HalfClose.{
  ServerCalls, ClientCalls, over_text, hello_text, all_sent, server_main, read_reply, client_main,
}
use my_tcp_cs.HalfClose.Texts.{Portion, ended-text, fill-short}
use my_tcp_cs.HalfClose.Closing.{HasClient, server_main-portions}

-- The texts of portions without NULs are the portions.
texts-NonNul :
    (portions : List (List ℕ)) → NonNul (joined portions) → map text_of portions ≡ portions
texts-NonNul [] h = refl
texts-NonNul (bs ∷ portions) h =
    let (l, r) = NonNul-parts bs (joined portions) h in
    ap₂ ◌∷◌ (text_of-NonNul bs l) (texts-NonNul portions r)

hello-NonNul : NonNul hello_text
hello-NonNul = omega arith

-- The client has its server, which sends `reply` in one piece.
pub record HasServer (calls : ClientCalls) (reply : List ℕ) : Type 0 where
  pub connectfd : ℕ
  pub socket : calls.socket ≡ some connectfd
  pub connects : calls.connects ≡ true
  pub sends : calls.sends (length hello_text) ≡ some (length hello_text)
  pub arrives : calls.reply ≡ got reply

client_main-HasServer :
    (calls : ClientCalls) (reply : List ℕ)
    → HasServer calls reply
    → length reply ≤ length hello_text
    → client_main calls
      ≡ done (record {
        status = pos 0;
        printed = text_of reply ∷ [];
        sent = some hello_text;
        shut = true;
      })
unfolding client_main read_reply
client_main-HasServer calls reply h short =
    let zeros : List ℕ = replicate 64 0 in
    let room : length reply < length zeros = omega (arith, short, length-replicate {A = ℕ} 64 0) in
    let whole : all_sent (calls.sends (length hello_text)) hello_text ≡ true = rw h.sends refl in
    rw (client_main, h.socket, h.connects, whole)
      (bind-done _ (
        ap read_reply h.arrives
        ∙ bind-done _ (fill-short (length hello_text) zeros reply short (omega (arith, room)))
        ∙ bind-done _ (ended-text zeros reply room)))

-- The two programs together: in whatever portions the client's line reaches the server, if the
-- kernel takes what is sent whole and the server's answer comes in one piece, the server prints the
-- portions of "hello, i am xiaolin" and sends "it is over !", the client prints that, and both end
-- with status 0.
pub server_main-client_main :
    (server : ServerCalls) (client : ClientCalls) (portions : List (List ℕ)) (rs : List Read)
    → HasClient server
    → All Portion portions
    → joined portions ≡ hello_text
    → server.reads ≡ map got portions ++ got [] ∷ rs
    → server.sends (length over_text) ≡ some (length over_text)
    → HasServer client over_text
    → (client_main client
        ≡ done (record {
          status = pos 0;
          printed = over_text ∷ [];
          sent = some (joined portions);
          shut = true;
        }))
      × (server_main server
          ≡ done (
              some (record {
                status = pos 0;
                printed = portions;
                sent = some over_text;
                shut = true;
              })))
server_main-client_main server client portions rs h a whole reads sends h' = (
  client_main-HasServer client over_text h' (omega arith)
      ∙ ap₂ (λ p t. done (record { status = pos 0; printed = p ∷ []; sent = some t; shut = true }))
          (text_of-NonNul over_text (omega arith)) (sym whole),
  server_main-portions server portions (got []) rs h a (inl refl) reads sends
      ∙ ap
          (λ t.
            done
              (some (record { status = pos 0; printed = t; sent = some over_text; shut = true })))
          (texts-NonNul portions (subst NonNul (sym whole) hello-NonNul)),
)
