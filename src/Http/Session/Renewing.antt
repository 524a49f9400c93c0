-- ===== src/Http/Session/Renewing.antt =====
-- What `Write` of webserver/src/http_conn.cpp leaves of a connection that is kept.
use my_tcp_cs.Base.{arith, ◌≡◌, refl, Bool, true, false, List, [], ◌∷◌, if◌then◌else◌, ◌==◌}
use my_tcp_cs.Base.Int.{int_of, is_negative, is_used_up}
use my_tcp_cs.Http.Types.{HttpConn, init}
use my_tcp_cs.Http.Respond.{unmap}
use my_tcp_cs.Http.Transfer.{
  Writev, wrote, writev_failed, for_input, Written, sent, write_loop, write,
}

-- Sent whole, an answer leaves a connection that is kept as `Init` leaves it.
abbrev pub Renewed : Written → Type 0
Renewed w = w.rearm ≡ for_input → w.result ≡ true → (e : HttpConn) × (w.conn ≡ init e)

Renewed-if : (b : Bool) (l r : Written) → Renewed l → Renewed r → Renewed (if b then l else r)
Renewed-if true l r x y = x
Renewed-if false l r x y = y

renewed : (b : Bool) (c : HttpConn) → b ≡ true → (if b then init c else c) ≡ init c
renewed true c e = refl
renewed false c e = absurd (cc)

write_loop-Renewed :
    (eagain : Bool) (c : HttpConn) (rs : List Writev) → Renewed (write_loop eagain c rs)
unfolding write_loop
write_loop-Renewed eagain c [] = λ at ok. absurd (cc)
write_loop-Renewed eagain c (writev_failed ∷ rs) = λ at ok. absurd (cc)
write_loop-Renewed eagain c (wrote n ∷ rs) = λ at ok.
    let c' = sent c (int_of n) in
    Renewed-if (is_negative (int_of n)) _ _ (λ at' ok'. absurd (ground (arith, at', ok')))
      (Renewed-if (is_used_up c'.bytes_to_send)
        (record {
          conn = if c'.linger then init (unmap c') else unmap c';
          result = c'.linger;
          rearm = for_input;
          output = [];
        })
        (write_loop eagain c' rs) (λ at' ok'. (unmap c', renewed c'.linger (unmap c') ok'))
        (write_loop-Renewed eagain c' rs))
      at ok

pub write-Renewed : (eagain : Bool) (c : HttpConn) (rs : List Writev) → Renewed (write eagain c rs)
unfolding write
write-Renewed eagain c rs =
    Renewed-if (c.bytes_to_send == 0) _ _ (λ at ok. absurd (cc)) (write_loop-Renewed eagain c rs)
