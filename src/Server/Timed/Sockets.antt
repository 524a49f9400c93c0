-- ===== src/Server/Timed/Sockets.antt =====
-- `Read` and `Write` of webserver/src/http_conn.cpp leave a connection's descriptor and timer.
use my_tcp_cs.Base.{
  ℕ, ◌+◌, ◌%◌, ◌≡◌, refl, ◌∙◌, subst, Bool, true, false, List, [], ◌∷◌, done, ◌==◌, leb,
  if◌then◌else◌, length, inl, inr, Bool-cases,
}
use my_tcp_cs.Base.Int.{int_of, is_negative, is_used_up, size_of}
use my_tcp_cs.Http.Types.{HttpConn, init, init_same, read_buffer_size}
use my_tcp_cs.Http.Respond.{unmap}
use my_tcp_cs.Http.Transfer.{
  Recv, received, recv_failed, fill, advance, read_loop, read, Writev, wrote, writev_failed, sent,
  Written, write_loop, write,
}
use my_tcp_cs.Http.Progress.Ending.{Ends, ends, Ends-if, bind-any, of_Ends}

-- The same descriptor and the same timer.
abbrev pub SameSocket : (c d : HttpConn) → Type 0
SameSocket c d = (d.sockfd ≡ c.sockfd) × (d.timer ≡ c.timer)

read_loop-Ends :
    (eagain : Bool) (c d : HttpConn) (rs : List Recv)
    → SameSocket c d
    → Ends (λ r. SameSocket c r.0) (read_loop eagain d rs)
unfolding read_loop
read_loop-Ends eagain c d [] q = ends q
read_loop-Ends eagain c d (recv_failed ∷ rs) q = ends q
read_loop-Ends eagain c d (received bs ∷ rs) q = bind-any (fill d.read_buf d.read_idx bs) _ λ buf.
    Ends-if (length bs % 256 == 255) _ _ (ends q) (
      Ends-if (length bs % 256 == 0) _ _ (ends q)
        (bind-any (advance d.read_idx (length bs)) _ λ i. read_loop-Ends eagain c _ rs q))

pub read-SameSocket :
    (eagain : Bool) (c d : HttpConn) (rs : List Recv) (b : Bool)
    → read eagain c rs ≡ done (d, b)
    → SameSocket c d
unfolding read
read-SameSocket eagain c d rs b e =
    of_Ends (d, b)
      (subst (Ends (λ r. SameSocket c r.0)) e (
        Ends-if (leb read_buffer_size c.read_idx) _ _ (ends (refl, refl))
          (read_loop-Ends eagain c c rs (refl, refl))))

sent-SameSocket : (c : HttpConn) (n : ℕ) → SameSocket c (sent c n)
unfolding sent
sent-SameSocket c n = elim (Bool-cases (leb c.iv0.len (size_of (int_of (c.bytes_have_send + n))))) [
  | inl all ↦ rw (sent, all) (refl, refl)
  | inr part ↦ rw (sent, part) (refl, refl)
]

unmap-SameSocket : (c : HttpConn) → SameSocket c (unmap c)
unfolding unmap
unmap-SameSocket c = (refl, refl)

over : (c d e : HttpConn) → SameSocket c d → SameSocket d e → SameSocket c e
over c d e p q = (q.0 ∙ p.0, q.1 ∙ p.1)

either :
    (c : HttpConn) (b : Bool) (l m : Written)
    → SameSocket c l.conn
    → SameSocket c m.conn
    → SameSocket c (if b then l else m).conn
either c true l m p q = p
either c false l m p q = q

either_conn :
    (c : HttpConn) (b : Bool) (l m : HttpConn)
    → SameSocket c l
    → SameSocket c m
    → SameSocket c (if b then l else m)
either_conn c true l m p q = p
either_conn c false l m p q = q

-- The connection behind a whole answer.
abbrev finished : HttpConn → HttpConn
finished c = if c.linger then init (unmap c) else unmap c

finished-SameSocket : (c : HttpConn) → SameSocket c (finished c)
finished-SameSocket c =
    either_conn c c.linger (init (unmap c)) (unmap c)
      (over c (unmap c) (init (unmap c)) (unmap-SameSocket c) (init_same (unmap c)))
      (unmap-SameSocket c)

write_loop-SameSocket :
    (eagain : Bool) (c : HttpConn) (rs : List Writev) → SameSocket c (write_loop eagain c rs).conn
unfolding write_loop
write_loop-SameSocket eagain c [] = (refl, refl)
write_loop-SameSocket eagain c (writev_failed ∷ rs) = unmap-SameSocket c
write_loop-SameSocket eagain c (wrote n ∷ rs) =
    let c' = sent c (int_of n) in
    let same = sent-SameSocket c (int_of n) in
    let rest = write_loop eagain c' rs in
    either c (is_negative (int_of n)) _ _ (either c eagain _ _ (refl, refl) (unmap-SameSocket c)) (
      either c (is_used_up c'.bytes_to_send) _ rest
        (over c c' (finished c') same (finished-SameSocket c'))
        (over c c' rest.conn same (write_loop-SameSocket eagain c' rs)))

pub write-SameSocket :
    (eagain : Bool) (c : HttpConn) (rs : List Writev) → SameSocket c (write eagain c rs).conn
unfolding write
write-SameSocket eagain c rs = elim (Bool-cases (c.bytes_to_send == 0)) [
  | inl none_left ↦ rw (write, none_left) (init_same c)
  | inr some_left ↦ rw (write, some_left) (write_loop-SameSocket eagain c rs)
]
