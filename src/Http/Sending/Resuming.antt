-- ===== src/Http/Sending/Resuming.antt =====
-- `Write` of webserver/src/http_conn.cpp when the kernel takes a file answer in two parts.
use mathlib.Core.List.{append-nil}
use my_tcp_cs.Base.{
  ℕ, ◌+◌, ◌-◌, ◌^◌, ◌≤◌, ◌<◌, ◌≡◌, refl, sym, ◌∙◌, ap, ap₂, Bool, false, List, [], ◌∷◌, ◌++◌, ◌==◌,
  if◌then◌else◌, arith, length, take, drop, take-length, take-all, length-take, length-append,
  length-drop,
}
use my_tcp_cs.Base.Int.{is_used_up, int_of-small, is_negative-small, sub_int-small}
use my_tcp_cs.Http.Types.{HttpConn, init}
use my_tcp_cs.Http.Respond.{unmap}
use my_tcp_cs.Http.Transfer.{
  offered, sent, Writev, wrote, for_input, Written, prepend, write_loop, write,
}
use my_tcp_cs.Http.Sending.{IsFileAnswer, sent-linger, sent-left, sent-resume}

-- What `Write` leaves when the last byte is gone.
complete : HttpConn → Written
complete c = record {
  conn = if c.linger then init (unmap c) else unmap c;
  result = c.linger;
  rearm = for_input;
  output = [];
}

-- One round of `Write`'s loop, for a number of bytes that fits an `int`.
round :
    (eagain : Bool) (c : HttpConn) (n : ℕ) (rs : List Writev)
    → n < 2 ^ 31
    → write_loop eagain c (wrote n ∷ rs)
      ≡ prepend (take n (offered c)) (
          if is_used_up (sent c n).bytes_to_send
          then complete (sent c n)
          else write_loop eagain (sent c n) rs)
unfolding write_loop complete
round eagain c n rs small = rw (int_of-small n small, is_negative-small n small) refl

-- A round that leaves bytes, and one that does not.
round-more :
    (eagain : Bool) (c : HttpConn) (n : ℕ) (rs : List Writev)
    → c.bytes_to_send < 2 ^ 31
    → n < c.bytes_to_send
    → write_loop eagain c (wrote n ∷ rs)
      ≡ prepend (take n (offered c)) (write_loop eagain (sent c n) rs)
round-more eagain c n rs small some_left =
    let left = sent-left c n ∙ sub_int-small c.bytes_to_send n small (omega arith) in
    let more : is_used_up (sent c n).bytes_to_send ≡ false = ground (arith, left) in
    round eagain c n rs (omega arith) ∙ rw more refl

round-last :
    (eagain : Bool) (c : HttpConn) (rs : List Writev)
    → c.bytes_to_send < 2 ^ 31
    → write_loop eagain c (wrote c.bytes_to_send ∷ rs)
      ≡ prepend (take c.bytes_to_send (offered c)) (complete (sent c c.bytes_to_send))
round-last eagain c rs small =
    let all : (sent c c.bytes_to_send).bytes_to_send ≡ 0 =
      sent-left c c.bytes_to_send
      ∙ sub_int-small c.bytes_to_send c.bytes_to_send small (omega arith)
      ∙ omega arith in
    round eagain c c.bytes_to_send rs small ∙ rw all refl

offered-whole : (c : HttpConn) (h bytes : List ℕ) → IsFileAnswer c h bytes → offered c ≡ h ++ bytes
unfolding offered
offered-whole c h bytes a =
    rw (a.two, a.first, a.second, a.mapping, a.header, take-length h, take-length bytes) refl

take-twice : (n : ℕ) (xs : List ℕ) → take n (take n xs) ≡ take n xs
take-twice n xs = take-all n (take n xs) (omega (arith, length-take n xs))

-- The two rounds of `Write` for an answer taken in two parts.
write-two :
    (eagain : Bool) (c : HttpConn) (n left : ℕ) (rs : List Writev)
    → c.bytes_to_send < 2 ^ 31
    → n < c.bytes_to_send
    → left ≡ c.bytes_to_send - n
    → write eagain c (wrote n ∷ wrote left ∷ rs)
      ≡ prepend
          (take n (offered c))
          (prepend (take left (offered (sent c n))) (complete (sent (sent c n) left)))
unfolding write
write-two eagain c n left rs small some_left rest =
    let more : (c.bytes_to_send == 0) ≡ false = ground arith in
    let count : left ≡ (sent c n).bytes_to_send =
      rest ∙ sym (sent-left c n ∙ sub_int-small c.bytes_to_send n small (omega arith)) in
    rw more (
      round-more eagain c n (wrote left ∷ rs) small some_left
      ∙ ap (prepend (take n (offered c)))
          (rw count (round-last eagain (sent c n) rs (omega (arith, count, rest)))))

-- `Write` of a file answer, header `h` and file `bytes`, shorter than 2 ^ 31 bytes, of which the
-- kernel takes `n` at first, the header at least and not all, and then as many as are left: if the
-- request (`m_read_idx_`) was at least as long as the header, and not longer than `n`, the second
-- part does not start where the first has stopped, but goes back by what the request was longer
-- than the header. As many bytes go out as the answer has, the end of the file is not among
-- them unless the lengths agree, and `Write` ends as if all had gone well: it waits for input, and
-- keeps the connection if and only if the keep-alive flag is set.
pub write-resumed :
    (eagain : Bool) (c : HttpConn) (h bytes : List ℕ) (n : ℕ) (rs : List Writev)
    → IsFileAnswer c h bytes
    → length h + length bytes < 2 ^ 31
    → length h ≤ n
    → n < length h + length bytes
    → length h ≤ c.read_idx
    → c.read_idx ≤ n
    → let left = length h + length bytes - n in
      let back = c.read_idx - length h in
      let w = write eagain c (wrote n ∷ wrote left ∷ rs) in
      (w.output ≡ take n (h ++ bytes) ++ take left (drop (n - length h - back) bytes))
      × (length w.output ≡ length (h ++ bytes))
      × (w.result ≡ c.linger)
      × (w.rearm ≡ for_input)
unfolding complete
write-resumed eagain c h bytes n rs a small out most longer enough =
    let left = length h + length bytes - n in
    let part = drop (n - c.read_idx) bytes in
    let w = write eagain c (wrote n ∷ wrote left ∷ rs) in
    let runs =
      write-two eagain c n left rs (omega (arith, a.all_left)) (omega (arith, a.all_left))
        (omega (arith, a.all_left)) in
    let parts : w.output ≡ take n (h ++ bytes) ++ take left part =
      ap (λ x. x.output) runs
      ∙ ap₂ (λ x y. take n x ++ (take left y ++ [])) (offered-whole c h bytes a)
          (sent-resume c h bytes n a small out (omega arith) enough)
      ∙ ap (λ x. take n (h ++ bytes) ++ x)
          (append-nil (take left (take left part)) ∙ take-twice left part) in
    (
      parts ∙ ap (λ k. take n (h ++ bytes) ++ take left (drop k bytes)) (omega arith),
      omega (
        arith,
        ap length parts,
        length-append (take n (h ++ bytes)) (take left part),
        length-take n (h ++ bytes),
        length-take left part,
        length-drop (n - c.read_idx) bytes,
        length-append h bytes,
      ),
      ap (λ x. x.result) runs ∙ sent-linger (sent c n) left ∙ sent-linger c n,
      ap (λ x. x.rearm) runs,
    )
