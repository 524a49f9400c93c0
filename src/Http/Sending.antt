-- ===== src/Http/Sending.antt =====
-- What `Write` of webserver/src/http_conn.cpp hands to the kernel.
pub mod Resuming
use mathlib.Core.List.{append-nil}
use native.Mathlib.Nat.{zero-add}
use my_tcp_cs.Base.{
  ℕ, ◌+◌, ◌-◌, ◌^◌, Bool, false, Bool-cases, inl, inr, if◌then◌else◌, ◌≤◌, ◌<◌, ◌≡◌, refl, ◌∙◌, ap,
  true, false, some, List, [], ◌∷◌, ◌++◌, leb, ◌==◌, arith, length, take, drop, take-length,
  length-drop, take-all, drop-append, sym, ◌*◌,
}
use my_tcp_cs.Base.Int.{
  int_of, is_negative, is_used_up, sub_int, size_of, sub_size, int_of-small, is_negative-small,
  size_of-small, sub_int-small, sub_size-small,
}
use my_tcp_cs.Http.Types.{HttpConn, buffer_at, file_at, before_file, Iovec}
use my_tcp_cs.Http.Transfer.{
  gather, offered, file_offset, sent, Written, Writev, wrote, for_input, write_loop, write,
}

pub sent-linger : (c : HttpConn) (n : ℕ) → (sent c n).linger ≡ c.linger
unfolding sent
sent-linger c n = ground arith

pub sent-left : (c : HttpConn) (n : ℕ) → (sent c n).bytes_to_send ≡ sub_int c.bytes_to_send n
unfolding sent
sent-left c n = ground arith

-- Where the first `writev` takes the whole message, which is not empty and shorter than 2 ^ 31
-- bytes, exactly its bytes go out, in order, the descriptor waits for input again, and the
-- connection is kept if and only if its keep-alive flag is set.
pub write-whole :
    (eagain : Bool) (c : HttpConn) (m : List ℕ) (rs : List Writev)
    → offered c ≡ m
    → c.bytes_to_send ≡ length m
    → 0 < length m
    → length m < 2 ^ 31
    → let w = write eagain c (wrote (length m) ∷ rs) in
      (w.output ≡ m) × (w.result ≡ c.linger) × (w.rearm ≡ for_input)
unfolding write write_loop
write-whole eagain c m rs whole count some_there fits =
    let word = int_of-small (length m) fits in
    let above = is_negative-small (length m) fits in
    let more : (c.bytes_to_send == 0) ≡ false = ground arith in
    let all : (sent c (length m)).bytes_to_send ≡ 0 =
      sent-left c (length m) ∙ omega (arith, count, fits) in
    (
      rw (more, word, above, all, whole) (append-nil (take (length m) m) ∙ take-length m),
      rw (more, word, above, all) (sent-linger c (length m)),
      rw (more, word, above, all) refl,
    )

-- A `writev` that takes `n` of the bytes left, which are fewer than 2 ^ 31, keeps the sum of those
-- sent and those left.
pub sent-count :
    (c : HttpConn) (n : ℕ)
    → n ≤ c.bytes_to_send
    → c.bytes_have_send + c.bytes_to_send < 2 ^ 31
    → (sent c n).bytes_have_send + (sent c n).bytes_to_send ≡ c.bytes_have_send + c.bytes_to_send
unfolding sent
sent-count c n fits small = ground arith

-- The state in which `Process_Write` leaves a file answer.
pub record IsFileAnswer (c : HttpConn) (h bytes : List ℕ) : Type 0 where
  pub header : c.write_buf ≡ h
  pub mapping : c.file_address ≡ some bytes
  pub two : c.iv_count ≡ 2
  pub first : c.iv0 ≡ record { base = buffer_at 0; len = length h }
  pub second : c.iv1 ≡ record { base = file_at 0; len = length bytes }
  pub none_sent : c.bytes_have_send ≡ 0
  pub all_left : c.bytes_to_send ≡ length h + length bytes

-- What `sent` does as long as no counter leaves the range of an `int`.
sent_plainly : HttpConn → ℕ → HttpConn
sent_plainly c n =
    let have = c.bytes_have_send + n in
    let left = c.bytes_to_send - n in
    let c' = record c { bytes_to_send = left; bytes_have_send = have } in
    if leb c.iv0.len have
    then record c' {
      iv0 = record { base = c.iv0.base; len = 0 };
      iv1 = record {
        base =
            if leb c.read_idx have
            then file_at (have - c.read_idx)
            else before_file (c.read_idx - have);
        len = left;
      };
    }
    else record c' { iv0 = record { base = buffer_at have; len = c.iv0.len - n } }

-- The counters of `c` and a number `n` of bytes taken keep `sent` within the range of an `int`.
pub record IsSmall (c : HttpConn) (n : ℕ) : Type 0 where
  pub some_left : n ≤ c.bytes_to_send
  pub total : c.bytes_have_send + c.bytes_to_send < 2 ^ 31
  pub first : c.iv0.len < 2 ^ 31

IsFileAnswer-IsSmall :
    (c : HttpConn) (h bytes : List ℕ) (n : ℕ)
    → IsFileAnswer c h bytes
    → length h + length bytes < 2 ^ 31
    → n ≤ length h + length bytes
    → IsSmall c n
IsFileAnswer-IsSmall c h bytes n a small most = record {
  some_left = omega (arith, most, a.all_left);
  total = omega (arith, small, a.none_sent, a.all_left);
  first = omega (arith, small, ap (λ v. v.len) a.first);
}

sent-plain : (c : HttpConn) (n : ℕ) → IsSmall c n → sent c n ≡ sent_plainly c n
unfolding sent sent_plainly file_offset
sent-plain c n s =
    let have = int_of-small (c.bytes_have_send + n) (omega (arith, s.some_left, s.total)) in
    let above = is_negative-small (c.bytes_have_send + n) (omega (arith, s.some_left, s.total)) in
    let left = sub_int-small c.bytes_to_send n (omega (arith, s.total)) s.some_left in
    let size = size_of-small (c.bytes_to_send - n) (omega (arith, s.total)) in
    elim (Bool-cases (leb c.iv0.len (c.bytes_have_send + n))) [
      | inl past ↦ rw (have, above, left, size, past) refl
      | inr part ↦
          let short = sub_size-small c.iv0.len n s.first (ground (arith, part)) in
          rw (have, above, left, size, part, short) refl
    ]

-- After a send of `n` bytes of a file answer, which cover the header and are no fewer than the
-- request had, the file is resumed at `n` less the length of the request (`m_read_idx_`).
pub sent-resume :
    (c : HttpConn) (h bytes : List ℕ) (n : ℕ)
    → IsFileAnswer c h bytes
    → length h + length bytes < 2 ^ 31
    → length h ≤ n
    → n ≤ length h + length bytes
    → c.read_idx ≤ n
    → offered (sent c n) ≡ take (length h + length bytes - n) (drop (n - c.read_idx) bytes)
unfolding sent_plainly offered
sent-resume c h bytes n a small out most enough =
    let past : leb (length h) n ≡ true = ground arith in
    let near : leb c.read_idx n ≡ true = ground arith in
    ap offered (sent-plain c n (IsFileAnswer-IsSmall c h bytes n a small most))
    ∙ rw (a.none_sent, a.all_left, a.two, a.first, a.mapping, a.header, zero-add n, past, near) refl

-- After a partial send that covers at least the header, what is offered next is exactly what is
-- left of the answer, provided that the request was as long as the header of its answer.
pub sent-resume_exact :
    (c : HttpConn) (h bytes : List ℕ) (n : ℕ)
    → IsFileAnswer c h bytes
    → length h + length bytes < 2 ^ 31
    → length h ≤ n
    → n ≤ length h + length bytes
    → c.read_idx ≡ length h
    → offered (sent c n) ≡ drop n (h ++ bytes)
sent-resume_exact c h bytes n a small out most exact =
    sent-resume c h bytes n a small out most (omega arith)
    ∙ ap (λ i. take (length h + length bytes - n) (drop (n - i) bytes)) exact
    ∙ take-all (length h + length bytes - n) (drop (n - length h) bytes)
        (omega (arith, length-drop (n - length h) bytes))
    ∙ sym (drop-append h bytes n out)

-- A `writev` that leaves a part of the first block.
sent-part : (c : HttpConn) (n : ℕ) → IsSmall c n → c.bytes_have_send + n < c.iv0.len → record {
  len : (sent c n).iv0.len ≡ c.iv0.len - n;
  have : (sent c n).bytes_have_send ≡ c.bytes_have_send + n;
  left : (sent c n).bytes_to_send ≡ c.bytes_to_send - n;
  count : (sent c n).iv_count ≡ c.iv_count;
}
unfolding sent_plainly
sent-part c n s short = rw (sent-plain c n s) (ground arith)

-- A `writev` behind which the code takes the first block for sent.
sent-past : (c : HttpConn) (n : ℕ) → IsSmall c n → c.iv0.len ≤ c.bytes_have_send + n → record {
  len : (sent c n).iv0.len ≡ 0;
  left : (sent c n).bytes_to_send ≡ c.bytes_to_send - n;
  count : (sent c n).iv_count ≡ c.iv_count;
}
unfolding sent_plainly
sent-past c n s over = rw (sent-plain c n s) (ground arith)

gather-nil : (c : HttpConn) (v : Iovec) → v.len ≡ 0 → gather c v ≡ []
unfolding gather
gather-nil c v len = ground arith

offered-nil : (c : HttpConn) → c.iv_count ≡ 1 → c.iv0.len ≡ 0 → offered c ≡ []
unfolding offered
offered-nil c one len = rw one (gather-nil c c.iv0 len)

-- Two partial sends of an answer in one block of fewer than 2 ^ 31 bytes, the first of `a` bytes
-- and the second of `b`: if they fall short of the answer, but `2 * a + b` does not, nothing is
-- offered any more while bytes are left, since the length that the total is compared with has been
-- cut down by then.
pub sent-lost :
    (c : HttpConn) (a b : ℕ)
    → c.iv_count ≡ 1
    → c.iv0.len ≡ c.bytes_to_send
    → c.bytes_have_send ≡ 0
    → c.bytes_to_send < 2 ^ 31
    → a < c.bytes_to_send
    → a + b < c.bytes_to_send
    → c.bytes_to_send ≤ 2 * a + b
    → (offered (sent (sent c a) b) ≡ []) × (0 < (sent (sent c a) b).bytes_to_send)
sent-lost c a b one len none_sent small short short' over =
    let first =
      sent-part c a (record { some_left = omega arith; total = omega arith; first = omega arith })
        (omega arith) in
    let second =
      sent-past (sent c a) b
        (record {
          some_left = omega (arith, first.left);
          total = omega (arith, first.left, first.have);
          first = omega (arith, first.len);
        })
        (omega (arith, first.len, first.have)) in
    (
      offered-nil (sent (sent c a) b) (second.count ∙ first.count ∙ one) second.len,
      omega (arith, first.left, second.left),
    )
