-- ===== src/Http/Transfer.antt =====
-- `Read` and `Write` of webserver/src/http_conn.cpp. What the kernel answers to each `recv` and
-- `writev` is an argument.
use my_tcp_cs.Base.{
  ℕ, ◌+◌, ◌-◌, ◌%◌, Bool, true, false, none, some, List, [], ◌∷◌, ◌++◌, Outcome, done, undefined,
  ◌^◌, ◌>>=◌, ltb, leb, ◌==◌, if◌then◌else◌, length, take, drop,
}
use my_tcp_cs.Base.Int.{int_of, is_negative, is_used_up, sub_int, size_of, sub_size}
use my_tcp_cs.Http.Types.{
  HttpConn, Iovec, Base, buffer_at, file_at, before_file, read_buffer_size, init,
}
use my_tcp_cs.Http.Respond.{unmap}

-- What a `recv` returns: some bytes, none if the peer has closed, or -1 with an `errno` other than
-- EAGAIN. Where the list of results ends, `recv` returns -1 with EAGAIN.
pub data Recv : Type 0 where
  received : List ℕ → Recv
  recv_failed : Recv

-- `memcpy` of the bytes received to `buf + i`.
unfoldable pub fill : List ℕ → ℕ → List ℕ → Outcome (List ℕ)
fill buf i bs =
    if leb (i + length bs) (length buf)
    then done (take i buf ++ bs ++ drop (i + length bs) buf)
    else undefined

-- `m_read_idx_ += bytes_read`, where `bytes_read` is a signed `char` that holds `n`. A sum below 0
-- makes the next `recv` write in front of the buffer.
unfoldable pub advance : (read_idx n : ℕ) → Outcome ℕ
advance i n =
    let w = n % 256 in
    if ltb w 128 then done (i + w) else if ltb (i + w) 256 then undefined else done (i + w - 256)

-- The `while (true)` of `Read`; `eagain` says whether `errno` still is EAGAIN from an earlier call.
unfoldable pub read_loop : (eagain : Bool) → HttpConn → List Recv → Outcome (HttpConn × Bool)
unfolding fill advance
read_loop eagain c [] = done (c, true)
read_loop eagain c (recv_failed ∷ rs) = done (c, false)
read_loop eagain c (received bs ∷ rs) = fill c.read_buf c.read_idx bs >>= λ buf.
    let c' = record c { read_buf = buf } in
    if length bs % 256 == 255
    then done (c', eagain)
    else if length bs % 256 == 0
    then done (c', false)
    else (advance c.read_idx (length bs) >>= λ i. read_loop eagain (record c' { read_idx = i }) rs)

-- `Read()`
unfoldable pub read : (eagain : Bool) → HttpConn → List Recv → Outcome (HttpConn × Bool)
unfolding read_loop
read eagain c rs =
    if leb read_buffer_size c.read_idx then done (c, false) else read_loop eagain c rs

-- The bytes that an `iovec` shows; `before_file` is no memory of the program's.
unfoldable pub gather : HttpConn → Iovec → List ℕ
gather c v = elim v.base [
  | buffer_at n ↦ take v.len (drop n c.write_buf)
  | file_at n ↦ elim c.file_address [ none ↦ [] | some bytes ↦ take v.len (drop n bytes) ]
  | before_file n ↦ []
]

-- What `writev` offers to the kernel.
unfoldable pub offered : HttpConn → List ℕ
unfolding gather
offered c = if c.iv_count == 2 then gather c c.iv0 ++ gather c c.iv1 else gather c c.iv0

-- What a `writev` returns: a number of bytes taken, or -1 with an `errno` other than EAGAIN. Where
-- the list of results ends, it returns -1 with EAGAIN.
pub data Writev : Type 0 where
  wrote : ℕ → Writev
  writev_failed : Writev

-- `m_file_address_ + (m_bytes_have_send_ - m_read_idx_)`, where `have` is the word of an `int`.
unfoldable pub file_offset : (have_send read_idx : ℕ) → Base
file_offset have i =
    if is_negative have
    then before_file (i + (2 ^ 32 - have))
    else if leb i have
    then file_at (have - i)
    else before_file (i - have)

-- The counters and `iovec`s after a `writev` that took `n` bytes, where `n` fits an `int`. The
-- lengths are of type `size_t`, to which the counters are converted.
unfoldable pub sent : HttpConn → ℕ → HttpConn
unfolding file_offset
sent c n =
    let have = int_of (c.bytes_have_send + n) in
    let left = sub_int c.bytes_to_send n in
    let c' = record c { bytes_to_send = left; bytes_have_send = have } in
    if leb c.iv0.len (size_of have)
    then record c' {
      iv0 = record { base = c.iv0.base; len = 0 };
      iv1 = record { base = file_offset have c.read_idx; len = size_of left };
    }
    else record c' { iv0 = record { base = buffer_at have; len = sub_size c.iv0.len n } }

-- How `Write` leaves the descriptor's registration with epoll: as it was, or set by `Modfd`.
pub data Rearm : Type 0 where
  keep for_input for_output : Rearm

-- What `Write` leaves: the connection, its result, the registration, and the bytes handed over.
pub record Written : Type 0 where
  pub conn : HttpConn
  pub result : Bool
  pub rearm : Rearm
  pub output : List ℕ

abbrev pub prepend : List ℕ → Written → Written
prepend bs w = record w { output = bs ++ w.output }

-- The `while (true)` of `Write`. The result of `writev` is stored in an `int`; where that is below
-- 0, the code takes it for a failure and looks at `errno`, which still is EAGAIN from an earlier
-- call or is not.
unfoldable pub write_loop : (eagain : Bool) → HttpConn → List Writev → Written
unfolding sent
write_loop eagain c [] = record { conn = c; result = true; rearm = for_output; output = [] }
write_loop eagain c (writev_failed ∷ rs) = record {
  conn = unmap c;
  result = false;
  rearm = keep;
  output = [];
}
write_loop eagain c (wrote n ∷ rs) =
    let temp = int_of n in
    let c' = sent c temp in
    let rest = write_loop eagain c' rs in
    prepend (take n (offered c)) (
      if is_negative temp
      then (if eagain
          then record { conn = c; result = true; rearm = for_output; output = [] }
          else record { conn = unmap c; result = false; rearm = keep; output = [] })
      else if is_used_up c'.bytes_to_send
      then record {
        conn = if c'.linger then init (unmap c') else unmap c';
        result = c'.linger;
        rearm = for_input;
        output = [];
      }
      else rest)

-- `Write()`. With nothing to send, the loop that calls `Modfd` starts from 5 under the condition
-- `i > 5`, so that `Modfd` is not called.
unfoldable pub write : (eagain : Bool) → HttpConn → List Writev → Written
unfolding write_loop
write eagain c rs =
    if c.bytes_to_send == 0
    then record { conn = init c; result = true; rearm = keep; output = [] }
    else write_loop eagain c rs
