-- ===== src/Http/Receiving.antt =====
-- What `Read` of webserver/src/http_conn.cpp puts into the read buffer.
use mathlib.Core.List.{append_assoc}
use my_tcp_cs.Base.{
  ℕ, ◌+◌, ◌-◌, ◌%◌, ◌≤◌, ◌<◌, ◌≡◌, refl, sym, ◌∙◌, ap, ap₂, Bool, true, false, List, [], ◌∷◌, ◌++◌,
  done, undefined, Bool-cases, inl, inr, zero, suc, map, ltb, leb, ◌==◌, if◌then◌else◌, length,
  take, drop, All, length-append, length-drop, drop-append, arith,
}
use my_tcp_cs.Http.Types.{HttpConn, read_buffer_size}
use my_tcp_cs.Http.Transfer.{received, fill, advance, read_loop, read}

-- The bytes of several `recv`s, one after another.
abbrev pub joined : List (List ℕ) → List ℕ
joined [] = []
joined (bs ∷ rest) = bs ++ joined rest

-- A `recv` whose count a signed `char` holds.
pub record Small (bs : List ℕ) : Type 0 where
  pub some_there : 0 < length bs
  pub few : length bs < 128

drop-nil : (m : ℕ) → drop {A = ℕ} m [] ≡ []
drop-nil zero = refl
drop-nil (suc m) = refl

drop-drop : (m n : ℕ) (xs : List ℕ) → drop m (drop n xs) ≡ drop (n + m) xs
drop-drop m zero xs = let e : 0 + m ≡ m = omega arith in rw e refl
drop-drop m (suc n) [] = drop-nil m ∙ sym (drop-nil (suc n + m))
drop-drop m (suc n) (x ∷ xs) =
    let e : suc n + m ≡ suc (n + m) = omega arith in rw e (drop-drop m n xs)

take-pre : (pre tail : List ℕ) → take (length pre) (pre ++ tail) ≡ pre
take-pre [] tail = refl
take-pre (x ∷ pre) tail = ap (◌∷◌ x) (take-pre pre tail)

fill-pre :
    (pre tail bs : List ℕ) (i : ℕ)
    → i ≡ length pre
    → length bs ≤ length tail
    → fill (pre ++ tail) i bs ≡ done ((pre ++ bs) ++ drop (length bs) tail)
unfolding fill
fill-pre pre tail bs i at room =
    let inside : leb (i + length bs) (length (pre ++ tail)) ≡ true =
      grind (arith, at, room, length-append pre tail) in
    rw (inside, at, take-pre pre tail, drop-append pre tail (length pre + length bs) (omega arith))
      (let e : length pre + length bs - length pre ≡ length bs = omega arith in rw e refl)

advance-Small : (i : ℕ) (bs : List ℕ) → Small bs → advance i (length bs) ≡ done (i + length bs)
unfolding advance
advance-Small i bs s = ground (arith, s.some_there, s.few)

reassociate :
    (pre bs rest tail : List ℕ)
    → (pre ++ bs) ++ (rest ++ drop (length rest) (drop (length bs) tail))
      ≡ pre ++ ((bs ++ rest) ++ drop (length (bs ++ rest)) tail)
reassociate pre bs rest tail =
    let d = drop (length bs + length rest) tail in
    rw (length-append bs rest, drop-drop (length rest) (length bs) tail, append_assoc bs rest d)
      (append_assoc pre bs (rest ++ d))

-- Chunks of 1 to 127 bytes that the buffer has room for, and then EAGAIN.
read_loop-chunks :
    (eagain : Bool) (c : HttpConn) (chunks : List (List ℕ)) (pre tail : List ℕ)
    → c.read_buf ≡ pre ++ tail
    → c.read_idx ≡ length pre
    → All Small chunks
    → length (joined chunks) ≤ length tail
    → read_loop eagain c (map received chunks)
      ≡ done (
        record c {
          read_buf = pre ++ (joined chunks ++ drop (length (joined chunks)) tail);
          read_idx = length pre + length (joined chunks);
        },
        true,
      )
unfolding read_loop
read_loop-chunks eagain c [] pre tail buf at small room =
    ap₂ (λ b i. done (record c { read_buf = b; read_idx = i }, true)) buf (omega (arith, at))
read_loop-chunks eagain c (bs ∷ chunks) pre tail buf at small room =
    let some_there : (length bs % 256 == 0) ≡ false =
      ground (arith, small.0.some_there, small.0.few) in
    let few : (length bs % 256 == 255) ≡ false = ground (arith, small.0.few) in
    let fits : length bs + length (joined chunks) ≤ length tail =
      omega (arith, room, length-append bs (joined chunks)) in
    let rest =
      read_loop-chunks eagain
        (record c {
          read_buf = (pre ++ bs) ++ drop (length bs) tail;
          read_idx = c.read_idx + length bs;
        })
        chunks (pre ++ bs) (drop (length bs) tail) refl (omega (arith, at, length-append pre bs))
        small.1 (omega (arith, fits, length-drop (length bs) tail)) in
    rw
      (
        buf,
        fill-pre pre tail bs c.read_idx at (omega (arith, fits)),
        few,
        some_there,
        advance-Small c.read_idx bs small.0,
      )
      (rest
        ∙ ap₂ (λ b i. done (record c { read_buf = b; read_idx = i }, true))
            (reassociate pre bs (joined chunks) tail)
            (omega (arith, length-append pre bs, length-append bs (joined chunks))))

-- Where each `recv` brings 1 to 127 bytes, the buffer has room for all, and the socket then has no
-- more, `Read` succeeds: the bytes stand behind those read before, in order, and `m_read_idx_` is
-- behind them; the rest of the buffer and of the connection is as it was.
pub read-chunks :
    (eagain : Bool) (c : HttpConn) (chunks : List (List ℕ)) (pre tail : List ℕ)
    → c.read_buf ≡ pre ++ tail
    → c.read_idx ≡ length pre
    → length pre < read_buffer_size
    → All Small chunks
    → length (joined chunks) ≤ length tail
    → read eagain c (map received chunks)
      ≡ done (
        record c {
          read_buf = pre ++ (joined chunks ++ drop (length (joined chunks)) tail);
          read_idx = length pre + length (joined chunks);
        },
        true,
      )
unfolding read
read-chunks eagain c chunks pre tail buf at space small room =
    let open_end : leb read_buffer_size c.read_idx ≡ false = ground (arith, at, space) in
    rw open_end (read_loop-chunks eagain c chunks pre tail buf at small room)

-- A `recv` of 128 to 254 bytes, which fit the buffer, loses data: `m_read_idx_` ends up 256 less
-- than what stands behind the bytes, or below 0, so that the next `recv` is undefined.
pub read-wide :
    (eagain : Bool) (c : HttpConn) (bs pre tail : List ℕ)
    → c.read_buf ≡ pre ++ tail
    → c.read_idx ≡ length pre
    → length pre < read_buffer_size
    → 128 ≤ length bs
    → length bs < 255
    → length bs ≤ length tail
    → read eagain c (received bs ∷ []) ≡ (
        if ltb (length pre + length bs) 256
        then undefined
        else done (
          record c {
            read_buf = (pre ++ bs) ++ drop (length bs) tail;
            read_idx = length pre + length bs - 256;
          },
          true,
        ))
unfolding read read_loop advance
read-wide eagain c bs pre tail buf at space wide narrow room =
    let open_end : leb read_buffer_size c.read_idx ≡ false = ground (arith, at, space) in
    let not_closed : (length bs % 256 == 0) ≡ false = ground (arith, wide, narrow) in
    let not_failed : (length bs % 256 == 255) ≡ false = ground (arith, wide, narrow) in
    let negative : ltb (length bs % 256) 128 ≡ false = ground (arith, wide, narrow) in
    let same : length bs % 256 ≡ length bs = omega (arith, narrow) in
    rw
      (
        open_end,
        buf,
        fill-pre pre tail bs c.read_idx at room,
        not_failed,
        not_closed,
        negative,
        same,
        at,
      )
      (elim (Bool-cases (ltb (length pre + length bs) 256)) [
        | inl e ↦ rw e refl
        | inr e ↦ rw e refl
      ])
