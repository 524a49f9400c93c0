-- ===== src/Echo/Rounds.antt =====
-- client_copy.c and server_thread_copy.c together: every message comes back as it was sent.
use my_tcp_cs.Base.{
  ℕ, zero, suc, ◌+◌, ◌/◌, ◌%◌, ◌^◌, ◌≤◌, ◌<◌, ◌≡◌, refl, sym, ◌∙◌, ap, inl, inr, true, false, List,
  [], ◌∷◌, ◌++◌, map, Outcome, done, Bool-cases, ltb, leb, length, length-append, length-drop, drop,
  codes, decimal, digits_onto, arith,
}
use mathlib.Core.List.{append_assoc}
use my_tcp_cs.Http.CStrings.{until_nul}
use my_tcp_cs.Http.Nul.{until_nul-text_of, NonNul, text_of-NonNul}
use my_tcp_cs.Http.Lines.{bind-done}
use my_tcp_cs.Echo.{Read, got, reading, working}
use my_tcp_cs.Echo.Caller.{line, message, buffer_size, heard, counting, talk}

digits_onto-NonNul : (fuel n : ℕ) (acc : List ℕ) → NonNul acc → NonNul (digits_onto fuel n acc)
unfolding digits_onto
digits_onto-NonNul zero n acc h = (omega arith, h)
digits_onto-NonNul (suc fuel) n acc h = elim (Bool-cases (ltb n 10)) [
  | inl last ↦ rw (digits_onto, last) (omega arith, h)
  | inr more ↦ rw (digits_onto, more) (digits_onto-NonNul fuel (n / 10) _ (omega arith, h))
]

length-digits_onto :
    (fuel n : ℕ) (acc : List ℕ) → length (digits_onto fuel n acc) ≤ fuel + 1 + length acc
unfolding digits_onto
length-digits_onto zero n acc = omega arith
length-digits_onto (suc fuel) n acc = elim (Bool-cases (ltb n 10)) [
  | inl last ↦ rw (digits_onto, last) (omega arith)
  | inr more ↦
      rw (digits_onto, more)
        (omega (arith, length-digits_onto fuel (n / 10) ((b'0' + n % 10) ∷ acc)))
]

NonNul-append : (xs ys : List ℕ) → NonNul xs → NonNul ys → NonNul (xs ++ ys)
NonNul-append [] ys h k = k
NonNul-append (x ∷ xs) ys h k = (h.0, NonNul-append xs ys h.1 k)

line-NonNul : (i : ℕ) → NonNul (line i)
unfolding line decimal
line-NonNul i =
    NonNul-append (codes "data : ") _ (omega arith)
      (NonNul-append (decimal i) _ (digits_onto-NonNul 9 i [] tt) (omega arith, tt))

length-message : (i : ℕ) → length (message i) < buffer_size
unfolding line decimal
length-message i = omega (
  arith,
  length-digits_onto 9 i [],
  length-append (codes "data : ") (decimal i ++ 10 ∷ []),
  length-append (decimal i) (10 ∷ []),
  length-append (line i) (0 ∷ []),
)

-- A message at the front of a buffer is read as the line in it.
until_nul-message : (i : ℕ) (rest : List ℕ) → until_nul (message i ++ rest) ≡ done (line i)
until_nul-message i rest =
    ap until_nul (append_assoc (line i) (0 ∷ []) rest)
    ∙ until_nul-text_of (line i) rest
    ∙ ap done (text_of-NonNul (line i) (line-NonNul i))

-- The messages of `n` rounds from `i` on, and their lines.
pub messages : (i n : ℕ) → List (List ℕ)
messages i zero = []
messages i (suc n) = message i ∷ messages (i + 1) n

pub lines : (i n : ℕ) → List (List ℕ)
lines i zero = []
lines i (suc n) = line i ∷ lines (i + 1) n

-- The server's buffer behind a message.
length-after :
    (i : ℕ) (buf : List ℕ)
    → length buf ≡ buffer_size
    → length (message i ++ drop (length (message i)) buf) ≡ buffer_size
length-after i buf len = omega (
  arith,
  length-message i,
  len,
  length-append (message i) (drop (length (message i)) buf),
  length-drop (length (message i)) buf,
)

-- The server takes a message that is not empty.
working-message :
    (m buf : List ℕ) (rs : List Read) (text : List ℕ) (sent : List (List ℕ))
    → 0 < length m
    → length m ≤ length buf
    → until_nul (m ++ drop (length m) buf) ≡ done text
    → working (m ++ drop (length m) buf) rs ≡ done (sent, reading)
    → working buf (got m ∷ rs) ≡ done ((text ++ 0 ∷ []) ∷ sent, reading)
unfolding working
working-message [] buf rs text sent some_there room ends rest = absurd (omega (arith, some_there))
working-message (b ∷ bs) buf rs text sent some_there room ends rest =
    let fits : leb (length (b ∷ bs)) (length buf) ≡ true = ground (arith, room) in
    rw (working, fits) (bind-done _ ends ∙ bind-done _ rest)

echoing :
    (i n : ℕ) (buf : List ℕ)
    → length buf ≡ buffer_size
    → working buf (map got (messages i n)) ≡ done (messages i n, reading)
unfolding working messages
echoing i zero buf len = refl
echoing i (suc n) buf len =
    working-message (message i) buf _ (line i) (messages (i + 1) n)
      (omega (arith, length-append (line i) (0 ∷ []))) (omega (arith, length-message i, len))
      (until_nul-message i _) (echoing (i + 1) n _ (length-after i buf len))

heard-message : (i : ℕ) (bs : List ℕ) → bs ≡ message i → heard i bs ≡ done (line i)
unfolding heard
heard-message i bs e =
    let fits : leb (length (message i)) buffer_size ≡ true = ground (arith, length-message i) in
    ap (heard i) e ∙ (unfold heard in rw (heard, fits) (until_nul-message i _))

counting-few : {A : Type 0} (i : ℕ) (o : Outcome A) → i + 1 < 2 ^ 31 → counting i o ≡ o
unfolding counting
counting-few i o few =
    let below : leb (2 ^ 31) (i + 1) ≡ false = ground (arith, few) in rw below refl

messages-suc : (i n : ℕ) → messages i (n + 1) ≡ message i ∷ messages (i + 1) n
unfolding messages
messages-suc i n = let e : n + 1 ≡ suc n = omega arith in ap (messages i) e

talking :
    (i n : ℕ)
    → i + n + 1 < 2 ^ 31
    → talk i (map got (messages i n))
      ≡ done (record { written = messages i (n + 1); printed = lines i n; stand = reading })
unfolding talk messages lines
talking i zero few = counting-few i _ (omega (arith, few))
talking i (suc n) few =
    counting-few i _ (omega (arith, few))
    ∙ bind-done _ (heard-message i (message i) refl)
    ∙ bind-done _ (talking (i + 1) n (omega (arith, few)))
    ∙ ap (λ m. done (record { written = m; printed = lines i (suc n); stand = reading }))
        (ap (◌∷◌ (message i)) (messages-suc (i + 1) n) ∙ sym (messages-suc i (suc n)))

-- The echo server and its client together, over any number of rounds that the client can count: if
-- each `read` brings what one `write` of the other has sent, the server writes back each message as
-- it came, the client prints the line of each and writes the next, and both go on reading.
pub working-talk :
    (n : ℕ) (buf : List ℕ)
    → n + 2 < 2 ^ 31
    → length buf ≡ buffer_size
    → (working buf (map got (messages 1 n)) ≡ done (messages 1 n, reading))
      × (talk 1 (map got (messages 1 n))
          ≡ done (record { written = messages 1 (n + 1); printed = lines 1 n; stand = reading }))
working-talk n buf few len = (echoing 1 n buf len, talking 1 n (omega (arith, few)))
