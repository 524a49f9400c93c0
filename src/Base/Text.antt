-- ===== src/Base/Text.antt =====
-- Bytes as numbers, and the text of a literal as its bytes.
use Prim.Native.Char.{code}
use Prim.Native.String.{String}
use Prim.Native.Nat.{ℕ, zero, suc, ◌+◌, ◌/◌, ◌%◌}
use mathlib.Core.List.{List, [], ◌∷◌}
use my_tcp_cs.Base.Tests.{ltb, if◌then◌else◌}

abbrev pub codes : String → List ℕ
codes String.[] = []
codes (String.◌∷◌ c s) = code c ∷ codes s

-- '\r', '\n', ' ' and '\t'.
abbrev pub cr : ℕ
cr = 13

abbrev pub lf : ℕ
lf = 10

abbrev pub blank : ℕ
blank = 32

abbrev pub tab : ℕ
tab = 9

-- The decimal digits of `n` in front of `acc`, at most `fuel + 1` of them.
unfoldable pub digits_onto : (fuel n : ℕ) → List ℕ → List ℕ
digits_onto zero n acc = (b'0' + n % 10) ∷ acc
digits_onto (suc fuel) n acc =
    let rest = digits_onto fuel (n / 10) ((b'0' + n % 10) ∷ acc) in
    if ltb n 10 then (b'0' + n) ∷ acc else rest

-- `%d` of a number below 10^10.
unfoldable pub decimal : ℕ → List ℕ
unfolding digits_onto
decimal n = digits_onto 9 n []
