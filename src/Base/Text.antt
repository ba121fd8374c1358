-- ===== src/Base/Text.antt =====
-- Text as a list of code points. The error messages of the shim are built from literals, numbers
-- and the `Display` of foreign values; only `'\0'` in them ever matters.
use Prim.Native.Nat.{ℕ, zero, suc, ◌+◌, ◌/◌, ◌%◌}
use Prim.Native.Char.{code}
use Prim.Native.String.{String}
use mathlib.Core.List.{List, [], ◌∷◌, ◌++◌}
use chroma_go_local.Base.Tests.{ltb, if◌then◌else◌}
use chroma_go_local.Base.Int.{ℤ, pos, negsuc}

abbrev pub Text : Type 0
Text = List ℕ

unfoldable pub text : String → Text
text String.[] = []
text (String.◌∷◌ c s) = code c ∷ text s

-- The decimal digits of a number, most significant first; `fuel` bounds their count.
unfoldable pub digits_of : ℕ → ℕ → Text
digits_of zero n = []
digits_of (suc fuel) n =
    let rest = digits_of fuel (n / 10) in
    if ltb n 10 then (48 + n) ∷ [] else rest ++ (48 + n % 10) ∷ []

-- Twenty digits write every `u64`.
unfoldable pub show_nat : ℕ → Text
unfolding digits_of
show_nat n = digits_of 20 n

-- Thirty-nine digits write every `u128`.
unfoldable pub show_u128 : ℕ → Text
unfolding digits_of
show_u128 n = digits_of 39 n

unfoldable pub show_int : ℤ → Text
unfolding show_nat
show_int (pos n) = show_nat n
show_int (negsuc n) = 45 ∷ show_nat (suc n)
