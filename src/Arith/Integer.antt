-- ===== src/Arith/Integer.antt =====
-- `qint64`, as src/arithmetic.cc computes with it: a 64-bit integer that wraps around.
use qu_prolog.Base.{ℕ, suc, ◌-◌, ◌/◌, ◌%◌, ◌^◌, Bool, true, false, ltb, if◌then◌else◌}
use qu_prolog.Base.Int.{ℤ, pos, negsuc, sub_ℕ, ◌+ℤ◌, ◌-ℤ◌, ◌*ℤ◌}
use Prim.Native.Nat.{bit_and, bit_or}

-- The bit pattern of the low 64 bits, and the number that a pattern stands for.
unfoldable pub pattern_of : ℤ → ℕ
pattern_of (pos n) = n % 2 ^ 64
pattern_of (negsuc n) = 2 ^ 64 - 1 - n % 2 ^ 64

unfoldable pub of_pattern : ℕ → ℤ
of_pattern w = if ltb w (2 ^ 63) then pos w else negsuc (2 ^ 64 - 1 - w)

unfoldable pub wrap : ℤ → ℤ
unfolding pattern_of of_pattern
wrap i = of_pattern (pattern_of i)

unfoldable pub add64 : ℤ → ℤ → ℤ
unfolding wrap ◌+ℤ◌
add64 i j = wrap (i +ℤ j)

unfoldable pub sub64 : ℤ → ℤ → ℤ
unfolding wrap ◌-ℤ◌
sub64 i j = wrap (i -ℤ j)

unfoldable pub mul64 : ℤ → ℤ → ℤ
unfolding wrap ◌*ℤ◌
mul64 i j = wrap (i *ℤ j)

unfoldable pub neg64 : ℤ → ℤ
unfolding sub64
neg64 i = sub64 (pos 0) i

unfoldable pub is_negative : ℤ → Bool
is_negative (pos n) = false
is_negative (negsuc n) = true

unfoldable pub abs64 : ℤ → ℤ
unfolding neg64 is_negative
abs64 i = if is_negative i then neg64 i else i

-- The distance from 0.
unfoldable pub magnitude : ℤ → ℕ
magnitude (pos n) = n
magnitude (negsuc n) = suc n

-- `n`, or `-n` if the test holds.
unfoldable pub with_sign : Bool → ℕ → ℤ
with_sign negative n = if negative then sub_ℕ 0 n else pos n

-- `/` goes towards 0, and `%` has the sign of its left argument.
unfoldable pub div64 : ℤ → ℤ → ℤ
unfolding wrap with_sign magnitude
div64 (pos n) j = wrap (with_sign (is_negative j) (n / magnitude j))
div64 (negsuc n) (pos m) = wrap (with_sign true (suc n / m))
div64 (negsuc n) (negsuc m) = wrap (pos (suc n / suc m))

unfoldable pub mod64 : ℤ → ℤ → ℤ
unfolding with_sign magnitude
mod64 (pos n) j = pos (n % magnitude j)
mod64 (negsuc n) j = with_sign true (suc n % magnitude j)

unfoldable pub and64 : ℤ → ℤ → ℤ
unfolding pattern_of of_pattern
and64 i j = of_pattern (bit_and (pattern_of i) (pattern_of j))

unfoldable pub or64 : ℤ → ℤ → ℤ
unfolding pattern_of of_pattern
or64 i j = of_pattern (bit_or (pattern_of i) (pattern_of j))

-- `~`
unfoldable pub not64 : ℤ → ℤ
not64 (pos n) = negsuc n
not64 (negsuc n) = pos n

-- Shifts by 0 to 63 places; the language leaves the others undefined, and the argument `u` gives
-- what the machine does.
unfoldable pub shiftl64 : (ℤ → ℤ → ℤ) → ℤ → ℤ → ℤ
unfolding mul64
shiftl64 u i (pos k) = if ltb k 64 then mul64 i (pos (2 ^ k)) else u i (pos k)
shiftl64 u i (negsuc k) = u i (negsuc k)

unfoldable pub shiftr64 : (ℤ → ℤ → ℤ) → ℤ → ℤ → ℤ
shiftr64 u (pos n) (pos k) = if ltb k 64 then pos (n / 2 ^ k) else u (pos n) (pos k)
shiftr64 u (negsuc n) (pos k) = if ltb k 64 then negsuc (n / 2 ^ k) else u (negsuc n) (pos k)
shiftr64 u i (negsuc k) = u i (negsuc k)
