-- ===== src/Encode/Number.antt =====
-- Integers as words of 32 and 64 bits: writeEncodeNumber and encodeReadNumber of src/encode.cc.
use qu_prolog.Base.{ℕ, ◌+◌, ◌-◌, ◌*◌, ◌/◌, ◌%◌, ◌^◌, Bool, [], ◌∷◌, ltb, leb, if◌then◌else◌}
use qu_prolog.Base.Int.{ℤ, pos, negsuc}
use qu_prolog.Encode.Term.{Bytes}

-- `val & 0xffffffff`, in two's complement.
unfoldable pub low_word : ℤ → ℕ
low_word (pos n) = n % 2 ^ 32
low_word (negsuc n) = 2 ^ 32 - 1 - n % 2 ^ 32

-- `val >> 32`, which rounds down.
unfoldable pub high_part : ℤ → ℤ
high_part (pos n) = pos (n / 2 ^ 32)
high_part (negsuc n) = negsuc (n / 2 ^ 32)

-- `val < INT_MIN || val > INT_MAX`
unfoldable pub is_big : ℤ → Bool
is_big (pos n) = leb (2 ^ 31) n
is_big (negsuc n) = leb (2 ^ 31) n

-- `writeEncodeNumber`: the low four bytes, the highest first.
unfoldable pub write_number : ℤ → Bytes
unfolding low_word
write_number i =
    let w = low_word i in
    w / 2 ^ 24 % 2 ^ 8 ∷ w / 2 ^ 16 % 2 ^ 8 ∷ w / 2 ^ 8 % 2 ^ 8 ∷ w % 2 ^ 8 ∷ []

-- `(part1 << 32) | part2` in 64 bits.
unfoldable pub join_parts : ℕ → ℕ → ℤ
join_parts high low =
    let w = (high * 2 ^ 32 + low) % 2 ^ 64 in
    if ltb w (2 ^ 63) then pos w else negsuc (2 ^ 64 - 1 - w)
