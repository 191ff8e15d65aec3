-- ===== src/Encode/Words.antt =====
-- Words of 32 bits, written and read back (src/encode.cc, writeEncodeNumber, encodeReadNumber).
use qu_prolog.Base.{
  ℕ, zero, suc, ◌+◌, ◌-◌, ◌*◌, ◌/◌, ◌%◌, ◌^◌, ◌<◌, ◌≡◌, refl, ap, true, false, [], ◌∷◌, ◌++◌, some,
  none, arith, ltb, length,
}
use qu_prolog.Base.Int.{ℤ, pos, negsuc}
use qu_prolog.Encode.Term.{Bytes}
use qu_prolog.Encode.Number.{low_word, high_part, write_number, join_parts}
use qu_prolog.Encode.Read.{
  State, Reader, then_read, read_char, give, read_number, read_bytes, c_str,
}

pub then_read_lem :
    {A B : Type 0} (a : Reader A) (b : A → Reader B) (s : State) (bs : Bytes) (x : A) (t : State)
    (cs : Bytes)
    → a s bs ≡ some (x, t, cs)
    → then_read a b s bs ≡ b x t cs
unfolding then_read
then_read_lem a b s bs x t cs h = ap (λ o. elim o [ none ↦ none | some (y, u, ds) ↦ b y u ds ]) h

pub low_word_bound : (i : ℤ) → low_word i < 2 ^ 32
unfolding low_word
low_word_bound (pos n) = omega arith
low_word_bound (negsuc n) = omega arith

bytes_of_word :
    (w : ℕ)
    → w < 2 ^ 32
    → ((w / 2 ^ 24 % 2 ^ 8 * 2 ^ 8 + w / 2 ^ 16 % 2 ^ 8) * 2 ^ 8 + w / 2 ^ 8 % 2 ^ 8) * 2 ^ 8
        + w % 2 ^ 8
      ≡ w
bytes_of_word w h = omega arith

pub read_number-write_number :
    (i : ℤ) (s : State) (rest : Bytes)
    → read_number s (write_number i ++ rest) ≡ some (low_word i, s, rest)
unfolding read_number write_number then_read read_char give
read_number-write_number i s rest =
    ap (λ n. some (n, s, rest)) (bytes_of_word (low_word i) (low_word_bound i))

-- The integers of 64 bits.
abbrev pub Fits : ℤ → Type 0
Fits (pos n) = n < 2 ^ 63
Fits (negsuc n) = n < 2 ^ 63

pub join_parts-high_part : (i : ℤ) → Fits i → join_parts (low_word (high_part i)) (low_word i) ≡ i
unfolding join_parts low_word high_part
join_parts-high_part (pos n) h =
    let whole : (n / 2 ^ 32 % 2 ^ 32 * 2 ^ 32 + n % 2 ^ 32) % 2 ^ 64 ≡ n = omega arith in
    let small : ltb n (2 ^ 63) ≡ true = ground arith in rw (whole, small) refl
join_parts-high_part (negsuc n) h =
    let whole : ((2 ^ 32 - 1 - n / 2 ^ 32 % 2 ^ 32) * 2 ^ 32 + (2 ^ 32 - 1 - n % 2 ^ 32)) % 2 ^ 64
        ≡ 2 ^ 64 - 1 - n =
      omega arith in
    let large : ltb (2 ^ 64 - 1 - n) (2 ^ 63) ≡ false = ground arith in
    let back : 2 ^ 64 - 1 - (2 ^ 64 - 1 - n) ≡ n = omega arith in rw (whole, large) (ap negsuc back)

-- No byte is 0.
abbrev pub NonZero : Bytes → Type 0
NonZero [] = Unit
NonZero (b ∷ bs) = (0 < b) × NonZero bs

pub c_str_lem : (bs : Bytes) → NonZero bs → c_str bs ≡ bs
unfolding c_str
c_str_lem [] h = refl
c_str_lem (zero ∷ bs) h = absurd (omega (arith, h.0))
c_str_lem (suc b ∷ bs) h = ap (λ cs. suc b ∷ cs) (c_str_lem bs h.1)

pub read_bytes_lem :
    (bs rest : Bytes) (s : State) → read_bytes (length bs) s (bs ++ rest) ≡ some (bs, s, rest)
unfolding read_bytes then_read read_char give
read_bytes_lem [] rest s = refl
read_bytes_lem (b ∷ bs) rest s =
    then_read_lem (read_bytes (length bs)) (λ cs. give (b ∷ cs)) s (bs ++ rest) bs s rest
      (read_bytes_lem bs rest s)
