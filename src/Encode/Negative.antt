-- ===== src/Encode/Negative.antt =====
-- Integers that are encoded and decoded again (src/encode.cc).
use qu_prolog.Base.{
  ◌-◌, ◌^◌, ◌%◌, ◌<◌, ◌≡◌, refl, sym, ap, ◌∙◌, true, false, [], Option, some, arith, ltb, leb,
  if◌then◌else◌, Bool-cases, inl, inr,
}
use mathlib.Core.List.{append-nil}
use qu_prolog.Base.Int.{ℤ, pos, negsuc}
use qu_prolog.Encode.Term.{Bytes, integer}
use qu_prolog.Encode.Map.{Key, Map}
use qu_prolog.Encode.Images.{state_of}
use qu_prolog.Encode.Number.{low_word, is_big}
use qu_prolog.Encode.Words.{Fits}
use qu_prolog.Encode.Write.{write_term}
use qu_prolog.Encode.Read.{decode}
use qu_prolog.Encode.Copy.{returned, copied, IsHeapTerm}
use qu_prolog.Encode.Success.{IsShort, keys, decode-write_term}

-- Negative integers that fit 32 bits come back as 2^32 more.
abbrev pub after_decoding : ℤ → ℤ
after_decoding (pos n) = pos n
after_decoding (negsuc n) = if ltb n (2 ^ 31) then pos (2 ^ 32 - 1 - n) else negsuc n

returned_lem : (i : ℤ) → returned i ≡ after_decoding i
unfolding returned is_big low_word
returned_lem (pos n) = elim (Bool-cases (leb (2 ^ 31) n)) [
  | inl e ↦ rw (returned, e) refl
  | inr e ↦
      let low : n < 2 ^ 31 = ground (arith, e) in
      let same : n % 2 ^ 32 ≡ n = omega (arith, low) in rw (returned, e) (ap pos same)
]
returned_lem (negsuc n) = elim (Bool-cases (leb (2 ^ 31) n)) [
  | inl e ↦ let high : ltb n (2 ^ 31) ≡ false = ground (arith, e) in rw (returned, e, high) refl
  | inr e ↦
      let low : n < 2 ^ 31 = ground (arith, e) in
      let test : ltb n (2 ^ 31) ≡ true = ground (arith, e) in
      let same : 2 ^ 32 - 1 - n % 2 ^ 32 ≡ 2 ^ 32 - 1 - n = omega (arith, low) in
      rw (returned, e, test) (ap pos same)
]

-- What encoding and decoding do to an integer of 64 bits: a negative one that fits 32 bits comes
-- back as a positive one, 2^32 more; all others come back as they are.
pub decode-write_integer :
    (name : Key → Option Bytes) (i : ℤ)
    → Fits i
    → (bs : Bytes) × (n : Map) × (write_term name (integer i) [] ≡ some (bs, n))
      × (decode bs ≡ some (integer (after_decoding i), state_of n, []))
unfolding IsHeapTerm IsShort keys copied
decode-write_integer name i h =
    let (bs, n, w, renames, back) = decode-write_term name (integer i) [] h tt (omega arith) tt in
    (
      bs,
      n,
      w,
      ap decode (sym (append-nil bs))
          ∙ back
          ∙ ap (λ j. some (integer j, state_of n, [])) (returned_lem i),
    )
