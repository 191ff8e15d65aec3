-- ===== src/Encode/Leaves.antt =====
-- Numbers and strings, written and read back (src/encode.cc).
use qu_prolog.Base.{
  ℕ, suc, ◌%◌, ◌^◌, ◌<◌, ◌≡◌, refl, sym, ap, ◌∙◌, subst, ◌∷◌, ◌++◌, some, arith, length, Bool-cases,
  inl, inr,
}
use qu_prolog.Base.Int.{ℤ, pos}
use qu_prolog.Encode.Term.{Bytes, Term, integer, double, string, atom, is_int64, int64, same_bytes}
use qu_prolog.Encode.Map.{Key}
use qu_prolog.Encode.Images.{state_of}
use qu_prolog.Encode.Number.{low_word, high_part, is_big, write_number, join_parts}
use qu_prolog.Encode.Growth.{
  then_write-Writes, write_string-some, write_atom-Writes, write_parts-Writes,
}
use qu_prolog.Encode.Steps.{
  Reads, then-Reads, emit-Reads, tagged-Reads, leaf-Reads, other-Reads, any-Reads,
}
use qu_prolog.Encode.Words.{
  then_read_lem, read_number-write_number, read_bytes_lem, Fits, join_parts-high_part, NonZero,
}
use qu_prolog.Encode.KeyReads.{atom-Reads, read_name_lem}
use qu_prolog.Encode.Write.{Writer, emit, then_write, write_string, write_atom, write_integer}
use qu_prolog.Encode.Read.{
  State, Reader, then_read, give, read_char, read_bytes, read_name, read_number, read_parts,
  read_arguments, read_structure, read_tagged, read_term,
}
use qu_prolog.Encode.Copy.{returned}

-- The number of arguments is read.
pub read_structure-write_number :
    (n : ℕ) (read : Reader Term) (s : State) (rest : Bytes)
    → n < 2 ^ 32
    → read_structure read s (write_number (pos n) ++ rest) ≡ read_arguments read n s rest
unfolding read_structure read_arguments low_word
read_structure-write_number n read s rest h =
    then_read_lem read_number (λ k. read_arguments read k) s (write_number (pos n) ++ rest)
      (low_word (pos n)) s rest (read_number-write_number (pos n) s rest)
    ∙ ap (λ k. read_arguments read k s rest) (the_word n h)
  where
    the_word : (k : ℕ) → k < 2 ^ 32 → k % 2 ^ 32 ≡ k
    the_word k h = omega arith

read_parts-write_number :
    (i : ℤ) (read : Reader Term) (s : State) (rest : Bytes)
    → Fits i
    → read_parts read s ((9 ∷ write_number (high_part i) ++ 9 ∷ write_number i) ++ rest)
      ≡ some (integer i, s, rest)
unfolding read_parts then_read read_char give write_number
read_parts-write_number i read s rest h =
    let second : ℕ → Reader Term = λ high.
      then_read read_char λ b. then_read read_number λ low. give (integer (join_parts high low)) in
    then_read_lem read_number second s (write_number (high_part i) ++ (9 ∷ write_number i ++ rest))
      (low_word (high_part i)) s (9 ∷ write_number i ++ rest)
      (read_number-write_number (high_part i) s (9 ∷ write_number i ++ rest))
    ∙ then_read_lem read_number (λ low. give (integer (join_parts (low_word (high_part i)) low))) s
        (write_number i ++ rest) (low_word i) s rest (read_number-write_number i s rest)
    ∙ ap (λ j. some (integer j, s, rest)) (join_parts-high_part i h)

int64-Reads : (σ : Key → ℕ) (f : ℕ) → Reads σ f (write_atom int64) (read_term f) (atom int64)
int64-Reads σ f =
    any-Reads σ (write_atom int64) (atom int64)
      (λ g. atom-Reads σ g int64 (
        omega arith,
        (omega arith, (omega arith, (omega arith, (omega arith, (omega arith, tt))))),
      ))
      f

module _ (σ : Key → ℕ) (f : ℕ) where
  pub integer-Reads :
      (i : ℤ)
      → Fits i
      → Reads σ (suc f) (write_integer i) (read_term (suc f)) (integer (returned i))
  unfolding write_integer returned read_tagged read_arguments is_int64 same_bytes
  integer-Reads i h = elim (Bool-cases (is_big i)) [
    | inl e ↦
        let parts : Writer = emit (9 ∷ write_number (high_part i) ++ 9 ∷ write_number i) in
        let same : returned i ≡ i = rw (returned, e) refl in
        subst (λ j. Reads σ (suc f) (write_integer i) (read_term (suc f)) (integer j)) (sym same)
          (other-Reads σ (suc f) (write_integer i)
            (then_write (emit (5 ∷ write_number (pos 2))) (then_write (write_atom int64) parts))
            (read_term (suc f)) (integer i) (λ m. rw (e, write_integer) refl)
            (tagged-Reads σ f 5 (write_number (pos 2)) (then_write (write_atom int64) parts)
              (read_arguments (read_term f) 2) (integer i)
              (then_write-Writes (write_atom int64) parts (write_atom-Writes int64)
                (write_parts-Writes i))
              (λ s rest. read_structure-write_number 2 (read_term f) s rest (omega arith))
              (then-Reads σ f (write_atom int64) parts (read_term f) _ (atom int64) (integer i)
                (write_atom-Writes int64) (write_parts-Writes i) (int64-Reads σ f)
                (emit-Reads σ f (9 ∷ write_number (high_part i) ++ 9 ∷ write_number i)
                  (read_parts (read_term f)) (integer i)
                  (λ s rest. read_parts-write_number i (read_term f) s rest h)))))
    | inr e ↦
        let same : returned i ≡ pos (low_word i) = rw (returned, e) refl in
        subst (λ j. Reads σ (suc f) (write_integer i) (read_term (suc f)) (integer j)) (sym same)
          (other-Reads σ (suc f) (write_integer i) (emit (9 ∷ write_number i)) (read_term (suc f))
            (integer (pos (low_word i))) (λ m. rw (e, write_integer) refl)
            (leaf-Reads σ f 9 (write_number i) (integer (pos (low_word i))) (λ s rest.
              then_read_lem read_number (λ n. give (integer (pos n))) s (write_number i ++ rest)
                (low_word i) s rest (read_number-write_number i s rest))))
  ]

  pub double-Reads :
      (d : Bytes) → length d ≡ 8 → Reads σ (suc f) (emit (14 ∷ d)) (read_term (suc f)) (double d)
  unfolding read_tagged
  double-Reads d h = leaf-Reads σ f 14 d (double d) (λ s rest.
      then_read_lem (read_bytes 8) (λ x. give (double x)) s (d ++ rest) d s rest
        (ap (λ n. read_bytes n s (d ++ rest)) (sym h) ∙ read_bytes_lem d rest s))

  pub string-Reads :
      (c : Bytes) → NonZero c → Reads σ (suc f) (write_string c) (read_term (suc f)) (string c)
  unfolding read_term read_tagged then_read read_char read_name give
  string-Reads c z m bs n rest w l a e b =
      let (out, same) = write_string-some c m bs n w in
      ap (λ ds. read_term (suc f) (state_of m) (ds ++ rest)) out
      ∙ then_read_lem read_name (λ x. give (string x)) (state_of m) (length c ∷ c ++ rest) c
          (state_of m) rest (read_name_lem c (state_of m) rest z)
      ∙ ap (λ o. some (string c, state_of o, rest)) same
