-- ===== src/Encode/Write.antt =====
-- `EncodeWrite` of src/encode.cc, with `remember` false, on a stream that takes every byte: what is
-- written and the map after it, or nothing where the code answers false or exits.
use qu_prolog.Base.{ℕ, ◌/◌, ◌%◌, [], ◌∷◌, ◌++◌, Option, none, some, ltb, length, if◌then◌else◌}
use qu_prolog.Base.Int.{ℤ, pos}
use qu_prolog.Encode.Term.{
  Bytes, Term, Terms, Blocks, Pairs, var, obj_var, cons, struct, quant, integer, double, atom,
  string, subst_term, no_terms, then_term, no_blocks, then_block, no_pairs, then_pair, arity, size,
  int64,
}
use qu_prolog.Encode.Map.{Key, var_key, obj_var_key, atom_key, Map, add, look_up}
use qu_prolog.Encode.Number.{write_number, high_part, is_big}

abbrev pub Written : Type 0
Written = Option (Bytes × Map)

abbrev pub Writer : Type 0
Writer = Map → Written

unfoldable pub emit : Bytes → Writer
emit bs m = some (bs, m)

-- One after the other: `&&`, and `&=` where only the answer true counts.
unfoldable pub then_write : Writer → Writer → Writer
then_write a b m = elim (a m) [
  | none ↦ none
  | some (bs, n) ↦ elim (b n) [ none ↦ none | some (cs, o) ↦ some (bs ++ cs, o) ]
]

-- `encodeWriteAtom` and `encodeWriteString`
unfoldable pub write_name : Bytes → Option Bytes
write_name n = if ltb 255 (length n) then none else some (length n ∷ n)

-- `encodeWriteVarName`; most variables have no name.
unfoldable pub write_var_name : Option Bytes → Option Bytes
unfolding write_name
write_var_name none = some []
write_var_name (some n) = elim (write_name n) [ none ↦ none | some bs ↦ some (12 ∷ bs) ]

unfoldable pub write_reference : ℕ → ℕ → Bytes
write_reference tag i =
    if ltb i 256 then tag ∷ i % 256 ∷ [] else 13 ∷ i / 256 % 256 ∷ tag ∷ i % 256 ∷ []

-- A variable or an atom: the index if it was written before, and else what stands for a new one.
unfoldable pub write_key : Key → ℕ → ℕ → Option Bytes → Writer
unfolding look_up add write_reference
write_key k old new name m = elim (look_up k m) [
  | some i ↦ some (write_reference old i, m)
  | none ↦ elim (add k m) [
    | none ↦ none
    | some n ↦ elim name [ none ↦ none | some bs ↦ some (new ∷ bs, n) ]
  ]
]

unfoldable pub write_atom : Bytes → Writer
unfolding write_key write_name
write_atom n = write_key (atom_key n) 7 8 (write_name n)

unfoldable pub write_string : Bytes → Writer
unfolding write_name
write_string s m = elim (write_name s) [ none ↦ none | some bs ↦ some (15 ∷ bs, m) ]

-- An integer outside the range of `int` is written as a structure of its two words.
unfoldable pub write_integer : ℤ → Writer
unfolding then_write emit write_atom write_number is_big high_part
write_integer i =
    if is_big i
    then then_write (emit (5 ∷ write_number (pos 2))) (
        then_write (write_atom int64) (emit (9 ∷ write_number (high_part i) ++ 9 ∷ write_number i)))
    else emit (9 ∷ write_number i)

-- The low byte of the tag of a substitution block.
abbrev pub block_tag : ℕ
block_tag = 191

module _ (name : Key → Option Bytes) where
  unfoldable mutual
    -- `encodeWriteTerm`
    pub write_term : Term → Writer
    write_term (var v) = write_key (var_key v) 0 1 (write_var_name (name (var_key v)))
    write_term (obj_var v) = write_key (obj_var_key v) 2 3 (write_var_name (name (obj_var_key v)))
    write_term (cons h t) = then_write (emit (4 ∷ [])) (then_write (write_term h) (write_term t))
    write_term (struct f ts) =
        then_write (emit (5 ∷ write_number (pos (arity ts))))
          (then_write (write_term f) (write_terms ts))
    write_term (quant q v b) =
        then_write (emit (6 ∷ []))
          (then_write (write_term q) (then_write (write_term v) (write_term b)))
    write_term (integer i) = write_integer i
    write_term (double d) = emit (14 ∷ d)
    write_term (atom n) = write_atom n
    write_term (string s) = write_string s
    write_term (subst_term s t) =
        then_write (emit (10 ∷ []))
          (then_write (write_sub s) (then_write (emit (11 ∷ [])) (write_term t)))

    -- The loop over the arguments of a structure.
    pub write_terms : Terms → Writer
    write_terms no_terms = emit []
    write_terms (then_term t ts) = then_write (write_term t) (write_terms ts)

    -- `encodeWriteSub`: the tail of the list is written first.
    pub write_sub : Blocks → Writer
    write_sub no_blocks = emit []
    write_sub (then_block i ps s) =
        then_write (write_sub s)
          (then_write (emit (block_tag ∷ write_number (pos (size ps)))) (write_pairs ps))

    pub write_pairs : Pairs → Writer
    write_pairs no_pairs = emit []
    write_pairs (then_pair d r ps) =
        then_write (then_write (write_term d) (write_term r)) (write_pairs ps)
