-- ===== src/Encode/Success.antt =====
-- When writing succeeds (src/encode.cc): names have at most 255 bytes, and the map has room.
use qu_prolog.Base.{
  ℕ, ◌+◌, ◌*◌, ◌≤◌, ◌≡◌, refl, ◌∙◌, true, false, [], ◌∷◌, ◌++◌, Option, none, some, arith, ltb,
  lt→ltb, length, length-append, Bool-cases, Option-cases, inl, inr,
}
use qu_prolog.Base.Int.{ℤ, pos}
use qu_prolog.Encode.Term.{
  Bytes, Term, Terms, Blocks, Pairs, var, obj_var, cons, struct, quant, integer, double, atom,
  string, subst_term, no_terms, then_term, no_blocks, then_block, no_pairs, then_pair, arity, size,
  int64,
}
use qu_prolog.Encode.Map.{Key, var_key, obj_var_key, atom_key, Map, add, look_up}
use qu_prolog.Encode.Images.{state_of, number}
use qu_prolog.Encode.Number.{write_number, high_part, is_big}
use qu_prolog.Encode.Growth.{Quiet, both_write}
use qu_prolog.Encode.Write.{
  Writer, emit, then_write, write_name, write_var_name, write_reference, write_key, write_atom,
  write_integer, write_string, block_tag, write_term, write_terms, write_sub, write_pairs,
}
use qu_prolog.Encode.Copy.{IsHeapTerm, copied}
use qu_prolog.Encode.Read.{decode}
use qu_prolog.Encode.RoundTrip.{Renames, decode_written}

-- The writer succeeds where the map has room for so many entries.
abbrev Succeeds : Writer → ℕ → Type 0
Succeeds p k =
    (m : Map)
    → length m + k ≤ 256 * 256
    → (bs : Bytes) × (n : Map) × (p m ≡ some (bs, n)) × (length n ≤ length m + k)

then_write-Succeeds :
    (p q : Writer) (j k : ℕ) → Succeeds p j → Succeeds q k → Succeeds (then_write p q) (j + k)
then_write-Succeeds p q j k hp hq m room =
    let (bs, n, w, l) = hp m (omega (arith, room)) in
    let (cs, o, v, r) = hq n (omega (arith, room, l)) in
    (bs ++ cs, o, both_write p q m bs n w cs o v, omega (arith, l, r))

emit-Succeeds : (bs : Bytes) → Succeeds (emit bs) 0
unfolding emit
emit-Succeeds bs m room = (bs, m, refl, omega arith)

more-Succeeds : (p : Writer) (j k : ℕ) → j ≤ k → Succeeds p j → Succeeds p k
more-Succeeds p j k le h m room =
    let (bs, n, w, l) = h m (omega (arith, room, le)) in (bs, n, w, omega (arith, l, le))

-- Two parts and a header.
headed-Succeeds :
    (head : Bytes) (p : Writer) (k : ℕ) → Succeeds p k → Succeeds (then_write (emit head) p) k
headed-Succeeds head p k h =
    more-Succeeds (then_write (emit head) p) (0 + k) k (omega arith)
      (then_write-Succeeds (emit head) p 0 k (emit-Succeeds head) h)

write_key-Succeeds :
    (k : Key) (old new : ℕ) (name : Option Bytes) (cs : Bytes)
    → name ≡ some cs
    → Succeeds (write_key k old new name) 1
unfolding write_key add
write_key-Succeeds k old new name cs h m room = elim (Option-cases (look_up k m)) [
  | inl e ↦
      let fits : ltb (length m) (256 * 256) ≡ true =
        lt→ltb (length m) (256 * 256) (omega (arith, room)) in
      (
        new ∷ cs,
        m ++ k ∷ [],
        rw (e, add, fits, h, write_key) refl,
        omega (arith, length-append m (k ∷ [])),
      )
  | inr (i, e) ↦ (write_reference old i, m, rw (e, write_key) refl, omega arith)
]

write_name-short : (n : Bytes) → length n ≤ 255 → write_name n ≡ some (length n ∷ n)
unfolding write_name
write_name-short n h =
    let fits : ltb 255 (length n) ≡ false = ground (arith, h) in rw (write_name, fits) refl

-- A name that is there has at most 255 bytes.
abbrev pub IsShortName : Option Bytes → Type 0
IsShortName none = Unit
IsShortName (some n) = length n ≤ 255

write_var_name-short :
    (name : Option Bytes) → IsShortName name → (cs : Bytes) × (write_var_name name ≡ some cs)
unfolding write_var_name
write_var_name-short none h = ([], refl)
write_var_name-short (some n) h =
    (12 ∷ length n ∷ n, rw (write_var_name, write_name-short n h) refl)

write_atom-Succeeds : (n : Bytes) → length n ≤ 255 → Succeeds (write_atom n) 1
unfolding write_atom
write_atom-Succeeds n h =
    write_key-Succeeds (atom_key n) 7 8 (write_name n) (length n ∷ n) (write_name-short n h)

write_integer-Succeeds : (i : ℤ) → Succeeds (write_integer i) 1
unfolding write_integer
write_integer-Succeeds i m room = elim (Bool-cases (is_big i)) [
  | inl e ↦
      let parts = 9 ∷ write_number (high_part i) ++ 9 ∷ write_number i in
      let (bs, n, w, l) =
        headed-Succeeds (5 ∷ write_number (pos 2)) (then_write (write_atom int64) (emit parts))
          (1 + 0)
          (then_write-Succeeds (write_atom int64) (emit parts) 1 0
            (write_atom-Succeeds int64 (omega arith)) (emit-Succeeds parts))
          m room in
      (bs, n, rw (e, write_integer) refl ∙ w, l)
  | inr e ↦
      let (bs, n, w, l) =
        more-Succeeds (emit (9 ∷ write_number i)) 0 1 (omega arith)
          (emit-Succeeds (9 ∷ write_number i)) m room in
      (bs, n, rw (e, write_integer) refl ∙ w, l)
]

write_string-Succeeds : (s : Bytes) → length s ≤ 255 → Succeeds (write_string s) 0
unfolding write_string
write_string-Succeeds s h m room =
    (15 ∷ length s ∷ s, m, rw (write_string, write_name-short s h) refl, omega arith)

module _ (name : Key → Option Bytes) where
  -- The names of the atoms, the strings and the variables are short.
  unfoldable mutual
    pub IsShort : Term → Type 0
    IsShort (var v) = IsShortName (name (var_key v))
    IsShort (obj_var v) = IsShortName (name (obj_var_key v))
    IsShort (cons h t) = IsShort h × IsShort t
    IsShort (struct f ts) = IsShort f × AreShort ts
    IsShort (quant q v b) = IsShort q × IsShort v × IsShort b
    IsShort (integer i) = Unit
    IsShort (double d) = Unit
    IsShort (atom n) = length n ≤ 255
    IsShort (string s) = length s ≤ 255
    IsShort (subst_term s t) = AreShortBlocks s × IsShort t

    pub AreShort : Terms → Type 0
    AreShort no_terms = Unit
    AreShort (then_term t ts) = IsShort t × AreShort ts

    pub AreShortBlocks : Blocks → Type 0
    AreShortBlocks no_blocks = Unit
    AreShortBlocks (then_block i ps s) = AreShortPairs ps × AreShortBlocks s

    pub AreShortPairs : Pairs → Type 0
    AreShortPairs no_pairs = Unit
    AreShortPairs (then_pair d r ps) = IsShort d × IsShort r × AreShortPairs ps

-- How many variables, atoms and integers there are.
unfoldable mutual
  pub keys : Term → ℕ
  keys (cons h t) = keys h + keys t
  keys (struct f ts) = keys f + keys_of_terms ts
  keys (quant q v b) = keys q + (keys v + keys b)
  keys (double d) = 0
  keys (string s) = 0
  keys (subst_term s t) = keys_of_blocks s + keys t
  keys _ = 1

  pub keys_of_terms : Terms → ℕ
  keys_of_terms no_terms = 0
  keys_of_terms (then_term t ts) = keys t + keys_of_terms ts

  pub keys_of_blocks : Blocks → ℕ
  keys_of_blocks no_blocks = 0
  keys_of_blocks (then_block i ps s) = keys_of_blocks s + keys_of_pairs ps

  pub keys_of_pairs : Pairs → ℕ
  keys_of_pairs no_pairs = 0
  keys_of_pairs (then_pair d r ps) = (keys d + keys r) + keys_of_pairs ps

module _ (name : Key → Option Bytes) where
  mutual
    unfolding write_term write_terms write_sub write_pairs IsShort AreShort AreShortBlocks
        AreShortPairs keys keys_of_terms keys_of_blocks keys_of_pairs

    write_term-Succeeds : (t : Term) → IsShort name t → Succeeds (write_term name t) (keys t)
    write_term-Succeeds (var v) h =
        let (cs, e) = write_var_name-short (name (var_key v)) h in
        write_key-Succeeds (var_key v) 0 1 (write_var_name (name (var_key v))) cs e
    write_term-Succeeds (obj_var v) h =
        let (cs, e) = write_var_name-short (name (obj_var_key v)) h in
        write_key-Succeeds (obj_var_key v) 2 3 (write_var_name (name (obj_var_key v))) cs e
    write_term-Succeeds (cons x t) h =
        headed-Succeeds (4 ∷ []) _ _
          (then_write-Succeeds _ _ _ _ (write_term-Succeeds x h.0) (write_term-Succeeds t h.1))
    write_term-Succeeds (struct f ts) h =
        headed-Succeeds (5 ∷ write_number (pos (arity ts))) _ _
          (then_write-Succeeds _ _ _ _ (write_term-Succeeds f h.0) (write_terms-Succeeds ts h.1))
    write_term-Succeeds (quant q v b) h = headed-Succeeds (6 ∷ []) _ _ (
        then_write-Succeeds _ _ _ _ (write_term-Succeeds q h.0)
          (then_write-Succeeds _ _ _ _ (write_term-Succeeds v h.1) (write_term-Succeeds b h.2)))
    write_term-Succeeds (integer i) h = write_integer-Succeeds i
    write_term-Succeeds (double d) h = emit-Succeeds (14 ∷ d)
    write_term-Succeeds (atom n) h = write_atom-Succeeds n h
    write_term-Succeeds (string s) h = write_string-Succeeds s h
    write_term-Succeeds (subst_term s t) h = headed-Succeeds (10 ∷ []) _ _ (
        then_write-Succeeds _ _ _ _ (write_sub-Succeeds s h.0)
          (headed-Succeeds (11 ∷ []) _ _ (write_term-Succeeds t h.1)))

    write_terms-Succeeds :
        (ts : Terms) → AreShort name ts → Succeeds (write_terms name ts) (keys_of_terms ts)
    write_terms-Succeeds no_terms h = emit-Succeeds []
    write_terms-Succeeds (then_term t ts) h =
        then_write-Succeeds _ _ _ _ (write_term-Succeeds t h.0) (write_terms-Succeeds ts h.1)

    write_sub-Succeeds :
        (s : Blocks) → AreShortBlocks name s → Succeeds (write_sub name s) (keys_of_blocks s)
    write_sub-Succeeds no_blocks h = emit-Succeeds []
    write_sub-Succeeds (then_block i ps s) h =
        then_write-Succeeds _ _ _ _ (write_sub-Succeeds s h.1) (
          headed-Succeeds (block_tag ∷ write_number (pos (size ps))) _ _
            (write_pairs-Succeeds ps h.0))

    write_pairs-Succeeds :
        (ps : Pairs) → AreShortPairs name ps → Succeeds (write_pairs name ps) (keys_of_pairs ps)
    write_pairs-Succeeds no_pairs h = emit-Succeeds []
    write_pairs-Succeeds (then_pair d r ps) h =
        then_write-Succeeds _ _ _ _
          (then_write-Succeeds _ _ _ _ (write_term-Succeeds d h.0) (write_term-Succeeds r h.1))
          (write_pairs-Succeeds ps h.2)

-- Encoding a term succeeds, and decoding the bytes gives a copy of the term and leaves what follows
-- them. The copy differs from the term in three ways: its variables are new ones, different ones
-- for different ones; a negative integer that fits an `int` is read as 2^32 more; and no
-- substitution block in it is marked as invertible. The term is one of the heap in the sense of `IsHeapTerm` (64-bit integers,
-- no byte 0 in a name, at least one block in a substitution, different bound variables, no
-- structure `$int64` of two arguments), no name in it has more than 255 bytes, at most 65536
-- variables, atoms and integers occur in it, and what follows does not begin with the tag of a name.
pub decode-write_term :
    (name : Key → Option Bytes) (t : Term) (rest : Bytes)
    → IsHeapTerm t
    → IsShort name t
    → keys t ≤ 256 * 256
    → Quiet rest
    → (bs : Bytes) × (n : Map) × (write_term name t [] ≡ some (bs, n))
      × Renames (number 0 n)
      × (decode (bs ++ rest) ≡ some (copied (number 0 n) t, state_of n, rest))
decode-write_term name t rest h s room q =
    let (bs, n, w, l) = write_term-Succeeds name t s [] (omega (arith, room)) in
    let (renames, back) = decode_written name t bs n rest h w q in (bs, n, w, renames, back)
