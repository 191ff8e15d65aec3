-- ===== src/Encode/Read.antt =====
-- `EncodeRead` of src/encode.cc, with `remember` false. The stream is the bytes that are left; a
-- reader gives nothing where the code answers false.
use qu_prolog.Base.{
  ℕ, zero, suc, ◌+◌, ◌*◌, ◌^◌, ◌&&◌, ◌||◌, false, List, [], ◌∷◌, Option, none, some, length,
  get_elem?, ◌==◌, if◌then◌else◌,
}
use qu_prolog.Base.Int.{pos}
use qu_prolog.Encode.Term.{
  Bytes, Term, Terms, Blocks, Pairs, var, obj_var, cons, struct, quant, integer, double, atom,
  string, subst_term, no_terms, then_term, no_blocks, then_block, no_pairs, then_pair, is_int64,
  check_binder,
}
use qu_prolog.Encode.Map.{add}
use qu_prolog.Encode.Number.{join_parts}

-- The map holds what was read; the new variables are numbered.
pub record State : Type 0 where
  pub map : List Term
  pub next : ℕ

abbrev pub Reader : Type 0 → Type 0
Reader A = State → Bytes → Option (A × State × Bytes)

module _ {A B : Type 0} where
  unfoldable pub then_read : Reader A → (A → Reader B) → Reader B
  then_read a b s bs = elim (a s bs) [ none ↦ none | some (x, t, cs) ↦ b x t cs ]

module _ {A : Type 0} where
  unfoldable pub give : A → Reader A
  give x s bs = some (x, s, bs)

  unfoldable pub read_error : Reader A
  read_error s bs = none

-- `encodeReadChar`
unfoldable pub read_char : Reader ℕ
read_char s [] = none
read_char s (b ∷ bs) = some (b, s, bs)

unfoldable pub read_bytes : ℕ → Reader Bytes
unfolding then_read read_char give
read_bytes zero = give []
read_bytes (suc n) = then_read read_char λ b. then_read (read_bytes n) λ bs. give (b ∷ bs)

-- `encodeReadNumber`
unfoldable pub read_number : Reader ℕ
unfolding then_read read_char give
read_number = then_read read_char λ a. then_read read_char λ b.
    then_read read_char
      λ c. then_read read_char λ d. give (((a * 2 ^ 8 + b) * 2 ^ 8 + c) * 2 ^ 8 + d)

-- The characters of a buffer up to the first that is 0.
unfoldable pub c_str : Bytes → Bytes
c_str [] = []
c_str (zero ∷ bs) = []
c_str (suc b ∷ bs) = suc b ∷ c_str bs

-- `encodeReadAtom` and `encodeReadString`
unfoldable pub read_name : Reader Bytes
unfolding then_read read_char read_bytes c_str give
read_name = then_read read_char λ n. then_read (read_bytes n) λ bs. give (c_str bs)

-- The name that may follow a new variable is skipped; the end of the stream is no error.
unfoldable pub skip_name : Reader Unit
unfolding then_read read_char read_bytes give
skip_name s [] = some (tt, s, [])
skip_name s (b ∷ bs) =
    if b == 12
    then then_read read_char (λ n. then_read (read_bytes n) λ cs. give tt) s bs
    else some (tt, s, b ∷ bs)

-- `map->add`
unfoldable pub remember_term : Term → Reader Term
unfolding add
remember_term t s bs = elim (add t s.map) [
  | none ↦ none
  | some m ↦ some (t, record s { map = m }, bs)
]

-- `heap.newVariable` and `heap.newObjectVariable`
unfoldable pub new_number : Reader ℕ
new_number s bs = some (s.next, record s { next = s.next + 1 }, bs)

unfoldable pub read_variable : (ℕ → Term) → Reader Term
unfolding then_read skip_name new_number remember_term
read_variable make = then_read skip_name λ u. then_read new_number λ n. remember_term (make n)

-- `map->lookUp` at a table and an index of it. Beyond the map it reads what is not defined.
unfoldable pub read_reference : ℕ → Reader Term
unfolding then_read read_char
read_reference table =
    then_read read_char λ i.
      λ s bs. elim (get_elem? s.map (256 * table + i)) [ none ↦ none | some t ↦ some (t, s, bs) ]

unfoldable pub read_offset : Reader Term
unfolding then_read read_char read_reference read_error
read_offset = then_read read_char λ table.
    then_read read_char
      λ tag. if tag == 0 || tag == 2 || tag == 7 then read_reference table else read_error

module _ (read : Reader Term) where
  unfoldable pub read_terms : ℕ → Reader Terms
  unfolding then_read give
  read_terms zero = give no_terms
  read_terms (suc n) = then_read read λ t. then_read (read_terms n) λ ts. give (then_term t ts)

  unfoldable pub read_pairs : ℕ → Reader Pairs
  unfolding then_read give
  read_pairs zero = give no_pairs
  read_pairs (suc n) =
      then_read read λ d. then_read read λ r. then_read (read_pairs n) λ ps. give (then_pair d r ps)

  -- A block, after its tag.
  unfoldable pub read_block : Blocks → Reader Blocks
  unfolding then_read read_number read_pairs give
  read_block sub =
      then_read read_number λ n. then_read (read_pairs n) λ ps. give (then_block false ps sub)

  -- What is done while blocks follow, at most `n` of them: the end, or the tag of the next block,
  -- which is not looked at.
  unfoldable pub read_more : ℕ → Blocks → Reader Blocks
  unfolding then_read read_char read_block give read_error
  read_more zero sub = then_read read_char λ tag. if tag == 11 then give sub else read_error
  read_more (suc n) sub =
      then_read read_char
        λ tag. if tag == 11 then give sub else then_read (read_block sub) λ more. read_more n more

  -- `encodeReadSub`: the first byte is taken for the tag of a block, whatever it is. Each block
  -- takes bytes, so that there are fewer blocks than bytes.
  unfoldable pub read_sub : Reader Blocks
  unfolding then_read read_char read_block read_more
  read_sub s bs =
      then_read read_char (λ tag. then_read (read_block no_blocks) λ sub. read_more (length bs) sub)
        s bs

  unfoldable pub read_list : Reader Term
  unfolding then_read give
  read_list = then_read read λ h. then_read read λ t. give (cons h t)

  -- The two words of an integer: their tags are not looked at.
  unfoldable pub read_parts : Reader Term
  unfolding then_read read_char read_number give join_parts
  read_parts = then_read read_char λ a. then_read read_number λ high.
      then_read read_char λ b. then_read read_number λ low. give (integer (join_parts high low))

  -- A structure, after its number of arguments.
  unfoldable pub read_arguments : ℕ → Reader Term
  unfolding then_read read_terms read_parts give is_int64
  read_arguments n = then_read read λ f.
      if n == 2 && is_int64 f then read_parts else then_read (read_terms n) λ ts. give (struct f ts)

  unfoldable pub read_structure : Reader Term
  unfolding then_read read_number read_arguments
  read_structure = then_read read_number λ n. read_arguments n

  unfoldable pub read_quantifier : Reader Term
  unfolding then_read give read_error check_binder
  read_quantifier = then_read read λ q.
      then_read read
        λ v. then_read read λ b. if check_binder v [] then give (quant q v b) else read_error

  unfoldable pub read_substitution : Reader Term
  unfolding then_read read_sub give
  read_substitution = then_read read_sub λ s. then_read read λ t. give (subst_term s t)

  -- The cases of `encodeReadTerm`.
  unfoldable pub read_tagged : ℕ → Reader Term
  unfolding then_read read_offset read_reference read_variable read_list read_structure
      read_quantifier read_name remember_term read_number read_bytes read_substitution give
      read_error
  read_tagged tag =
      if tag == 13
      then read_offset
      else if tag == 0 || tag == 2 || tag == 7
      then read_reference 0
      else if tag == 1
      then read_variable var
      else if tag == 3
      then read_variable obj_var
      else if tag == 4
      then read_list
      else if tag == 5
      then read_structure
      else if tag == 6
      then read_quantifier
      else if tag == 8
      then then_read read_name (λ n. remember_term (atom n))
      else if tag == 9
      then then_read read_number (λ n. give (integer (pos n)))
      else if tag == 14
      then then_read (read_bytes 8) (λ d. give (double d))
      else if tag == 15
      then then_read read_name (λ n. give (string n))
      else if tag == 10
      then read_substitution
      else read_error

-- `encodeReadTerm`, to a depth.
unfoldable pub read_term : ℕ → Reader Term
unfolding then_read read_char read_tagged read_error
read_term zero = read_error
read_term (suc n) = then_read read_char (read_tagged (read_term n))

-- No term is deeper than the bytes that are left are many.
unfoldable pub decode : Bytes → Option (Term × State × Bytes)
unfolding read_term
decode bs = read_term (suc (length bs)) (record { map = []; next = 0 }) bs
