-- ===== src/Encode/Shrinks.antt =====
-- The readers of src/encode.cc take bytes and give none back.
use qu_prolog.Base.{
  ℕ, zero, suc, ◌+◌, ◌*◌, ◌≤◌, ◌≡◌, refl, sym, ap, ◌∙◌, Bool, true, false, List, [], ◌∷◌, Option,
  none, some, arith, if◌then◌else◌, length, get_elem?, ◌==◌, Bool-cases, Option-cases, inl, inr,
}
use qu_prolog.Base.Int.{pos}
use qu_prolog.Encode.Term.{
  Bytes, Term, Blocks, var, obj_var, cons, struct, quant, integer, double, atom, string, subst_term,
  no_terms, then_term, no_blocks, then_block, no_pairs, then_pair,
}
use qu_prolog.Encode.Map.{add}
use qu_prolog.Encode.Number.{join_parts}
use qu_prolog.Encode.Read.{
  State, Reader, then_read, give, read_error, read_char, read_bytes, c_str, read_name, read_number,
  skip_name, new_number, remember_term, read_variable, read_reference, read_offset, read_terms,
  read_pairs, read_block, read_more, read_sub, read_list, read_parts, read_arguments,
  read_structure, read_quantifier, read_substitution, read_tagged, read_term,
}

abbrev pub Shrinks : {A : Type 0} → Reader A → Type 0
Shrinks {A} q =
    (s : State) (bs : Bytes) (x : A) (t : State) (cs : Bytes)
    → q s bs ≡ some (x, t, cs)
    → length cs ≤ length bs

module _ {A B : Type 0} (q : Reader A) (k : A → Reader B) where
  -- The two parts of what is read.
  pub then_read-parts :
      (s : State) (bs : Bytes) (y : B) (u : State) (ds : Bytes)
      → then_read q k s bs ≡ some (y, u, ds)
      → (x : A) × (t : State) × (cs : Bytes) × (q s bs ≡ some (x, t, cs))
        × (k x t cs ≡ some (y, u, ds))
  unfolding then_read
  then_read-parts s bs y u ds h = elim (Option-cases (q s bs)) [
    | inl e ↦
        let stuck : then_read q k s bs ≡ none = rw (e, then_read) refl in
        let never : ◌≡◌ {A = Option (B × State × Bytes)} none (some (y, u, ds)) = sym stuck ∙ h in
        absurd (ground (arith, never))
    | inr ((x, t, cs), e) ↦
        let next : then_read q k s bs ≡ k x t cs = rw (e, then_read) refl in
        (x, t, cs, e, sym next ∙ h)
  ]

  pub then_read-Shrinks : Shrinks q → ((x : A) → Shrinks (k x)) → Shrinks (then_read q k)
  then_read-Shrinks hq hk s bs y u ds h =
      let (x, t, cs, e, f) = then_read-parts s bs y u ds h in
      omega (arith, hq s bs x t cs e, hk x t cs y u ds f)

module _ {A : Type 0} where
  pub give-Shrinks : (x : A) → Shrinks (give x)
  unfolding give
  give-Shrinks x s bs y t cs h = let same : bs ≡ cs = cc h in omega (arith, ap length same)

  pub read_error-Shrinks : Shrinks {A = A} read_error
  unfolding read_error
  read_error-Shrinks s bs y t cs h = absurd (ground (arith, h))

  pub test-Shrinks :
      (b : Bool) (q r : Reader A) → Shrinks q → Shrinks r → Shrinks (if b then q else r)
  test-Shrinks true q r hq hr = hq
  test-Shrinks false q r hq hr = hr

pub read_char-Shrinks : Shrinks read_char
unfolding read_char
read_char-Shrinks s [] x t cs h = absurd (ground (arith, h))
read_char-Shrinks s (b ∷ bs) x t cs h = let same : bs ≡ cs = cc h in omega (arith, ap length same)

pub read_bytes-Shrinks : (n : ℕ) → Shrinks (read_bytes n)
unfolding read_bytes
read_bytes-Shrinks zero = give-Shrinks []
read_bytes-Shrinks (suc n) =
    then_read-Shrinks read_char _ read_char-Shrinks
      (λ b. then_read-Shrinks (read_bytes n) _ (read_bytes-Shrinks n) (λ bs. give-Shrinks (b ∷ bs)))

pub read_number-Shrinks : Shrinks read_number
unfolding read_number
read_number-Shrinks = then_read-Shrinks read_char _ read_char-Shrinks λ a.
    then_read-Shrinks read_char _ read_char-Shrinks λ b.
      then_read-Shrinks read_char _ read_char-Shrinks
        λ c. then_read-Shrinks read_char _ read_char-Shrinks λ d. give-Shrinks _

pub read_name-Shrinks : Shrinks read_name
unfolding read_name
read_name-Shrinks =
    then_read-Shrinks read_char _ read_char-Shrinks
      λ n. then_read-Shrinks (read_bytes n) _ (read_bytes-Shrinks n) λ bs. give-Shrinks (c_str bs)

skip_name-Shrinks : Shrinks skip_name
unfolding skip_name
skip_name-Shrinks s [] x t cs h = let same : [] ≡ cs = cc h in omega (arith, ap length same)
skip_name-Shrinks s (b ∷ bs) x t cs h = elim (Bool-cases (b == 12)) [
  | inl e ↦
      let name : Reader Unit = then_read read_char (λ n. then_read (read_bytes n) λ cs. give tt) in
      let shrinks : Shrinks name =
        then_read-Shrinks read_char _ read_char-Shrinks (λ n.
          then_read-Shrinks (read_bytes n) _ (read_bytes-Shrinks n) (λ bs. give-Shrinks tt)) in
      let here : skip_name s (b ∷ bs) ≡ name s bs = rw (e, skip_name) refl in
      omega (arith, shrinks s bs x t cs (sym here ∙ h))
  | inr e ↦
      let here : skip_name s (b ∷ bs) ≡ some (tt, s, b ∷ bs) = rw (e, skip_name) refl in
      let out : ◌≡◌ {A = Option (Unit × State × Bytes)} (some (tt, s, b ∷ bs)) (some (x, t, cs)) =
        sym here ∙ h in
      let same : b ∷ bs ≡ cs = cc out in omega (arith, ap length same)
]

remember_term-Shrinks : (r : Term) → Shrinks (remember_term r)
unfolding remember_term
remember_term-Shrinks r s bs x t cs h = go (add r s.map) h
  where
    go :
        (o : Option (List Term))
        → ◌≡◌ {A = Option (Term × State × Bytes)}
            (elim o [ none ↦ none | some m ↦ some (r, record s { map = m }, bs) ])
            (some (x, t, cs))
        → length cs ≤ length bs
    go none e = absurd (ground (arith, e))
    go (some m) e = let same : bs ≡ cs = cc e in omega (arith, ap length same)

read_variable-Shrinks : (make : ℕ → Term) → Shrinks (read_variable make)
unfolding read_variable new_number
read_variable-Shrinks make = then_read-Shrinks skip_name _ skip_name-Shrinks λ u.
    then_read-Shrinks new_number _
      (λ s bs x t cs h. let same : bs ≡ cs = cc h in omega (arith, ap length same))
      λ n. remember_term-Shrinks (make n)

read_reference-Shrinks : (table : ℕ) → Shrinks (read_reference table)
unfolding read_reference
read_reference-Shrinks table =
    then_read-Shrinks read_char _ read_char-Shrinks
      λ i. λ s bs x t cs h. go s bs x t cs (get_elem? s.map (256 * table + i)) h
  where
    go :
        (s : State) (bs : Bytes) (x : Term) (t : State) (cs : Bytes) (o : Option Term)
        → ◌≡◌ {A = Option (Term × State × Bytes)}
            (elim o [ none ↦ none | some r ↦ some (r, s, bs) ])
            (some (x, t, cs))
        → length cs ≤ length bs
    go s bs x t cs none e = absurd (ground (arith, e))
    go s bs x t cs (some r) e = let same : bs ≡ cs = cc e in omega (arith, ap length same)

read_offset-Shrinks : Shrinks read_offset
unfolding read_offset
read_offset-Shrinks = then_read-Shrinks read_char _ read_char-Shrinks λ table.
    then_read-Shrinks read_char _ read_char-Shrinks λ tag.
      test-Shrinks _ (read_reference table) read_error (read_reference-Shrinks table)
        read_error-Shrinks

module _ (read : Reader Term) (shrinks : Shrinks read) where
  pub read_terms-Shrinks : (n : ℕ) → Shrinks (read_terms read n)
  unfolding read_terms
  read_terms-Shrinks zero = give-Shrinks no_terms
  read_terms-Shrinks (suc n) = then_read-Shrinks read _ shrinks λ t.
      then_read-Shrinks (read_terms read n) _ (read_terms-Shrinks n)
        λ ts. give-Shrinks (then_term t ts)

  pub read_pairs-Shrinks : (n : ℕ) → Shrinks (read_pairs read n)
  unfolding read_pairs
  read_pairs-Shrinks zero = give-Shrinks no_pairs
  read_pairs-Shrinks (suc n) = then_read-Shrinks read _ shrinks λ d.
      then_read-Shrinks read _ shrinks λ r.
        then_read-Shrinks (read_pairs read n) _ (read_pairs-Shrinks n)
          λ ps. give-Shrinks (then_pair d r ps)

  pub read_block-Shrinks : (sub : Blocks) → Shrinks (read_block read sub)
  unfolding read_block
  read_block-Shrinks sub = then_read-Shrinks read_number _ read_number-Shrinks λ n.
      then_read-Shrinks (read_pairs read n) _ (read_pairs-Shrinks n)
        λ ps. give-Shrinks (then_block false ps sub)

  pub read_more-Shrinks : (n : ℕ) (sub : Blocks) → Shrinks (read_more read n sub)
  unfolding read_more
  read_more-Shrinks zero sub =
      then_read-Shrinks read_char _ read_char-Shrinks
        λ tag. test-Shrinks (tag == 11) (give sub) read_error (give-Shrinks sub) read_error-Shrinks
  read_more-Shrinks (suc n) sub = then_read-Shrinks read_char _ read_char-Shrinks λ tag.
      test-Shrinks (tag == 11) (give sub) _ (give-Shrinks sub)
        (then_read-Shrinks (read_block read sub) _ (read_block-Shrinks sub) (read_more-Shrinks n))

  pub read_sub-Shrinks : Shrinks (read_sub read)
  unfolding read_sub
  read_sub-Shrinks s bs =
      then_read-Shrinks read_char _ read_char-Shrinks
        (λ tag.
          then_read-Shrinks (read_block read no_blocks) _ (read_block-Shrinks no_blocks)
            (read_more-Shrinks (length bs)))
        s bs

  read_parts-Shrinks : Shrinks (read_parts read)
  unfolding read_parts
  read_parts-Shrinks = then_read-Shrinks read_char _ read_char-Shrinks λ a.
      then_read-Shrinks read_number _ read_number-Shrinks λ high.
        then_read-Shrinks read_char _ read_char-Shrinks λ b.
          then_read-Shrinks read_number _ read_number-Shrinks
            λ low. give-Shrinks (integer (join_parts high low))

  read_arguments-Shrinks : (n : ℕ) → Shrinks (read_arguments read n)
  unfolding read_arguments
  read_arguments-Shrinks n = then_read-Shrinks read _ shrinks λ f.
      test-Shrinks _ (read_parts read) _ read_parts-Shrinks (
        then_read-Shrinks (read_terms read n) _ (read_terms-Shrinks n)
          λ ts. give-Shrinks (struct f ts))

  pub read_tagged-Shrinks : (tag : ℕ) → Shrinks (read_tagged read tag)
  unfolding read_tagged read_list read_structure read_quantifier read_substitution
  read_tagged-Shrinks tag = test-Shrinks _ read_offset _ read_offset-Shrinks (
      test-Shrinks _ (read_reference 0) _ (read_reference-Shrinks 0) (
        test-Shrinks _ (read_variable var) _ (read_variable-Shrinks var) (
          test-Shrinks _ (read_variable obj_var) _ (read_variable-Shrinks obj_var) (
            test-Shrinks _ (read_list read) _
              (then_read-Shrinks read _ shrinks
                λ h. then_read-Shrinks read _ shrinks λ t. give-Shrinks (cons h t))
              (test-Shrinks _ (read_structure read) _
                (then_read-Shrinks read_number _ read_number-Shrinks λ n. read_arguments-Shrinks n)
                (test-Shrinks _ (read_quantifier read) _
                  (then_read-Shrinks read _ shrinks λ q. then_read-Shrinks read _ shrinks λ v.
                    then_read-Shrinks read _ shrinks λ b.
                      test-Shrinks _ (give (quant q v b)) read_error (give-Shrinks (quant q v b))
                        read_error-Shrinks)
                  (test-Shrinks _ _ _
                    (then_read-Shrinks read_name _ read_name-Shrinks
                      λ n. remember_term-Shrinks (atom n))
                    (test-Shrinks _ _ _
                      (then_read-Shrinks read_number _ read_number-Shrinks
                        λ n. give-Shrinks (integer (pos n)))
                      (test-Shrinks _ _ _
                        (then_read-Shrinks (read_bytes 8) _ (read_bytes-Shrinks 8)
                          λ d. give-Shrinks (double d))
                        (test-Shrinks _ _ _
                          (then_read-Shrinks read_name _ read_name-Shrinks
                            λ n. give-Shrinks (string n))
                          (test-Shrinks _ (read_substitution read) read_error
                            (then_read-Shrinks (read_sub read) _ read_sub-Shrinks λ u.
                              then_read-Shrinks read _ shrinks λ t. give-Shrinks (subst_term u t))
                            read_error-Shrinks)))))))))))

pub read_term-Shrinks : (f : ℕ) → Shrinks (read_term f)
unfolding read_term
read_term-Shrinks zero = read_error-Shrinks
read_term-Shrinks (suc f) =
    then_read-Shrinks read_char _ read_char-Shrinks
      (read_tagged-Shrinks (read_term f) (read_term-Shrinks f))
