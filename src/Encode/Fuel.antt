-- ===== src/Encode/Fuel.antt =====
-- The reader of src/encode.cc ends: the fuel of its model is never what stops it.
use qu_prolog.Base.{
  ℕ, zero, suc, ◌+◌, ◌≤◌, ◌<◌, ◌≡◌, refl, sym, ap, ◌∙◌, Bool, true, false, [], ◌∷◌, none, some,
  arith, if◌then◌else◌, length, ◌==◌, Option-cases, inl, inr,
}
use qu_prolog.Base.Int.{pos}
use qu_prolog.Encode.Term.{
  Bytes, Term, Blocks, var, obj_var, cons, struct, quant, integer, double, atom, string, subst_term,
  no_terms, then_term, no_blocks, then_block, no_pairs, then_pair, check_binder,
}
use qu_prolog.Encode.Shrinks.{
  Shrinks, read_char-Shrinks, read_number-Shrinks, read_terms-Shrinks, read_pairs-Shrinks,
  read_block-Shrinks, read_sub-Shrinks, read_term-Shrinks,
}
use qu_prolog.Encode.Read.{
  State, Reader, then_read, give, read_error, read_char, read_bytes, read_name, read_number,
  remember_term, read_variable, read_reference, read_offset, read_terms, read_pairs, read_block,
  read_more, read_sub, read_list, read_parts, read_arguments, read_structure, read_quantifier,
  read_substitution, read_tagged, read_term,
}

-- Two readers do the same with fewer bytes than `b`.
abbrev Same : {A : Type 0} → ℕ → Reader A → Reader A → Type 0
Same b q r = (s : State) (bs : Bytes) → length bs < b → q s bs ≡ r s bs

module _ (b : ℕ) where
  then_read-Same :
      {A B : Type 0} (q r : Reader A) (k l : A → Reader B)
      → Shrinks q
      → Same b q r
      → ((x : A) → Same b (k x) (l x))
      → Same b (then_read q k) (then_read r l)
  unfolding then_read
  then_read-Same q r k l shrinks hq hk s bs c = elim (Option-cases (q s bs)) [
    | inl e ↦
        let other : r s bs ≡ none = sym (hq s bs c) ∙ e in
        let left : then_read q k s bs ≡ none = rw (e, then_read) refl in
        let right : then_read r l s bs ≡ none = rw (other, then_read) refl in left ∙ sym right
    | inr ((x, t, cs), e) ↦
        let other : r s bs ≡ some (x, t, cs) = sym (hq s bs c) ∙ e in
        let left : then_read q k s bs ≡ k x t cs = rw (e, then_read) refl in
        let right : then_read r l s bs ≡ l x t cs = rw (other, then_read) refl in
        left ∙ hk x t cs (omega (arith, shrinks s bs x t cs e, c)) ∙ sym right
  ]

  keep-Same : {A : Type 0} (q : Reader A) → Same b q q
  keep-Same q s bs c = refl

  -- The first reader is the same one.
  after-Same :
      {A B : Type 0} (q : Reader A) (k l : A → Reader B)
      → Shrinks q
      → ((x : A) → Same b (k x) (l x))
      → Same b (then_read q k) (then_read q l)
  after-Same q k l shrinks hk = then_read-Same q q k l shrinks (keep-Same q) hk

  test-Same :
      {A : Type 0} (c : Bool) (q r u v : Reader A)
      → Same b q u
      → Same b r v
      → Same b (if c then q else r) (if c then u else v)
  test-Same true q r u v h k = h
  test-Same false q r u v h k = k

  module _ (read other : Reader Term) (shrinks : Shrinks read) (same : Same b read other) where
    one-Same :
        {B : Type 0} (k l : Term → Reader B)
        → ((x : Term) → Same b (k x) (l x))
        → Same b (then_read read k) (then_read other l)
    one-Same k l h = then_read-Same read other k l shrinks same h

    read_terms-Same : (n : ℕ) → Same b (read_terms read n) (read_terms other n)
    unfolding read_terms
    read_terms-Same zero = keep-Same (give no_terms)
    read_terms-Same (suc n) = one-Same _ _ λ t.
        then_read-Same (read_terms read n) (read_terms other n) _ _
          (read_terms-Shrinks read shrinks n) (read_terms-Same n)
          λ ts. keep-Same (give (then_term t ts))

    read_pairs-Same : (n : ℕ) → Same b (read_pairs read n) (read_pairs other n)
    unfolding read_pairs
    read_pairs-Same zero = keep-Same (give no_pairs)
    read_pairs-Same (suc n) = one-Same _ _ λ d. one-Same _ _ λ r.
        then_read-Same (read_pairs read n) (read_pairs other n) _ _
          (read_pairs-Shrinks read shrinks n) (read_pairs-Same n)
          λ ps. keep-Same (give (then_pair d r ps))

    read_block-Same : (sub : Blocks) → Same b (read_block read sub) (read_block other sub)
    unfolding read_block
    read_block-Same sub = after-Same read_number _ _ read_number-Shrinks λ n.
        then_read-Same (read_pairs read n) (read_pairs other n) _ _
          (read_pairs-Shrinks read shrinks n) (read_pairs-Same n)
          λ ps. keep-Same (give (then_block false ps sub))

    read_more-Same : (n : ℕ) (sub : Blocks) → Same b (read_more read n sub) (read_more other n sub)
    unfolding read_more
    read_more-Same zero sub =
        keep-Same (then_read read_char λ tag. if tag == 11 then give sub else read_error)
    read_more-Same (suc n) sub = after-Same read_char _ _ read_char-Shrinks λ tag.
        test-Same (tag == 11) (give sub) _ (give sub) _ (keep-Same (give sub)) (
          then_read-Same (read_block read sub) (read_block other sub) _ _
            (read_block-Shrinks read shrinks sub) (read_block-Same sub) (read_more-Same n))

    read_sub-Same : Same b (read_sub read) (read_sub other)
    unfolding read_sub
    read_sub-Same s bs =
        after-Same read_char _ _ read_char-Shrinks
          (λ tag.
            then_read-Same (read_block read no_blocks) (read_block other no_blocks) _ _
              (read_block-Shrinks read shrinks no_blocks) (read_block-Same no_blocks)
              (read_more-Same (length bs)))
          s bs

    read_arguments-Same : (n : ℕ) → Same b (read_arguments read n) (read_arguments other n)
    unfolding read_arguments read_parts
    read_arguments-Same n = one-Same _ _ λ f.
        test-Same _ (read_parts read) _ (read_parts other) _ (keep-Same (read_parts read)) (
          then_read-Same (read_terms read n) (read_terms other n) _ _
            (read_terms-Shrinks read shrinks n) (read_terms-Same n)
            λ ts. keep-Same (give (struct f ts)))

    read_tagged-Same : (tag : ℕ) → Same b (read_tagged read tag) (read_tagged other tag)
    unfolding read_tagged read_list read_structure read_quantifier read_substitution
    read_tagged-Same tag = test-Same _ _ _ _ _ (keep-Same read_offset) (
        test-Same _ _ _ _ _ (keep-Same (read_reference 0)) (
          test-Same _ _ _ _ _ (keep-Same (read_variable var)) (
            test-Same _ _ _ _ _ (keep-Same (read_variable obj_var)) (
              test-Same _ _ _ _ _ (one-Same _ _ λ h. one-Same _ _ λ t. keep-Same (give (cons h t)))
                (test-Same _ _ _ _ _
                  (after-Same read_number _ _ read_number-Shrinks read_arguments-Same)
                  (test-Same _ _ _ _ _
                    (one-Same _ _ λ q. one-Same _ _ λ v.
                      one-Same _ _ λ x.
                        keep-Same (if check_binder v [] then give (quant q v x) else read_error))
                    (test-Same _ _ _ _ _
                      (keep-Same (then_read read_name (λ n. remember_term (atom n))))
                      (test-Same _ _ _ _ _
                        (keep-Same (then_read read_number (λ n. give (integer (pos n)))))
                        (test-Same _ _ _ _ _
                          (keep-Same (then_read (read_bytes 8) (λ d. give (double d))))
                          (test-Same _ _ _ _ _
                            (keep-Same (then_read read_name (λ n. give (string n))))
                            (test-Same _ _ _ _ _
                              (then_read-Same (read_sub read) (read_sub other) _ _
                                (read_sub-Shrinks read shrinks) read_sub-Same
                                λ u. one-Same _ _ λ t. keep-Same (give (subst_term u t)))
                              (keep-Same read_error))))))))))))

read_term-Same : (f : ℕ) → Same f (read_term f) (read_term (suc f))
unfolding read_term then_read read_char
read_term-Same zero s bs c = absurd (omega (arith, c))
read_term-Same (suc f) s [] c = refl
read_term-Same (suc f) s (tag ∷ bs) c =
    read_tagged-Same f (read_term f) (read_term (suc f)) (read_term-Shrinks f) (read_term-Same f)
      tag s bs (omega (arith, c))

more_fuel :
    (f g : ℕ) (s : State) (bs : Bytes) → length bs < f → read_term (g + f) s bs ≡ read_term f s bs
more_fuel f zero s bs c = let same : 0 + f ≡ f = omega arith in ap (λ n. read_term n s bs) same
more_fuel f (suc g) s bs c =
    let same : suc g + f ≡ suc (g + f) = omega arith in
    ap (λ n. read_term n s bs) same
    ∙ sym (read_term-Same (g + f) s bs (omega (arith, c)))
    ∙ more_fuel f g s bs c

module _ (read : Reader Term) (shrinks : Shrinks read) where
  one_more_block :
      (n : ℕ) (sub : Blocks) (s : State) (bs : Bytes)
      → length bs ≤ n
      → read_more read (suc n) sub s bs ≡ read_more read n sub s bs
  unfolding read_more then_read read_char
  one_more_block zero sub s [] c = refl
  one_more_block zero sub s (tag ∷ bs) c = absurd (omega (arith, c))
  one_more_block (suc n) sub s [] c = refl
  one_more_block (suc n) sub s (tag ∷ bs) c =
      test-Same (suc (length bs)) (tag == 11) (give sub) _ (give sub) _
        (keep-Same (suc (length bs)) (give sub))
        (then_read-Same (suc (length bs)) (read_block read sub) (read_block read sub) _ _
          (read_block-Shrinks read shrinks sub) (keep-Same (suc (length bs)) (read_block read sub))
          (λ more t cs l. one_more_block n more t cs (omega (arith, l, c))))
        s bs (omega arith)

  more_blocks :
      (n g : ℕ) (sub : Blocks) (s : State) (bs : Bytes)
      → length bs ≤ n
      → read_more read (g + n) sub s bs ≡ read_more read n sub s bs
  more_blocks n zero sub s bs c =
      let same : 0 + n ≡ n = omega arith in ap (λ k. read_more read k sub s bs) same
  more_blocks n (suc g) sub s bs c =
      let same : suc g + n ≡ suc (g + n) = omega arith in
      ap (λ k. read_more read k sub s bs) same
      ∙ one_more_block (g + n) sub s bs (omega (arith, c))
      ∙ more_blocks n g sub s bs c

-- The reader ends on every input, of a writer or not: with more fuel than there are bytes left, its
-- answer does not depend on how much more. The same goes for its loop over the blocks of a
-- substitution.
pub read_term_fuel :
    (f g : ℕ) (s : State) (bs : Bytes) (sub : Blocks)
    → length bs < f
    → (read_term (g + f) s bs ≡ read_term f s bs)
      × (read_more (read_term f) (g + f) sub s bs ≡ read_more (read_term f) f sub s bs)
read_term_fuel f g s bs sub c = (
  more_fuel f g s bs c,
  more_blocks (read_term f) (read_term-Shrinks f) f g sub s bs (omega (arith, c)),
)
