-- ===== src/Encode/Copy.antt =====
-- The term that is read for the term that was written (src/encode.cc), and the terms that can be
-- read back.
use qu_prolog.Base.{
  ℕ, suc, ◌^◌, ◌<◌, ◌≡◌, refl, sym, ap, ◌∙◌, true, false, List, [], ◌∷◌, arith, length, ◌==◌, ◌&&◌,
  if◌then◌else◌, Bool-cases, inl, inr,
}
use qu_prolog.Base.Int.{ℤ, pos}
use qu_prolog.Encode.Term.{
  Term, Terms, Blocks, Pairs, var, obj_var, cons, struct, quant, integer, double, atom, string,
  subst_term, no_terms, then_term, no_blocks, then_block, no_pairs, then_pair, arity, size,
  is_int64, bound_variable, distinct_bound_list, check_binder,
}
use qu_prolog.Encode.Map.{Key, var_key, obj_var_key}
use qu_prolog.Encode.Number.{low_word, is_big}
use qu_prolog.Encode.Words.{Fits, NonZero}

-- The integer that comes back: a negative one that fits an `int` is read as 2^32 more.
unfoldable pub returned : ℤ → ℤ
unfolding is_big low_word
returned i = if is_big i then i else pos (low_word i)

module _ (σ : Key → ℕ) where
  -- The term with other variables, with the integers that come back, and with no block invertible:
  -- the flag of a block is not written.
  unfoldable mutual
    pub copied : Term → Term
    copied (var v) = var (σ (var_key v))
    copied (obj_var v) = obj_var (σ (obj_var_key v))
    copied (cons h t) = cons (copied h) (copied t)
    copied (struct f ts) = struct (copied f) (copied_terms ts)
    copied (quant q v b) = quant (copied q) (copied v) (copied b)
    copied (integer i) = integer (returned i)
    copied (double d) = double d
    copied (atom n) = atom n
    copied (string s) = string s
    copied (subst_term s t) = subst_term (copied_blocks s) (copied t)

    pub copied_terms : Terms → Terms
    copied_terms no_terms = no_terms
    copied_terms (then_term t ts) = then_term (copied t) (copied_terms ts)

    pub copied_blocks : Blocks → Blocks
    copied_blocks no_blocks = no_blocks
    copied_blocks (then_block invertible ps s) =
        then_block false (copied_pairs ps) (copied_blocks s)

    pub copied_pairs : Pairs → Pairs
    copied_pairs no_pairs = no_pairs
    copied_pairs (then_pair d r ps) = then_pair (copied d) (copied r) (copied_pairs ps)

-- The terms of the heap: integers of 64 bits, doubles of 8 bytes, no byte 0 in a name, fewer than
-- 2^32 arguments, a substitution with a block, and different bound variables. A structure of two
-- arguments is not named `$int64`.
unfoldable mutual
  pub IsHeapTerm : Term → Type 0
  IsHeapTerm (cons h t) = IsHeapTerm h × IsHeapTerm t
  IsHeapTerm (struct f ts) =
      IsHeapTerm f × AreHeapTerms ts × (arity ts < 2 ^ 32) × ((arity ts == 2 && is_int64 f) ≡ false)
  IsHeapTerm (quant q v b) = IsHeapTerm q × IsHeapTerm v × IsHeapTerm b × (check_binder v [] ≡ true)
  IsHeapTerm (integer i) = Fits i
  IsHeapTerm (double d) = length d ≡ 8
  IsHeapTerm (atom n) = NonZero n
  IsHeapTerm (string s) = NonZero s
  IsHeapTerm (subst_term no_blocks t) = ⊥
  IsHeapTerm (subst_term (then_block i ps s) t) = AreHeapBlocks (then_block i ps s) × IsHeapTerm t
  IsHeapTerm _ = Unit

  pub AreHeapTerms : Terms → Type 0
  AreHeapTerms no_terms = Unit
  AreHeapTerms (then_term t ts) = IsHeapTerm t × AreHeapTerms ts

  pub AreHeapBlocks : Blocks → Type 0
  AreHeapBlocks no_blocks = Unit
  AreHeapBlocks (then_block i ps s) = (size ps < 2 ^ 32) × AreHeapPairs ps × AreHeapBlocks s

  pub AreHeapPairs : Pairs → Type 0
  AreHeapPairs no_pairs = Unit
  AreHeapPairs (then_pair d r ps) = IsHeapTerm d × IsHeapTerm r × AreHeapPairs ps

module _ (σ : Key → ℕ) where
  pub is_int64-copied : (f : Term) → is_int64 (copied σ f) ≡ is_int64 f
  unfolding copied is_int64
  is_int64-copied (atom n) = refl
  is_int64-copied f = refl

  pub arity-copied : (ts : Terms) → arity (copied_terms σ ts) ≡ arity ts
  unfolding arity copied_terms
  arity-copied no_terms = refl
  arity-copied (then_term t ts) = ap suc (arity-copied ts)

  -- The binder is checked alike.
  module _ (injective : (v w : ℕ) → σ (obj_var_key v) ≡ σ (obj_var_key w) → v ≡ w) where
    abbrev numbers : List ℕ → List ℕ
    numbers [] = []
    numbers (v ∷ vs) = σ (obj_var_key v) ∷ numbers vs

    same_variable : (v w : ℕ) → (σ (obj_var_key v) == σ (obj_var_key w)) ≡ (v == w)
    same_variable v w = elim (Bool-cases (σ (obj_var_key v) == σ (obj_var_key w))) [
      | inl e ↦ let same : v ≡ w = injective v w (ground (arith, e)) in ground (arith, e, same)
      | inr e ↦ elim (Bool-cases (v == w)) [
        | inl d ↦
            let same : v ≡ w = ground (arith, d) in
            let equal : σ (obj_var_key v) ≡ σ (obj_var_key w) = ap (λ x. σ (obj_var_key x)) same in
            absurd (ground (arith, e, equal))
        | inr d ↦ e ∙ sym d
      ]
    ]

    distinct-copied :
        (v : ℕ) (vs : List ℕ)
        → distinct_bound_list (σ (obj_var_key v)) (numbers vs) ≡ distinct_bound_list v vs
    unfolding distinct_bound_list
    distinct-copied v [] = refl
    distinct-copied v (w ∷ vs) = rw (same_variable v w, distinct-copied v vs) refl

    pub check_binder-copied :
        (t : Term) (so_far : List ℕ)
        → check_binder (copied σ t) (numbers so_far) ≡ check_binder t so_far
    unfolding check_binder copied bound_variable
    check_binder-copied (cons (obj_var v) t) so_far =
        ap (λ b. b && check_binder (copied σ t) (numbers (v ∷ so_far))) (distinct-copied v so_far)
        ∙ ap (λ b. distinct_bound_list v so_far && b) (check_binder-copied t (v ∷ so_far))
    check_binder-copied (cons (struct f (then_term (obj_var v) ts)) t) so_far =
        ap (λ b. b && check_binder (copied σ t) (numbers (v ∷ so_far))) (distinct-copied v so_far)
        ∙ ap (λ b. distinct_bound_list v so_far && b) (check_binder-copied t (v ∷ so_far))
    check_binder-copied (cons (struct f (then_term x ts)) t) so_far = refl
    check_binder-copied (cons (struct f no_terms) t) so_far = refl
    check_binder-copied (cons h t) so_far = refl
    check_binder-copied t so_far = refl
