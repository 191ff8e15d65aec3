-- ===== src/Unify/Reads.antt =====
-- What the parts of unification that only read memory find: chains of references and constants
-- (src/objects.h).
use qu_prolog.Base.{
  ℕ, zero, suc, ◌+◌, ◌≡◌, ◌↔◌, refl, ap, ◌∙◌, Bool, true, false, some, arith, Bool-cases, inl, inr,
  ◌==◌, ==_iff, if◌then◌else◌,
}
use qu_prolog.Machine.{Machine}
use qu_prolog.Unify.Object.{
  is_reference, variable_dereference, equal_words, equal_uninterp, constant_words,
}
use qu_prolog.Unify.Solution.{Tree, constant, words, Layout, Solves}

-- Where a chain of references from `o` ends.
pub record Ends (object : ℕ → Bool) (w : ℕ → ℕ) (o t : ℕ) : Type 0 where
  pub is_object : object t ≡ true
  pub unbound : is_reference (w t) ≡ true → w (t + 1) ≡ t
  pub same : (σ : ℕ → Tree) → Solves object σ w → σ o ≡ σ t

module _ (object is_cell : ℕ → Bool) (m : Machine) (l : Layout object is_cell m) where
  pub variable_dereference-Ends :
      (fuel o t : ℕ)
      → object o ≡ true
      → variable_dereference fuel m.store.word o ≡ some t
      → Ends object m.store.word o t
  unfolding variable_dereference
  variable_dereference-Ends zero o t x h = cc
  variable_dereference-Ends (suc fuel) o t x h =
      let w = m.store.word in
      elim (Bool-cases (is_reference (w o))) [
        | inr stop ↦
            let e : o ≡ t = ground arith in
            record {
              is_object = rw (← e) x;
              unbound = λ r. absurd (ground (arith, e));
              same = λ σ s. ap σ e;
            }
        | inl go ↦ elim (Bool-cases (w (o + 1) == o)) [
          | inl self ↦
              let e : o ≡ t = ground arith in
              record {
                is_object = rw (← e) x;
                unbound = λ r. rw (← e) ((==_iff (w (o + 1)) o).0 self);
                same = λ σ s. ap σ e;
              }
          | inr other ↦
              let rest =
                variable_dereference-Ends fuel (w (o + 1)) t (l.references o x go).2
                  (ground arith) in
              record {
                is_object = rest.is_object;
                unbound = rest.unbound;
                same = λ σ s. s.references o x go ∙ rest.same σ s;
              }
        ]
      ]

equal_words_lem :
    (n : ℕ) (w : ℕ → ℕ) (a b : ℕ) → (equal_words n w a b ≡ true) ↔ (words n w a ≡ words n w b)
unfolding equal_words words
equal_words_lem zero w a b = ((λ _. refl), λ _. refl)
equal_words_lem (suc n) w a b =
    let ih = equal_words_lem n w (a + 1) (b + 1) in
    ((λ h. ground (arith, ih)), λ h. ground (arith, ih))

-- The test of `equal_uninterp`, for any measure of constants.
test_lem :
    (n : ℕ → ℕ) (w : ℕ → ℕ) (a b : ℕ)
    → ((if a == b
          then true
          else if w a == w b
          then equal_words (n (w a)) w (a + 1) (b + 1)
          else false)
        ≡ true)
      ↔ (constant (w a) (words (n (w a)) w (a + 1)) ≡ constant (w b) (words (n (w b)) w (b + 1)))
test_lem n w a b = elim (Bool-cases (a == b)) [
  | inl same ↦ (
    (λ h. ap (λ x. constant (w x) (words (n (w x)) w (x + 1))) ((==_iff a b).0 same)),
    λ h. rw same refl,
  )
  | inr apart ↦ elim (Bool-cases (w a == w b)) [
    | inl tags ↦
        let e = (==_iff (w a) (w b)).0 tags in
        let ws = equal_words_lem (n (w a)) w (a + 1) (b + 1) in
        (
          (λ h.
              let t : equal_words (n (w a)) w (a + 1) (b + 1) ≡ true = ground arith in
              let q = ws.0 t in
              let r : words (n (w a)) w (b + 1) ≡ words (n (w b)) w (b + 1) =
                ap (λ t. words (n t) w (b + 1)) e in
              cc),
          λ h.
              let r : words (n (w a)) w (b + 1) ≡ words (n (w b)) w (b + 1) =
                ap (λ t. words (n t) w (b + 1)) e in
              let q = ws.1 (cc) in rw (apart, tags) q,
        )
    | inr tags ↦
        ((λ h. absurd (ground arith)), λ h. let e : w a ≡ w b = cc in absurd (ground arith))
  ]
]

pub equal_uninterp_lem :
    (w : ℕ → ℕ) (a b : ℕ)
    → (equal_uninterp w a b ≡ true) ↔ (
        constant (w a) (words (constant_words (w a)) w (a + 1))
        ≡ constant (w b) (words (constant_words (w b)) w (b + 1)))
unfolding equal_uninterp
equal_uninterp_lem w a b = test_lem constant_words w a b
