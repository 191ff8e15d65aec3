-- ===== src/Unify/Frame.antt =====
-- Writes to the references of variables leave all other words of the objects alone, and so the
-- layout and the meaning of the objects that are no variables (src/bind.h, src/objects.h).
use qu_prolog.Base.{ℕ, zero, suc, ◌+◌, ◌≡◌, refl, sym, ap, ◌∙◌, Bool, true, false, arith, subst}
use qu_prolog.Machine.{Machine}
use qu_prolog.Unify.Object.{Kind, cons, structure, kind, is_reference, get_arity, constant_words}
use qu_prolog.Unify.Solution.{Tree, words, values, Constant, Pointers, Fixed, Layout, Solves}

module _ (object is_cell : ℕ → Bool) {w w' : ℕ → ℕ}
    (frame : (x : ℕ) → is_cell x ≡ false → w' x ≡ w x) where
  pub Pointers-frame : (n a : ℕ) → Pointers object is_cell w n a → Pointers object is_cell w' n a
  Pointers-frame zero a p = tt
  Pointers-frame (suc n) a p = (p.0, ap object (frame a p.0) ∙ p.1, Pointers-frame n (a + 1) p.2)

  pub values-frame :
      (σ : ℕ → Tree) (n a : ℕ) → Pointers object is_cell w n a → values σ n w' a ≡ values σ n w a
  unfolding values
  values-frame σ zero a p = refl
  values-frame σ (suc n) a p = rw (frame a p.0, values-frame σ n (a + 1) p.2)

module _ (is_cell : ℕ → Bool) {w w' : ℕ → ℕ}
    (frame : (x : ℕ) → is_cell x ≡ false → w' x ≡ w x) where
  pub words-frame : (n a : ℕ) → Fixed is_cell n a → words n w' a ≡ words n w a
  unfolding words
  words-frame zero a p = refl
  words-frame (suc n) a p = rw (frame a p.0, words-frame n (a + 1) p.1)

module _ {object is_cell : ℕ → Bool} (m m' : Machine) (l : Layout object is_cell m)
    (frame : (x : ℕ) → is_cell x ≡ false → m'.store.word x ≡ m.store.word x) where
  pub tag-frame : (x : ℕ) → object x ≡ true → m'.store.word x ≡ m.store.word x
  tag-frame x o = frame x (l.tags x o)

  pub Layout-frame :
      m'.base ≡ m.base
      → ((x : ℕ)
          → object x ≡ true
          → is_reference (m.store.word x) ≡ true
          → object (m'.store.word (x + 1)) ≡ true)
      → Layout object is_cell m'
  Layout-frame b refs = record {
    tags = l.tags;
    classes = λ x o. rw (tag-frame x o) (l.classes x o);
    references = λ x o r.
        let r' = subst (λ t. is_reference t ≡ true) (tag-frame x o) r in
        let old = l.references x o r' in (rw b old.0, old.1, refs x o r');
    structures = λ x o k.
        let k' = subst (λ t. kind t ≡ structure) (tag-frame x o) k in
        subst (λ t. Pointers object is_cell m'.store.word (suc (get_arity t)) (x + 1))
          (sym (tag-frame x o))
          (Pointers-frame object is_cell frame (suc (get_arity (m.store.word x))) (x + 1)
            (l.structures x o k'));
    lists = λ x o k.
        Pointers-frame object is_cell frame 2 (x + 1)
          (l.lists x o (subst (λ t. kind t ≡ cons) (tag-frame x o) k));
    constants = λ x o k.
        subst (λ t. Fixed is_cell (constant_words t) (x + 1)) (sym (tag-frame x o))
          (l.constants x o (subst (λ t. Constant (kind t)) (tag-frame x o) k));
  }

  pub Solves-frame :
      (σ : ℕ → Tree)
      → Solves object σ m.store.word
      → ((x : ℕ)
          → object x ≡ true
          → is_reference (m.store.word x) ≡ true
          → σ x ≡ σ (m'.store.word (x + 1)))
      → Solves object σ m'.store.word
  Solves-frame σ s refs = record {
    references = λ x o r. refs x o (subst (λ t. is_reference t ≡ true) (tag-frame x o) r);
    structures = λ x o k.
        let e = tag-frame x o in
        let k' = subst (λ t. kind t ≡ structure) e k in
        let p = l.structures x o k' in
        let a = values-frame object is_cell frame σ (get_arity (m.store.word x)) (x + 1 + 1) p.2 in
        let two : x + 1 + 1 ≡ x + 2 = omega arith in
        let a' =
          subst
            (λ y.
              values σ (get_arity (m.store.word x)) m'.store.word y
              ≡ values σ (get_arity (m.store.word x)) m.store.word y)
            two a in
        rw (e, frame (x + 1) p.0, a') (s.structures x o k');
    lists = λ x o k.
        let e = tag-frame x o in
        let k' = subst (λ t. kind t ≡ cons) e k in
        let p = l.lists x o k' in
        let two : x + 1 + 1 ≡ x + 2 = omega arith in
        let second = subst (λ y. m'.store.word y ≡ m.store.word y) two (frame (x + 1 + 1) p.2.0) in
        rw (frame (x + 1) p.0, second) (s.lists x o k');
    atoms = λ x o k. s.atoms x o (subst (λ t. kind t ≡ Kind.atom) (tag-frame x o) k);
    constants = λ x o k.
        let e = tag-frame x o in
        let k' = subst (λ t. Constant (kind t)) e k in
        let a =
          words-frame is_cell frame (constant_words (m.store.word x)) (x + 1)
            (l.constants x o k') in
        rw (e, a) (s.constants x o k');
  }
