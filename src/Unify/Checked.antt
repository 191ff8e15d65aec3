-- ===== src/Unify/Checked.antt =====
-- The occurs check ends where memory has a solution (src/occurs_check.cc).
use qu_prolog.Base.{
  ℕ, zero, suc, ◌+◌, ◌≤◌, ◌≡◌, ◌≢◌, refl, sym, ap, ◌∙◌, Bool, true, false, some, arith, ◌==◌,
  if◌then◌else◌,
}
use qu_prolog.Machine.{Machine}
use qu_prolog.Unify.Object.{Kind, kind, get_arity, variable_dereference}
use qu_prolog.Unify.Check.{Occurrence, then_check, occurs_words, occurs_object, occurs_check}
use qu_prolog.Unify.Solution.{
  Tree, unknown, symbol, constant, compound, pair, values, Pointers, Layout, Solves,
}
use qu_prolog.Unify.Reads.{variable_dereference-Ends}
use qu_prolog.Unify.Inside.{size, sizes}
use qu_prolog.Unify.Chains.{Chains, variable_dereference-Links}

pub record Checked (r : ℕ → Occurrence) : Type 0 where
  pub outcome : Occurrence
  pub enough : ℕ
  pub reached : (f : ℕ) → enough ≤ f → r f ≡ outcome
  pub good : outcome ≢ Occurrence.exhausted

Checked-const : (c : Occurrence) → c ≢ Occurrence.exhausted → Checked (λ _. c)
Checked-const c g = record { outcome = c; enough = 0; reached = λ f h. refl; good = g }

Checked-then :
    (a b : ℕ → Occurrence) → Checked a → Checked b → Checked (λ f. then_check (a f) (b f))
unfolding then_check
Checked-then a b s t = record {
  outcome = then_check s.outcome t.outcome;
  enough = s.enough + t.enough;
  reached = λ f h. rw (s.reached f (omega arith), t.reached f (omega arith)) refl;
  good = kept s.outcome t.outcome s.good t.good;
}
  where
    kept :
        (c d : Occurrence)
        → c ≢ Occurrence.exhausted
        → d ≢ Occurrence.exhausted
        → then_check c d ≢ Occurrence.exhausted
    kept Occurrence.absent d g h = h
    kept Occurrence.present d g h = g
    kept Occurrence.beyond Occurrence.absent g h = g
    kept Occurrence.beyond Occurrence.present g h = h
    kept Occurrence.beyond Occurrence.beyond g h = h
    kept Occurrence.beyond Occurrence.exhausted g h = h
    kept Occurrence.exhausted d g h = g

pub size_pos : (t : Tree) → 1 ≤ size t
unfolding size
size_pos (unknown n) = omega arith
size_pos (symbol n) = omega arith
size_pos (constant n ws) = omega arith
size_pos (compound f ts) = omega arith
size_pos (pair a b) = omega arith

module _ (object is_cell : ℕ → Bool) (m : Machine) (l : Layout object is_cell m)
    (cs : Chains object m.store.word) (σ : ℕ → Tree) (s : Solves object σ m.store.word)
    (v : ℕ) where
  words-Checked :
      (n : ℕ)
      → ((o : ℕ)
          → object o ≡ true
          → size (σ o) ≤ n
          → Checked (λ f. occurs_check f m.store.word v o))
      → (k a : ℕ) → Pointers object is_cell m.store.word k a
      → sizes (values σ k m.store.word a) ≤ n
      → Checked (λ f. occurs_words (occurs_check f m.store.word v) k m.store.word a)
  unfolding occurs_words values sizes
  words-Checked n ih zero a p h = Checked-const Occurrence.absent (λ e. cc)
  words-Checked n ih (suc k) a p h =
      Checked-then _ _ (ih (m.store.word a) p.1 (omega arith))
        (words-Checked n ih k (a + 1) p.2 (omega arith))

  module _ (n : ℕ)
      (ih : (o : ℕ)
        → object o ≡ true
        → size (σ o) ≤ n
        → Checked (λ f. occurs_check f m.store.word v o))
      (t : ℕ) (o : object t ≡ true) (h : size (σ t) ≤ suc n) where
    second : t + 1 + 1 ≡ t + 2
    second = omega arith

    object-Checked :
        (k : Kind)
        → kind (m.store.word t) ≡ k
        → Checked (λ f. occurs_object (occurs_check f m.store.word v) m.store.word v t k)
    unfolding occurs_object size sizes values
    object-Checked Kind.structure k =
        let w = m.store.word in
        let e = ap size (s.structures t o k) in
        let e' = ap (λ a. sizes (values σ (get_arity (w t)) w a)) second in
        words-Checked n ih (suc (get_arity (w t))) (t + 1) (l.structures t o k)
          (omega (arith, e, e', h))
    object-Checked Kind.cons k =
        let w = m.store.word in
        let p = l.lists t o k in
        let e = ap size (s.lists t o k) in
        let two : object (w (t + 2)) ≡ true = ap (λ a. object (w a)) (sym second) ∙ p.2.1 in
        Checked-then _ _ (ih (w (t + 1)) p.1 (omega (arith, e, h)))
          (ih (w (t + 2)) two (omega (arith, e, h)))
    object-Checked Kind.variable k = Checked-const _ (test (v == t))
      where
        test :
            (b : Bool)
            → (if b then Occurrence.present else Occurrence.absent) ≢ Occurrence.exhausted
        test true e = cc
        test false e = cc
    object-Checked Kind.short k = Checked-const _ (λ e. cc)
    object-Checked Kind.string k = Checked-const _ (λ e. cc)
    object-Checked Kind.long k = Checked-const _ (λ e. cc)
    object-Checked Kind.atom k = Checked-const _ (λ e. cc)
    object-Checked Kind.double k = Checked-const _ (λ e. cc)
    object-Checked Kind.object_variable k = Checked-const _ (λ e. cc)
    object-Checked Kind.quantified k = Checked-const _ (λ e. cc)
    object-Checked Kind.substitution k = Checked-const _ (λ e. cc)
    object-Checked Kind.block k = Checked-const _ (λ e. cc)
    object-Checked Kind.illegal k = Checked-const _ (λ e. cc)

  deeper :
      (o t d : ℕ)
      → ((f : ℕ) → d ≤ f → variable_dereference f m.store.word o ≡ some t)
      → Checked (λ f.
        occurs_object (occurs_check f m.store.word v) m.store.word v t (kind (m.store.word t)))
      → Checked (λ f. occurs_check f m.store.word v o)
  unfolding occurs_check
  deeper o t d go c = record {
    outcome = c.outcome;
    enough = suc (d + c.enough);
    reached = below;
    good = c.good;
  }
    where
      below : (f : ℕ) → suc (d + c.enough) ≤ f → occurs_check f m.store.word v o ≡ c.outcome
      below zero h = absurd (omega arith)
      below (suc f) h =
          let e = go f (omega arith) in let r = c.reached f (omega arith) in ground arith

  pub occurs_check-Checked :
      (n o : ℕ) → object o ≡ true → size (σ o) ≤ n → Checked (λ f. occurs_check f m.store.word v o)
  occurs_check-Checked zero o x h = absurd (omega (arith, size_pos (σ o)))
  occurs_check-Checked (suc n) o x h =
      let (t, chain) = cs o x in
      let (d, go) = variable_dereference-Links chain in
      let ends = variable_dereference-Ends object is_cell m l d o t x (go d (omega arith)) in
      deeper o t d go (
        object-Checked n (occurs_check-Checked n) t ends.is_object
          (omega (arith, ap size (ends.same σ s), h)) (kind (m.store.word t)) refl)
