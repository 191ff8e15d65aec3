-- ===== src/Unify/Outside.antt =====
-- A variable that the occurs check does not find is not in the term (src/occurs_check.cc).
use qu_prolog.Base.{
  ℕ, zero, suc, ◌+◌, ◌≡◌, ◌≢◌, refl, sym, ap, ◌∙◌, subst, Bool, true, inl, inr, arith, Option-cases,
}
use qu_prolog.Machine.{Machine}
use qu_prolog.Unify.Object.{Kind, kind, is_reference, get_arity, variable_dereference}
use qu_prolog.Unify.Check.{Occurrence, then_check, occurs_words, occurs_object, occurs_check}
use qu_prolog.Unify.Solution.{Tree, values, Constant, Pointers, Layout}
use qu_prolog.Unify.Reads.{Ends, variable_dereference-Ends}
use qu_prolog.Unify.Shape.{variable-reference, object_variable-reference}
use qu_prolog.Unify.Generic.{Misses, MissesAll, Generic}

then_check-absent :
    (a b : Occurrence)
    → then_check a b ≡ Occurrence.absent
    → (a ≡ Occurrence.absent) × (b ≡ Occurrence.absent)
unfolding then_check
then_check-absent Occurrence.absent b h = (refl, h)
then_check-absent Occurrence.present b h = cc
then_check-absent Occurrence.beyond Occurrence.absent h = cc
then_check-absent Occurrence.beyond Occurrence.present h = cc
then_check-absent Occurrence.beyond Occurrence.beyond h = cc
then_check-absent Occurrence.beyond Occurrence.exhausted h = cc
then_check-absent Occurrence.exhausted b h = cc

module _ (object is_cell : ℕ → Bool) (m : Machine) (l : Layout object is_cell m) (σ : ℕ → Tree)
    (g : Generic object σ m.store.word) (v : ℕ) (kv : kind (m.store.word v) ≡ Kind.variable) where
  abbrev Clears : (ℕ → Occurrence) → Type 0
  Clears check = (o : ℕ) → object o ≡ true → check o ≡ Occurrence.absent → Misses v (σ o)

  occurs_words-MissesAll :
      (check : ℕ → Occurrence)
      → Clears check
      → (n a : ℕ) → Pointers object is_cell m.store.word n a
      → occurs_words check n m.store.word a ≡ Occurrence.absent
      → MissesAll v (values σ n m.store.word a)
  unfolding occurs_words values MissesAll
  occurs_words-MissesAll check f zero a p h = tt
  occurs_words-MissesAll check f (suc n) a p h =
      let (x, y) = then_check-absent (check (m.store.word a)) _ h in
      (f (m.store.word a) p.1 x, occurs_words-MissesAll check f n (a + 1) p.2 y)

  module _ (check : ℕ → Occurrence) (f : Clears check) (t : ℕ)
      (e : Ends object m.store.word t t) where
    second : t + 1 + 1 ≡ t + 2
    second = omega arith

    unbound_other : is_reference (m.store.word t) ≡ true → v ≢ t → Misses v (σ t)
    unfolding Misses
    unbound_other r d = rw (g.unbound t e.is_object r (e.unbound r)) (λ q. d (sym q))

    occurs_object-Misses :
        (k : Kind)
        → kind (m.store.word t) ≡ k
        → occurs_object check m.store.word v t k ≡ Occurrence.absent
        → Misses v (σ t)
    unfolding occurs_object Misses MissesAll values
    occurs_object-Misses Kind.structure k h =
        let w = m.store.word in
        let all =
          occurs_words-MissesAll check f (suc (get_arity (w t))) (t + 1)
            (l.structures t e.is_object k) h in
        let rest = subst (λ a. MissesAll v (values σ (get_arity (w t)) w a)) second all.1 in
        rw (g.solves.structures t e.is_object k) (all.0, rest)
    occurs_object-Misses Kind.cons k h =
        let w = m.store.word in
        let p = l.lists t e.is_object k in
        let two : object (w (t + 2)) ≡ true = ap (λ a. object (w a)) (sym second) ∙ p.2.1 in
        let (x, y) = then_check-absent (check (w (t + 1))) _ h in
        rw (g.solves.lists t e.is_object k) (f (w (t + 1)) p.1 x, f (w (t + 2)) two y)
    occurs_object-Misses Kind.variable k h =
        unbound_other (variable-reference (m.store.word t) k) (λ q. absurd (ground arith))
    occurs_object-Misses Kind.object_variable k h =
        unbound_other (object_variable-reference (m.store.word t) k)
          (λ q. let z = ap (λ x. kind (m.store.word x)) q in cc)
    occurs_object-Misses Kind.short k h =
        rw (g.solves.constants t e.is_object (subst (λ c. Constant c) (sym k) tt)) tt
    occurs_object-Misses Kind.string k h =
        rw (g.solves.constants t e.is_object (subst (λ c. Constant c) (sym k) tt)) tt
    occurs_object-Misses Kind.long k h =
        rw (g.solves.constants t e.is_object (subst (λ c. Constant c) (sym k) tt)) tt
    occurs_object-Misses Kind.double k h =
        rw (g.solves.constants t e.is_object (subst (λ c. Constant c) (sym k) tt)) tt
    occurs_object-Misses Kind.atom k h = rw (g.solves.atoms t e.is_object k) tt
    occurs_object-Misses Kind.quantified k h = cc
    occurs_object-Misses Kind.substitution k h = cc
    occurs_object-Misses Kind.block k h = cc
    occurs_object-Misses Kind.illegal k h = cc

  pub occurs_check-Misses : (fuel : ℕ) → Clears (occurs_check fuel m.store.word v)
  unfolding occurs_check
  occurs_check-Misses zero o x h = cc
  occurs_check-Misses (suc fuel) o x h =
      let w = m.store.word in
      elim (Option-cases (variable_dereference fuel w o)) [
        | inl short ↦ absurd (ground arith)
        | inr (t, d) ↦
            let ends = variable_dereference-Ends object is_cell m l fuel o t x d in
            let here : Ends object w t t = record {
              is_object = ends.is_object;
              unbound = ends.unbound;
              same = λ τ s. refl;
            } in
            let p : occurs_object (occurs_check fuel w v) w v t (kind (w t)) ≡ Occurrence.absent =
              ground arith in
            subst (Misses v) (sym (ends.same σ g.solves)) (
              occurs_object-Misses (occurs_check fuel w v) (occurs_check-Misses fuel) t here
                (kind (w t)) refl p)
      ]
