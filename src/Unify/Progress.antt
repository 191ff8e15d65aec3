-- ===== src/Unify/Progress.antt =====
-- What is known between the steps of unification where every variable has its occurs check on
-- (src/unify.cc, src/bind.h).
use qu_prolog.Base.{
  ℕ, ◌+◌, ◌<◌, ◌≡◌, ◌≢◌, ◌⊎◌, refl, sym, ap, ◌∙◌, subst, Bool, true, false, arith, Option-cases,
  inl, inr, update, List,
}
use qu_prolog.Machine.{Machine, bind_and_trail, bind_var_var}
use qu_prolog.Unify.{bound}
use qu_prolog.Unify.Object.{Kind, UnifyClass, kind, unify_class, is_reference, is_occurs_checked}
use qu_prolog.Unify.Solution.{Tree, Layout}
use qu_prolog.Unify.Reads.{Ends}
use qu_prolog.Unify.Correct.{Free, write-frame, write-Layout, bind_and_trail_lem, bind_var_var_lem}
use qu_prolog.Unify.Chains.{Chains, tag-kept, write-Chains}
use qu_prolog.Unify.Settles.{Settles, Settles-const}
use qu_prolog.Unify.Generic.{Misses, Generic, replace, bind-Generic}
use qu_prolog.Unify.Measure.{member, unbound_count, bind-lt}

module _ (object is_cell : ℕ → Bool) (vars : List ℕ) where
  -- Memory is laid out and solved, chains end, every variable is in the list `vars` and has its
  -- occurs check on.
  pub record State (σ : ℕ → Tree) (m : Machine) : Type 0 where
    pub layout : Layout object is_cell m
    pub chains : Chains object m.store.word
    pub generic : Generic object σ m.store.word
    pub occurs_checked :
        (x : ℕ)
        → object x ≡ true
        → kind (m.store.word x) ≡ Kind.variable
        → (unify_class (m.store.word x) ≢ UnifyClass.var)
          × (is_occurs_checked (m.store.word x) ≡ true)
    pub listed :
        (x : ℕ) → object x ≡ true → is_reference (m.store.word x) ≡ true → member vars x ≡ true

  pub record Next (m m' : Machine) : Type 0 where
    pub solution : ℕ → Tree
    pub state : State solution m'
    pub frame : (x : ℕ) → is_cell x ≡ false → m'.store.word x ≡ m.store.word x
    pub progress :
        (m'.store.word ≡ m.store.word)
        ⊎ (unbound_count m'.store.word vars < unbound_count m.store.word vars)

  pub Next-self : (m : Machine) (σ : ℕ → Tree) → State σ m → Next m m
  Next-self m σ s = record { solution = σ; state = s; frame = λ x c. refl; progress = inl refl }

  pub Next-trans : {a b c : Machine} → Next a b → Next b c → Next a c
  Next-trans {a} {b} {c} p q = record {
    solution = q.solution;
    state = q.state;
    frame = λ x e. q.frame x e ∙ p.frame x e;
    progress = join p.progress q.progress;
  }
    where
      count : Machine → ℕ
      count m = unbound_count m.store.word vars

      join :
          (b.store.word ≡ a.store.word) ⊎ (count b < count a)
          → (c.store.word ≡ b.store.word) ⊎ (count c < count b)
          → (c.store.word ≡ a.store.word) ⊎ (count c < count a)
      join (inl e) (inl e') = inl (e' ∙ e)
      join (inl e) (inr h) = inr (omega (arith, ap (λ w. unbound_count w vars) e, h))
      join (inr h) (inl e) = inr (omega (arith, ap (λ w. unbound_count w vars) e, h))
      join (inr h) (inr h') = inr (omega (arith, h, h'))

  module _ (σ : ℕ → Tree) (m m' : Machine) (s : State σ m) (v t : ℕ) (f : Free object is_cell m v)
      (e : Ends object m.store.word t t) (apart : v ≢ t) (misses : Misses v (σ t))
      (written : m'.store.word ≡ update m.store.word (v + 1) t) (b : m'.base ≡ m.base) where
    bind-Next : Next m m'
    bind-Next =
        let tags = tag-kept object is_cell m m' v t s.layout f e apart written b in
        record {
          solution = λ x. replace v (σ t) (σ x);
          state = record {
            layout = write-Layout object is_cell m m' v t s.layout f e.is_object written b;
            chains = write-Chains object is_cell m m' v t s.layout f e apart written b s.chains;
            generic =
                bind-Generic object is_cell m m' v t s.layout f e.is_object apart written b tags σ
                  s.generic misses;
            occurs_checked = λ x o k.
                let c = s.occurs_checked x o (subst (λ a. kind a ≡ Kind.variable) (tags x o) k) in
                subst (λ a. (unify_class a ≢ UnifyClass.var) × (is_occurs_checked a ≡ true))
                  (sym (tags x o)) c;
            listed = λ x o r. s.listed x o (subst (λ a. is_reference a ≡ true) (tags x o) r);
          };
          frame = write-frame object is_cell m m' v t s.layout f e.is_object written b;
          progress = inr (
              rw written (
                bind-lt m.store.word v t f.unbound apart vars
                  (s.listed v f.is_object f.referring)));
        }

  module _ (σ : ℕ → Tree) (m : Machine) (s : State σ m) where
    pub bind-Settles :
        (v t : ℕ)
        → Free object is_cell m v
        → Ends object m.store.word t t
        → v ≢ t
        → Misses v (σ t)
        → Settles (Next m) (λ _. bound (bind_and_trail v t m))
    unfolding bound
    bind-Settles v t f e d misses =
        Settles-const (Next m) _ (elim (Option-cases (bind_and_trail v t m)) [
          | inl full ↦ rw full tt
          | inr (m', h) ↦
              let (written, b) = bind_and_trail_lem object is_cell v t m m' h in
              rw h (bind-Next σ m m' s v t f e d misses written b)
        ])

    pub bind_both-Settles :
        (v1 v2 : ℕ)
        → Free object is_cell m v1
        → Free object is_cell m v2
        → Ends object m.store.word v1 v1
        → Ends object m.store.word v2 v2
        → v1 ≢ v2
        → Settles (Next m) (λ _. bound (bind_var_var v1 v2 m))
    unfolding bound Misses
    bind_both-Settles v1 v2 f1 f2 e1 e2 d =
        let g = s.generic in
        let u1 = g.unbound v1 f1.is_object f1.referring f1.unbound in
        let u2 = g.unbound v2 f2.is_object f2.referring f2.unbound in
        let miss1 : Misses v1 (σ v2) = rw u2 (λ q. d (sym q)) in
        let miss2 : Misses v2 (σ v1) = rw u1 d in
        Settles-const (Next m) _ (elim (Option-cases (bind_var_var v1 v2 m)) [
          | inl full ↦ rw full tt
          | inr (m', h) ↦
              let (written, b) = bind_var_var_lem object is_cell v1 v2 m m' h in
              rw h (elim written [
                | inl w ↦ bind-Next σ m m' s v1 v2 f1 e2 d miss1 w b
                | inr w ↦ bind-Next σ m m' s v2 v1 f2 e1 (λ q. d (sym q)) miss2 w b
              ])
        ])
