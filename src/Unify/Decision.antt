-- ===== src/Unify/Decision.antt =====
-- `Thread::unify` of src/unify.cc decides whether terms can be made equal, if every variable has
-- its occurs check on.
use qu_prolog.Base.{
  ℕ, zero, suc, ◌+◌, ◌≤◌, ◌<◌, ◌≡◌, ◌≢◌, ◌⊎◌, refl, ap, ◌∙◌, Bool, true, false, arith, Bool-cases,
  inl, inr, List, ◌==◌, some,
}
use qu_prolog.Machine.{Machine}
use qu_prolog.Unify.{Outcome, done, beyond, overflow, no_fuel, unify_objects, unify}
use qu_prolog.Unify.Object.{unify_class, is_substitution, variable_dereference}
use qu_prolog.Unify.Solution.{Tree, Solves, Foreign}
use qu_prolog.Unify.Reads.{Ends, variable_dereference-Ends}
use qu_prolog.Unify.Correct.{Exhausts}
use qu_prolog.Unify.Inside.{size}
use qu_prolog.Unify.Unifier.{unify_deep, outcome-Correct, unify-Solves, unify-fails}
use qu_prolog.Unify.Chains.{variable_dereference-Links}
use qu_prolog.Unify.Settles.{Settles, Settles-const, Good}
use qu_prolog.Unify.Checked.{size_pos}
use qu_prolog.Unify.Progress.{State, Next, Next-self}
use qu_prolog.Unify.Descent.{unbound, Decided}
use qu_prolog.Unify.Decide.{action-Settles}

module _ (object is_cell : ℕ → Bool) where
  -- A success has a unifier, and a failure has none; and otherwise memory holds an object that is
  -- left to other functions, or a machine is reached whose trail is full.
  abbrev pub Decides : Machine → ℕ → ℕ → Outcome → Type 0
  Decides m a b (done true m') =
      (τ : ℕ → Tree) × Solves object τ m'.store.word × Solves object τ m.store.word × (τ a ≡ τ b)
  Decides m a b (done false m') = (τ : ℕ → Tree) → Solves object τ m.store.word → τ a ≢ τ b
  Decides m a b beyond = Foreign object m.store.word
  Decides m a b overflow = Exhausts object is_cell m
  Decides m a b no_fuel = ⊥

module _ (object is_cell : ℕ → Bool) (vars : List ℕ) where
  objects-Settles :
      (k n : ℕ)
      → Decided object is_cell vars k n
      → (m : Machine) (σ : ℕ → Tree) → State object is_cell vars σ m
      → (t1 t2 : ℕ) → Ends object m.store.word t1 t1
      → Ends object m.store.word t2 t2
      → (unbound object is_cell vars k n m < k)
        ⊎ ((unbound object is_cell vars k n m ≤ k) × (size (σ t1) ≤ suc n))
      → Settles (Next object is_cell vars m) (λ f. unify_objects true f (unify true f) m t1 t2)
  unfolding unify_objects
  objects-Settles k n ih m σ s t1 t2 e1 e2 h =
      let w = m.store.word in
      let N = Next object is_cell vars m in
      let out = Settles-const N beyond tt in
      elim (Bool-cases (is_substitution (w t1))) [
        | inl q ↦ rw q out
        | inr n1 ↦ elim (Bool-cases (is_substitution (w t2))) [
          | inl q ↦ rw (n1, q) out
          | inr n2 ↦ elim (Bool-cases (t1 == t2)) [
            | inl q ↦
                rw (n1, n2, q) (Settles-const N (done true m) (Next-self object is_cell vars m σ s))
            | inr q ↦
                let apart : t1 ≢ t2 = λ e. absurd (ground arith) in
                rw (n1, n2, q)
                  (action-Settles object is_cell vars k n ih m σ s t1 t2 e1 e2 h apart
                    (unify_class (w t1)) (unify_class (w t2)) refl refl)
          ]
        ]
      ]

  deeper :
      (G : Machine → Type 0) (m : Machine) (a b t1 t2 d1 d2 : ℕ)
      → ((f : ℕ) → d1 ≤ f → variable_dereference f m.store.word a ≡ some t1)
      → ((f : ℕ) → d2 ≤ f → variable_dereference f m.store.word b ≡ some t2)
      → Settles G (λ f. unify_objects true f (unify true f) m t1 t2)
      → Settles G (λ f. unify true f m a b)
  deeper G m a b t1 t2 d1 d2 g1 g2 r = record {
    outcome = r.outcome;
    enough = suc (d1 + d2 + r.enough);
    reached = below;
    good = r.good;
  }
    where
      below : (f : ℕ) → suc (d1 + d2 + r.enough) ≤ f → unify true f m a b ≡ r.outcome
      below zero h = absurd (omega arith)
      below (suc f) h =
          unify_deep object is_cell true f m a b t1 t2 (g1 f (omega arith)) (g2 f (omega arith))
          ∙ r.reached f (omega arith)

  -- One round, from the measure with `suc n`.
  round :
      (k n : ℕ)
      → Decided object is_cell vars k n
      → (m : Machine) (a b : ℕ) (σ : ℕ → Tree) → State object is_cell vars σ m
      → object a ≡ true
      → object b ≡ true
      → unbound object is_cell vars k n m ≤ k
      → size (σ a) ≤ suc n
      → Settles (Next object is_cell vars m) (λ f. unify true f m a b)
  round k n ih m a b σ s oa ob c h =
      let l = s.layout in
      let (t1, c1) = s.chains a oa in
      let (t2, c2) = s.chains b ob in
      let (d1, g1) = variable_dereference-Links c1 in
      let (d2, g2) = variable_dereference-Links c2 in
      let e1 = variable_dereference-Ends object is_cell m l d1 a t1 oa (g1 d1 (omega arith)) in
      let e2 = variable_dereference-Ends object is_cell m l d2 b t2 ob (g2 d2 (omega arith)) in
      deeper (Next object is_cell vars m) m a b t1 t2 d1 d2 g1 g2 (
        objects-Settles k n ih m σ s t1 t2 (at_end e1) (at_end e2)
          (inr (c, omega (arith, ap size (e1.same σ s.generic.solves), h))))
    where
      at_end : {o t : ℕ} → Ends object m.store.word o t → Ends object m.store.word t t
      at_end x = record { is_object = x.is_object; unbound = x.unbound; same = λ τ q. refl }

  -- By the number of unbound variables, and then by the size of the first term.
  unify-Settles :
      (k n : ℕ) (m : Machine) (a b : ℕ) (σ : ℕ → Tree)
      → State object is_cell vars σ m
      → object a ≡ true
      → object b ≡ true
      → unbound object is_cell vars k n m ≤ k
      → size (σ a) ≤ n
      → Settles (Next object is_cell vars m) (λ f. unify true f m a b)
  unify-Settles k zero m a b σ s oa ob c h = absurd (omega (arith, size_pos (σ a)))
  unify-Settles zero (suc n) m a b σ s oa ob c h =
      round zero n
        (λ m' a' b' τ s' oa' ob' z. elim z [
          | inl x ↦ absurd (omega arith)
          | inr (x, y) ↦ unify-Settles zero n m' a' b' τ s' oa' ob' x y
        ])
        m a b σ s oa ob c h
  unify-Settles (suc k) (suc n) m a b σ s oa ob c h =
      round (suc k) n
        (λ m' a' b' τ s' oa' ob' z. elim z [
          | inl x ↦ unify-Settles k (size (τ a')) m' a' b' τ s' oa' ob' (omega arith) (omega arith)
          | inr (x, y) ↦ unify-Settles (suc k) n m' a' b' τ s' oa' ob' x y
        ])
        m a b σ s oa ob c h

  -- Let memory be laid out as the classes of objects say, with chains of references that end and a
  -- solution in finite trees that leaves unbound variables unknown, and let every variable
  -- have its occurs check on, with the checks of the thread on, too. Then there is
  -- an amount of fuel from which on the unification of two objects has one and the same
  -- outcome: a success, and then there is a solution of memory afterwards, which is one of memory
  -- before, too, and makes the terms equal; a failure, and then no solution of memory does; what
  -- is left to other functions, and then memory holds an object variable, a quantified term, a
  -- substitution or a variable with extra information; or the exit when the trail is full, and then
  -- a machine is reached whose trail is full.
  pub unify-Decides :
      (m : Machine) (a b : ℕ) (σ : ℕ → Tree)
      → State object is_cell vars σ m
      → object a ≡ true
      → object b ≡ true
      → (o : Outcome) × (enough : ℕ) × ((f : ℕ) → enough ≤ f → unify true f m a b ≡ o)
        × Decides object is_cell m a b o
  unify-Decides m a b σ s oa ob =
      let r =
        unify-Settles (unbound object is_cell vars 0 0 m) (size (σ a)) m a b σ s oa ob (omega arith)
          (omega arith) in
      (
        r.outcome,
        r.enough,
        r.reached,
        judge r.outcome r.enough (r.reached r.enough (omega arith)) r.good,
      )
    where
      judge :
          (o : Outcome) (f : ℕ)
          → unify true f m a b ≡ o
          → Good (Next object is_cell vars m) o
          → Decides object is_cell m a b o
      judge (done true m') f h x =
          let solved = x.state.generic.solves in
          let (before, same) =
            (unify-Solves object is_cell true f m m' a b s.layout oa ob h x.solution).0 solved in
          (x.solution, solved, before, same)
      judge (done false m') f h x = unify-fails object is_cell true f m m' a b s.layout oa ob h
      judge beyond f h x = outcome-Correct object is_cell true f m a b s.layout oa ob beyond h
      judge overflow f h x = outcome-Correct object is_cell true f m a b s.layout oa ob overflow h
      judge no_fuel f h x = x
