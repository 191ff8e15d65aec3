-- ===== src/Unify/Descent.antt =====
-- Unification of structures and lists ends if that of smaller terms, or with fewer unbound
-- variables, does (src/unify.cc).
use qu_prolog.Base.{
  ℕ, zero, suc, ◌+◌, ◌≤◌, ◌<◌, ◌≡◌, ◌⊎◌, sym, ap, subst, Bool, true, false, arith, Bool-cases, inl,
  inr, List, ◌==◌, ==_iff, if◌then◌else◌,
}
use qu_prolog.Machine.{Machine}
use qu_prolog.Unify.{
  Outcome, done, unify_lists, unify_structures, unify_arguments, carry_out, unify,
}
use qu_prolog.Unify.Object.{Kind, kind, get_arity}
use qu_prolog.Unify.Solution.{Tree, values, Pointers}
use qu_prolog.Unify.Frame.{Pointers-frame}
use qu_prolog.Unify.Inside.{size, sizes}
use qu_prolog.Unify.Settles.{Settles, Settles-const, Settles-with, Settles-then}
use qu_prolog.Unify.Generic.{Generic}
use qu_prolog.Unify.Measure.{unbound_count}
use qu_prolog.Unify.Progress.{State, Next, Next-self, Next-trans}

module _ (object is_cell : ℕ → Bool) (vars : List ℕ) (k n : ℕ) where
  abbrev pub unbound : Machine → ℕ
  unbound m = unbound_count m.store.word vars

  -- Fewer than `k` unbound variables, or at most `k` and a term of at most the size `n`.
  abbrev pub Below : ℕ → Machine → Type 0
  Below s m = (unbound m < k) ⊎ ((unbound m ≤ k) × (s ≤ n))

  abbrev pub Decided : Type 0
  Decided =
      (m : Machine) (a b : ℕ) (σ : ℕ → Tree)
      → State object is_cell vars σ m
      → object a ≡ true
      → object b ≡ true
      → Below (size (σ a)) m
      → Settles (Next object is_cell vars m) (λ f. unify true f m a b)

  smaller : (s s' : ℕ) (m : Machine) → s' ≤ s → Below s m → Below s' m
  smaller s s' m h (inl c) = inl c
  smaller s s' m h (inr (c, d)) = inr (c, omega (arith, h, d))

  -- After a step the measure of what is left is still below.
  resume :
      (z : (ℕ → Tree) → (ℕ → ℕ) → ℕ) (σ : ℕ → Tree) (m m' : Machine)
      → State object is_cell vars σ m
      → Below (z σ m.store.word) m
      → Next object is_cell vars m m'
      → (τ : ℕ → Tree) × State object is_cell vars τ m' × Below (z τ m'.store.word) m'
  resume z σ m m' s below x = go x.progress below
    where
      go :
          (m'.store.word ≡ m.store.word) ⊎ (unbound m' < unbound m)
          → Below (z σ m.store.word) m
          → (τ : ℕ → Tree) × State object is_cell vars τ m' × Below (z τ m'.store.word) m'
      go (inr less) (inl c) = (x.solution, x.state, inl (omega (arith, less, c)))
      go (inr less) (inr (c, d)) = (x.solution, x.state, inl (omega (arith, less, c)))
      go (inl e) b =
          let y = x.state in
          let same = ap (λ w. unbound_count w vars) e in
          let zs = ap (z σ) e in
          (
            σ,
            record {
              layout = y.layout;
              chains = y.chains;
              generic = subst (λ w. Generic object σ w) (sym e) s.generic;
              occurs_checked = y.occurs_checked;
              listed = y.listed;
            },
            elim b [
              | inl c ↦ inl (omega (arith, same, c))
              | inr (c, d) ↦ inr (omega (arith, same, c), omega (arith, zs, d))
            ],
          )

  onwards :
      (m m' : Machine) (r : ℕ → Outcome)
      → Next object is_cell vars m m'
      → Settles (Next object is_cell vars m') r
      → Settles (Next object is_cell vars m) r
  onwards m m' r x s =
      Settles-with (Next object is_cell vars m') (Next object is_cell vars m) r s
        (λ m'' f h y. Next-trans object is_cell vars x y)

  module _ (ih : Decided) where
    arguments-Settles :
        (j : ℕ) (m : Machine) (a b : ℕ) (σ : ℕ → Tree)
        → State object is_cell vars σ m
        → Pointers object is_cell m.store.word j a
        → Pointers object is_cell m.store.word j b
        → Below (sizes (values σ j m.store.word a)) m
        → Settles (Next object is_cell vars m) (λ f. unify_arguments (unify true f) j m a b)
    unfolding unify_arguments values sizes
    arguments-Settles zero m a b σ s p q h =
        Settles-const (Next object is_cell vars m) _ (Next-self object is_cell vars m σ s)
    arguments-Settles (suc j) m a b σ s p q h =
        let w = m.store.word in
        let z = λ (τ : ℕ → Tree) (u : ℕ → ℕ). sizes (values τ j u (a + 1)) in
        let N = Next object is_cell vars in
        Settles-then (N m) (N m) _ (λ f m'. unify_arguments (unify true f) j m' (a + 1) (b + 1))
          (ih m (w a) (w b) σ s p.1 q.1 (smaller _ (size (σ (w a))) m (omega arith) h))
          λ m' x.
            let (τ, t, h') = resume z σ m m' s (smaller _ (z σ w) m (omega arith) h) x in
            onwards m m' _ x (
              arguments-Settles j m' (a + 1) (b + 1) τ t
                (Pointers-frame object is_cell x.frame j (a + 1) p.2)
                (Pointers-frame object is_cell x.frame j (b + 1) q.2) h')

    module _ (m : Machine) (σ : ℕ → Tree) (s : State object is_cell vars σ m) (t1 t2 : ℕ)
        (o1 : object t1 ≡ true) (o2 : object t2 ≡ true)
        (h : (unbound m < k) ⊎ ((unbound m ≤ k) × (size (σ t1) ≤ suc n))) where
      second : (t : ℕ) → t + 1 + 1 ≡ t + 2
      second t = omega arith

      below : (c : ℕ) → suc c ≤ size (σ t1) → Below c m
      below c q = elim h [ inl x ↦ inl x | inr (x, y) ↦ inr (x, omega (arith, q, y)) ]

      pub lists-Settles :
          kind (m.store.word t1) ≡ Kind.cons
          → kind (m.store.word t2) ≡ Kind.cons
          → Settles
              (Next object is_cell vars m)
              (λ f. carry_out true f (unify true f) m t1 t2 unify_lists)
      unfolding carry_out size
      lists-Settles k1 k2 =
          let w = m.store.word in
          let l = s.layout in
          let N = Next object is_cell vars in
          let e = ap size (s.generic.solves.lists t1 o1 k1) in
          let tail1 = subst (λ a. Pointers object is_cell w 1 a) (second t1) (l.lists t1 o1 k1).2 in
          let tail2 = subst (λ a. Pointers object is_cell w 1 a) (second t2) (l.lists t2 o2 k2).2 in
          let z = λ (τ : ℕ → Tree) (u : ℕ → ℕ). size (τ (u (t1 + 2))) in
          Settles-then (N m) (N m) _
            (λ f m'. unify true f m' (m'.store.word (t1 + 2)) (m'.store.word (t2 + 2)))
            (ih m (w (t1 + 1)) (w (t2 + 1)) σ s (l.lists t1 o1 k1).1 (l.lists t2 o2 k2).1
              (below (size (σ (w (t1 + 1)))) (omega (arith, e))))
            λ m' x.
              let (τ, t, h') = resume z σ m m' s (below (z σ w) (omega (arith, e))) x in
              let p1 = Pointers-frame object is_cell x.frame 1 (t1 + 2) tail1 in
              let p2 = Pointers-frame object is_cell x.frame 1 (t2 + 2) tail2 in
              onwards m m' _ x
                (ih m' (m'.store.word (t1 + 2)) (m'.store.word (t2 + 2)) τ t p1.1 p2.1 h')

      functor-Settles :
          (f1 f2 : ℕ)
          → object f1 ≡ true
          → object f2 ≡ true
          → Below (size (σ f1)) m
          → Settles
              (Next object is_cell vars m)
              (λ f. if f1 == f2 then done true m else unify true f m f1 f2)
      functor-Settles f1 f2 p1 p2 q = elim (Bool-cases (f1 == f2)) [
        | inl same ↦ rw same (
            Settles-const (Next object is_cell vars m) (done true m)
              (Next-self object is_cell vars m σ s))
        | inr apart ↦ rw apart (ih m f1 f2 σ s p1 p2 q)
      ]

      pub structures-Settles :
          kind (m.store.word t1) ≡ Kind.structure
          → kind (m.store.word t2) ≡ Kind.structure
          → Settles
              (Next object is_cell vars m)
              (λ f. carry_out true f (unify true f) m t1 t2 unify_structures)
      unfolding carry_out size
      structures-Settles k1 k2 =
          let w = m.store.word in
          let l = s.layout in
          let N = Next object is_cell vars in
          let n1 = get_arity (w t1) in
          let n2 = get_arity (w t2) in
          let e = ap size (s.generic.solves.structures t1 o1 k1) in
          let p1 = l.structures t1 o1 k1 in
          let p2 = l.structures t2 o2 k2 in
          let z = λ (τ : ℕ → Tree) (u : ℕ → ℕ). sizes (values τ n1 u (t1 + 2)) in
          elim (Bool-cases (n1 == n2)) [
            | inr differ ↦ rw differ (Settles-const (N m) (done false m) tt)
            | inl agree ↦
                let q = (==_iff n1 n2).0 agree in
                let args1 = subst (λ a. Pointers object is_cell w n1 a) (second t1) p1.2 in
                let args2 = subst (λ a. Pointers object is_cell w n2 a) (second t2) p2.2 in
                let args2' = subst (λ c. Pointers object is_cell w c (t2 + 2)) (sym q) args2 in
                rw agree (
                  Settles-then (N m) (N m) _
                    (λ f m'. unify_arguments (unify true f) n1 m' (t1 + 2) (t2 + 2))
                    (functor-Settles (w (t1 + 1)) (w (t2 + 1)) p1.1 p2.1
                      (below (size (σ (w (t1 + 1)))) (omega (arith, e))))
                    λ m' x.
                      let (τ, t, h') = resume z σ m m' s (below (z σ w) (omega (arith, e))) x in
                      onwards m m' _ x (
                        arguments-Settles n1 m' (t1 + 2) (t2 + 2) τ t
                          (Pointers-frame object is_cell x.frame n1 (t1 + 2) args1)
                          (Pointers-frame object is_cell x.frame n1 (t2 + 2) args2') h'))
          ]
