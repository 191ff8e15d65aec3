-- ===== src/Unify/Parts.antt =====
-- Unification of structures and lists ends if that of smaller terms does (src/unify.cc).
use qu_prolog.Base.{
  ℕ, zero, suc, ◌+◌, ◌≤◌, ◌≡◌, sym, ap, ◌∙◌, subst, Bool, true, inl, inr, arith, Bool-cases, ◌==◌,
  ==_iff, if◌then◌else◌,
}
use qu_prolog.Machine.{Machine}
use qu_prolog.Unify.{done, unify_lists, unify_structures, unify_arguments, carry_out, unify}
use qu_prolog.Unify.Object.{Kind, kind, get_arity}
use qu_prolog.Unify.Solution.{Tree, values, Pointers, Layout, Solves}
use qu_prolog.Unify.Frame.{Pointers-frame, values-frame}
use qu_prolog.Unify.Inside.{size, sizes}
use qu_prolog.Unify.Correct.{Reached, Reached-self}
use qu_prolog.Unify.Table.{length-values}
use qu_prolog.Unify.Unifier.{outcome-Correct}
use qu_prolog.Unify.Settles.{Settles, Settles-const, Settles-with, Settles-then, Chained}

module _ (object is_cell : ℕ → Bool) (checks : Bool) (σ : ℕ → Tree) where
  -- Terms that the solution makes equal, of at most the size `n`.
  abbrev pub Ending : ℕ → Type 0
  Ending n =
      (m : Machine) (a b : ℕ)
      → Layout object is_cell m
      → Chained object is_cell m
      → Solves object σ m.store.word
      → object a ≡ true
      → object b ≡ true
      → σ a ≡ σ b
      → size (σ a) ≤ n
      → Settles (Chained object is_cell) (λ f. unify checks f m a b)

  -- What is known after a step.
  record After (m m' : Machine) : Type 0 where
    chains : Chained object is_cell m'
    reached : Reached object is_cell m m'
    solved : Solves object σ m'.store.word

  module _ (n : ℕ) (ih : Ending n) where
    first :
        (m : Machine) (a b : ℕ)
        → Layout object is_cell m
        → Chained object is_cell m
        → Solves object σ m.store.word
        → object a ≡ true
        → object b ≡ true
        → σ a ≡ σ b
        → size (σ a) ≤ n
        → Settles (After m) (λ f. unify checks f m a b)
    first m a b l cs s oa ob e h =
        Settles-with (Chained object is_cell) (After m) _ (ih m a b l cs s oa ob e h) λ m' f q g.
          let c = outcome-Correct object is_cell checks f m a b l oa ob (done true m') q in
          record { chains = g; reached = c.0; solved = (c.1 σ).1 (s, e) }

    arguments-Settles :
        (k : ℕ) (m : Machine) (a b : ℕ)
        → Layout object is_cell m
        → Chained object is_cell m
        → Solves object σ m.store.word
        → Pointers object is_cell m.store.word k a
        → Pointers object is_cell m.store.word k b
        → values σ k m.store.word a ≡ values σ k m.store.word b
        → sizes (values σ k m.store.word a) ≤ n
        → Settles (Chained object is_cell) (λ f. unify_arguments (unify checks f) k m a b)
    unfolding unify_arguments values sizes
    arguments-Settles zero m a b l cs s p q e h = Settles-const (Chained object is_cell) _ cs
    arguments-Settles (suc k) m a b l cs s p q e h =
        let w = m.store.word in
        Settles-then (After m) (Chained object is_cell) _
          (λ f m'. unify_arguments (unify checks f) k m' (a + 1) (b + 1))
          (first m (w a) (w b) l cs s p.1 q.1 (cc) (omega arith))
          λ m' r.
            let fr = r.reached.frame in
            let v1 = values-frame object is_cell fr σ k (a + 1) p.2 in
            let v2 = values-frame object is_cell fr σ k (b + 1) q.2 in
            arguments-Settles k m' (a + 1) (b + 1) r.reached.layout r.chains r.solved
              (Pointers-frame object is_cell fr k (a + 1) p.2)
              (Pointers-frame object is_cell fr k (b + 1) q.2) (v1 ∙ (cc) ∙ sym v2)
              (omega (arith, ap sizes v1))

    module _ (m : Machine) (l : Layout object is_cell m) (cs : Chained object is_cell m)
        (s : Solves object σ m.store.word) (t1 t2 : ℕ) (o1 : object t1 ≡ true)
        (o2 : object t2 ≡ true) (e : σ t1 ≡ σ t2) (h : size (σ t1) ≤ suc n) where
      second : (t : ℕ) → t + 1 + 1 ≡ t + 2
      second t = omega arith

      pub lists-Settles :
          kind (m.store.word t1) ≡ Kind.cons
          → kind (m.store.word t2) ≡ Kind.cons
          → Settles
              (Chained object is_cell)
              (λ f. carry_out checks f (unify checks f) m t1 t2 unify_lists)
      unfolding carry_out size
      lists-Settles k1 k2 =
          let w = m.store.word in
          let e1 = s.lists t1 o1 k1 in
          let e2 = s.lists t2 o2 k2 in
          let z = ap size e1 in
          let tail1 = subst (λ a. Pointers object is_cell w 1 a) (second t1) (l.lists t1 o1 k1).2 in
          let tail2 = subst (λ a. Pointers object is_cell w 1 a) (second t2) (l.lists t2 o2 k2).2 in
          Settles-then (After m) (Chained object is_cell) _
            (λ f m'. unify checks f m' (m'.store.word (t1 + 2)) (m'.store.word (t2 + 2)))
            (first m (w (t1 + 1)) (w (t2 + 1)) l cs s (l.lists t1 o1 k1).1 (l.lists t2 o2 k2).1 (cc)
              (omega (arith, z, h)))
            λ m' r.
              let w1 = r.reached.frame (t1 + 2) tail1.0 in
              let w2 = r.reached.frame (t2 + 2) tail2.0 in
              rw (w1, w2)
                (ih m' (w (t1 + 2)) (w (t2 + 2)) r.reached.layout r.chains r.solved tail1.1 tail2.1
                  (cc) (omega (arith, z, h)))

      functor-Settles :
          (f1 f2 : ℕ)
          → object f1 ≡ true
          → object f2 ≡ true
          → σ f1 ≡ σ f2
          → size (σ f1) ≤ n
          → Settles (After m) (λ f. if f1 == f2 then done true m else unify checks f m f1 f2)
      functor-Settles f1 f2 p1 p2 q z = elim (Bool-cases (f1 == f2)) [
        | inl same ↦ rw same (
            Settles-const (After m) (done true m)
              (record { chains = cs; reached = Reached-self object is_cell l; solved = s }))
        | inr apart ↦ rw apart (first m f1 f2 l cs s p1 p2 q z)
      ]

      pub structures-Settles :
          kind (m.store.word t1) ≡ Kind.structure
          → kind (m.store.word t2) ≡ Kind.structure
          → Settles
              (Chained object is_cell)
              (λ f. carry_out checks f (unify checks f) m t1 t2 unify_structures)
      unfolding carry_out size
      structures-Settles k1 k2 =
          let w = m.store.word in
          let n1 = get_arity (w t1) in
          let n2 = get_arity (w t2) in
          let e1 = s.structures t1 o1 k1 in
          let e2 = s.structures t2 o2 k2 in
          let z = ap size e1 in
          let p1 = l.structures t1 o1 k1 in
          let p2 = l.structures t2 o2 k2 in
          let same : n1 ≡ n2 = length-values σ n1 n2 w (t1 + 2) (t2 + 2) (cc) in
          let agree = (==_iff n1 n2).1 same in
          let args1 = subst (λ a. Pointers object is_cell w n1 a) (second t1) p1.2 in
          let args2 = subst (λ a. Pointers object is_cell w n2 a) (second t2) p2.2 in
          let args2' = subst (λ k. Pointers object is_cell w k (t2 + 2)) (sym same) args2 in
          let e3 = ap (λ k. values σ k w (t2 + 2)) same in
          let args : values σ n1 w (t1 + 2) ≡ values σ n1 w (t2 + 2) = cc in
          rw agree (
            Settles-then (After m) (Chained object is_cell) _
              (λ f m'. unify_arguments (unify checks f) n1 m' (t1 + 2) (t2 + 2))
              (functor-Settles (w (t1 + 1)) (w (t2 + 1)) p1.1 p2.1 (cc) (omega (arith, z, h)))
              λ m' r.
                let fr = r.reached.frame in
                let v1 = values-frame object is_cell fr σ n1 (t1 + 2) args1 in
                let v2 = values-frame object is_cell fr σ n1 (t2 + 2) args2' in
                arguments-Settles n1 m' (t1 + 2) (t2 + 2) r.reached.layout r.chains r.solved
                  (Pointers-frame object is_cell fr n1 (t1 + 2) args1)
                  (Pointers-frame object is_cell fr n1 (t2 + 2) args2') (v1 ∙ args ∙ sym v2)
                  (omega (arith, ap sizes v1, z, h)))
