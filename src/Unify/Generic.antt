-- ===== src/Unify/Generic.antt =====
-- Solutions that leave unbound variables unknown, and what binding a variable does to them
-- (src/bind.h, src/occurs_check.cc).
use qu_prolog.Base.{
  ℕ, zero, suc, ◌+◌, ◌≡◌, ◌≢◌, refl, sym, ap, ◌∙◌, subst, Bool, true, arith, ◌==◌, update,
  if◌then◌else◌,
}
use qu_prolog.Machine.{Machine}
use qu_prolog.Unify.Object.{is_reference, get_arity}
use qu_prolog.Unify.Solution.{
  Tree, Trees, unknown, symbol, constant, compound, pair, none_left, more, values, Layout, Solves,
}
use qu_prolog.Unify.Correct.{Free, write-Solves}

-- The tree for the variable `v` is put in.
unfoldable mutual
  pub replace : ℕ → Tree → Tree → Tree
  replace v r (unknown n) = if n == v then r else unknown n
  replace v r (symbol n) = symbol n
  replace v r (constant n ws) = constant n ws
  replace v r (compound f ts) = compound (replace v r f) (replaces v r ts)
  replace v r (pair a b) = pair (replace v r a) (replace v r b)

  pub replaces : ℕ → Tree → Trees → Trees
  replaces v r none_left = none_left
  replaces v r (more t ts) = more (replace v r t) (replaces v r ts)

-- The variable `v` is not in the tree.
unfoldable mutual
  pub Misses : ℕ → Tree → Type 0
  Misses v (unknown n) = n ≢ v
  Misses v (symbol n) = Unit
  Misses v (constant n ws) = Unit
  Misses v (compound f ts) = Misses v f × MissesAll v ts
  Misses v (pair a b) = Misses v a × Misses v b

  pub MissesAll : ℕ → Trees → Type 0
  MissesAll v none_left = Unit
  MissesAll v (more t ts) = Misses v t × MissesAll v ts

mutual
  unfolding replace replaces Misses MissesAll

  pub replace-Misses : (v : ℕ) (r t : Tree) → Misses v t → replace v r t ≡ t
  replace-Misses v r (unknown n) h = ground arith
  replace-Misses v r (symbol n) h = refl
  replace-Misses v r (constant n ws) h = refl
  replace-Misses v r (compound f ts) h = rw (replace-Misses v r f h.0, replaces-Misses v r ts h.1)
  replace-Misses v r (pair a b) h = rw (replace-Misses v r a h.0, replace-Misses v r b h.1)

  replaces-Misses : (v : ℕ) (r : Tree) (ts : Trees) → MissesAll v ts → replaces v r ts ≡ ts
  replaces-Misses v r none_left h = refl
  replaces-Misses v r (more t ts) h = rw (replace-Misses v r t h.0, replaces-Misses v r ts h.1)

replace_here : (v : ℕ) (r : Tree) → replace v r (unknown v) ≡ r
unfolding replace
replace_here v r = ground arith

replace_there : (v : ℕ) (r : Tree) (x : ℕ) → x ≢ v → replace v r (unknown x) ≡ unknown x
unfolding replace
replace_there v r x d = ground arith

values-replace :
    (v : ℕ) (r : Tree) (σ : ℕ → Tree) (n : ℕ) (w : ℕ → ℕ) (a : ℕ)
    → values (λ x. replace v r (σ x)) n w a ≡ replaces v r (values σ n w a)
unfolding values replaces
values-replace v r σ zero w a = refl
values-replace v r σ (suc n) w a = rw (values-replace v r σ n w (a + 1))

module _ (object : ℕ → Bool) where
  -- An instance of a solution is a solution.
  Solves-replace :
      (v : ℕ) (r : Tree) (σ : ℕ → Tree) (w : ℕ → ℕ)
      → Solves object σ w
      → Solves object (λ x. replace v r (σ x)) w
  unfolding replace
  Solves-replace v r σ w s = record {
    references = λ x o k. ap (replace v r) (s.references x o k);
    structures = λ x o k.
        rw (values-replace v r σ (get_arity (w x)) w (x + 2))
          (ap (replace v r) (s.structures x o k));
    lists = λ x o k. ap (replace v r) (s.lists x o k);
    atoms = λ x o k. ap (replace v r) (s.atoms x o k);
    constants = λ x o k. ap (replace v r) (s.constants x o k);
  }

  pub record Generic (σ : ℕ → Tree) (w : ℕ → ℕ) : Type 0 where
    pub solves : Solves object σ w
    pub unbound :
        (x : ℕ) → object x ≡ true → is_reference (w x) ≡ true → w (x + 1) ≡ x → σ x ≡ unknown x

module _ (object is_cell : ℕ → Bool) (m m' : Machine) (v t : ℕ) (l : Layout object is_cell m)
    (f : Free object is_cell m v) (o : object t ≡ true) (apart : v ≢ t)
    (written : m'.store.word ≡ update m.store.word (v + 1) t) (b : m'.base ≡ m.base)
    (tags : (x : ℕ) → object x ≡ true → m'.store.word x ≡ m.store.word x) (σ : ℕ → Tree)
    (g : Generic object σ m.store.word) (misses : Misses v (σ t)) where
  -- After the variable `v` is bound to a term without it.
  pub bind-Generic : Generic object (λ x. replace v (σ t) (σ x)) m'.store.word
  bind-Generic =
      let τ = λ (x : ℕ). replace v (σ t) (σ x) in
      let here : τ v ≡ τ t =
        ap (replace v (σ t)) (g.unbound v f.is_object f.referring f.unbound)
        ∙ replace_here v (σ t)
        ∙ sym (replace-Misses v (σ t) (σ t) misses) in
      record {
        solves =
            (write-Solves object is_cell m m' v t l f o written b τ).1
              (Solves-replace object v (σ t) σ m.store.word g.solves, here);
        unbound = λ x ox r e.
            let r' = subst (λ a. is_reference a ≡ true) (tags x ox) r in
            let other : x ≢ v = λ q.
              let e' : m'.store.word (v + 1) ≡ v = subst (λ y. m'.store.word (y + 1) ≡ y) q e in
              let e'' : m'.store.word (v + 1) ≡ t = rw written (ground arith) in
              apart (sym e' ∙ e'') in
            let old : m.store.word (x + 1) ≡ x = sym (rw written (ground arith)) ∙ e in
            ap (replace v (σ t)) (g.unbound x ox r' old) ∙ replace_there v (σ t) x other;
      }
