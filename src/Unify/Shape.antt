-- ===== src/Unify/Shape.antt =====
-- The class in an object's tag shows in the tree of the object (src/objects.h).
use qu_prolog.Base.{
  ℕ, zero, suc, ◌+◌, ◌/◌, ◌%◌, ◌≡◌, ◌≢◌, ◌⊎◌, refl, sym, ap, ◌∙◌, subst, inl, inr, Bool, true,
  false, arith,
}
use qu_prolog.Machine.{Machine}
use qu_prolog.Unify.Object.{
  Kind, UnifyClass, variable, short, string, long, double, object_variable, quantified,
  substitution, block, illegal, kind_of, kind, unify_class, is_reference,
}
use qu_prolog.Unify.Solution.{
  Tree, unknown, symbol, constant, compound, pair, Constant, Agree, Layout, Solves,
}
use qu_prolog.Unify.Correct.{Free}

code : Kind → ℕ
code variable = 0
code short = 1
code string = 2
code long = 3
code Kind.atom = 4
code double = 5
code Kind.cons = 6
code Kind.structure = 7
code object_variable = 8
code quantified = 9
code substitution = 10
code block = 11
code illegal = 12

kind_of-code : (n : ℕ) → (n ≡ code (kind_of n)) ⊎ (kind_of n ≡ illegal)
unfolding kind_of code
kind_of-code zero = inl refl
kind_of-code (suc zero) = inl refl
kind_of-code (suc (suc zero)) = inl refl
kind_of-code (suc (suc (suc zero))) = inl refl
kind_of-code (suc (suc (suc (suc zero)))) = inl refl
kind_of-code (suc (suc (suc (suc (suc zero))))) = inl refl
kind_of-code (suc (suc (suc (suc (suc (suc zero)))))) = inl refl
kind_of-code (suc (suc (suc (suc (suc (suc (suc zero))))))) = inl refl
kind_of-code (suc (suc (suc (suc (suc (suc (suc (suc zero)))))))) = inl refl
kind_of-code (suc (suc (suc (suc (suc (suc (suc (suc (suc zero))))))))) = inl refl
kind_of-code (suc (suc (suc (suc (suc (suc (suc (suc (suc (suc zero)))))))))) = inl refl
kind_of-code (suc (suc (suc (suc (suc (suc (suc (suc (suc (suc (suc zero))))))))))) = inl refl
kind_of-code _ = inr refl

-- Where a type stands in the tag.
kind-code : (t : ℕ) (k : Kind) → kind t ≡ k → k ≢ illegal → t / 16 % 16 ≡ code k
unfolding kind
kind-code t k e legal = elim (kind_of-code (t / 16 % 16)) [
  | inl c ↦ c ∙ ap code e
  | inr i ↦ absurd (legal (sym e ∙ i))
]

pub variable-reference : (t : ℕ) → kind t ≡ variable → is_reference t ≡ true
unfolding is_reference code
variable-reference t k = ground (arith, kind-code t variable k (λ e. cc))

pub object_variable-reference : (t : ℕ) → kind t ≡ object_variable → is_reference t ≡ true
unfolding is_reference code
object_variable-reference t k = ground (arith, kind-code t object_variable k (λ e. cc))

pub structure-rigid : (t : ℕ) → kind t ≡ Kind.structure → is_reference t ≡ false
unfolding is_reference code
structure-rigid t k = ground (arith, kind-code t Kind.structure k (λ e. cc))

pub list-rigid : (t : ℕ) → kind t ≡ Kind.cons → is_reference t ≡ false
unfolding is_reference code
list-rigid t k = ground (arith, kind-code t Kind.cons k (λ e. cc))

abbrev pub Variable : UnifyClass → Type 0
Variable UnifyClass.var = Unit
Variable UnifyClass.var_oc = Unit
Variable _ = ⊥

abbrev pub Rigid : UnifyClass → Type 0
Rigid UnifyClass.var = ⊥
Rigid UnifyClass.var_oc = ⊥
Rigid UnifyClass.other = ⊥
Rigid _ = Unit

Agree-variable : (k : Kind) (c : UnifyClass) → Agree k c → Variable c → k ≡ variable
Agree-variable variable c a v = refl
Agree-variable _ UnifyClass.var a v = absurd a
Agree-variable _ UnifyClass.var_oc a v = absurd a
Agree-variable _ _ a v = absurd v

pub Agree-structure : (k : Kind) → Agree k UnifyClass.structure → k ≡ Kind.structure
Agree-structure Kind.structure a = refl
Agree-structure _ a = absurd a

pub Agree-list : (k : Kind) → Agree k UnifyClass.cons → k ≡ Kind.cons
Agree-list Kind.cons a = refl
Agree-list _ a = absurd a

pub Agree-number : (k : Kind) → Agree k UnifyClass.number → Constant k
Agree-number short a = tt
Agree-number long a = tt
Agree-number double a = tt
Agree-number _ a = absurd a

pub Agree-string : (k : Kind) → Agree k UnifyClass.string → Constant k
Agree-string string a = tt
Agree-string _ a = absurd a

pub Agree-atom : (k : Kind) → Agree k UnifyClass.atom → k ≡ Kind.atom
Agree-atom Kind.atom a = refl
Agree-atom _ a = absurd a

shape : Tree → UnifyClass
shape (unknown n) = UnifyClass.other
shape (symbol n) = UnifyClass.atom
shape (constant n ws) = unify_class n
shape (compound f ts) = UnifyClass.structure
shape (pair a b) = UnifyClass.cons

module _ (object is_cell : ℕ → Bool) (m : Machine) (l : Layout object is_cell m) (t : ℕ)
    (o : object t ≡ true) where
  agree : (c : UnifyClass) → unify_class (m.store.word t) ≡ c → Agree (kind (m.store.word t)) c
  agree c e = subst (λ d. Agree (kind (m.store.word t)) d) e (l.classes t o)

  pub unbound-kind :
      (c : UnifyClass)
      → unify_class (m.store.word t) ≡ c
      → Variable c
      → kind (m.store.word t) ≡ variable
  unbound-kind c e v = Agree-variable _ c (agree c e) v

  -- An unbound variable.
  pub unbound-Free :
      (c : UnifyClass)
      → unify_class (m.store.word t) ≡ c
      → Variable c
      → (is_reference (m.store.word t) ≡ true → m.store.word (t + 1) ≡ t)
      → Free object is_cell m t
  unbound-Free c e v unbound =
      let r = variable-reference (m.store.word t) (Agree-variable _ c (agree c e) v) in
      record { is_object = o; referring = r; unbound = unbound r }

  pub structure-kind :
      unify_class (m.store.word t) ≡ UnifyClass.structure → kind (m.store.word t) ≡ Kind.structure
  structure-kind e = Agree-structure _ (agree UnifyClass.structure e)

  pub list-kind : unify_class (m.store.word t) ≡ UnifyClass.cons → kind (m.store.word t) ≡ Kind.cons
  list-kind e = Agree-list _ (agree UnifyClass.cons e)

  pub atom-kind : unify_class (m.store.word t) ≡ UnifyClass.atom → kind (m.store.word t) ≡ Kind.atom
  atom-kind e = Agree-atom _ (agree UnifyClass.atom e)

  pub class-Constant :
      (unify_class (m.store.word t) ≡ UnifyClass.number)
        ⊎ (unify_class (m.store.word t) ≡ UnifyClass.string)
      → Constant (kind (m.store.word t))
  class-Constant (inl e) = Agree-number _ (agree UnifyClass.number e)
  class-Constant (inr e) = Agree-string _ (agree UnifyClass.string e)

  shape-Rigid :
      (σ : ℕ → Tree)
      → Solves object σ m.store.word
      → (c : UnifyClass) → unify_class (m.store.word t) ≡ c
      → Rigid c
      → shape (σ t) ≡ c
  unfolding shape
  shape-Rigid σ s UnifyClass.number e r = rw (s.constants t o (class-Constant (inl e))) e
  shape-Rigid σ s UnifyClass.string e r = rw (s.constants t o (class-Constant (inr e))) e
  shape-Rigid σ s UnifyClass.atom e r = rw (s.atoms t o (atom-kind e))
  shape-Rigid σ s UnifyClass.structure e r = rw (s.structures t o (structure-kind e))
  shape-Rigid σ s UnifyClass.cons e r = rw (s.lists t o (list-kind e))
  shape-Rigid σ s UnifyClass.var e r = absurd r
  shape-Rigid σ s UnifyClass.var_oc e r = absurd r
  shape-Rigid σ s UnifyClass.other e r = absurd r

module _ (object is_cell : ℕ → Bool) (m : Machine) (l : Layout object is_cell m) (t1 t2 : ℕ)
    (o1 : object t1 ≡ true) (o2 : object t2 ≡ true) where
  -- Terms of different classes are not equal.
  pub clash :
      (c1 c2 : UnifyClass)
      → unify_class (m.store.word t1) ≡ c1
      → unify_class (m.store.word t2) ≡ c2
      → Rigid c1
      → Rigid c2
      → c1 ≢ c2
      → (σ : ℕ → Tree) → Solves object σ m.store.word
      → σ t1 ≢ σ t2
  clash c1 c2 e1 e2 r1 r2 apart σ s same = apart (
      sym (shape-Rigid object is_cell m l t1 o1 σ s c1 e1 r1)
      ∙ ap shape same
      ∙ shape-Rigid object is_cell m l t2 o2 σ s c2 e2 r2)
