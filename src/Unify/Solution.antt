-- ===== src/Unify/Solution.antt =====
-- What the objects in memory mean: finite trees for the words of memory (src/objects.h).
use qu_prolog.Base.{ℕ, zero, suc, ◌+◌, ◌≤◌, ◌≡◌, Bool, true, false, List, [], ◌∷◌}
use qu_prolog.Machine.{Machine}
use qu_prolog.Unify.Object.{
  Kind, UnifyClass, variable, short, string, long, atom, double, cons, structure, object_variable,
  quantified, substitution, kind, unify_class, is_reference, get_arity, constant_words,
}

-- `unknown` are the variables and the terms that are not looked into.
mutual
  pub data Tree : Type 0 where
    unknown : ℕ → Tree
    symbol : ℕ → Tree
    constant : ℕ → List ℕ → Tree
    compound : Tree → Trees → Tree
    pair : Tree → Tree → Tree

  pub data Trees : Type 0 where
    none_left : Trees
    more : Tree → Trees → Trees

unfoldable pub words : ℕ → (ℕ → ℕ) → ℕ → List ℕ
words zero w a = []
words (suc n) w a = w a ∷ words n w (a + 1)

unfoldable pub values : (ℕ → Tree) → ℕ → (ℕ → ℕ) → ℕ → Trees
values σ zero w a = none_left
values σ (suc n) w a = more (σ (w a)) (values σ n w (a + 1))

abbrev pub Constant : Kind → Type 0
Constant short = Unit
Constant long = Unit
Constant double = Unit
Constant string = Unit
Constant _ = ⊥

-- The class in a tag is the one of its type.
abbrev pub Agree : Kind → UnifyClass → Type 0
Agree variable UnifyClass.var = Unit
Agree variable UnifyClass.var_oc = Unit
Agree variable UnifyClass.other = Unit
Agree short UnifyClass.number = Unit
Agree long UnifyClass.number = Unit
Agree double UnifyClass.number = Unit
Agree atom UnifyClass.atom = Unit
Agree string UnifyClass.string = Unit
Agree structure UnifyClass.structure = Unit
Agree cons UnifyClass.cons = Unit
Agree object_variable UnifyClass.other = Unit
Agree quantified UnifyClass.other = Unit
Agree substitution UnifyClass.other = Unit
Agree _ _ = ⊥

-- No reference stands in the `n` words from `a` on.
abbrev pub Fixed : (ℕ → Bool) → ℕ → ℕ → Type 0
Fixed is_cell zero a = Unit
Fixed is_cell (suc n) a = (is_cell a ≡ false) × Fixed is_cell n (a + 1)

-- `object` tells the addresses of objects; `is_cell` the words that hold the reference of a
-- variable or an object variable.
module _ (object is_cell : ℕ → Bool) where
  -- `n` words from `a` on hold pointers to objects.
  abbrev pub Pointers : (ℕ → ℕ) → ℕ → ℕ → Type 0
  Pointers w zero a = Unit
  Pointers w (suc n) a = (is_cell a ≡ false) × (object (w a) ≡ true) × Pointers w n (a + 1)

  -- The objects are laid out as the classes of src/objects.h say.
  pub record Layout (m : Machine) : Type 0 where
    pub tags : (x : ℕ) → object x ≡ true → is_cell x ≡ false
    pub classes :
        (x : ℕ) → object x ≡ true → Agree (kind (m.store.word x)) (unify_class (m.store.word x))
    pub references :
        (x : ℕ)
        → object x ≡ true
        → is_reference (m.store.word x) ≡ true
        → (m.base ≤ x) × (is_cell (x + 1) ≡ true) × (object (m.store.word (x + 1)) ≡ true)
    pub structures :
        (x : ℕ)
        → object x ≡ true
        → kind (m.store.word x) ≡ structure
        → Pointers m.store.word (suc (get_arity (m.store.word x))) (x + 1)
    pub lists :
        (x : ℕ) → object x ≡ true → kind (m.store.word x) ≡ cons → Pointers m.store.word 2 (x + 1)
    pub constants :
        (x : ℕ)
        → object x ≡ true
        → Constant (kind (m.store.word x))
        → Fixed is_cell (constant_words (m.store.word x)) (x + 1)

-- An object that is for other functions: an object variable, a quantified term, a substitution, or
-- a variable with extra information.
abbrev pub Foreign : (ℕ → Bool) → (ℕ → ℕ) → Type 0
Foreign object w = (x : ℕ) × (object x ≡ true) × (unify_class (w x) ≡ UnifyClass.other)

module _ (object : ℕ → Bool) where
  -- The tree of each object is made of the trees of the objects that it points to, and a bound
  -- variable has the tree of what it is bound to.
  pub record Solves (σ : ℕ → Tree) (w : ℕ → ℕ) : Type 0 where
    pub references : (x : ℕ) → object x ≡ true → is_reference (w x) ≡ true → σ x ≡ σ (w (x + 1))
    pub structures :
        (x : ℕ)
        → object x ≡ true
        → kind (w x) ≡ structure
        → σ x ≡ compound (σ (w (x + 1))) (values σ (get_arity (w x)) w (x + 2))
    pub lists :
        (x : ℕ) → object x ≡ true → kind (w x) ≡ cons → σ x ≡ pair (σ (w (x + 1))) (σ (w (x + 2)))
    pub atoms : (x : ℕ) → object x ≡ true → kind (w x) ≡ atom → σ x ≡ symbol x
    pub constants :
        (x : ℕ)
        → object x ≡ true
        → Constant (kind (w x))
        → σ x ≡ constant (w x) (words (constant_words (w x)) w (x + 1))
