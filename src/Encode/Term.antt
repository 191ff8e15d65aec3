-- ===== src/Encode/Term.antt =====
-- Terms as src/encode.cc meets them: each node is what `variableDereference` gives.
use qu_prolog.Base.{ℕ, suc, ◌&&◌, Bool, true, false, List, [], ◌∷◌, ◌==◌, if◌then◌else◌}
use qu_prolog.Base.Int.{ℤ}

-- A byte is a number below 256.
abbrev pub Bytes : Type 0
Bytes = List ℕ

mutual
  -- A variable is known by its address, an atom by its name. A double is its eight bytes.
  pub data Term : Type 0 where
    var : ℕ → Term
    obj_var : ℕ → Term
    cons : Term → Term → Term
    struct : Term → Terms → Term
    quant : Term → Term → Term → Term
    integer : ℤ → Term
    double : Bytes → Term
    atom : Bytes → Term
    string : Bytes → Term
    subst_term : Blocks → Term → Term

  pub data Terms : Type 0 where
    no_terms : Terms
    then_term : Term → Terms → Terms

  -- A list of substitution blocks, its head first, each with its flag `Invertible`.
  pub data Blocks : Type 0 where
    no_blocks : Blocks
    then_block : Bool → Pairs → Blocks → Blocks

  -- The domain and the range of each entry of a block.
  pub data Pairs : Type 0 where
    no_pairs : Pairs
    then_pair : Term → Term → Pairs → Pairs

unfoldable pub arity : Terms → ℕ
arity no_terms = 0
arity (then_term t ts) = suc (arity ts)

unfoldable pub size : Pairs → ℕ
size no_pairs = 0
size (then_pair d r ps) = suc (size ps)

unfoldable pub same_bytes : Bytes → Bytes → Bool
same_bytes [] [] = true
same_bytes (x ∷ xs) (y ∷ ys) = let rest = same_bytes xs ys in x == y && rest
same_bytes _ _ = false

-- `$int64`
abbrev pub int64 : Bytes
int64 = 36 ∷ 105 ∷ 110 ∷ 116 ∷ 54 ∷ 52 ∷ []

unfoldable pub is_int64 : Term → Bool
unfolding same_bytes
is_int64 (atom n) = same_bytes n int64
is_int64 _ = false

-- The variable of an element of a list of bound variables, which may be a pair of one and a term.
unfoldable pub bound_variable : Term → Term
bound_variable (struct f (then_term t ts)) = t
bound_variable t = t

-- `distinctBoundList` on a list of object variables: the addresses, the newest first.
unfoldable pub distinct_bound_list : ℕ → List ℕ → Bool
distinct_bound_list v [] = true
distinct_bound_list v (w ∷ ws) =
    let rest = distinct_bound_list v ws in if v == w then false else rest

-- `checkBinder`, without the constraints that it imposes.
unfoldable pub check_binder : Term → List ℕ → Bool
unfolding bound_variable distinct_bound_list
check_binder (cons h t) so_far = elim (bound_variable h) [
  | obj_var v ↦ let rest = check_binder t (v ∷ so_far) in distinct_bound_list v so_far && rest
  | _ ↦ false
]
check_binder t so_far = true
