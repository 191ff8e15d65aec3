-- ===== src/Dynamic/Represents.antt =====
-- The clauses of a dynamic predicate as one list, and how the chains of src/dynamic_code.h stand
-- for it.
use qu_prolog.Base.{
  ℕ, ◌≡◌, ◌||◌, ◌∷◌, ◌++◌, refl, ◌∙◌, Bool, true, false, List, [], none, arith, if◌then◌else◌, ◌==◌,
}
use mathlib.Core.List.{append-nil}
use qu_prolog.Dynamic.Key.{Key, is_empty, same_key}
use qu_prolog.Dynamic.Chain.{
  Block, Chain, add_to_chain, add_to_chain_start, add_to_chain_end, gc_chain, to_delete,
}
use qu_prolog.Dynamic.Predicate.{DynamicPredicate, search_entry}

-- The clauses in their order, each with its key.
abbrev pub Clauses : Type 0
Clauses = List (Key × ℕ)

-- Whether a clause with the key `l` may match a call with the key `k`.
abbrev pub fits : Key → Key → Bool
fits k l = is_empty l || same_key k l

module _ (accept : Key → Bool) where
  unfoldable pub blocks_of : Clauses → Chain
  blocks_of [] = []
  blocks_of ((k, b) ∷ cs) = let rest = blocks_of cs in if accept k then b ∷ rest else rest

  blocks_of-append : (cs ds : Clauses) → blocks_of (cs ++ ds) ≡ blocks_of cs ++ blocks_of ds
  unfolding blocks_of
  blocks_of-append [] ds = refl
  blocks_of-append ((k, b) ∷ cs) ds = ground (arith, blocks_of-append cs ds)

abbrev pub everything : Key → Bool
everything k = true

-- The clauses with a new one, at the end that `asserta` chooses.
unfoldable pub add : Bool → Key × ℕ → Clauses → Clauses
add asserta c cs = if asserta then c ∷ cs else cs ++ c ∷ []

pub blocks_of-add :
    (accept : Key → Bool) (asserta : Bool) (k : Key) (b : ℕ) (cs : Clauses)
    → blocks_of accept (add asserta (k, b) cs)
      ≡ (if accept k then add_to_chain asserta b (blocks_of accept cs) else blocks_of accept cs)
unfolding add blocks_of add_to_chain add_to_chain_start add_to_chain_end
blocks_of-add accept true k b cs = refl
blocks_of-add accept false k b cs =
    ground (arith, blocks_of-append accept cs ((k, b) ∷ []), append-nil (blocks_of accept cs))

module _ (accept : Key → Bool) (asserta : Bool) (k : Key) (b : ℕ) (cs : Clauses) where
  pub blocks_of-add_yes :
      accept k ≡ true
      → blocks_of accept (add asserta (k, b) cs) ≡ add_to_chain asserta b (blocks_of accept cs)
  blocks_of-add_yes h = blocks_of-add accept asserta k b cs ∙ rw h refl

  pub blocks_of-add_no :
      accept k ≡ false → blocks_of accept (add asserta (k, b) cs) ≡ blocks_of accept cs
  blocks_of-add_no h = blocks_of-add accept asserta k b cs ∙ rw h refl

-- The clauses that are not to be deleted.
unfoldable pub remaining : (ℕ → Block) → ℕ → Clauses → Clauses
remaining blocks time [] = []
remaining blocks time ((k, b) ∷ cs) =
    let rest = remaining blocks time cs in if to_delete time (blocks b) then rest else (k, b) ∷ rest

pub blocks_of-remaining :
    (accept : Key → Bool) (blocks : ℕ → Block) (time : ℕ) (cs : Clauses)
    → blocks_of accept (remaining blocks time cs) ≡ gc_chain blocks time (blocks_of accept cs)
unfolding blocks_of remaining gc_chain
blocks_of-remaining accept blocks time [] = refl
blocks_of-remaining accept blocks time ((k, b) ∷ cs) =
    ground (arith, blocks_of-remaining accept blocks time cs)

-- The entries have different keys, none of them empty, and each has the clauses that fit it.
unfoldable pub Sound : Clauses → List (Key × Chain) → Type 0
Sound cs [] = Unit
Sound cs ((k, c) ∷ es) =
    (is_empty k ≡ false) × (c ≡ blocks_of (fits k) cs) × (search_entry k es ≡ none) × Sound cs es

-- The chains stand for the clauses.
pub record Represents (cs : Clauses) (p : DynamicPredicate) : Type 0 where
  pub all : p.all_chain ≡ blocks_of everything cs
  pub vars : (p.clause_arity == 0) ≡ false → p.var_chain ≡ blocks_of is_empty cs
  pub entries : (p.clause_arity == 0) ≡ false → Sound cs p.indexed_clauses
  pub missing :
      (p.clause_arity == 0) ≡ false
      → (k : Key) → search_entry k p.indexed_clauses ≡ none
      → blocks_of (fits k) cs ≡ blocks_of is_empty cs

-- It does not depend on the stamps, the blocks and the holders.
pub same_chains :
    {cs : Clauses} {p : DynamicPredicate} (refcount stamp assert_stamp retract_stamp next_block : ℕ)
    (dirty : Bool) (blocks : ℕ → Block)
    → Represents cs p
    → Represents cs (record p {
      dirty = dirty;
      refcount = refcount;
      stamp = stamp;
      assert_stamp = assert_stamp;
      retract_stamp = retract_stamp;
      blocks = blocks;
      next_block = next_block;
    })
same_chains refcount stamp assert_stamp retract_stamp next_block dirty blocks r = record {
  all = r.all;
  vars = r.vars;
  entries = r.entries;
  missing = r.missing;
}
