-- ===== src/Dynamic/Chain.antt =====
-- `CodeBlock`, `LinkedClause` and `ChainEnds` of src/dynamic_code.h. Blocks are numbered, and
-- shared by the chains; a chain is the list of the blocks from `firstPtr` to `lastPtr`, and a
-- pointer to a linked clause is the rest of its chain from there.
use qu_prolog.Base.{ℕ, ◌-◌, ◌^◌, ◌&&◌, ◌∷◌, ◌++◌, Bool, List, [], ltb, leb, if◌then◌else◌}

pub record Block : Type 0 where
  pub created : ℕ
  pub deleted : ℕ
  pub code : ℕ

-- `WORD32_MAX`
abbrev pub never : ℕ
never = 2 ^ 32 - 1

unfoldable pub set_delete : ℕ → Block → Block
set_delete time b = record b { deleted = time }

unfoldable pub is_alive : ℕ → Block → Bool
is_alive time b = leb b.created time && ltb time b.deleted

unfoldable pub to_delete : ℕ → Block → Bool
to_delete time b = leb b.deleted time

abbrev pub Chain : Type 0
Chain = List ℕ

unfoldable pub add_to_chain_start : ℕ → Chain → Chain
add_to_chain_start b c = b ∷ c

unfoldable pub add_to_chain_end : ℕ → Chain → Chain
add_to_chain_end b c = c ++ b ∷ []

-- `asserta` chooses the end.
unfoldable pub add_to_chain : Bool → ℕ → Chain → Chain
unfolding add_to_chain_start add_to_chain_end
add_to_chain asserta b c = if asserta then add_to_chain_start b c else add_to_chain_end b c

module _ (blocks : ℕ → Block) where
  -- The first loop of `gcChain` unlinks the clauses to delete at the start of the chain, and the
  -- second those further on.
  unfoldable pub gc_chain : ℕ → Chain → Chain
  unfolding to_delete
  gc_chain time [] = []
  gc_chain time (b ∷ c) =
      let rest = gc_chain time c in if to_delete time (blocks b) then rest else b ∷ rest

  unfoldable pub next_alive : ℕ → Chain → Chain
  unfolding is_alive
  next_alive time [] = []
  next_alive time (b ∷ c) =
      let rest = next_alive time c in if is_alive time (blocks b) then b ∷ c else rest

  unfoldable pub next_next_alive : ℕ → Chain → Chain
  unfolding next_alive
  next_next_alive time [] = []
  next_next_alive time (b ∷ c) = next_alive time c
