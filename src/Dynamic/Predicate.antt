-- ===== src/Dynamic/Predicate.antt =====
-- `DynamicPredicate` of src/dynamic_code.h and src/dynamic_code.cc, and the pseudo instructions of
-- src/dyn_code.cc that change or search one. The hash table of chains is the list of its entries.
use qu_prolog.Base.{
  ℕ, ◌+◌, ◌%◌, ◌^◌, ◌-◌, ◌&&◌, ◌∷◌, Bool, true, false, List, [], Option, none, some, ◌==◌,
  if◌then◌else◌, update,
}
use qu_prolog.Base.Int.{word32}
use qu_prolog.Dynamic.Key.{Index, Key, make_entry, is_empty, same_key}
use qu_prolog.Dynamic.Chain.{
  Block, never, set_delete, Chain, add_to_chain, gc_chain, next_alive, next_next_alive,
}

pub record DynamicPredicate : Type 0 where
  pub clause_arity : ℕ
  pub indexed_arg : ℕ
  pub dirty : Bool
  pub refcount : ℕ
  pub all_chain : Chain
  pub var_chain : Chain
  pub indexed_clauses : List (Key × Chain)
  pub stamp : ℕ
  pub assert_stamp : ℕ
  pub retract_stamp : ℕ
  pub blocks : ℕ → Block
  pub next_block : ℕ

-- The number of arguments and the indexed argument are kept in one byte each.
unfoldable pub new_predicate : (ℕ → Block) → ℕ → ℕ → ℕ → DynamicPredicate
new_predicate blocks next arity index = record {
  clause_arity = arity % 2 ^ 8;
  indexed_arg = index % 2 ^ 8;
  dirty = false;
  refcount = 0;
  all_chain = [];
  var_chain = [];
  indexed_clauses = [];
  stamp = 1;
  assert_stamp = 1;
  retract_stamp = 1;
  blocks = blocks;
  next_block = next;
}

-- `indexedClauses.search`, with the chain of the entry.
unfoldable pub search_entry : Key → List (Key × Chain) → Option Chain
unfolding same_key
search_entry k [] = none
search_entry k ((l, c) ∷ es) = if same_key k l then some c else search_entry k es

-- The entry of the key gets the chain, a new entry if there is none.
unfoldable pub set_entry : Key → Chain → List (Key × Chain) → List (Key × Chain)
unfolding same_key
set_entry k c [] = (k, c) ∷ []
set_entry k c ((l, d) ∷ es) = if same_key k l then (l, c) ∷ es else (l, d) ∷ set_entry k c es

unfoldable pub add_to_hashed_chains : Bool → ℕ → List (Key × Chain) → List (Key × Chain)
unfolding add_to_chain
add_to_hashed_chains asserta b [] = []
add_to_hashed_chains asserta b ((k, c) ∷ es) =
    (k, add_to_chain asserta b c) ∷ add_to_hashed_chains asserta b es

-- The chain of an entry to which a clause is added: the clauses of the variable chain, where the
-- entry is new or has no clauses.
unfoldable pub copy_var_clauses : Chain → Option Chain → Chain
copy_var_clauses vars none = vars
copy_var_clauses vars (some []) = vars
copy_var_clauses vars (some (b ∷ c)) = b ∷ c

-- The new clause goes into the chains that its key asks for.
unfoldable pub add_clause : Key → Bool → ℕ → DynamicPredicate → DynamicPredicate
unfolding is_empty add_to_chain add_to_hashed_chains copy_var_clauses set_entry search_entry
add_clause k asserta b p =
    if p.clause_arity == 0
    then record p { all_chain = add_to_chain asserta b p.all_chain }
    else if is_empty k
    then record p {
      all_chain = add_to_chain asserta b p.all_chain;
      var_chain = add_to_chain asserta b p.var_chain;
      indexed_clauses = add_to_hashed_chains asserta b p.indexed_clauses;
    }
    else record p {
      all_chain = add_to_chain asserta b p.all_chain;
      indexed_clauses =
          set_entry k
            (add_to_chain asserta b
              (copy_var_clauses p.var_chain (search_entry k p.indexed_clauses)))
            p.indexed_clauses;
    }

unfoldable pub assert_clause : Index → ℕ → Bool → DynamicPredicate → DynamicPredicate
unfolding add_clause make_entry
assert_clause arg code asserta p =
    let b : Block = record { created = word32 (p.stamp + 1); deleted = never; code = code } in
    add_clause (make_entry arg) asserta p.next_block
      (record p { blocks = update p.blocks p.next_block b; next_block = p.next_block + 1 })

-- `psi_assert`, once the predicate is found or made.
unfoldable pub psi_assert : Index → ℕ → Bool → DynamicPredicate → DynamicPredicate
unfolding assert_clause
psi_assert arg code asserta p =
    let q = assert_clause arg code asserta p in
    record q { stamp = word32 (q.stamp + 1); assert_stamp = word32 (q.assert_stamp + 1) }

unfoldable pub psi_retract : ℕ → DynamicPredicate → DynamicPredicate
unfolding set_delete
psi_retract b p =
    let now = word32 (p.stamp + 1) in
    record p {
      dirty = true;
      stamp = now;
      retract_stamp = word32 (p.retract_stamp + 1);
      blocks = update p.blocks b (set_delete now (p.blocks b));
    }

unfoldable pub gc_entries : (ℕ → Block) → ℕ → List (Key × Chain) → List (Key × Chain)
unfolding gc_chain
gc_entries blocks time [] = []
gc_entries blocks time ((k, c) ∷ es) = (k, gc_chain blocks time c) ∷ gc_entries blocks time es

unfoldable pub gc_predicate : ℕ → DynamicPredicate → DynamicPredicate
unfolding gc_chain gc_entries
gc_predicate time p = record p {
  indexed_clauses = gc_entries p.blocks time p.indexed_clauses;
  var_chain = gc_chain p.blocks time p.var_chain;
  all_chain = gc_chain p.blocks time p.all_chain;
  dirty = false;
}

unfoldable pub acquire : DynamicPredicate → DynamicPredicate
acquire p = record p { refcount = p.refcount + 1 }

unfoldable pub release : DynamicPredicate → DynamicPredicate
unfolding gc_predicate
release p =
    let q = record p { refcount = p.refcount - 1 } in
    if q.refcount == 0 && q.dirty then gc_predicate q.stamp q else q

-- `lookUpClauseChain`, with `lookUp`.
unfoldable pub look_up_clause_chain : Index → DynamicPredicate → Chain
unfolding make_entry is_empty search_entry
look_up_clause_chain arg p =
    let k = make_entry arg in
    if p.clause_arity == 0
    then p.all_chain
    else if is_empty k
    then p.all_chain
    else elim (search_entry k p.indexed_clauses) [ none ↦ p.var_chain | some c ↦ c ]

-- The clause that was found, whether there is another one, and the predicate, which is held.
unfoldable pub psi_get_first_clause :
    Index → ℕ → DynamicPredicate → Option (Chain × Bool × DynamicPredicate)
unfolding next_alive next_next_alive acquire
psi_get_first_clause arg time p = elim (next_alive p.blocks time (look_up_clause_chain arg p)) [
  | [] ↦ none
  | b ∷ c ↦
      some (
        b ∷ c,
        elim (next_next_alive p.blocks time (b ∷ c)) [ [] ↦ false | _ ∷ _ ↦ true ],
        acquire p,
      )
]

unfoldable pub psi_get_next_clause : ℕ → Chain → DynamicPredicate → Option (Chain × Bool)
unfolding next_next_alive
psi_get_next_clause time clause p = elim (next_next_alive p.blocks time clause) [
  | [] ↦ none
  | b ∷ c ↦ some (b ∷ c, elim (next_next_alive p.blocks time (b ∷ c)) [ [] ↦ false | _ ∷ _ ↦ true ])
]
