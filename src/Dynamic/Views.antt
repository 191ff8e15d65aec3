-- ===== src/Dynamic/Views.antt =====
-- What a call of a dynamic predicate sees while clauses are asserted and retracted
-- (src/dyn_code.cc): the clauses alive at the time of the call.
use qu_prolog.Base.{
  ℕ, zero, suc, ◌≤◌, ◌≡◌, refl, sym, ap, ◌∙◌, [], ◌∷◌, none, some, arith, inl, inr, Bool-cases,
  if◌then◌else◌, length,
}
use qu_prolog.Dynamic.Key.{Index}
use qu_prolog.Dynamic.Chain.{Block, Chain, is_alive, next_alive, next_next_alive}
use qu_prolog.Dynamic.Predicate.{
  DynamicPredicate, acquire, look_up_clause_chain, psi_get_first_clause, psi_get_next_clause,
}

-- The clauses of a chain that are alive at a time.
unfoldable pub alive_in : (ℕ → Block) → ℕ → Chain → Chain
alive_in blocks time [] = []
alive_in blocks time (b ∷ c) =
    let rest = alive_in blocks time c in if is_alive time (blocks b) then b ∷ rest else rest

-- The clauses that a call sees.
unfoldable pub view : Index → ℕ → DynamicPredicate → Chain
unfolding alive_in
view arg time p = alive_in p.blocks time (look_up_clause_chain arg p)

-- The clauses that `psi_get_first_clause` and then `psi_get_next_clause` give, each from the
-- clause before; at most `n`.
unfoldable pub visit : ℕ → ℕ → Chain → DynamicPredicate → Chain
unfolding psi_get_next_clause
visit n time [] p = []
visit zero time (b ∷ c) p = []
visit (suc n) time (b ∷ c) p = b ∷ elim (psi_get_next_clause time (b ∷ c) p) [
  | none ↦ []
  | some (next, more) ↦ visit n time next p
]

unfoldable pub answers : Index → ℕ → DynamicPredicate → Chain
unfolding psi_get_first_clause visit
answers arg time p = elim (psi_get_first_clause arg time p) [
  | none ↦ []
  | some (clause, more, q) ↦ visit (length (look_up_clause_chain arg p)) time clause q
]

visit-suc :
    (n time b : ℕ) (c : Chain) (p : DynamicPredicate)
    → visit (suc n) time (b ∷ c) p ≡ b ∷ visit n time (next_alive p.blocks time c) p
unfolding visit psi_get_next_clause next_next_alive
visit-suc n time b c p = go (next_alive p.blocks time c) refl
  where
    go :
        (d : Chain)
        → next_alive p.blocks time c ≡ d
        → visit (suc n) time (b ∷ c) p ≡ b ∷ visit n time d p
    go [] e = rw (e, psi_get_next_clause) refl
    go (x ∷ d) e = rw (e, psi_get_next_clause) refl

visit-next_alive :
    (n time : ℕ) (c : Chain) (p : DynamicPredicate)
    → length c ≤ n
    → visit n time (next_alive p.blocks time c) p ≡ alive_in p.blocks time c
unfolding visit next_alive alive_in
visit-next_alive n time [] p h = refl
visit-next_alive zero time (b ∷ c) p h = absurd (omega arith)
visit-next_alive (suc n) time (b ∷ c) p h = elim (Bool-cases (is_alive time (p.blocks b))) [
  | inl e ↦
      rw e (visit-suc n time b c p ∙ ap (λ d. b ∷ d) (visit-next_alive n time c p (omega arith)))
  | inr e ↦ rw e (visit-next_alive (suc n) time c p (omega arith))
]

-- Asking for the first clause of a call and then for the next ones gives the clauses that the call
-- sees, each once and in their order.
pub answers-view :
    (arg : Index) (time : ℕ) (p : DynamicPredicate) → answers arg time p ≡ view arg time p
unfolding answers view psi_get_first_clause acquire
answers-view arg time p = go (next_alive p.blocks time c) refl
  where
    c : Chain
    c = look_up_clause_chain arg p

    go : (d : Chain) → next_alive p.blocks time c ≡ d → answers arg time p ≡ view arg time p
    go [] e =
        rw (e, answers)
          (ap (λ d. visit (length c) time d p) (sym e)
            ∙ visit-next_alive (length c) time c p (omega arith))
    go (b ∷ d) e =
        rw (e, answers)
          (ap (λ d. visit (length c) time d (acquire p)) (sym e)
            ∙ visit-next_alive (length c) time c (acquire p) (omega arith))
