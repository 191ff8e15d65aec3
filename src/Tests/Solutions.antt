-- ===== src/Tests/Solutions.antt =====
-- The layout of two lists with variables in memory, and solutions of it (src/unify.cc).
use qu_prolog.Base.{
  suc, ℕ, ◌+◌, ◌≤◌, ◌≡◌, ◌≢◌, refl, true, false, [], ◌∷◌, arith, ◌==◌, if◌then◌else◌,
}
use qu_prolog.Unify.Object.{
  Kind, UnifyClass, kind, unify_class, is_reference, get_arity, is_occurs_checked, constant_words,
}
use qu_prolog.Unify.Solution.{
  unknown, Tree, symbol, constant, compound, pair, values, words, Constant, Agree, Pointers, Fixed,
  Layout, Solves,
}
use qu_prolog.Unify.Chains.{Links, end, Chains}
use qu_prolog.Unify.Measure
use qu_prolog.Unify.Progress.{State}
use qu_prolog.Tests.Lists.{memory, all_code, start, members, object, is_cell, each}

pub start-Layout : Layout object is_cell start
unfolding all_code
start-Layout = record {
  tags = each (λ x. is_cell x ≡ false) members (refl, (refl, (refl, (refl, (refl, (refl, tt))))));
  classes =
      each (λ x. Agree (kind (memory x)) (unify_class (memory x))) members
        (tt, (tt, (tt, (tt, (tt, (tt, tt))))));
  references =
      each
        (λ x.
          is_reference (memory x) ≡ true
          → (8 ≤ x) × (is_cell (x + 1) ≡ true) × (object (memory (x + 1)) ≡ true))
        members
        (
          (λ r. (omega arith, refl, refl)),
          (
            (λ r. (omega arith, refl, refl)),
            ((λ r. cc), ((λ r. cc), ((λ r. cc), ((λ r. cc), tt)))),
          ),
        );
  structures =
      each
        (λ x.
          kind (memory x) ≡ Kind.structure
          → Pointers object is_cell memory (suc (get_arity (memory x))) (x + 1))
        members ((λ k. cc), ((λ k. cc), ((λ k. cc), ((λ k. cc), ((λ k. cc), ((λ k. cc), tt))))));
  lists =
      each (λ x. kind (memory x) ≡ Kind.cons → Pointers object is_cell memory 2 (x + 1)) members
        (
          (λ k. cc),
          (
            (λ k. cc),
            (
              (λ k. (refl, refl, (refl, refl, tt))),
              (
                (λ k. (refl, refl, (refl, refl, tt))),
                ((λ k. (refl, refl, (refl, refl, tt))), ((λ k. cc), tt)),
              ),
            ),
          ),
        );
  constants =
      each (λ x. Constant (kind (memory x)) → Fixed is_cell (constant_words (memory x)) (x + 1))
        members
        (
          (λ c. absurd c),
          (
            (λ c. absurd c),
            ((λ c. absurd c), ((λ c. absurd c), ((λ c. absurd c), ((λ c. absurd c), tt)))),
          ),
        );
}

pub start-Chained : Chains object memory
unfolding all_code
start-Chained =
    each (λ x. (t : ℕ) × Links memory x t) members
      (
        (10, end {x = 10} refl (λ r. refl)),
        (
          (12, end {x = 12} refl (λ r. refl)),
          (
            (14, end {x = 14} refl (λ r. cc)),
            (
              (17, end {x = 17} refl (λ r. cc)),
              ((20, end {x = 20} refl (λ r. cc)), ((100, end {x = 100} refl (λ r. cc)), tt)),
            ),
          ),
        ),
      )

-- The unifier of the two lists.
abbrev pub unifier : ℕ → Tree
unifier x =
    let a = symbol 100 in
    if x == 10
    then a
    else if x == 12
    then pair a a
    else if x == 20
    then pair a a
    else if x == 100
    then a
    else pair (pair a a) a

-- A solution of memory in which X and Y are other terms.
abbrev pub apart : ℕ → Tree
apart x =
    let a = symbol 100 in
    if x == 10
    then a
    else if x == 12
    then a
    else if x == 14
    then pair a a
    else if x == 20
    then pair a a
    else if x == 100
    then a
    else pair (pair a a) a

pub solves :
    (σ : ℕ → Tree)
    → σ 14 ≡ pair (σ 12) (σ 10)
    → σ 17 ≡ pair (σ 20) (σ 100)
    → σ 20 ≡ pair (σ 100) (σ 100)
    → σ 100 ≡ symbol 100
    → Solves object σ memory
unfolding all_code
solves σ p q r a = record {
  references =
      each (λ x. is_reference (memory x) ≡ true → σ x ≡ σ (memory (x + 1))) members
        ((λ r. refl), ((λ r. refl), ((λ r. cc), ((λ r. cc), ((λ r. cc), ((λ r. cc), tt))))));
  structures =
      each
        (λ x.
          kind (memory x) ≡ Kind.structure
          → σ x ≡ compound (σ (memory (x + 1))) (values σ (get_arity (memory x)) memory (x + 2)))
        members ((λ k. cc), ((λ k. cc), ((λ k. cc), ((λ k. cc), ((λ k. cc), ((λ k. cc), tt))))));
  lists =
      each (λ x. kind (memory x) ≡ Kind.cons → σ x ≡ pair (σ (memory (x + 1))) (σ (memory (x + 2))))
        members ((λ k. cc), ((λ k. cc), ((λ k. p), ((λ k. q), ((λ k. r), ((λ k. cc), tt))))));
  atoms =
      each (λ x. kind (memory x) ≡ Kind.atom → σ x ≡ symbol x) members
        ((λ k. cc), ((λ k. cc), ((λ k. cc), ((λ k. cc), ((λ k. cc), ((λ k. a), tt))))));
  constants =
      each
        (λ x.
          Constant (kind (memory x))
          → σ x ≡ constant (memory x) (words (constant_words (memory x)) memory (x + 1)))
        members
        (
          (λ c. absurd c),
          (
            (λ c. absurd c),
            ((λ c. absurd c), ((λ c. absurd c), ((λ c. absurd c), ((λ c. absurd c), tt)))),
          ),
        );
}

abbrev pub generic : ℕ → Tree
generic x =
    let a = symbol 100 in
    if x == 10
    then unknown 10
    else if x == 12
    then unknown 12
    else if x == 14
    then pair (unknown 12) (unknown 10)
    else if x == 20
    then pair a a
    else if x == 100
    then a
    else pair (pair a a) a

pub start-State : State object is_cell (10 ∷ 12 ∷ []) generic start
unfolding all_code
start-State = record {
  layout = start-Layout;
  chains = start-Chained;
  generic = record {
    solves = solves generic refl refl refl refl;
    unbound =
        each (λ x. is_reference (memory x) ≡ true → memory (x + 1) ≡ x → generic x ≡ unknown x)
          members
          (
            (λ r e. refl),
            ((λ r e. refl), ((λ r e. cc), ((λ r e. cc), ((λ r e. cc), ((λ r e. cc), tt))))),
          );
  };
  occurs_checked =
      each
        (λ x.
          kind (memory x) ≡ Kind.variable
          → (unify_class (memory x) ≢ UnifyClass.var) × (is_occurs_checked (memory x) ≡ true))
        members
        (
          (λ k. ((λ e. cc), refl)),
          ((λ k. ((λ e. cc), refl)), ((λ k. cc), ((λ k. cc), ((λ k. cc), ((λ k. cc), tt))))),
        );
  listed =
      each (λ x. is_reference (memory x) ≡ true → Measure.member (10 ∷ 12 ∷ []) x ≡ true) members
        ((λ r. refl), ((λ r. refl), ((λ r. cc), ((λ r. cc), ((λ r. cc), ((λ r. cc), tt))))));
}
