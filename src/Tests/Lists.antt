-- ===== src/Tests/Lists.antt =====
-- Lists with variables in memory, and runs of unification on them (src/unify.cc).
use qu_prolog.Base.{
  ℕ, ◌≡◌, refl, subst, Bool, true, false, List, [], ◌∷◌, inl, inr, arith, update, ◌==◌, ==_iff,
  if◌then◌else◌, Bool-cases,
}
use qu_prolog.Trail.Entry.{Store}
use qu_prolog.Trail.Binding
use qu_prolog.Trail.Binding.{BindingTrail}
use qu_prolog.Machine.{
  push_binding, then_write, write, Machine, bind_and_trail, bind_var_var, backtrack_to,
  save_heap_and_trails,
}
use qu_prolog.Machine.Steps.{new_choice}
use qu_prolog.Unify.{
  done, unify, unify_objects, carry_out, action, bound, then_unify, unify_arguments,
  bind_with_check,
}
use qu_prolog.Unify.Object.{
  kind, kind_of, unify_class, class_of, is_reference, get_arity, is_substitution, is_occurs_checked,
  constant_words, variable_dereference, equal_words, equal_uninterp,
}
use qu_prolog.Unify.Check.{then_check, occurs_words, occurs_object, occurs_check}

abbrev at : List (ℕ × ℕ) → ℕ → ℕ
at [] a = 0
at ((b, x) ∷ l) a = if a == b then x else at l a

-- The variables X at 10 and Y at 12, with the occurs check on; the lists [Y|X] at 14, [[a|a]|a]
-- at 17 and [a|a] at 20; the atom a at 100.
abbrev pub memory : ℕ → ℕ
memory = at (
    (10, 259)
    ∷ (11, 10)
    ∷ (12, 259)
    ∷ (13, 12)
    ∷ (14, 109)
    ∷ (15, 12)
    ∷ (16, 10)
    ∷ (17, 109)
    ∷ (18, 20)
    ∷ (19, 100)
    ∷ (20, 109)
    ∷ (21, 100)
    ∷ (22, 100)
    ∷ (100, 71)
    ∷ [])

abbrev pub thread : Machine
thread = record {
  base = 8;
  next = 30;
  top = 1000;
  highwater = 30;
  saved_top = 8;
  store = record {
    word = memory;
    predicate = λ p. record { refcount = 0; dirty = false; collections = 0 };
    cleanup = λ t. 0;
  };
  binding_trail = record { low = 2000; high = 3000; top = 3000; low_water = 3000; entries = [] };
  other_trail = record { low = 4000; high = 5000; top = 5000; low_water = 5000; entries = [] };
  quick_tidy_check = true;
  current = record { heap_top = 8; binding_trail_top = 3000; other_trail_top = 5000 };
}

unfoldable pub all_code : Unit {0}
unfolding save_heap_and_trails push_binding then_write write bind_and_trail bind_var_var
    backtrack_to unify unify_objects carry_out action bound then_unify unify_arguments
    bind_with_check kind kind_of unify_class class_of is_reference get_arity is_substitution
    is_occurs_checked constant_words variable_dereference equal_words equal_uninterp then_check
    occurs_words occurs_object occurs_check Binding.push
all_code = tt

abbrev pub start : Machine
unfolding all_code
start = new_choice thread

abbrev pub unified : Machine
unfolding all_code
unified = record start {
  binding_trail = record {
    low = 2000;
    high = 3000;
    top = 2998;
    low_water = 2998;
    entries = 10 ∷ 12 ∷ [];
  };
  store = let s : Store = start.store in record s { word = update (update memory 13 20) 11 100 };
}

pub unify_lists : unify true 5 start 14 17 ≡ done true unified
unfolding all_code
unify_lists = refl

-- Y occurs in [Y|X].
pub unify_occurs : unify true 5 start 12 14 ≡ done false start
unfolding all_code
unify_occurs = refl

unify_differ : unify true 5 start 17 100 ≡ done false start
unfolding all_code
unify_differ = refl

abbrev pub members : List ℕ
members = 10 ∷ 12 ∷ 14 ∷ 17 ∷ 20 ∷ 100 ∷ []

abbrev member : List ℕ → ℕ → Bool
member [] x = false
member (y ∷ ys) x = if y == x then true else member ys x

abbrev pub object : ℕ → Bool
object = member members

abbrev pub is_cell : ℕ → Bool
is_cell a = if a == 11 then true else a == 13

abbrev All : (ℕ → Type 0) → List ℕ → Type 0
All P [] = Unit
All P (x ∷ xs) = P x × All P xs

pub each : (P : ℕ → Type 0) (xs : List ℕ) → All P xs → (x : ℕ) → member xs x ≡ true → P x
each P [] a x h = cc
each P (y ∷ ys) a x h = elim (Bool-cases (y == x)) [
  | inl same ↦ subst P ((==_iff y x).0 same) a.0
  | inr other ↦ each P ys a.1 x (ground arith)
]
