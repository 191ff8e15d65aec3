-- ===== src/Unify.antt =====
-- Unification of terms in memory: `Thread::unify` of src/unify.cc.
pub mod Object
pub mod Check
pub mod Solution
mod Frame
pub mod Correct
mod Rules
mod Reads
mod Inside
mod Foreign
mod Shape
mod Answers
mod Table
mod Cases
pub mod Chains
mod Settles
mod Checked
mod Parts
mod Total
pub mod Generic
mod Outside
pub mod Measure
pub mod Progress
mod Descent
mod Decide
pub mod Decision
pub mod Success
pub mod Unifier
use qu_prolog.Base.{
  ℕ, zero, suc, ◌+◌, Bool, true, false, ◌&&◌, Option, none, some, ◌==◌, if◌then◌else◌,
}
use qu_prolog.Machine.{Machine, bind_and_trail, bind_var_var}
use qu_prolog.Unify.Object.{
  UnifyClass, var, var_oc, number, structure, cons, other, is_substitution, unify_class, get_arity,
  is_occurs_checked, variable_dereference, equal_uninterp,
}
use qu_prolog.Unify.Check.{Occurrence, occurs_check}

-- `beyond`: the answer is that of the functions for object variables, quantified terms,
-- substitutions and variables with extra information. `overflow`: the trail is full.
-- `no_fuel`: the fuel is too small.
pub data Outcome : Type 0 where
  done : Bool → Machine → Outcome
  beyond overflow no_fuel : Outcome

-- What the switch on the two classes does.
pub data Action : Type 0 where
  answer : Bool → Action
  -- `bindAndTrail(v, t)`, with the variable first
  bind : ℕ → ℕ → Action
  -- `bindVarVar`
  bind_both : ℕ → ℕ → Action
  -- `unifyVarOCTerm`, with the variable first
  bind_checked : ℕ → ℕ → Action
  compare_constants unify_structures unify_lists leave : Action

unfoldable pub action : UnifyClass → UnifyClass → ℕ → ℕ → Action
action var var t1 t2 = bind_both t1 t2
action var _ t1 t2 = bind t1 t2
action var_oc var t1 t2 = bind t2 t1
action var_oc var_oc t1 t2 = bind_both t1 t2
action var_oc structure t1 t2 = bind_checked t1 t2
action var_oc cons t1 t2 = bind_checked t1 t2
action var_oc other t1 t2 = leave
action var_oc _ t1 t2 = bind t1 t2
action number var t1 t2 = bind t2 t1
action number var_oc t1 t2 = bind t2 t1
action number number t1 t2 = compare_constants
action number other t1 t2 = leave
action number _ t1 t2 = answer false
action UnifyClass.atom var t1 t2 = bind t2 t1
action UnifyClass.atom var_oc t1 t2 = bind t2 t1
action UnifyClass.atom other t1 t2 = leave
action UnifyClass.atom _ t1 t2 = answer false
action UnifyClass.string var t1 t2 = bind t2 t1
action UnifyClass.string var_oc t1 t2 = bind t2 t1
action UnifyClass.string UnifyClass.string t1 t2 = compare_constants
action UnifyClass.string other t1 t2 = leave
action UnifyClass.string _ t1 t2 = answer false
action structure var t1 t2 = bind t2 t1
action structure var_oc t1 t2 = bind_checked t2 t1
action structure structure t1 t2 = unify_structures
action structure other t1 t2 = leave
action structure _ t1 t2 = answer false
action cons var t1 t2 = bind t2 t1
action cons var_oc t1 t2 = bind_checked t2 t1
action cons cons t1 t2 = unify_lists
action cons other t1 t2 = leave
action cons _ t1 t2 = answer false
action other var t1 t2 = bind t2 t1
action other _ t1 t2 = leave

unfoldable pub bound : Option Machine → Outcome
bound none = overflow
bound (some m) = done true m

-- `unify(...) && ...`
unfoldable pub then_unify : Outcome → (Machine → Outcome) → Outcome
then_unify (done true m) k = k m
then_unify o k = o

-- The loop over the arguments.
unfoldable pub unify_arguments : (Machine → ℕ → ℕ → Outcome) → ℕ → Machine → ℕ → ℕ → Outcome
unfolding then_unify
unify_arguments u zero m a b = done true m
unify_arguments u (suc n) m a b =
    let w = m.store.word in
    then_unify (u m (w a) (w b)) (λ m'. unify_arguments u n m' (a + 1) (b + 1))

-- `occursCheck` and what follows it in `unifyVarOCTerm`, for a structure or a list. The term is
-- not a variable, so that `bindVariables` is not reached. The first argument is
-- `status.testOccursCheck()`.
unfoldable pub bind_with_check : Bool → ℕ → Machine → ℕ → ℕ → Outcome
bind_with_check checks fuel m v t =
    if is_occurs_checked (m.store.word v) && checks
    then elim (occurs_check fuel m.store.word v t) [
      | Occurrence.absent ↦ bound (bind_and_trail v t m)
      | Occurrence.present ↦ done false m
      | Occurrence.beyond ↦ beyond
      | Occurrence.exhausted ↦ no_fuel
    ]
    else bound (bind_and_trail v t m)

-- The cases of the switch. `u` is the recursive call.
unfoldable pub carry_out :
    Bool → ℕ → (Machine → ℕ → ℕ → Outcome) → Machine → ℕ → ℕ → Action → Outcome
carry_out checks fuel u m t1 t2 (answer b) = done b m
carry_out checks fuel u m t1 t2 (bind v t) = bound (bind_and_trail v t m)
carry_out checks fuel u m t1 t2 (bind_both v1 v2) = bound (bind_var_var v1 v2 m)
carry_out checks fuel u m t1 t2 (bind_checked v t) = bind_with_check checks fuel m v t
carry_out checks fuel u m t1 t2 compare_constants = done (equal_uninterp m.store.word t1 t2) m
carry_out checks fuel u m t1 t2 unify_structures =
    let w = m.store.word in
    if get_arity (w t1) == get_arity (w t2)
    then then_unify
        (if w (t1 + 1) == w (t2 + 1) then done true m else u m (w (t1 + 1)) (w (t2 + 1)))
        (λ m'. unify_arguments u (get_arity (w t1)) m' (t1 + 2) (t2 + 2))
    else done false m
carry_out checks fuel u m t1 t2 unify_lists =
    let w = m.store.word in
    then_unify (u m (w (t1 + 1)) (w (t2 + 1)))
      (λ m'. u m' (m'.store.word (t1 + 2)) (m'.store.word (t2 + 2)))
carry_out checks fuel u m t1 t2 leave = beyond

-- After both terms are dereferenced. A substitution would be evaluated by `subDereference`.
unfoldable pub unify_objects : Bool → ℕ → (Machine → ℕ → ℕ → Outcome) → Machine → ℕ → ℕ → Outcome
unify_objects checks fuel u m t1 t2 =
    let w = m.store.word in
    if is_substitution (w t1)
    then beyond
    else if is_substitution (w t2)
    then beyond
    else if t1 == t2
    then done true m
    else carry_out checks fuel u m t1 t2 (action (unify_class (w t1)) (unify_class (w t2)) t1 t2)

-- The fuel bounds the depth of the calls and the length of each chain of references.
unfoldable pub unify : Bool → ℕ → Machine → ℕ → ℕ → Outcome
unify checks zero m term1 term2 = no_fuel
unify checks (suc fuel) m term1 term2 = elim (variable_dereference fuel m.store.word term1) [
  | none ↦ no_fuel
  | some t1 ↦ elim (variable_dereference fuel m.store.word term2) [
    | none ↦ no_fuel
    | some t2 ↦ unify_objects checks fuel (unify checks fuel) m t1 t2
  ]
]
