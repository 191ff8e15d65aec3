-- ===== src/Unify/Cases.antt =====
-- Each case of the switch of `Thread::unify` (src/unify.cc).
use qu_prolog.Base.{ℕ, ◌≡◌, ◌≢◌, ◌⊎◌, sym, Bool, true, false, inl, inr}
use qu_prolog.Machine.{Machine}
use qu_prolog.Unify.{
  Outcome, answer, bind, bind_both, bind_checked, compare_constants, leave, action, carry_out,
}
use qu_prolog.Unify.Object.{
  Kind, UnifyClass, var, var_oc, number, structure, cons, other, kind, unify_class,
}
use qu_prolog.Unify.Solution.{Layout}
use qu_prolog.Unify.Reads.{Ends}
use qu_prolog.Unify.Shape.{
  Variable, Rigid, unbound-Free, structure-kind, list-kind, atom-kind, class-Constant, clash,
}
use qu_prolog.Unify.Correct.{Correct, Free, bind-Correct, bind_both-Correct}
use qu_prolog.Unify.Rules.{Correct-iff}
use qu_prolog.Unify.Answers.{no-Correct, bind_with_check-Correct}
use qu_prolog.Unify.Table.{constants-Correct, lists-Correct, structures-Correct}

module _ (object is_cell : ℕ → Bool) (checks : Bool) where
  abbrev pub Right : (Machine → ℕ → ℕ → Outcome) → Type 0
  Right u =
      (m : Machine) (a b : ℕ)
      → Layout object is_cell m
      → object a ≡ true
      → object b ≡ true
      → Correct object is_cell m (λ σ. σ a ≡ σ b) (u m a b)

  module _ (u : Machine → ℕ → ℕ → Outcome) (right : Right u) (fuel : ℕ) (m : Machine)
      (l : Layout object is_cell m) (t1 t2 : ℕ) (e1 : Ends object m.store.word t1 t1)
      (e2 : Ends object m.store.word t2 t2) where
    abbrev pub ClassAt : ℕ → UnifyClass → Type 0
    ClassAt t c = unify_class (m.store.word t) ≡ c

    -- What the action is to be.
    abbrev pub Unified : Outcome → Type 0
    Unified = Correct object is_cell m (λ σ. σ t1 ≡ σ t2)

    free1 : (c : UnifyClass) → ClassAt t1 c → Variable c → Free object is_cell m t1
    free1 c k v = unbound-Free object is_cell m l t1 e1.is_object c k v e1.unbound

    free2 : (c : UnifyClass) → ClassAt t2 c → Variable c → Free object is_cell m t2
    free2 c k v = unbound-Free object is_cell m l t2 e2.is_object c k v e2.unbound

    bind_first :
        (c : UnifyClass)
        → ClassAt t1 c
        → Variable c
        → Unified (carry_out checks fuel u m t1 t2 (bind t1 t2))
    unfolding carry_out
    bind_first c k v = bind-Correct object is_cell m t1 t2 l (free1 c k v) e2.is_object

    turn : (o : Outcome) → Correct object is_cell m (λ σ. σ t2 ≡ σ t1) o → Unified o
    turn o = Correct-iff object is_cell m (λ σ. σ t2 ≡ σ t1) _ o (λ σ s. ((λ e. sym e), λ e. sym e))

    bind_second :
        (c : UnifyClass)
        → ClassAt t2 c
        → Variable c
        → Unified (carry_out checks fuel u m t1 t2 (bind t2 t1))
    unfolding carry_out
    bind_second c k v = turn _ (bind-Correct object is_cell m t2 t1 l (free2 c k v) e1.is_object)

    bind_variables :
        (c d : UnifyClass)
        → ClassAt t1 c
        → ClassAt t2 d
        → Variable c
        → Variable d
        → Unified (carry_out checks fuel u m t1 t2 (bind_both t1 t2))
    unfolding carry_out
    bind_variables c d k1 k2 v1 v2 =
        bind_both-Correct object is_cell m t1 t2 l (free1 c k1 v1) (free2 d k2 v2)

    differ :
        (c d : UnifyClass)
        → ClassAt t1 c
        → ClassAt t2 d
        → Rigid c
        → Rigid d
        → c ≢ d
        → Unified (carry_out checks fuel u m t1 t2 (answer false))
    unfolding carry_out
    differ c d k1 k2 r1 r2 apart =
        no-Correct object is_cell m l _
          (clash object is_cell m l t1 t2 e1.is_object e2.is_object c d k1 k2 r1 r2 apart)

    leave_first : ClassAt t1 other → Unified (carry_out checks fuel u m t1 t2 leave)
    unfolding carry_out
    leave_first k = (t1, e1.is_object, k)

    leave_second : ClassAt t2 other → Unified (carry_out checks fuel u m t1 t2 leave)
    unfolding carry_out
    leave_second k = (t2, e2.is_object, k)

    atoms :
        ClassAt t1 UnifyClass.atom
        → ClassAt t2 UnifyClass.atom
        → t1 ≢ t2
        → Unified (carry_out checks fuel u m t1 t2 (answer false))
    unfolding carry_out
    atoms k1 k2 apart = no-Correct object is_cell m l _ λ σ s h.
        let a1 = s.atoms t1 e1.is_object (atom-kind object is_cell m l t1 e1.is_object k1) in
        let a2 = s.atoms t2 e2.is_object (atom-kind object is_cell m l t2 e2.is_object k2) in
        apart (cc)

    constants :
        (ClassAt t1 number ⊎ ClassAt t1 UnifyClass.string)
        → (ClassAt t2 number ⊎ ClassAt t2 UnifyClass.string)
        → Unified (carry_out checks fuel u m t1 t2 compare_constants)
    constants k1 k2 =
        constants-Correct object is_cell u right checks fuel m l t1 t2 e1.is_object e2.is_object
          (class-Constant object is_cell m l t1 e1.is_object k1)
          (class-Constant object is_cell m l t2 e2.is_object k2)

    compound_kind :
        (t : ℕ)
        → object t ≡ true
        → ClassAt t structure ⊎ ClassAt t cons
        → (kind (m.store.word t) ≡ Kind.structure) ⊎ (kind (m.store.word t) ≡ Kind.cons)
    compound_kind t o (inl k) = inl (structure-kind object is_cell m l t o k)
    compound_kind t o (inr k) = inr (list-kind object is_cell m l t o k)

    check_first :
        ClassAt t1 var_oc
        → ClassAt t2 structure ⊎ ClassAt t2 cons
        → Unified (carry_out checks fuel u m t1 t2 (bind_checked t1 t2))
    unfolding carry_out
    check_first k1 k2 =
        bind_with_check-Correct object is_cell m l checks fuel t1 t2 (free1 var_oc k1 tt)
          e2.is_object (compound_kind t2 e2.is_object k2)

    check_second :
        ClassAt t2 var_oc
        → ClassAt t1 structure ⊎ ClassAt t1 cons
        → Unified (carry_out checks fuel u m t1 t2 (bind_checked t2 t1))
    unfolding carry_out
    check_second k2 k1 = turn _ (
        bind_with_check-Correct object is_cell m l checks fuel t2 t1 (free2 var_oc k2 tt)
          e1.is_object (compound_kind t1 e1.is_object k1))

    pub action-Correct :
        t1 ≢ t2
        → (c d : UnifyClass) → ClassAt t1 c
        → ClassAt t2 d
        → Unified (carry_out checks fuel u m t1 t2 (action c d t1 t2))
    unfolding action
    action-Correct apart var var k1 k2 = bind_variables var var k1 k2 tt tt
    action-Correct apart var _ k1 k2 = bind_first var k1 tt
    action-Correct apart var_oc var_oc k1 k2 = bind_variables var_oc var_oc k1 k2 tt tt
    action-Correct apart _ var k1 k2 = bind_second var k2 tt
    action-Correct apart var_oc structure k1 k2 = check_first k1 (inl k2)
    action-Correct apart var_oc cons k1 k2 = check_first k1 (inr k2)
    action-Correct apart var_oc other k1 k2 = leave_second k2
    action-Correct apart var_oc _ k1 k2 = bind_first var_oc k1 tt
    action-Correct apart structure var_oc k1 k2 = check_second k2 (inl k1)
    action-Correct apart cons var_oc k1 k2 = check_second k2 (inr k1)
    action-Correct apart other _ k1 k2 = leave_first k1
    action-Correct apart _ other k1 k2 = leave_second k2
    action-Correct apart _ var_oc k1 k2 = bind_second var_oc k2 tt
    action-Correct apart number number k1 k2 = constants (inl k1) (inl k2)
    action-Correct apart UnifyClass.string UnifyClass.string k1 k2 = constants (inr k1) (inr k2)
    action-Correct apart UnifyClass.atom UnifyClass.atom k1 k2 = atoms k1 k2 apart
    action-Correct apart structure structure k1 k2 =
        structures-Correct object is_cell u right checks fuel m l t1 t2 e1.is_object e2.is_object
          (structure-kind object is_cell m l t1 e1.is_object k1)
          (structure-kind object is_cell m l t2 e2.is_object k2)
    action-Correct apart cons cons k1 k2 =
        lists-Correct object is_cell u right checks fuel m l t1 t2 e1.is_object e2.is_object
          (list-kind object is_cell m l t1 e1.is_object k1)
          (list-kind object is_cell m l t2 e2.is_object k2)
    action-Correct apart c d k1 k2 = differ c d k1 k2 tt tt (λ e. cc)
