-- ===== src/Dynamic/Defects.antt =====
-- Where the index of a dynamic predicate (src/dynamic_code.cc, makeEntry) misses a clause.
use qu_prolog.Base.{
  ℕ, ◌%◌, ◌^◌, ◌≡◌, refl, ◌∙◌, Bool, true, false, [], ◌∷◌, arith, if◌then◌else◌, ◌==◌,
}
use qu_prolog.Dynamic.Key.{
  Index, null, var, obj_var, cons, string, struct, quant, short, long, double, atom, subst_term,
  make_entry, same_key, is_empty, under_substitution,
}
use qu_prolog.Dynamic.Chain.{Block}
use qu_prolog.Dynamic.Predicate.{psi_assert, new_predicate}
use qu_prolog.Dynamic.Represents.{blocks_of, add}
use qu_prolog.Dynamic.Entries.{same_key_refl}
use qu_prolog.Dynamic.Upkeep.{accepts}
use qu_prolog.Dynamic.Views.{view}
use qu_prolog.Dynamic.Database.{assert, perform, meaning, view-perform}

-- The atoms and the numbers.
abbrev pub IsConstant : Index → Type 0
IsConstant (short i) = Unit
IsConstant (long i) = Unit
IsConstant (double x y) = Unit
IsConstant (atom a) = Unit
IsConstant _ = ⊥

keys_differ :
    (address : ℕ) (t : Index)
    → IsConstant t
    → (same_key (make_entry t) (make_entry (subst_term address t)) ≡ false)
      × (is_empty (make_entry (subst_term address t)) ≡ false)
      × (is_empty (make_entry t) ≡ false)
unfolding same_key make_entry under_substitution is_empty
keys_differ address (short i) h = (refl, refl, refl)
keys_differ address (long i) h = (refl, refl, refl)
keys_differ address (double x y) h = (refl, refl, refl)
keys_differ address (atom a) h = (refl, refl, refl)
keys_differ address null h = elim h [ ]
keys_differ address var h = elim h [ ]
keys_differ address obj_var h = elim h [ ]
keys_differ address cons h = elim h [ ]
keys_differ address string h = elim h [ ]
keys_differ address (struct f) h = elim h [ ]
keys_differ address (quant q) h = elim h [ ]
keys_differ address (subst_term x u) h = elim h [ ]

asserted :
    (arg other : Index) (code : ℕ) (asserta : Bool) (blocks : ℕ → Block) (next arity index : ℕ)
    → let p = psi_assert other code asserta (new_predicate blocks next arity index) in
      view arg p.stamp p
      ≡ (if accepts (arity % 2 ^ 8) (make_entry arg) (make_entry other) then next ∷ [] else [])
unfolding perform meaning blocks_of add
asserted arg other code asserta blocks next arity index =
    view-perform (assert other code asserta ∷ []) arg blocks next arity index (omega arith)
    ∙ elim (asserta)
        as (λ a.
          blocks_of (accepts (arity % 2 ^ 8) (make_entry arg)) (add a (make_entry other, next) [])
          ≡ (if accepts (arity % 2 ^ 8) (make_entry arg) (make_entry other)
              then next ∷ []
              else [])) [ true ↦ refl | false ↦ refl ]

-- The only clause of a predicate with arguments (their number, as a byte, is not 0), whose indexed argument is an atom or a number
-- under a substitution, is seen by a call with that argument, and not by a call with the atom or
-- the number itself.
pub view-psi_assert_missed :
    (address : ℕ) (t : Index) (code : ℕ) (asserta : Bool) (blocks : ℕ → Block)
    (next arity index : ℕ)
    → IsConstant t
    → (arity % 2 ^ 8 == 0) ≡ false
    → let p =
        psi_assert (subst_term address t) code asserta (new_predicate blocks next arity index) in
      (view (subst_term address t) p.stamp p ≡ next ∷ []) × (view t p.stamp p ≡ [])
view-psi_assert_missed address t code asserta blocks next arity index c a =
    let (differ, some_key, plain_key) = keys_differ address t c in
    (
      asserted (subst_term address t) (subst_term address t) code asserta blocks next arity index
          ∙ rw (a, some_key, same_key_refl (make_entry (subst_term address t))) refl,
      asserted t (subst_term address t) code asserta blocks next arity index
          ∙ rw (a, plain_key, some_key, differ) refl,
    )
