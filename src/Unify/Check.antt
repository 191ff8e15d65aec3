-- ===== src/Unify/Check.antt =====
-- `simpleOccursCheck` of src/occurs_check.cc on objects in memory.
use qu_prolog.Base.{ℕ, zero, suc, ◌+◌, none, some, ◌==◌, if◌then◌else◌}
use qu_prolog.Unify.Object.{
  Kind, variable, short, string, long, double, object_variable, kind, get_arity,
  variable_dereference,
}

-- `beyond`: the variable is not found, and a quantified term or a substitution is met, for which
-- the code goes on in it or with `occursCheckAndSimplify`. `exhausted`: the fuel is too small.
pub data Occurrence : Type 0 where
  absent present beyond exhausted : Occurrence

-- `if (f == true) return true; flag = flag || f;`: an occurrence counts also after a term whose
-- own answer is not known here.
unfoldable pub then_check : Occurrence → Occurrence → Occurrence
then_check Occurrence.absent o = o
then_check Occurrence.present _ = Occurrence.present
then_check Occurrence.beyond Occurrence.absent = Occurrence.beyond
then_check Occurrence.beyond o = o
then_check Occurrence.exhausted _ = Occurrence.exhausted

-- The loop over the words of a structure.
unfoldable pub occurs_words : (ℕ → Occurrence) → ℕ → (ℕ → ℕ) → ℕ → Occurrence
unfolding then_check
occurs_words check zero w a = Occurrence.absent
occurs_words check (suc n) w a = then_check (check (w a)) (occurs_words check n w (a + 1))

-- The loop along the tails of a list is the recursion on the tail.
-- The switch on the type of the dereferenced term `t`.
unfoldable pub occurs_object : (ℕ → Occurrence) → (ℕ → ℕ) → ℕ → ℕ → Kind → Occurrence
unfolding get_arity then_check occurs_words
occurs_object check w var t variable = if var == t then Occurrence.present else Occurrence.absent
occurs_object check w var t short = Occurrence.absent
occurs_object check w var t long = Occurrence.absent
occurs_object check w var t double = Occurrence.absent
occurs_object check w var t Kind.atom = Occurrence.absent
occurs_object check w var t string = Occurrence.absent
occurs_object check w var t object_variable = Occurrence.absent
occurs_object check w var t Kind.structure = occurs_words check (suc (get_arity (w t))) w (t + 1)
occurs_object check w var t Kind.cons = then_check (check (w (t + 1))) (check (w (t + 2)))
occurs_object check w var t _ = Occurrence.beyond

unfoldable pub occurs_check : ℕ → (ℕ → ℕ) → ℕ → ℕ → Occurrence
unfolding occurs_object variable_dereference
occurs_check zero w var o = Occurrence.exhausted
occurs_check (suc fuel) w var o = elim (variable_dereference fuel w o) [
  | none ↦ Occurrence.exhausted
  | some t ↦ occurs_object (occurs_check fuel w var) w var t (kind (w t))
]
