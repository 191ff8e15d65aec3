-- ===== src/Unify/Object.antt =====
-- Objects in memory, and the chains of references: src/objects.h.
use qu_prolog.Base.{
  ℕ, zero, suc, ◌+◌, ◌/◌, ◌%◌, Bool, true, false, Option, none, some, ◌==◌, if◌then◌else◌,
}

-- The type in a tag; `TypeVar` is 0, and so on.
pub data Kind : Type 0 where
  variable short string long atom double cons structure object_variable quantified substitution
        block illegal :
      Kind

-- `tag & UnifyMask`
pub data UnifyClass : Type 0 where
  var var_oc number atom string structure cons other : UnifyClass

unfoldable pub kind_of : ℕ → Kind
kind_of zero = variable
kind_of (suc zero) = short
kind_of (suc (suc zero)) = string
kind_of (suc (suc (suc zero))) = long
kind_of (suc (suc (suc (suc zero)))) = Kind.atom
kind_of (suc (suc (suc (suc (suc zero))))) = double
kind_of (suc (suc (suc (suc (suc (suc zero)))))) = Kind.cons
kind_of (suc (suc (suc (suc (suc (suc (suc zero))))))) = Kind.structure
kind_of (suc (suc (suc (suc (suc (suc (suc (suc zero)))))))) = object_variable
kind_of (suc (suc (suc (suc (suc (suc (suc (suc (suc zero))))))))) = quantified
kind_of (suc (suc (suc (suc (suc (suc (suc (suc (suc (suc zero)))))))))) = substitution
kind_of (suc (suc (suc (suc (suc (suc (suc (suc (suc (suc (suc zero))))))))))) = block
kind_of _ = illegal

unfoldable pub class_of : ℕ → UnifyClass
class_of zero = var
class_of (suc zero) = var_oc
class_of (suc (suc zero)) = number
class_of (suc (suc (suc zero))) = atom
class_of (suc (suc (suc (suc zero)))) = UnifyClass.string
class_of (suc (suc (suc (suc (suc zero))))) = structure
class_of (suc (suc (suc (suc (suc (suc zero)))))) = cons
class_of _ = other

-- `tTag`
unfoldable pub kind : ℕ → Kind
unfolding kind_of
kind tag = kind_of (tag / 16 % 16)

unfoldable pub unify_class : ℕ → UnifyClass
unfolding class_of
unify_class tag = class_of (tag / 2 % 8)

-- `isSubstitution`
unfoldable pub is_substitution : ℕ → Bool
unfolding kind
is_substitution tag = elim (kind tag) [ substitution ↦ true | _ ↦ false ]

-- `(tag & DerefMask) == 0`, which holds for variables and object variables.
unfoldable pub is_reference : ℕ → Bool
is_reference tag = tag / 16 % 8 == 0

-- `Structure::getArity`
unfoldable pub get_arity : ℕ → ℕ
get_arity tag = tag / 256

-- `Variable::isOccursChecked`
unfoldable pub is_occurs_checked : ℕ → Bool
is_occurs_checked tag = tag / 256 % 2 == 1

-- The words after the tag of a number or a string: `size_dispatch() - 1`.
unfoldable pub constant_words : ℕ → ℕ
unfolding kind
constant_words tag = elim (kind tag) [ long ↦ 1 | double ↦ 1 | string ↦ tag / 256 | _ ↦ 0 ]

-- `Object::variableDereference`; `none` when the fuel, the length of the chain, is too small.
unfoldable pub variable_dereference : ℕ → (ℕ → ℕ) → ℕ → Option ℕ
unfolding is_reference
variable_dereference zero w o = none
variable_dereference (suc fuel) w o =
    let n = w (o + 1) in
    let rest = variable_dereference fuel w n in
    if is_reference (w o) then (if n == o then some o else rest) else some o

unfoldable pub equal_words : ℕ → (ℕ → ℕ) → ℕ → ℕ → Bool
equal_words zero w a b = true
equal_words (suc n) w a b =
    let rest = equal_words n w (a + 1) (b + 1) in if w a == w b then rest else false

-- `Object::equalUninterp`
unfoldable pub equal_uninterp : (ℕ → ℕ) → ℕ → ℕ → Bool
unfolding equal_words constant_words
equal_uninterp w a b =
    if a == b
    then true
    else if w a == w b
    then equal_words (constant_words (w a)) w (a + 1) (b + 1)
    else false
