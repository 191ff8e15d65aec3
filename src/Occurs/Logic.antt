-- ===== src/Occurs/Logic.antt =====
-- The operators of `truth3` (src/truth3.h) as an abstraction of the Boolean operators.
use qu_prolog.Base.{◌≡◌, ◌↔◌, Bool, true, false, ◌&&◌, not, refl, sym, subst, arith}
use qu_prolog.Occurs.Truth.{Truth, unsure, no, yes, conj, disj, negation}

-- Whether a truth value may stand for a Boolean.
pub Stands : Truth → Bool → Type 0
Stands unsure x = Unit
Stands yes x = x ≡ true
Stands no x = x ≡ false

-- The result `r` stands for what an operator gives of the Booleans that `a` and `b` stand for, and
-- for nothing else.
pub Exact : (Bool → Bool → Bool) → Truth → Truth → Truth → Type 0
Exact op a b r =
    (z : Bool) → Stands r z ↔ ((x : Bool) × (y : Bool) × Stands a x × Stands b y × (op x y ≡ z))

logic : Unit {0}
unfolding conj disj negation Stands Exact
logic = tt

conj-Stands : (a b : Truth) (x y : Bool) → Stands a x → Stands b y → Stands (conj a b) (x && y)
unfolding logic
conj-Stands unsure unsure x y h k = tt
conj-Stands unsure no x y h k = ground arith
conj-Stands unsure yes x y h k = tt
conj-Stands no b x y h k = ground arith
conj-Stands yes unsure x y h k = tt
conj-Stands yes no x y h k = ground arith
conj-Stands yes yes x y h k = ground arith

-- A Boolean that a truth value stands for.
example : Truth → Bool
example no = false
example _ = true

example-Stands : (a : Truth) → Stands a (example a)
unfolding example Stands
example-Stands unsure = tt
example-Stands no = refl
example-Stands yes = refl

conj-Exact : (a b : Truth) → Exact (λ x y. x && y) a b (conj a b)
unfolding logic
conj-Exact a b z =
    (reach a b, λ (x, y, h, k, e). subst (Stands (conj a b)) e (conj-Stands a b x y h k))
  where
    reach :
        (a b : Truth)
        → Stands (conj a b) z
        → ((x : Bool) × (y : Bool) × Stands a x × Stands b y × ((x && y) ≡ z))
    reach no b h = (false, example b, refl, example-Stands b, sym h)
    reach yes unsure h = (true, z, refl, tt, refl)
    reach yes no h = (true, false, refl, refl, sym h)
    reach yes yes h = (true, true, refl, refl, sym h)
    reach unsure unsure h = (true, z, tt, tt, refl)
    reach unsure no h = (true, false, tt, refl, sym h)
    reach unsure yes h = (z, true, tt, refl, ground arith)

disj-negation : (a b : Truth) → disj a b ≡ negation (conj (negation a) (negation b))
unfolding logic
disj-negation a b = ground arith

negation-Stands : (a : Truth) (z : Bool) → Stands (negation a) z ↔ Stands a (not z)
unfolding logic
negation-Stands unsure z = (λ h. tt, λ h. tt)
negation-Stands no z = ground arith
negation-Stands yes z = ground arith

-- The operators of `truth3` are exact: the result of `&&` stands for what the Boolean operator
-- gives of all that its operands stand for and for nothing else, `!` stands for the negations,
-- and `||` is the dual of `&&`.
pub operators-Exact :
    (a b : Truth)
    → Exact (λ x y. x && y) a b (conj a b)
      × ((z : Bool) → Stands (negation a) z ↔ Stands a (not z))
      × (disj a b ≡ negation (conj (negation a) (negation b)))
operators-Exact a b = (conj-Exact a b, negation-Stands a, disj-negation a b)
