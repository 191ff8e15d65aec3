-- ===== src/Encode/Images.antt =====
-- The map of a reader and the map of the writer whose bytes it reads (src/encode.h): the same
-- entries, where the reader's variables are new ones, numbered in their order.
use qu_prolog.Base.{
  ℕ, zero, suc, ◌+◌, ◌*◌, ◌≤◌, ◌<◌, ◌≡◌, refl, sym, ap, ◌∙◌, subst, true, false, List, [], ◌∷◌,
  ◌++◌, some, arith, if◌then◌else◌, length, get_elem?, Bool-cases, inl, inr,
}
use qu_prolog.Encode.Term.{Term, var, obj_var, atom}
use qu_prolog.Encode.Map.{Key, var_key, obj_var_key, atom_key, same_key, Map}
use qu_prolog.Encode.Keys.{Absent, same_key_eq, same_key_refl}
use qu_prolog.Encode.Read.{State}

unfoldable pub image : Key → ℕ → Term
image (var_key v) n = var n
image (obj_var_key v) n = obj_var n
image (atom_key a) n = atom a

-- How many variables a key stands for.
unfoldable pub count : Key → ℕ
count (var_key v) = 1
count (obj_var_key v) = 1
count (atom_key a) = 0

unfoldable pub images : ℕ → Map → List Term
unfolding image count
images base [] = []
images base (k ∷ m) = image k base ∷ images (base + count k) m

unfoldable pub total : Map → ℕ
unfolding count
total [] = 0
total (k ∷ m) = count k + total m

-- The reader when the writer has the map.
abbrev pub state_of : Map → State
state_of m = record { map = images 0 m; next = total m }

-- The number of the new variable for a key of the map; others get different numbers, too.
unfoldable pub number : ℕ → Map → Key → ℕ
unfolding same_key count
number base [] (var_key v) = base + 2 * v
number base [] (obj_var_key v) = base + 2 * v + 1
number base [] (atom_key a) = base
number base (l ∷ m) k =
    let rest = number (base + count l) m k in if same_key l k then base else rest

-- The keys with their numbers have the images in the reader's map.
abbrev pub Agrees : (Key → ℕ) → Map → Type 0
Agrees σ m =
    (i : ℕ) (k : Key) → get_elem? m i ≡ some k → get_elem? (images 0 m) i ≡ some (image k (σ k))

-- No key is in the map twice.
abbrev pub Distinct : Map → Type 0
Distinct [] = Unit
Distinct (k ∷ m) = Absent k m × Distinct m

pub images-append :
    (m e : Map) (base : ℕ) → images base (m ++ e) ≡ images base m ++ images (base + total m) e
unfolding images total
images-append [] e base = ap (λ n. images n e) (omega arith)
images-append (k ∷ m) e base =
    ap (λ ts. image k base ∷ ts)
      (images-append m e (base + count k)
        ∙ ap (λ n. images (base + count k) m ++ images n e) (omega arith))

pub total-append : (m e : Map) → total (m ++ e) ≡ total m + total e
unfolding total
total-append [] e = omega arith
total-append (k ∷ m) e = omega (arith, total-append m e)

pub length-images : (m : Map) (base : ℕ) → length (images base m) ≡ length m
unfolding images
length-images [] base = refl
length-images (k ∷ m) base = ap suc (length-images m (base + count k))

module _ {A : Type 0} where
  elem-append :
      (xs ys : List A) (i : ℕ) (x : A) → get_elem? xs i ≡ some x → get_elem? (xs ++ ys) i ≡ some x
  elem-append [] ys i x h = absurd (ground arith)
  elem-append (y ∷ xs) ys zero x h = h
  elem-append (y ∷ xs) ys (suc i) x h = elem-append xs ys i x h

  elem-left : (xs ys : List A) (i : ℕ) → i < length xs → get_elem? (xs ++ ys) i ≡ get_elem? xs i
  elem-left [] ys i h = absurd (omega arith)
  elem-left (x ∷ xs) ys zero h = refl
  elem-left (x ∷ xs) ys (suc i) h = elem-left xs ys i (omega arith)

  pub elem_bound : (xs : List A) (i : ℕ) (x : A) → get_elem? xs i ≡ some x → i < length xs
  elem_bound [] i x h = absurd (ground arith)
  elem_bound (y ∷ xs) zero x h = omega arith
  elem_bound (y ∷ xs) (suc i) x h = omega (arith, elem_bound xs i x h)

  pub elem_last : (xs ys : List A) (x : A) → get_elem? (xs ++ x ∷ ys) (length xs) ≡ some x
  elem_last [] ys x = refl
  elem_last (y ∷ xs) ys x = elem_last xs ys x

pub Agrees-prefix : (σ : Key → ℕ) (m e : Map) → Agrees σ (m ++ e) → Agrees σ m
Agrees-prefix σ m e a i k h =
    let inside : i < length (images 0 m) = omega (arith, elem_bound m i k h, length-images m 0) in
    sym (elem-left (images 0 m) (images (0 + total m) e) i inside)
    ∙ ap (λ ts. get_elem? ts i) (sym (images-append m e 0))
    ∙ a i k (elem-append m e i k h)

pub Agrees-last :
    (σ : Key → ℕ) (m : Map) (k : Key) → Agrees σ (m ++ k ∷ []) → image k (total m) ≡ image k (σ k)
unfolding images
Agrees-last σ m k a =
    let at : get_elem? (images 0 (m ++ k ∷ [])) (length m) ≡ some (image k (0 + total m)) =
      ap (λ ts. get_elem? ts (length m)) (images-append m (k ∷ []) 0)
      ∙ ap (get_elem? (images 0 m ++ image k (0 + total m) ∷ [])) (sym (length-images m 0))
      ∙ elem_last (images 0 m) [] (image k (0 + total m)) in
    let both : some (image k (0 + total m)) ≡ some (image k (σ k)) =
      sym at ∙ a (length m) k (elem_last m [] k) in
    let start : total m ≡ 0 + total m = omega arith in ap (image k) start ∙ cc both

same_key_sym : (k l : Key) → same_key k l ≡ false → same_key l k ≡ false
same_key_sym k l h = elim (Bool-cases (same_key l k)) [
  | inl e ↦
      let never : true ≡ false =
        sym (same_key_refl k) ∙ ap (same_key k) (sym (same_key_eq l k e)) ∙ h in
      absurd (ground arith)
  | inr e ↦ e
]

Absent-elem :
    (k : Key) (m : Map) (i : ℕ) (l : Key)
    → Absent k m
    → get_elem? m i ≡ some l
    → same_key l k ≡ false
Absent-elem k [] i l a h = absurd (ground arith)
Absent-elem k (j ∷ m) zero l a h =
    let same : j ≡ l = cc h in subst (λ x. same_key x k ≡ false) same a.0
Absent-elem k (j ∷ m) (suc i) l a h = Absent-elem k m i l a.1 h

number-images :
    (m : Map) (base i : ℕ) (k : Key)
    → Distinct m
    → get_elem? m i ≡ some k
    → get_elem? (images base m) i ≡ some (image k (number base m k))
unfolding images number
number-images [] base i k d h = absurd (ground arith)
number-images (l ∷ m) base zero k d h =
    let same : l ≡ k = cc h in
    let e : same_key l k ≡ true = ap (same_key l) (sym same) ∙ same_key_refl l in
    rw e (ap (λ x. some (image x base)) same)
number-images (l ∷ m) base (suc i) k d h =
    let e : same_key l k ≡ false = same_key_sym k l (Absent-elem l m i k d.0 h) in
    rw e (number-images m (base + count l) i k d.1 h)

-- The numbers of the reader's variables are those of the writer's map.
pub number-Agrees : (m : Map) → Distinct m → Agrees (number 0 m) m
number-Agrees m d i k h = number-images m 0 i k d h

number_le : (m : Map) (base : ℕ) (k : Key) → base ≤ number base m k
unfolding number
number_le [] base (var_key v) = omega arith
number_le [] base (obj_var_key v) = omega arith
number_le [] base (atom_key a) = omega arith
number_le (l ∷ m) base k = elim (Bool-cases (same_key l k)) [
  | inl e ↦ rw e (omega arith)
  | inr e ↦ rw e (omega (arith, number_le m (base + count l) k))
]

module _ (l : Key) (m : Map) (base : ℕ) (k : Key) where
  number_here : same_key l k ≡ true → number base (l ∷ m) k ≡ base
  unfolding number
  number_here e = rw (e, number) refl

  number_there : same_key l k ≡ false → number base (l ∷ m) k ≡ number (base + count l) m k
  unfolding number
  number_there e = rw (e, number) refl

-- Different variables have different numbers.
pub number-injective :
    (m : Map) (base : ℕ) (k l : Key)
    → count k ≡ 1
    → count l ≡ 1
    → number base m k ≡ number base m l
    → k ≡ l
unfolding number count
number-injective [] base (var_key v) (var_key w) c d h = ap var_key (omega (arith, h))
number-injective [] base (var_key v) (obj_var_key w) c d h = absurd (omega (arith, h))
number-injective [] base (obj_var_key v) (var_key w) c d h = absurd (omega (arith, h))
number-injective [] base (obj_var_key v) (obj_var_key w) c d h = ap obj_var_key (omega (arith, h))
number-injective [] base (atom_key a) l c d h = absurd (omega (arith, c))
number-injective [] base k (atom_key a) c d h = absurd (omega (arith, d))
number-injective (j ∷ m) base k l c d h = elim (Bool-cases (same_key j k)) [
  | inl e ↦ elim (Bool-cases (same_key j l)) [
    | inl f ↦ sym (same_key_eq j k e) ∙ same_key_eq j l f
    | inr f ↦ absurd (
        omega (
          arith,
          h,
          c,
          number_here j m base k e,
          number_there j m base l f,
          ap count (same_key_eq j k e),
          number_le m (base + count j) l,
        ))
  ]
  | inr e ↦ elim (Bool-cases (same_key j l)) [
    | inl f ↦ absurd (
        omega (
          arith,
          h,
          d,
          number_here j m base l f,
          number_there j m base k e,
          ap count (same_key_eq j l f),
          number_le m (base + count j) k,
        ))
    | inr f ↦
        number-injective m (base + count j) k l c d
          (sym (number_there j m base k e) ∙ h ∙ number_there j m base l f)
  ]
]

Absent-append : (k l : Key) (m : Map) → Absent k m → same_key l k ≡ false → Absent k (m ++ l ∷ [])
Absent-append k l [] a h = (h, tt)
Absent-append k l (j ∷ m) a h = (a.0, Absent-append k l m a.1 h)

pub Distinct-append : (m : Map) (k : Key) → Distinct m → Absent k m → Distinct (m ++ k ∷ [])
Distinct-append [] k d a = (tt, tt)
Distinct-append (l ∷ m) k d a =
    (Absent-append l k m d.0 (same_key_sym l k a.0), Distinct-append m k d.1 a.1)
