-- ===== src/Encode/Keys.antt =====
-- Looking up in the map of src/encode.h: an index that is found is that of the key, and a key that
-- is not found is not in the map.
use qu_prolog.Base.{
  ℕ, zero, suc, ◌+◌, ◌≤◌, ◌≡◌, refl, sym, ap, ◌∙◌, subst, true, false, [], ◌∷◌, none, some, arith,
  length, get_elem?, Bool-cases, Option-cases, inl, inr,
}
use qu_prolog.Encode.Term.{Bytes, same_bytes}
use qu_prolog.Encode.Map.{
  Key, var_key, obj_var_key, atom_key, same_key, Map, take, drop, look_up_table, last_table,
  look_up,
}

same_bytes_eq : (xs ys : Bytes) → same_bytes xs ys ≡ true → xs ≡ ys
unfolding same_bytes
same_bytes_eq [] [] h = refl
same_bytes_eq (x ∷ xs) (y ∷ ys) h = ground (arith, same_bytes_eq xs ys)
same_bytes_eq [] (y ∷ ys) h = ground arith
same_bytes_eq (x ∷ xs) [] h = ground arith

pub same_bytes_refl : (xs : Bytes) → same_bytes xs xs ≡ true
unfolding same_bytes
same_bytes_refl [] = refl
same_bytes_refl (x ∷ xs) = ground (arith, same_bytes_refl xs)

pub same_key_eq : (k l : Key) → same_key k l ≡ true → k ≡ l
unfolding same_key
same_key_eq (var_key x) (var_key y) h = ground arith
same_key_eq (obj_var_key x) (obj_var_key y) h = ground arith
same_key_eq (atom_key x) (atom_key y) h = ap atom_key (same_bytes_eq x y h)
same_key_eq k l h = absurd (ground arith)

pub same_key_refl : (k : Key) → same_key k k ≡ true
unfolding same_key
same_key_refl (var_key x) = ground arith
same_key_refl (obj_var_key x) = ground arith
same_key_refl (atom_key x) = same_bytes_refl x

-- The key is in the map nowhere.
abbrev pub Absent : Key → Map → Type 0
Absent k [] = Unit
Absent k (l ∷ m) = (same_key l k ≡ false) × Absent k m

table_some :
    (k : Key) (m : Map) (i j : ℕ)
    → look_up_table k m i ≡ some j
    → (d : ℕ) × (j ≡ i + d) × (get_elem? m d ≡ some k)
unfolding look_up_table
table_some k [] i j h = absurd (ground arith)
table_some k (l ∷ m) i j h = elim (Bool-cases (same_key l k)) [
  | inl e ↦ (0, ground (arith, e), ap some (same_key_eq l k e))
  | inr e ↦
      let (d, at, here) = table_some k m (suc i) j (ground (arith, e)) in (suc d, omega arith, here)
]

table_none : (k : Key) (m : Map) (i : ℕ) → look_up_table k m i ≡ none → Absent k m
unfolding look_up_table
table_none k [] i h = tt
table_none k (l ∷ m) i h = elim (Bool-cases (same_key l k)) [
  | inl e ↦ absurd (ground (arith, e))
  | inr e ↦ (e, table_none k m (suc i) (ground (arith, e)))
]

the_index : (n d : ℕ) → suc (n + d) ≡ suc n + d
the_index n d = omega arith

elem-drop : (n : ℕ) (m : Map) (d : ℕ) → n ≤ length m → get_elem? (drop n m) d ≡ get_elem? m (n + d)
unfolding drop
elem-drop zero m d h = ap (get_elem? m) (omega arith)
elem-drop (suc n) [] d h = absurd (omega arith)
elem-drop (suc n) (l ∷ m) d h =
    elem-drop n m d (omega arith) ∙ ap (get_elem? (l ∷ m)) (the_index n d)

elem-take :
    (n : ℕ) (m : Map) (d : ℕ) (k : Key) → get_elem? (take n m) d ≡ some k → get_elem? m d ≡ some k
unfolding take
elem-take zero m d k h = absurd (ground arith)
elem-take (suc n) [] d k h = h
elem-take (suc n) (l ∷ m) zero k h = h
elem-take (suc n) (l ∷ m) (suc d) k h = elem-take n m d k h

Absent-parts : (n : ℕ) (k : Key) (m : Map) → Absent k (take n m) → Absent k (drop n m) → Absent k m
unfolding take drop
Absent-parts zero k m a b = b
Absent-parts (suc n) k [] a b = tt
Absent-parts (suc n) k (l ∷ m) a b = (a.0, Absent-parts n k m a.1 b)

last_table_le : (m : Map) → last_table m ≤ length m
last_table_le m = omega arith

module _ (k : Key) (m : Map) where
  look_up_last :
      (j : ℕ)
      → look_up_table k (drop (last_table m) m) (last_table m) ≡ some j
      → look_up k m ≡ some j
  unfolding look_up
  look_up_last j e = rw (e, look_up) refl

  look_up_others :
      look_up_table k (drop (last_table m) m) (last_table m) ≡ none
      → look_up k m ≡ look_up_table k (take (last_table m) m) 0
  unfolding look_up
  look_up_others e = rw (e, look_up) refl

-- What `lookUp` finds is the index of the key.
pub look_up-some : (k : Key) (m : Map) (i : ℕ) → look_up k m ≡ some i → get_elem? m i ≡ some k
unfolding look_up
look_up-some k m i h =
    let n = last_table m in
    elim (Option-cases (look_up_table k (drop n m) n)) [
      | inl e ↦
          let (d, at, here) = table_some k (take n m) 0 i (sym (look_up_others k m e) ∙ h) in
          let same : d ≡ i = omega (arith, at) in
          subst (λ j. get_elem? m j ≡ some k) same (elem-take n m d k here)
      | inr (j, e) ↦
          let (d, at, here) = table_some k (drop n m) n i (e ∙ sym (look_up_last k m j e) ∙ h) in
          subst (λ j. get_elem? m j ≡ some k) (sym at)
            (sym (elem-drop n m d (last_table_le m)) ∙ here)
    ]

-- What it does not find is not in the map.
pub look_up-none : (k : Key) (m : Map) → look_up k m ≡ none → Absent k m
unfolding look_up
look_up-none k m h =
    let n = last_table m in
    elim (Option-cases (look_up_table k (drop n m) n)) [
      | inl e ↦
          Absent-parts n k m (table_none k (take n m) 0 (sym (look_up_others k m e) ∙ h))
            (table_none k (drop n m) n e)
      | inr (j, e) ↦ absurd (ground (arith, sym (look_up_last k m j e) ∙ h))
    ]
