-- ===== src/Encode/Map.antt =====
-- `EncodeMap` of src/encode.h: the tables of the variables and atoms that were written or read.
-- The tables of 256 entries are one list, in the order of the indices.
use qu_prolog.Base.{
  ℕ, zero, suc, ◌-◌, ◌*◌, ◌/◌, Bool, false, List, [], ◌∷◌, ◌++◌, Option, none, some, ltb, ◌==◌,
  if◌then◌else◌, length,
}
use qu_prolog.Encode.Term.{Bytes, same_bytes}

-- What is compared by address when writing.
pub data Key : Type 0 where
  var_key : ℕ → Key
  obj_var_key : ℕ → Key
  atom_key : Bytes → Key

unfoldable pub same_key : Key → Key → Bool
unfolding same_bytes
same_key (var_key x) (var_key y) = x == y
same_key (obj_var_key x) (obj_var_key y) = x == y
same_key (atom_key x) (atom_key y) = same_bytes x y
same_key _ _ = false

abbrev pub Map : Type 0
Map = List Key

module _ {A : Type 0} where
  -- `TABLE_MAX` tables of `TABLE_MAX` entries; where they are full the program exits.
  unfoldable pub add : A → List A → Option (List A)
  add x m = if ltb (length m) (256 * 256) then some (m ++ x ∷ []) else none

  unfoldable pub take : ℕ → List A → List A
  take zero xs = []
  take (suc n) [] = []
  take (suc n) (x ∷ xs) = x ∷ take n xs

  unfoldable pub drop : ℕ → List A → List A
  drop zero xs = xs
  drop (suc n) [] = []
  drop (suc n) (x ∷ xs) = drop n xs

-- One table, from an index on.
unfoldable pub look_up_table : Key → Map → ℕ → Option ℕ
unfolding same_key
look_up_table k [] i = none
look_up_table k (l ∷ m) i =
    let rest = look_up_table k m (suc i) in if same_key l k then some i else rest

-- The index of the first entry of the last table.
abbrev pub last_table : Map → ℕ
last_table m = 256 * ((length m - 1) / 256)

-- The last table is looked at first, and then the others.
unfoldable pub look_up : Key → Map → Option ℕ
unfolding look_up_table take drop
look_up k m = elim (look_up_table k (drop (last_table m) m) (last_table m)) [
  | some i ↦ some i
  | none ↦ look_up_table k (take (last_table m) m) 0
]
