-- ===== src/Hash/Count.antt =====
-- The number of items in a table of src/dynamic_hash_table.h, and the invariant of a table.
use qu_prolog.Base.{
  ℕ, zero, suc, ◌+◌, ◌*◌, ◌^◌, ◌<◌, ◌≤◌, ◌≡◌, ◌≢◌, refl, false, arith, update, inl, inr, Bool-cases,
  ◌==◌,
}
use qu_prolog.Hash.Table.{Slot, empty, removed, full, Table, has_removed}
use qu_prolog.Hash.Probe.{slot_cases}

-- The items in the `left` slots from `j` on.
unfoldable pub count : {A : Type 0} → ℕ → ℕ → (ℕ → Slot A) → ℕ
count zero j slots = 0
count (suc left) j slots =
    let rest = count left (suc j) slots in
    elim (slots j) [ empty ↦ rest | removed ↦ rest | full x ↦ rest + 1 ]

-- The size is a power of 2 and at least 4, `used` counts the items, and it is at most one more than
-- half of the size.
pub record WellFormed {A : Type 0} (t : Table A) : Type 0 where
  pub log : ℕ
  pub power : t.size ≡ 2 ^ log
  pub large : 4 ≤ t.size
  pub counted : t.used ≡ count t.size 0 t.slots
  pub bounded : t.used * 2 ≤ t.size + 2

pub count-empty :
    (A : Type 0) (left j : ℕ)
    → let all_empty : ℕ → Slot A = λ i. empty in count left j all_empty ≡ 0
unfolding count
count-empty A zero j = refl
count-empty A (suc left) j = count-empty A left (suc j)

pub has_removed-empty :
    (A : Type 0) (n : ℕ)
    → let all_empty : ℕ → Slot A = λ i. empty in has_removed n all_empty ≡ false
unfolding has_removed
has_removed-empty A zero = refl
has_removed-empty A (suc n) = has_removed-empty A n

module _ {A : Type 0} where
  pub vacant :
      (left j : ℕ) (slots : ℕ → Slot A)
      → count left j slots < left
      → (y : ℕ) × (y < left + j) × ((x : A) → slots y ≢ full x)
  unfolding count
  vacant zero j slots h = absurd (omega arith)
  vacant (suc left) j slots h = elim (slot_cases (slots j)) [
    | inl s ↦ (j, omega arith, λ x e. ground (arith, s, e))
    | inr (inl s) ↦ (j, omega arith, λ x e. ground (arith, s, e))
    | inr (inr (x, s)) ↦
        let (y, b, v) = vacant left (suc j) slots (ground (arith, s)) in (y, omega arith, v)
  ]

  pub count-update_before :
      (left j y : ℕ) (slots : ℕ → Slot A) (s : Slot A)
      → y < j
      → count left j (update slots y s) ≡ count left j slots
  unfolding count
  count-update_before zero j y slots s h = refl
  count-update_before (suc left) j y slots s h =
      let ih = count-update_before left (suc j) y slots s (omega arith) in ground (arith, ih)

  pub count-update :
      (left j y : ℕ) (slots : ℕ → Slot A) (x : A)
      → j ≤ y
      → y < left + j
      → ((z : A) → slots y ≢ full z)
      → count left j (update slots y (full x)) ≡ count left j slots + 1
  unfolding count
  count-update zero j y slots x h k v = absurd (omega arith)
  count-update (suc left) j y slots x h k v = elim (Bool-cases (y == j)) [
    | inl e ↦
        let ih = count-update_before left (suc j) y slots (full x) (ground arith) in
        elim (slot_cases (slots j)) [
          | inl s ↦ ground (arith, e, ih, s)
          | inr (inl s) ↦ ground (arith, e, ih, s)
          | inr (inr (z, s)) ↦ absurd (v z (ground (arith, e, s)))
        ]
    | inr e ↦
        let ih = count-update left (suc j) y slots x (ground arith) (omega arith) v in
        ground (arith, ih, e)
  ]

  pub has_removed-update :
      (n y : ℕ) (slots : ℕ → Slot A) (x : A)
      → has_removed n slots ≡ false
      → has_removed n (update slots y (full x)) ≡ false
  unfolding has_removed
  has_removed-update zero y slots x h = refl
  has_removed-update (suc n) y slots x h =
      let ih = has_removed-update n y slots x in ground (arith, ih)
