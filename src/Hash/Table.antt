-- ===== src/Hash/Table.antt =====
-- `DynamicHashTable` of src/dynamic_hash_table.h. The hash function, as an unsigned number, and the
-- equality of items are parameters. The size is a power of 2, so that `& tableSizeMask` is the
-- remainder of a division by it.
use qu_prolog.Base.{
  ℕ, zero, suc, ◌+◌, ◌*◌, ◌-◌, ◌/◌, ◌%◌, Bool, true, false, Option, none, some, ltb, leb, ◌==◌,
  if◌then◌else◌, update,
}

-- What `isEmpty` and `isRemoved` tell of an entry.
pub data Slot (A : Type 0) : Type 0 where
  empty removed : Slot A
  full : A → Slot A

pub record Table (A : Type 0) : Type 0 where
  pub size : ℕ
  pub used : ℕ
  pub slots : ℕ → Slot A
  pub iter_pos : ℕ

-- The loop of `next_2power`; `fuel` bounds the rounds, of which there are fewer than `n` has bits.
unfoldable pub doubled : ℕ → ℕ → ℕ → ℕ
doubled zero n power = power
doubled (suc fuel) n power =
    let rest = doubled fuel (n / 2) (power * 2) in if n == 0 then power else rest

-- The code computes with an `int`, which overflows for `n` above 2 ^ 29; the numbers here do not,
-- so that only up to 2 ^ 29 is this the result of the code.
unfoldable pub next_2power : ℕ → ℕ
unfolding doubled
next_2power n = doubled n (n - 1) 2

-- The constructor. The items are default-constructed; that they are empty is up to their type.
-- `iter_pos` is not assigned and holds any value.
unfoldable pub new_table : {A : Type 0} → ℕ → ℕ → Table A
unfolding next_2power
new_table unset n = record { size = next_2power n; used = 0; slots = λ i. empty; iter_pos = unset }

unfoldable pub iter_reset : {A : Type 0} → Table A → Table A
iter_reset t = record t { iter_pos = 0 }

-- `-1` for a position out of range, 0 for a free one, 1 for a removal.
pub data Removal : Type 0 where
  out_of_range not_there done : Removal

-- `remove`, for a position that is not negative.
unfoldable pub remove : {A : Type 0} → ℕ → Table A → Removal × Table A
remove position t = if leb t.size position then (out_of_range, t) else elim (t.slots position) [
  | empty ↦ (not_there, t)
  | removed ↦ (not_there, t)
  | full x ↦ (done, record t { used = t.used - 1; slots = update t.slots position removed })
]

-- The loop of `iter_next` from a position that is `left` below the size.
unfoldable pub iter_loop : {A : Type 0} → ℕ → ℕ → Table A → Option ℕ × Table A
iter_loop zero pos t = (none, record t { iter_pos = pos })
iter_loop (suc left) pos t =
    let rest = iter_loop left (pos + 1) t in
    elim (t.slots pos) [
      | empty ↦ rest
      | removed ↦ rest
      | full x ↦ (some pos, record t { iter_pos = pos + 1 })
    ]

unfoldable pub iter_next : {A : Type 0} → Table A → Option ℕ × Table A
unfolding iter_loop
iter_next t = iter_loop (t.size - t.iter_pos) t.iter_pos t

-- Whether one of the first `n` slots is removed.
unfoldable pub has_removed : {A : Type 0} → ℕ → (ℕ → Slot A) → Bool
has_removed zero slots = false
has_removed (suc n) slots =
    let rest = has_removed n slots in elim (slots n) [ removed ↦ true | _ ↦ rest ]

-- How the loop of `insert` ends: at an equal item, at a slot that is empty or removed, or where it
-- aborts.
pub data Probe : Type 0 where
  found free : ℕ → Probe
  cycled : Probe

-- The size that a table which is too full gets.
unfoldable pub new_size : {A : Type 0} → Table A → ℕ
unfolding has_removed next_2power
new_size t = if has_removed t.size t.slots then t.size else next_2power t.size

-- The table with one more item, where the loop ended.
unfoldable pub put : {A : Type 0} → ℕ → A → Table A → Table A
put pos item t = record t { used = t.used + 1; slots = update t.slots pos (full item) }

unfoldable pub then_reinsert :
    {A : Type 0} → (Table A → Option (Table A)) → Option (Bool × ℕ × Table A) → Option (Table A)
then_reinsert rest none = none
then_reinsert rest (some (known, pos, t)) = rest t

-- The loop of `resize` over the old slots from `j`, of which `left` are left, with the calls of
-- `insert` as a function.
unfoldable pub reinsert :
    {A : Type 0}
    → (A → Table A → Option (Bool × ℕ × Table A))
    → ℕ
    → ℕ
    → (ℕ → Slot A)
    → Table A
    → Option (Table A)
unfolding then_reinsert
reinsert insert zero j old t = some t
reinsert insert (suc left) j old t =
    let skip = reinsert insert left (suc j) old t in
    elim (old j) [
      | empty ↦ skip
      | removed ↦ skip
      | full x ↦ then_reinsert (reinsert insert left (suc j) old) (insert x t)
    ]

unfoldable pub resize :
    {A : Type 0} → (A → Table A → Option (Bool × ℕ × Table A)) → ℕ → Table A → Option (Table A)
unfolding reinsert
resize insert size t =
    reinsert insert t.size 0 t.slots (record t { size = size; used = 0; slots = λ i. empty })

-- The second call of `insert`, after a resizing: it sets the position, and the answer is false.
unfoldable pub answer_false :
    {A : Type 0} → Option (Bool × ℕ × Table A) → Option (Bool × ℕ × Table A)
answer_false none = none
answer_false (some (known, pos, t)) = some (false, pos, t)

unfoldable pub then_insert :
    {A : Type 0}
    → (A → Table A → Option (Bool × ℕ × Table A))
    → A
    → Option (Table A)
    → Option (Bool × ℕ × Table A)
unfolding answer_false
then_insert insert item none = none
then_insert insert item (some t) = answer_false (insert item t)

-- What follows the loop of `insert`, with what resizing and inserting again would give.
unfoldable pub finish :
    {A : Type 0} → Option (Bool × ℕ × Table A) → A → Table A → Probe → Option (Bool × ℕ × Table A)
unfolding put
finish again item t (found pos) = some (true, pos, t)
finish again item t cycled = none
finish again item t (free pos) =
    if ltb t.size (t.used * 2) then again else some (false, pos, put pos item t)

-- `(hashValue + increment++) & tableSizeMask`, with `left + 1` for `tableSize - increment`.
abbrev pub step : {A : Type 0} → ℕ → ℕ → Table A → ℕ
step left pos t = (pos + (t.size - suc left)) % t.size

module _ {A : Type 0} (hash : A → ℕ) (same : A → A → Bool) where
  -- The loop of `search` at a position, with `left` for `tableSize - increment`.
  unfoldable pub search_loop : ℕ → ℕ → A → Table A → Option ℕ
  search_loop zero pos item t = elim (t.slots pos) [
    | full x ↦ if same item x then some pos else none
    | _ ↦ none
  ]
  search_loop (suc left) pos item t =
      let rest = search_loop left (step left pos t) item t in
      elim (t.slots pos) [
        | empty ↦ none
        | removed ↦ rest
        | full x ↦ if same item x then some pos else rest
      ]

  unfoldable pub search : A → Table A → Option ℕ
  unfolding search_loop
  search item t = search_loop (t.size - 1) (hash item % t.size) item t

  unfoldable pub probe_loop : ℕ → ℕ → A → Table A → Probe
  probe_loop zero pos item t = elim (t.slots pos) [
    | full x ↦ if same item x then found pos else cycled
    | _ ↦ free pos
  ]
  probe_loop (suc left) pos item t =
      let rest = probe_loop left (step left pos t) item t in
      elim (t.slots pos) [ full x ↦ if same item x then found pos else rest | _ ↦ free pos ]

  unfoldable pub probe : A → Table A → Probe
  unfolding probe_loop
  probe item t = probe_loop (t.size - 1) (hash item % t.size) item t

  -- `none` is the abort, or the end of the fuel, which bounds the depth of the calls through
  -- `resize`.
  unfoldable pub insert : ℕ → A → Table A → Option (Bool × ℕ × Table A)
  unfolding probe new_size resize then_insert finish
  insert zero item t = none
  insert (suc fuel) item t =
      let again = then_insert (insert fuel) item (resize (insert fuel) (new_size t) t) in
      finish again item t (probe item t)
