-- ===== src/Stack/Area.antt =====
-- `PrologStack` of src/stack_qp.h on the `PageTable` of src/page_table.h. A fatal error is `none`.
use qu_prolog.Base.{ℕ, ◌+◌, ◌-◌, ◌*◌, ◌/◌, ◌^◌, Option, none, some, ltb, leb, if◌then◌else◌, update}
use qu_prolog.Base.Int.{word32}

-- `index` and `allocatedSize` of the table, and the stack's own fields.
pub record Stack : Type 0 where
  pub items : ℕ → ℕ
  pub allocated_size : ℕ
  pub top : ℕ
  pub overflow : ℕ
  pub high_water_mark : ℕ

-- Sizes are given in `K`.
unfoldable pub new_stack : (ℕ → ℕ) → ℕ → ℕ → Stack
new_stack items size boundary =
    let area = word32 (size * 1024) in
    record {
      items = items;
      allocated_size = area;
      top = 0;
      overflow = word32 (area + 2 ^ 32 - word32 (boundary * 1024));
      high_water_mark = 0;
    }

-- `allocateEntries`, up to a location.
unfoldable pub allocate_entries : ℕ → Stack → Option Stack
allocate_entries end s = if ltb s.allocated_size end then none else some s

unfoldable pub overflow_check : ℕ → ℕ → Stack → Option Stack
overflow_check old_top new_top s =
    if ltb s.high_water_mark new_top
    then (if leb new_top s.overflow
        then some (record s { high_water_mark = new_top })
        else if leb old_top s.overflow
        then none
        else some s)
    else some s

unfoldable pub set_top_of_stack : ℕ → Stack → Stack
set_top_of_stack new_top s = record s { top = new_top }

unfoldable pub push_element : ℕ → Stack → Option Stack
unfolding allocate_entries overflow_check
push_element word s = elim (allocate_entries (word32 (s.top + 1)) s) [
  | none ↦ none
  | some t ↦
      let u = record t { items = update t.items t.top word; top = word32 (t.top + 1) } in
      overflow_check (word32 (u.top + 2 ^ 32 - 1)) u.top u
]

-- The element, and the stack without it.
unfoldable pub pop_element : Stack → ℕ × Stack
pop_element s = let below = word32 (s.top + 2 ^ 32 - 1) in (s.items below, record s { top = below })

unfoldable pub round_basic_unit : ℕ → ℕ → ℕ
round_basic_unit size basic = word32 (size + basic + 2 ^ 32 - 1) / basic

-- The location of the first element, and the stack.
unfoldable pub allocate_elements : ℕ → Stack → Option (ℕ × Stack)
unfolding allocate_entries overflow_check
allocate_elements n s = elim (allocate_entries (word32 (s.top + n)) s) [
  | none ↦ none
  | some t ↦
      let u = record t { top = word32 (t.top + n) } in
      elim (overflow_check s.top u.top u) [ none ↦ none | some v ↦ some (s.top, v) ]
]

-- `allocateBlock`: a size in bytes, of words of 4 bytes.
unfoldable pub allocate_block : ℕ → Stack → Option (ℕ × Stack)
unfolding allocate_elements round_basic_unit
allocate_block size s = allocate_elements (round_basic_unit size 4) s
