-- ===== src/Stack/Record.antt =====
-- `RecordStack` of src/record_stack.h: each record is followed by the old top of the stack.
use qu_prolog.Base.{ℕ, ◌+◌, ◌-◌, ◌^◌, Option, none, some, update}
use qu_prolog.Base.Int.{word32}
use qu_prolog.Stack.Area.{
  Stack, allocate_block, push_element, pop_element, set_top_of_stack, round_basic_unit,
}

unfoldable pub push_record : ℕ → Stack → Option (ℕ × Stack)
unfolding allocate_block push_element
push_record size s = elim (allocate_block size s) [
  | none ↦ none
  | some (loc, t) ↦ elim (push_element s.top t) [ none ↦ none | some u ↦ some (loc, u) ]
]

unfoldable pub pop_record : Stack → Stack
unfolding pop_element set_top_of_stack
pop_record s = let (old_top, t) = pop_element s in set_top_of_stack old_top t

unfoldable pub trim_record : ℕ → ℕ → Stack → Option Stack
unfolding pop_element set_top_of_stack push_element round_basic_unit
trim_record loc size s =
    let (old_top, t) = pop_element s in
    push_element old_top (set_top_of_stack (word32 (loc + round_basic_unit size 4)) t)

unfoldable pub previous_top : ℕ → Stack → ℕ
previous_top loc s = s.items (word32 (loc + 2 ^ 32 - 1))

unfoldable pub change_previous_top : ℕ → ℕ → Stack → Stack
change_previous_top loc value s = record s {
  items = update s.items (word32 (loc + 2 ^ 32 - 1)) value;
}

unfoldable pub number_of_stack_words : ℕ → ℕ
unfolding round_basic_unit
number_of_stack_words size = word32 (round_basic_unit size 4 + 1)

unfoldable pub reset_top_of_stack : ℕ → ℕ → Stack → Stack
unfolding set_top_of_stack round_basic_unit
reset_top_of_stack loc size s = set_top_of_stack (word32 (loc + round_basic_unit size 4 + 1)) s

-- A word of a record is written, through the address that `fetchAddr` gives.
unfoldable pub write_word : ℕ → ℕ → Stack → Stack
write_word loc word s = record s { items = update s.items loc word }
