-- ===== src/Tests/Records.antt =====
-- Examples: the record stack.
use qu_prolog.Base.{ℕ, ◌+◌, ◌<◌, ◌≡◌, ◌↔◌, refl, [], ◌∷◌, Option, none, some, arith, inl}
use qu_prolog.Stack.Area.{
  Stack, new_stack, allocate_entries, overflow_check, push_element, pop_element, set_top_of_stack,
  round_basic_unit, allocate_elements, allocate_block,
}
use qu_prolog.Stack.Record.{push_record, pop_record, write_word}
use qu_prolog.Stack.Push.{WellFormed, words}
use qu_prolog.Stack.Discipline.{push_record-fails, Run, Kept, InRecord, Run-Kept}

-- A stack of 1 K, without a margin.
abbrev bare : Stack
bare = new_stack (λ a. 0) 1 0

bare-WellFormed : WellFormed bare
unfolding new_stack
bare-WellFormed = record {
  used = omega arith;
  within = omega arith;
  allocated = omega arith;
  small = omega arith;
}

push_record-fails_example :
    (push_record 4096 bare ≡ none) ↔ (bare.overflow < bare.top + words 4096 + 1)
push_record-fails_example = push_record-fails 4096 bare bare-WellFormed (omega arith)

full : push_record 4096 bare ≡ none
unfolding push_record allocate_block allocate_elements allocate_entries overflow_check push_element
    round_basic_unit new_stack
full = refl

abbrev stack_of : Option (ℕ × Stack) → Stack
stack_of none = bare
stack_of (some (loc, s)) = s

abbrev one : Stack
one = stack_of (push_record 12 bare)

abbrev two : Stack
two = stack_of (push_record 5 (write_word 1 77 one))

one-two : Run bare ((0, 3) ∷ []) (pop_record two)
unfolding push_record allocate_block allocate_elements allocate_entries overflow_check push_element
    round_basic_unit new_stack write_word InRecord
one-two = Run.pop (
    Run.push 5 4
      (Run.write 1 77 (Run.push 12 0 Run.start (omega arith) refl) (inl (omega arith, omega arith)))
      (omega arith) refl)

Run-Kept_example : Kept bare ((0, 3) ∷ []) (pop_record two)
Run-Kept_example = Run-Kept bare bare-WellFormed one-two

kept_word : (pop_record two).items 1 ≡ 77
unfolding push_record allocate_block allocate_elements allocate_entries overflow_check push_element
    pop_element pop_record set_top_of_stack round_basic_unit new_stack write_word
kept_word = refl
