-- ===== src/Stack.antt =====
-- The stacks of the abstract machine, src/page_table.h, src/stack_qp.h and src/record_stack.h.
pub mod Area
pub mod Record
pub mod Push
pub mod Discipline
