-- ===== src/Lib.antt =====
-- Qu-Prolog: the core of its abstract machine.
--
-- Qu-Prolog is a Prolog system with quantified terms and object variables. A compiler
-- (prolog/compiler) makes byte code, an assembler and a linker make an executable of it, and the
-- emulator src/execute.cc runs it for each thread. A thread has a heap of terms, two trails, a
-- stack of environments and a stack of choice points; the emulator calls the escapes (pseudo
-- instructions), each of which is a method of the thread. This library models the parts that the
-- soundness of a computation rests on: the trails and the trailed writes that make backtracking
-- possible, the standard order of terms, the occurs check, arithmetic, the hash table that escapes
-- use, unification, dynamic predicates, the encoding of terms, and the record stack.
--
-- The files, with the code that each models:
--   Base, Base/*         Boolean tests on the numbers, lists and integers over the native numbers.
--   Trail/Entry          src/trail.h, TrailEntry and its subclasses; src/dynamic_code.h, aquire and
--                        release. A trail entry is a constructor; its virtual functions are
--                        functions by cases.
--   Trail/Other          src/trail.h, OtherTrail. Trail/Binding: BindingTrail.
--   Trail/Undo, Tidy     what undoing and tidying a list of entries does to the store.
--   Trail/Cut, Reset     backtracking a trail that was tidied.
--   Machine              src/heap_qp.h (allocateHeapSpace), src/bind.h (bindAndTrail, bindVarVar,
--                        updateAndTrailObject, updateAndTrailIP, trailTag), src/thread_qp.h
--                        (saveHeapAndTrails, backtrackTo, tidyTrails), src/choice.h.
--   Machine/Steps        what runs between two choice points, as a step relation.
--   Machine/Invariant, Writes, Recovery, Backtrack, Cut
--                        the invariant of the trails, its preservation by each write and by each
--                        step, and what backtracking and cutting then do.
--   Compare/Term, Order  src/compare.cc, compareTerms and its escapes. Compare/Swap, Laws: its laws.
--   Hash/Table           src/dynamic_hash_table.h, DynamicHashTable. Hash/Probe, Insert: the loops of
--                        search and insert. Hash/Surjective, Triangular, Coverage: which slots the
--                        loops visit. Hash/Count, Room, Total, Invariant: the invariant of a table,
--                        and how insert and resize end.
--   Arith/*              src/arithmetic.cc: arithEvaluate with one function per operator
--                        (Operators), the evaluator (Evaluate), the pseudo instructions (Escapes),
--                        and the laws of 64-bit arithmetic (Exact), of evaluation (Reference), of
--                        errors (Errors), and of the places where the code goes wrong (Defects).
--   Occurs/*             src/truth3.h and simpleOccursCheck of src/occurs_check.cc.
--   Dynamic/Key, Chain, Predicate
--                        src/dynamic_code.h and src/dynamic_code.cc (CodeBlock, ChainEnds,
--                        DynamicPredicate) and psi_assert, psi_retract, psi_get_first_clause and
--                        psi_get_next_clause of src/dyn_code.cc.
--   Dynamic/Represents, Entries, Upkeep
--                        how the chains stand for a list of clauses, and what the operations do to
--                        it. Dynamic/Views, Live, Runs: what a call sees, and goes on seeing.
--   Dynamic/Database     a dynamic predicate as a list of clauses. Dynamic/Defects: the index.
--   Encode/Term, Map, Number, Write, Read
--                        src/encode.h and src/encode.cc (EncodeMap, EncodeWrite, EncodeRead), and
--                        checkBinder of src/distinction.cc.
--   Encode/Words, Keys, Images, Growth, Steps, KeyReads, Leaves, Nodes, Substitutions
--                        what is written and read of numbers, of the map, and of each kind of
--                        term. Encode/Copy, RoundTrip, Success, Negative: what comes back.
--                        Encode/Shrinks, Fuel: that the reader ends.
--   Unify                src/unify.cc (Thread::unify, unifyVarOCTerm).
--   Unify/Object, Check  src/objects.h, objects.cc (tags, accessors, variableDereference,
--                        equalUninterp) and, on memory, src/occurs_check.cc and occurs_check.h.
--   Unify/Solution       the layout of objects in memory, and what memory means: solutions.
--   Unify/Frame, Correct, Rules, Reads, Inside, Foreign, Shape, Answers, Table, Cases, Unifier
--                        each part of the switch keeps the layout and binds what it should.
--   Unify/Chains, Settles, Checked, Parts, Total, Success
--                        dereferencing, the occurs check and unification end where the terms have
--                        a unifier.
--   Unify/Generic, Outside, Measure, Progress, Descent, Decide, Decision
--                        unification ends also where it fails, if variables are occurs-checked.
--   Stack/Area           src/page_table.h (PageTable) and src/stack_qp.h (PrologStack).
--   Stack/Record         src/record_stack.h (RecordStack), under the stacks of environments and of
--                        choice points. Stack/Push, Discipline: when there is room, and what
--                        pushing and popping in order keep.
--   Tests/*              examples.
--
-- How the state corresponds. Memory is a function from word numbers to words; a pointer is a word
-- number and NULL is 0. A trail is a stack that grows down: its record keeps the pointers and the
-- list of what memory holds from its top to its high end, the newest first. Loops over a trail
-- are recursion on that list, with the pointer that the code compares; no fuel is needed. A fatal
-- overflow is `none`. The fuel of `insert` bounds the depth of its calls through `resize`, of
-- which there are at most three; the fuel of `doubled` is the number whose bits it shifts out. The
-- sizes of hash tables are numbers that do not overflow; the `int` of the code does for a table
-- that is made for more than 2^29 items.
-- The sizes of trail entries are those of an LP64 machine with 4-byte `u_int`. Integers of 64
-- bits are `ℤ` with the wrap-around written out. Doubles and the functions of the mathematical
-- library are a parameter (`Platform`). What a local variable holds before it is assigned is a
-- parameter, too.
-- A dynamic predicate owns its code blocks, which are numbered in the order in which they are made;
-- a chain of linked clauses is the list of its blocks, and the hash table of chains the list of its
-- entries (the table itself is in Hash). A stream is the list of its bytes; writing to it does not
-- fail. The fuel of the reader of terms bounds the depth of a term, which is less than the number
-- of bytes. Terms for the standard order, the occurs check and the encoding are trees: each node is
-- what dereferencing gives. Terms that are unified are objects in the words of memory: a tag and
-- the words after it, as in src/objects.h. Of their meaning, a solution gives each object a finite
-- tree, a bound variable the tree of its value. The fuel of `unify` bounds the depth of its calls
-- and the length of a chain of references.
--
-- Not modelled: names of variables that are kept when a term is encoded (`remember`), the emulator,
-- unification where substitutions, quantified terms, object variables or variables with extra
-- information take part, the freeness test, the garbage collector (and with it the marking
-- of trails), threads, input and output, the assembler and the linker, and the parts written in
-- Prolog.
mod Base
pub mod Trail
pub mod Machine
pub mod Compare
pub mod Dynamic
pub mod Hash
pub mod Occurs
pub mod Unify
pub mod Encode
pub mod Arith
pub mod Stack
mod Tests
