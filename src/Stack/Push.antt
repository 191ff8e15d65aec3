-- ===== src/Stack/Push.antt =====
-- When there is room on a stack of src/stack_qp.h, and what pushing and popping then come to.
use qu_prolog.Base.{
  ℕ, ◌+◌, ◌-◌, ◌/◌, ◌^◌, ◌≤◌, ◌<◌, ◌≡◌, refl, ap, ◌∙◌, true, false, none, some, arith, ltb, leb,
  if◌then◌else◌, update, Bool-cases, inl, inr,
}
use qu_prolog.Base.Int.{word32}
use qu_prolog.Stack.Area.{
  Stack, allocate_entries, overflow_check, set_top_of_stack, push_element, pop_element,
  round_basic_unit, allocate_elements, allocate_block,
}
use qu_prolog.Stack.Record.{push_record, pop_record, trim_record}

-- The stack has not run over, and its marks are in order.
pub record WellFormed (s : Stack) : Type 0 where
  pub used : s.top ≤ s.high_water_mark
  pub within : s.high_water_mark ≤ s.overflow
  pub allocated : s.overflow ≤ s.allocated_size
  pub small : s.allocated_size ≤ 2 ^ 31

-- The greatest of a mark and a top.
abbrev pub raised : ℕ → ℕ → ℕ
raised mark top = if ltb mark top then top else mark

module _ (old new : ℕ) (s : Stack) where
  check_passes :
      new ≤ s.overflow
      → overflow_check old new s
        ≡ some (record s { high_water_mark = raised s.high_water_mark new })
  unfolding overflow_check
  check_passes h = elim (Bool-cases (ltb s.high_water_mark new)) [
    | inl e ↦
        let fits : leb new s.overflow ≡ true = ground (arith, h) in
        rw (overflow_check, e, fits) refl
    | inr e ↦ rw (overflow_check, e) refl
  ]

  check_fails :
      s.overflow < new
      → s.high_water_mark ≤ s.overflow
      → old ≤ s.overflow
      → overflow_check old new s ≡ none
  unfolding overflow_check
  check_fails h k l =
      let high : ltb s.high_water_mark new ≡ true = ground (arith, h, k) in
      let over : leb new s.overflow ≡ false = ground (arith, h) in
      let was : leb old s.overflow ≡ true = ground (arith, l) in
      rw (overflow_check, high, over, was) refl

entries_there : (end : ℕ) (s : Stack) → end ≤ s.allocated_size → allocate_entries end s ≡ some s
unfolding allocate_entries
entries_there end s h =
    let fits : ltb s.allocated_size end ≡ false = ground (arith, h) in
    rw (allocate_entries, fits) refl

entries_missing : (end : ℕ) (s : Stack) → s.allocated_size < end → allocate_entries end s ≡ none
unfolding allocate_entries
entries_missing end s h =
    let over : ltb s.allocated_size end ≡ true = ground (arith, h) in
    rw (allocate_entries, over) refl

word32-small : (n : ℕ) → n < 2 ^ 32 → word32 n ≡ n
word32-small n h = omega arith

word32-before : (n : ℕ) → n + 1 < 2 ^ 32 → word32 (n + 1 + 2 ^ 32 - 1) ≡ n
word32-before n h = omega arith

module _ (s : Stack) (w : WellFormed s) where
  push_element_lem :
      (word : ℕ)
      → s.top + 1 ≤ s.overflow
      → push_element word s
        ≡ some (record s {
          items = update s.items s.top word;
          top = s.top + 1;
          high_water_mark = raised s.high_water_mark (s.top + 1);
        })
  unfolding push_element
  push_element_lem word h =
      let next : word32 (s.top + 1) ≡ s.top + 1 =
        word32-small (s.top + 1) (omega (arith, h, w.allocated, w.small)) in
      let there : allocate_entries (word32 (s.top + 1)) s ≡ some s =
        entries_there _ s (omega (arith, next, h, w.allocated)) in
      let u : Stack = record s { items = update s.items s.top word; top = s.top + 1 } in
      rw (push_element, there, next) (check_passes _ (s.top + 1) u h)

  push_element-none : (word : ℕ) → s.overflow < s.top + 1 → push_element word s ≡ none
  unfolding push_element
  push_element-none word h =
      let next : word32 (s.top + 1) ≡ s.top + 1 =
        word32-small (s.top + 1) (omega (arith, w.used, w.within, w.allocated, w.small)) in
      let before : word32 (s.top + 1 + 2 ^ 32 - 1) ≡ s.top =
        word32-before s.top (omega (arith, w.used, w.within, w.allocated, w.small)) in
      let u : Stack = record s { items = update s.items s.top word; top = s.top + 1 } in
      elim (Bool-cases (ltb s.allocated_size (s.top + 1))) [
        | inl e ↦
            let missing : allocate_entries (word32 (s.top + 1)) s ≡ none =
              entries_missing _ s (ground (arith, next, e)) in
            rw (push_element, missing) refl
        | inr e ↦
            let there : allocate_entries (word32 (s.top + 1)) s ≡ some s =
              entries_there _ s (ground (arith, next, e)) in
            rw (push_element, there, next, before)
              (check_fails s.top (s.top + 1) u h w.within (omega (arith, w.used, w.within)))
      ]

  module _ (n : ℕ) (l : n ≤ 2 ^ 30) where
    no_wrap : word32 (s.top + n) ≡ s.top + n
    no_wrap = word32-small (s.top + n) (omega (arith, l, w.used, w.within, w.allocated, w.small))

    allocate_elements_lem :
        s.top + n ≤ s.overflow
        → allocate_elements n s
          ≡ some (
            s.top,
            record s { top = s.top + n; high_water_mark = raised s.high_water_mark (s.top + n) },
          )
    unfolding allocate_elements
    allocate_elements_lem h =
        let there : allocate_entries (word32 (s.top + n)) s ≡ some s =
          entries_there _ s (omega (arith, no_wrap, h, w.allocated)) in
        let u : Stack = record s { top = s.top + n } in
        rw (allocate_elements, there, no_wrap, check_passes s.top (s.top + n) u h) refl

    allocate_elements-none : s.overflow < s.top + n → allocate_elements n s ≡ none
    unfolding allocate_elements
    allocate_elements-none h =
        let u : Stack = record s { top = s.top + n } in
        elim (Bool-cases (ltb s.allocated_size (s.top + n))) [
          | inl e ↦
              let missing : allocate_entries (word32 (s.top + n)) s ≡ none =
                entries_missing _ s (ground (arith, no_wrap, e)) in
              rw (allocate_elements, missing) refl
          | inr e ↦
              let there : allocate_entries (word32 (s.top + n)) s ≡ some s =
                entries_there _ s (ground (arith, no_wrap, e)) in
              rw
                (
                  allocate_elements,
                  there,
                  no_wrap,
                  check_fails s.top (s.top + n) u h w.within (omega (arith, w.used, w.within)),
                )
                refl
        ]

-- The words of a record of a size in bytes.
abbrev pub words : ℕ → ℕ
words size = (size + 3) / 4

round_words : (size : ℕ) → size + 3 < 2 ^ 32 → round_basic_unit size 4 ≡ words size
unfolding round_basic_unit
round_words size h =
    let same : word32 (size + 4 + 2 ^ 32 - 1) ≡ size + 3 = omega (arith, h) in ap (λ n. n / 4) same

module _ (size : ℕ) (s : Stack) (w : WellFormed s) (l : size + 3 < 2 ^ 32) where
  -- The record begins at the old top, which is kept behind it.
  pub push_record_lem :
      s.top + words size + 1 ≤ s.overflow
      → push_record size s
        ≡ some (
          s.top,
          record s {
            items = update s.items (s.top + words size) s.top;
            top = s.top + words size + 1;
            high_water_mark =
                raised (raised s.high_water_mark (s.top + words size)) (s.top + words size + 1);
          },
        )
  unfolding push_record allocate_block
  push_record_lem h =
      let n = words size in
      let t : Stack = record s {
        top = s.top + n;
        high_water_mark = raised s.high_water_mark (s.top + n);
      } in
      let ok : WellFormed t = record {
        used = ground arith;
        within = ground (arith, h, w.within);
        allocated = w.allocated;
        small = w.small;
      } in
      let block : allocate_block size s ≡ some (s.top, t) =
        ap (λ k. allocate_elements k s) (round_words size l)
        ∙ allocate_elements_lem s w n (omega (arith, l)) (omega (arith, h)) in
      rw (push_record, block, push_element_lem t ok s.top h) refl

  pub push_record-none : s.overflow < s.top + words size + 1 → push_record size s ≡ none
  unfolding push_record allocate_block
  push_record-none h =
      let n = words size in
      let t : Stack = record s {
        top = s.top + n;
        high_water_mark = raised s.high_water_mark (s.top + n);
      } in
      elim (Bool-cases (leb (s.top + n) s.overflow)) [
        | inl e ↦
            let fits : s.top + n ≤ s.overflow = ground (arith, e) in
            let ok : WellFormed t = record {
              used = ground arith;
              within = ground (arith, fits, w.within);
              allocated = w.allocated;
              small = w.small;
            } in
            let block : allocate_block size s ≡ some (s.top, t) =
              ap (λ k. allocate_elements k s) (round_words size l)
              ∙ allocate_elements_lem s w n (omega (arith, l)) fits in
            rw (push_record, block, push_element-none t ok s.top h) refl
        | inr e ↦
            let block : allocate_block size s ≡ none =
              ap (λ k. allocate_elements k s) (round_words size l)
              ∙ allocate_elements-none s w n (omega (arith, l)) (ground (arith, e)) in
            rw (push_record, block) refl
      ]

pub pop_record_lem :
    (s : Stack) (t : ℕ)
    → s.top ≡ t + 1
    → t + 1 < 2 ^ 32
    → pop_record s ≡ record s { top = s.items t }
unfolding pop_record pop_element set_top_of_stack
pop_record_lem s t h l =
    let below : word32 (s.top + 2 ^ 32 - 1) ≡ t =
      ap (λ n. word32 (n + 2 ^ 32 - 1)) h ∙ word32-before t l in
    ap (λ n. record s { top = s.items n }) below

pub trim_record_lem :
    (s : Stack) (loc n size : ℕ)
    → WellFormed s
    → s.top ≡ loc + n + 1
    → size + 3 < 2 ^ 32
    → words size ≤ n
    → trim_record loc size s
      ≡ some (record s {
        items = update s.items (loc + words size) (s.items (loc + n));
        top = loc + words size + 1;
        high_water_mark = raised s.high_water_mark (loc + words size + 1);
      })
unfolding trim_record pop_element set_top_of_stack
trim_record_lem s loc n size w h l m =
    let bound : loc + n + 1 ≤ 2 ^ 31 = omega (arith, h, w.used, w.within, w.allocated, w.small) in
    let below : word32 (s.top + 2 ^ 32 - 1) ≡ loc + n =
      ap (λ k. word32 (k + 2 ^ 32 - 1)) h ∙ word32-before (loc + n) (omega (arith, bound)) in
    let start : word32 (loc + round_basic_unit size 4) ≡ loc + words size =
      ap (λ k. word32 (loc + k)) (round_words size l)
      ∙ word32-small (loc + words size) (omega (arith, bound, m)) in
    let t : Stack = record s { top = loc + words size } in
    let ok : WellFormed t = record {
      used = omega (arith, h, m, w.used);
      within = w.within;
      allocated = w.allocated;
      small = w.small;
    } in
    ap (λ k. push_element (s.items k) (record s { top = word32 (loc + round_basic_unit size 4) }))
      below
    ∙ ap (λ k. push_element (s.items (loc + n)) (record s { top = k })) start
    ∙ push_element_lem t ok (s.items (loc + n)) (omega (arith, h, m, w.used, w.within))
