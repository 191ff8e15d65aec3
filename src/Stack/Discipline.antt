-- ===== src/Stack/Discipline.antt =====
-- Records that are pushed and popped in order (src/record_stack.h).
use qu_prolog.Base.{
  ℕ, ◌+◌, ◌^◌, ◌≤◌, ◌<◌, ◌≡◌, ◌≢◌, ◌⊎◌, ◌↔◌, refl, sym, ap, ◌∙◌, subst, List, [], ◌∷◌, Option, none,
  some, arith, leb, update, Bool-cases, inl, inr,
}
use qu_prolog.Stack.Area.{Stack}
use qu_prolog.Stack.Record.{push_record, pop_record, trim_record, write_word}
use qu_prolog.Stack.Push.{
  WellFormed, raised, words, push_record_lem, push_record-none, pop_record_lem, trim_record_lem,
}

-- Pushing a record fails exactly where the record and the word behind it would go over the
-- overflow boundary. The stack is well formed, and the size of the record fits 32 bits when it is
-- rounded.
pub push_record-fails :
    (size : ℕ) (s : Stack)
    → WellFormed s
    → size + 3 < 2 ^ 32
    → (push_record size s ≡ none) ↔ (s.overflow < s.top + words size + 1)
push_record-fails size s w l = (forth, push_record-none size s w l)
  where
    forth : push_record size s ≡ none → s.overflow < s.top + words size + 1
    forth h = elim (Bool-cases (leb (s.top + words size + 1) s.overflow)) [
      | inl e ↦
          let fits : s.top + words size + 1 ≤ s.overflow = ground (arith, e) in
          let never = sym h ∙ push_record_lem size s w l fits in absurd (ground (arith, never))
      | inr e ↦ ground (arith, e)
    ]

-- Records, the newest first: where each begins, and its number of words.
abbrev pub Records : Type 0
Records = List (ℕ × ℕ)

-- The records lie one on the other from a bottom on to the top, each with the old top behind it.
unfoldable pub Above : ℕ → Records → (ℕ → ℕ) → ℕ → Type 0
Above bottom [] items top = top ≡ bottom
Above bottom ((loc, n) ∷ rs) items top =
    (top ≡ loc + n + 1) × (items (loc + n) ≡ loc) × Above bottom rs items loc

-- The word is one of a record.
unfoldable pub InRecord : Records → ℕ → Type 0
InRecord [] a = ⊥
InRecord ((loc, n) ∷ rs) a = ((loc ≤ a) × (a < loc + n)) ⊎ ((a < loc) × InRecord rs a)

-- What is done from a stack on: the records that were pushed since then, and the stack. Only those
-- are popped, trimmed and written to.
pub data Run (s : Stack) : Records → Stack → Type 0 where
  start : Run s [] s
  push :
      {rs : Records} {t u : Stack} (size loc : ℕ)
      → Run s rs t
      → size + 3 < 2 ^ 32
      → push_record size t ≡ some (loc, u)
      → Run s ((loc, words size) ∷ rs) u
  pop : {rs : Records} {t : Stack} {loc n : ℕ} → Run s ((loc, n) ∷ rs) t → Run s rs (pop_record t)
  trim :
      {rs : Records} {t u : Stack} {loc n : ℕ} (size : ℕ)
      → Run s ((loc, n) ∷ rs) t
      → size + 3 < 2 ^ 32
      → words size ≤ n
      → trim_record loc size t ≡ some u
      → Run s ((loc, words size) ∷ rs) u
  write :
      {rs : Records} {t : Stack} (a word : ℕ)
      → Run s rs t
      → InRecord rs a
      → Run s rs (write_word a word t)

Above-le :
    (bottom : ℕ) (rs : Records) (items : ℕ → ℕ) (top : ℕ) → Above bottom rs items top → bottom ≤ top
unfolding Above
Above-le bottom [] items top h = omega (arith, h)
Above-le bottom ((loc, n) ∷ rs) items top h = omega (arith, h.0, Above-le bottom rs items loc h.2)

Above-same :
    (bottom : ℕ) (rs : Records) (items others : ℕ → ℕ) (top : ℕ)
    → ((a : ℕ) → a < top → others a ≡ items a)
    → Above bottom rs items top
    → Above bottom rs others top
unfolding Above
Above-same bottom [] items others top f h = h
Above-same bottom ((loc, n) ∷ rs) items others top f h = (
  h.0,
  f (loc + n) (omega (arith, h.0)) ∙ h.1,
  Above-same bottom rs items others loc (λ a l. f a (omega (arith, l, h.0))) h.2,
)

update_other : (items : ℕ → ℕ) (a word b : ℕ) → a ≢ b → update items a word b ≡ items b
update_other items a word b h = ground (arith, h)

Above-update :
    (bottom : ℕ) (rs : Records) (items : ℕ → ℕ) (top a word : ℕ)
    → InRecord rs a
    → Above bottom rs items top
    → Above bottom rs (update items a word) top
unfolding Above InRecord
Above-update bottom ((loc, n) ∷ rs) items top a word (inl i) h = (
  h.0,
  update_other items a word (loc + n) (omega (arith, i.1)) ∙ h.1,
  Above-same bottom rs items (update items a word) loc
      (λ b l. update_other items a word b (omega (arith, i.0, l))) h.2,
)
Above-update bottom ((loc, n) ∷ rs) items top a word (inr i) h = (
  h.0,
  update_other items a word (loc + n) (omega (arith, i.0)) ∙ h.1,
  Above-update bottom rs items loc a word i.1 h.2,
)
Above-update bottom [] items top a word i h = elim i [ ]

InRecord-Above :
    (bottom : ℕ) (rs : Records) (items : ℕ → ℕ) (top a : ℕ)
    → InRecord rs a
    → Above bottom rs items top
    → bottom ≤ a
unfolding Above InRecord
InRecord-Above bottom ((loc, n) ∷ rs) items top a (inl i) h =
    omega (arith, i.0, Above-le bottom rs items loc h.2)
InRecord-Above bottom ((loc, n) ∷ rs) items top a (inr i) h =
    InRecord-Above bottom rs items loc a i.1 h.2
InRecord-Above bottom [] items top a i h = elim i [ ]

-- What holds after a run.
pub record Kept (s : Stack) (rs : Records) (t : Stack) : Type 0 where
  pub well_formed : WellFormed t
  pub above : Above s.top rs t.items t.top
  pub below : (a : ℕ) → a < s.top → t.items a ≡ s.items a

pushed : ℕ → Stack → Stack
pushed size t = record t {
  items = update t.items (t.top + words size) t.top;
  top = t.top + words size + 1;
  high_water_mark = raised (raised t.high_water_mark (t.top + words size)) (t.top + words size + 1);
}

pushed-Kept :
    (s : Stack) (rs : Records) (t : Stack) (size : ℕ)
    → Kept s rs t
    → t.top + words size + 1 ≤ t.overflow
    → Kept s ((t.top, words size) ∷ rs) (pushed size t)
unfolding pushed Above
pushed-Kept s rs t size k h =
    let w = k.well_formed in
    let n = words size in
    let over : s.top ≤ t.top = Above-le s.top rs t.items t.top k.above in
    record {
      well_formed = record {
        used = ground arith;
        within = ground (arith, h, w.within);
        allocated = w.allocated;
        small = w.small;
      };
      above = (
        refl,
        ground arith,
        Above-same s.top rs t.items _ t.top
            (λ a l. update_other t.items (t.top + n) t.top a (omega (arith, l))) k.above,
      );
      below =
          λ a l. update_other t.items (t.top + n) t.top a (omega (arith, l, over)) ∙ k.below a l;
    }

trimmed : ℕ → ℕ → ℕ → Stack → Stack
trimmed loc n size t = record t {
  items = update t.items (loc + words size) (t.items (loc + n));
  top = loc + words size + 1;
  high_water_mark = raised t.high_water_mark (loc + words size + 1);
}

trimmed-Kept :
    (s : Stack) (rs : Records) (t : Stack) (loc n size : ℕ)
    → Kept s ((loc, n) ∷ rs) t
    → words size ≤ n
    → Kept s ((loc, words size) ∷ rs) (trimmed loc n size t)
unfolding trimmed Above
trimmed-Kept s rs t loc n size k h =
    let w = k.well_formed in
    let (top, link, under) = k.above in
    let over : s.top ≤ loc = Above-le s.top rs t.items loc under in
    record {
      well_formed = record {
        used = ground arith;
        within = ground (arith, h, top, w.used, w.within);
        allocated = w.allocated;
        small = w.small;
      };
      above = (
        refl,
        ground (arith, link),
        Above-same s.top rs t.items _ loc
            (λ a l.
              update_other t.items (loc + words size) (t.items (loc + n)) a (omega (arith, l)))
            under,
      );
      below = λ a l.
          update_other t.items (loc + words size) (t.items (loc + n)) a (omega (arith, l, over))
          ∙ k.below a l;
    }

-- Whatever records are pushed, trimmed, written to and popped from a well-formed stack on, none of
-- those that were there before: the stack stays well formed, the new records lie one on the other
-- from the old top on, and every word below the old top is as it was. When all new records are
-- popped, the top is the old one.
pub Run-Kept : (s : Stack) → WellFormed s → {rs : Records} {t : Stack} → Run s rs t → Kept s rs t
unfolding Above pushed trimmed write_word
Run-Kept s w start = record { well_formed = w; above = refl; below = λ a l. refl }
Run-Kept s w (push {rs} {t} {u} size loc r l h) =
    let k = Run-Kept s w r in
    elim (Bool-cases (leb (t.top + words size + 1) t.overflow)) [
      | inl e ↦
          let fits : t.top + words size + 1 ≤ t.overflow = ground (arith, e) in
          let both : ◌≡◌ {A = Option (ℕ × Stack)} (some (t.top, pushed size t)) (some (loc, u)) =
            sym (push_record_lem size t k.well_formed l fits) ∙ h in
          let place : t.top ≡ loc = cc both in
          let same : pushed size t ≡ u = cc both in
          subst (λ x. Kept s ((x, words size) ∷ rs) u) place
            (subst (Kept s ((t.top, words size) ∷ rs)) same (pushed-Kept s rs t size k fits))
      | inr e ↦
          let never : ◌≡◌ {A = Option (ℕ × Stack)} none (some (loc, u)) =
            sym (push_record-none size t k.well_formed l (ground (arith, e))) ∙ h in
          absurd (ground (arith, never))
    ]
Run-Kept s w (pop {rs} {t} {loc} {n} r) =
    let k = Run-Kept s w r in
    let v = k.well_formed in
    let (top, link, under) = k.above in
    let popped : pop_record t ≡ record t { top = loc } =
      pop_record_lem t (loc + n) top (omega (arith, top, v.used, v.within, v.allocated, v.small))
      ∙ ap (λ x. record t { top = x }) link in
    subst (Kept s rs) (sym popped) (record {
      well_formed = record {
        used = omega (arith, top, v.used);
        within = v.within;
        allocated = v.allocated;
        small = v.small;
      };
      above = under;
      below = k.below;
    })
Run-Kept s w (trim {rs} {t} {u} {loc} {n} size r l m h) =
    let k = Run-Kept s w r in
    let both : ◌≡◌ {A = Option Stack} (some (trimmed loc n size t)) (some u) =
      sym (trim_record_lem t loc n size k.well_formed k.above.0 l m) ∙ h in
    let same : trimmed loc n size t ≡ u = cc both in
    subst (Kept s ((loc, words size) ∷ rs)) same (trimmed-Kept s rs t loc n size k m)
Run-Kept s w (write {rs} {t} a word r i) =
    let k = Run-Kept s w r in
    let v = k.well_formed in
    let over : s.top ≤ a = InRecord-Above s.top rs t.items t.top a i k.above in
    record {
      well_formed = record {
        used = v.used;
        within = v.within;
        allocated = v.allocated;
        small = v.small;
      };
      above = Above-update s.top rs t.items t.top a word i k.above;
      below = λ b l. update_other t.items a word b (omega (arith, l, over)) ∙ k.below b l;
    }
