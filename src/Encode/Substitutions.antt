-- ===== src/Encode/Substitutions.antt =====
-- Lists of substitution blocks, written and read back (src/encode.cc, encodeWriteSub and
-- encodeReadSub), if their pairs are.
use qu_prolog.Base.{
  ℕ, zero, suc, ◌+◌, ◌-◌, ◌*◌, ◌^◌, ◌≤◌, ◌<◌, ◌≡◌, refl, sym, ap, ◌∙◌, subst, Bool, false, [], ◌∷◌,
  ◌++◌, append_assoc, Option, some, arith, length, length-append,
}
use qu_prolog.Base.Int.{pos}
use qu_prolog.Encode.Term.{Bytes, Term, Blocks, Pairs, no_blocks, then_block, size, subst_term}
use qu_prolog.Encode.Map.{Key, Map}
use qu_prolog.Encode.Images.{state_of, Agrees, Agrees-prefix}
use qu_prolog.Encode.Number.{write_number, low_word}
use qu_prolog.Encode.Growth.{
  Quiet, Quiet-append, Writes, then_write-Parts, then_write-Writes, then_write_assoc, emit-Writes,
  tagged-Writes, write_sub-Writes, write_pairs-Writes, write_term-Writes,
}
use qu_prolog.Encode.Steps.{Reads, headed-Reads, then-Reads, give-Reads, tagged-Reads, other-Reads}
use qu_prolog.Encode.Words.{then_read_lem, read_number-write_number}
use qu_prolog.Encode.Write.{Writer, emit, then_write, block_tag, write_sub, write_pairs, write_term}
use qu_prolog.Encode.Read.{
  State, Reader, then_read, give, read_char, read_number, read_pairs, read_block, read_more,
  read_sub, read_substitution, read_tagged, read_term,
}
use qu_prolog.Encode.Copy.{copied, copied_blocks, copied_pairs}

-- How many blocks there are.
blocks : Blocks → ℕ
blocks no_blocks = 0
blocks (then_block i ps s) = suc (blocks s)

-- Something that was written begins with the tag of a block.
abbrev Begins : Bytes → Type 0
Begins bs = (cs : Bytes) × (bs ≡ block_tag ∷ cs)

-- A tag, the size and the pairs.
abbrev write_block : (Key → Option Bytes) → Pairs → Writer
write_block name ps =
    then_write (emit (block_tag ∷ write_number (pos (size ps)))) (write_pairs name ps)

module _ (name : Key → Option Bytes) where
  write_block-Begins :
      (ps : Pairs) (m : Map) (bs : Bytes) (n : Map)
      → write_block name ps m ≡ some (bs, n)
      → Begins bs
  unfolding emit
  write_block-Begins ps m bs n w =
      let head = block_tag ∷ write_number (pos (size ps)) in
      let parts = then_write-Parts (emit head) (write_pairs name ps) m bs n w in
      let same : head ≡ parts.first = cc parts.wrote_first in
      (
        write_number (pos (size ps)) ++ parts.second,
        parts.whole ∙ ap (λ ds. ds ++ parts.second) (sym same),
      )

  length-write_sub :
      (s : Blocks) (m : Map) (bs : Bytes) (n : Map)
      → write_sub name s m ≡ some (bs, n)
      → blocks s ≤ length bs
  unfolding write_sub blocks
  length-write_sub no_blocks m bs n w = omega arith
  length-write_sub (then_block i ps s) m bs n w =
      let parts = then_write-Parts (write_sub name s) (write_block name ps) m bs n w in
      let (cs, begins) = write_block-Begins ps parts.middle parts.second n parts.wrote_second in
      let long : length bs ≡ length parts.first + suc (length cs) =
        ap length parts.whole
        ∙ length-append parts.first parts.second
        ∙ ap (λ ds. length parts.first + length ds) begins in
      omega (arith, long, length-write_sub s m parts.first parts.middle parts.wrote_first)

  write_sub-Begins :
      (i : Bool) (ps : Pairs) (s : Blocks) (m : Map) (bs : Bytes) (n : Map)
      → write_sub name (then_block i ps s) m ≡ some (bs, n)
      → Begins bs
  unfolding write_sub emit
  write_sub-Begins i ps no_blocks m bs n w =
      let parts = then_write-Parts (write_sub name no_blocks) (write_block name ps) m bs n w in
      let (cs, begins) = write_block-Begins ps parts.middle parts.second n parts.wrote_second in
      let nothing : [] ≡ parts.first = cc parts.wrote_first in
      (cs, parts.whole ∙ ap (λ ds. ds ++ parts.second) (sym nothing) ∙ begins)
  write_sub-Begins i ps (then_block j qs s) m bs n w =
      let parts =
        then_write-Parts (write_sub name (then_block j qs s)) (write_block name ps) m bs n w in
      let (cs, begins) = write_sub-Begins j qs s m parts.first parts.middle parts.wrote_first in
      (cs ++ parts.second, parts.whole ∙ ap (λ ds. ds ++ parts.second) begins)

read_more_end :
    (read : Reader Term) (k : ℕ) (sub : Blocks) (s : State) (rest : Bytes)
    → read_more read k sub s (11 ∷ rest) ≡ some (sub, s, rest)
unfolding read_more then_read read_char give
read_more_end read zero sub s rest = refl
read_more_end read (suc k) sub s rest = refl

module _ (name : Key → Option Bytes) (σ : Key → ℕ) where
  -- The pairs of every block are read back.
  abbrev pub PairsRead : ℕ → Blocks → Type 0
  PairsRead f no_blocks = Unit
  PairsRead f (then_block i ps s) =
      (size ps < 2 ^ 32)
      × Reads σ f (write_pairs name ps) (read_pairs (read_term f) (size ps)) (copied_pairs σ ps)
      × PairsRead f s

  block-Reads :
      (f : ℕ) (ps : Pairs) (sub : Blocks)
      → size ps < 2 ^ 32
      → Reads σ f (write_pairs name ps) (read_pairs (read_term f) (size ps)) (copied_pairs σ ps)
      → Reads σ f
          (write_block name ps)
          (then_read read_char λ tag. read_block (read_term f) sub)
          (then_block false (copied_pairs σ ps) sub)
  unfolding then_read read_char read_block give low_word
  block-Reads f ps sub small h =
      let w = write_number (pos (size ps)) in
      let pairs : ℕ → Reader Blocks =
        λ n. then_read (read_pairs (read_term f) n) λ qs. give (then_block false qs sub) in
      let word : (n : ℕ) → n < 2 ^ 32 → low_word (pos n) ≡ n = λ n l. omega arith in
      headed-Reads σ f f (block_tag ∷ w) (write_pairs name ps)
        (then_read read_char λ tag. read_block (read_term f) sub) (pairs (size ps))
        (then_block false (copied_pairs σ ps) sub) (omega arith) (write_pairs-Writes name ps)
        (λ s rest.
          then_read_lem read_number pairs s (w ++ rest) (low_word (pos (size ps))) s rest
            (read_number-write_number (pos (size ps)) s rest)
          ∙ ap (λ n. pairs n s rest) (word (size ps) small))
        (give-Reads σ f (write_pairs name ps) (read_pairs (read_term f) (size ps))
          (λ qs. then_block false qs sub) (copied_pairs σ ps) h)

  -- The loop of the reader goes through the blocks.
  read_more-write_sub :
      (s : Blocks) (f j l : ℕ) (m : Map) (bs : Bytes) (n : Map) (rest : Bytes)
      → PairsRead f s
      → l ≡ blocks s + j
      → write_sub name s m ≡ some (bs, n)
      → length m ≤ 256 * 256
      → Agrees σ n
      → Quiet rest
      → length bs < f
      → read_more (read_term f) l no_blocks (state_of m) (bs ++ rest)
        ≡ read_more (read_term f) j (copied_blocks σ s) (state_of n) rest
  unfolding write_sub emit blocks copied_blocks read_more then_read read_char
  read_more-write_sub no_blocks f j l m bs n rest h at w u a q c =
      let map : m ≡ n = cc w in
      let none : [] ≡ bs = cc w in
      let same : l ≡ j = omega (arith, at) in
      ap (λ x. read_more (read_term f) x no_blocks (state_of m) (bs ++ rest)) same
      ∙ ap (λ ds. read_more (read_term f) j no_blocks (state_of m) (ds ++ rest)) (sym none)
      ∙ ap (λ o. read_more (read_term f) j no_blocks (state_of o) rest) map
  read_more-write_sub (then_block i ps s) f j l m bs n rest h at w u a q c =
      let parts = then_write-Parts (write_sub name s) (write_block name ps) m bs n w in
      let first = parts.first in
      let o = parts.middle in
      let second = parts.second in
      let (more, quiet) =
        tagged-Writes block_tag (write_number (pos (size ps))) (write_pairs name ps) refl
          (write_pairs-Writes name ps) o second n parts.wrote_second in
      let grown = (write_sub-Writes name s m first o parts.wrote_first).0 in
      let before : Agrees σ o = Agrees-prefix σ o more.more (subst (Agrees σ) more.is a) in
      let long : length bs ≡ length first + length second =
        ap length parts.whole ∙ length-append first second in
      let sub = copied_blocks σ s in
      let block =
        block-Reads f ps sub h.0 h.1 o second n rest parts.wrote_second (grown.bounded u) a q
          (omega (arith, long, c)) in
      let (cs, begins) = write_block-Begins name ps o second n parts.wrote_second in
      let opened : read_more (read_term f) (suc j) sub (state_of o) (second ++ rest)
          ≡ then_read (then_read read_char λ tag. read_block (read_term f) sub)
              (read_more (read_term f) j) (state_of o) (second ++ rest) =
        ap (λ ds. read_more (read_term f) (suc j) sub (state_of o) (ds ++ rest)) begins
        ∙ ap
            (λ ds.
              then_read (then_read read_char λ tag. read_block (read_term f) sub)
                (read_more (read_term f) j) (state_of o) (ds ++ rest))
            (sym begins) in
      ap (λ ds. read_more (read_term f) l no_blocks (state_of m) (ds ++ rest)) parts.whole
      ∙ ap (read_more (read_term f) l no_blocks (state_of m)) (append_assoc first second rest)
      ∙ read_more-write_sub s f (suc j) l m first o (second ++ rest) h.2 (omega (arith, at))
          parts.wrote_first u before (Quiet-append second rest quiet q) (omega (arith, long, c))
      ∙ opened
      ∙ then_read_lem (then_read read_char λ tag. read_block (read_term f) sub)
          (read_more (read_term f) j) (state_of o) (second ++ rest)
          (then_block false (copied_pairs σ ps) sub) (state_of n) rest block

  -- The blocks and the tag of their end.
  sub-Reads :
      (f : ℕ) (i : Bool) (ps : Pairs) (s : Blocks)
      → PairsRead f (then_block i ps s)
      → Reads σ f
          (then_write (write_sub name (then_block i ps s)) (emit (11 ∷ [])))
          (read_sub (read_term f))
          (copied_blocks σ (then_block i ps s))
  unfolding emit read_sub read_more then_read read_char give
  sub-Reads f i ps s h m bs n rest w u a q c =
      let bl = then_block i ps s in
      let parts = then_write-Parts (write_sub name bl) (emit (11 ∷ [])) m bs n w in
      let first = parts.first in
      let o = parts.middle in
      let map : o ≡ n = cc parts.wrote_second in
      let end : 11 ∷ [] ≡ parts.second = cc parts.wrote_second in
      let whole : bs ≡ first ++ 11 ∷ [] = parts.whole ∙ ap (λ ds. first ++ ds) (sym end) in
      let long : length bs ≡ length first + 1 = ap length whole ∙ length-append first (11 ∷ []) in
      let all : bs ++ rest ≡ first ++ 11 ∷ rest =
        ap (λ ds. ds ++ rest) whole ∙ append_assoc first (11 ∷ []) rest in
      let total = length (first ++ 11 ∷ rest) in
      let (cs, begins) = write_sub-Begins name i ps s m first o parts.wrote_first in
      let opened : read_sub (read_term f) (state_of m) (first ++ 11 ∷ rest)
          ≡ read_more (read_term f) (suc total) no_blocks (state_of m) (first ++ 11 ∷ rest) =
        subst
          (λ d.
            read_sub (read_term f) (state_of m) (d ++ 11 ∷ rest)
            ≡ read_more (read_term f) (suc (length (d ++ 11 ∷ rest))) no_blocks (state_of m)
                (d ++ 11 ∷ rest))
          (sym begins) refl in
      let enough : suc total ≡ blocks bl + (suc total - blocks bl) = omega (
        arith,
        length-write_sub name bl m first o parts.wrote_first,
        length-append first (11 ∷ rest),
      ) in
      let after = suc total - blocks bl in
      ap (read_sub (read_term f) (state_of m)) all
      ∙ opened
      ∙ read_more-write_sub bl f after (suc total) m first o (11 ∷ rest) h enough parts.wrote_first
          u (subst (Agrees σ) (sym map) a) refl (omega (arith, long, c))
      ∙ read_more_end (read_term f) after (copied_blocks σ bl) (state_of o) rest
      ∙ ap (λ x. some (copied_blocks σ bl, state_of x, rest)) map

  pub subst_term-Reads :
      (f : ℕ) (i : Bool) (ps : Pairs) (s : Blocks) (t : Term)
      → PairsRead f (then_block i ps s)
      → Reads σ f (write_term name t) (read_term f) (copied σ t)
      → Reads σ
          (suc f)
          (write_term name (subst_term (then_block i ps s) t))
          (read_term (suc f))
          (copied σ (subst_term (then_block i ps s) t))
  unfolding write_term copied read_tagged read_substitution
  subst_term-Reads f i ps s t h ht =
      let bl = then_block i ps s in
      let end : Writer = emit (11 ∷ []) in
      let writes_end : Writes end = emit-Writes (11 ∷ []) refl in
      let rest : Writer = then_write (write_sub name bl) (then_write end (write_term name t)) in
      let x = subst_term (copied_blocks σ bl) (copied σ t) in
      let wt = write_term-Writes name t in
      let ws = write_sub-Writes name bl in
      tagged-Reads σ f 10 [] rest (read_substitution (read_term f)) x
        (then_write-Writes (write_sub name bl) (then_write end (write_term name t)) ws
          (then_write-Writes end (write_term name t) writes_end wt))
        (λ u r. refl)
        (other-Reads σ f rest (then_write (then_write (write_sub name bl) end) (write_term name t))
          (read_substitution (read_term f)) x
          (λ m. sym (then_write_assoc (write_sub name bl) end (write_term name t) m))
          (then-Reads σ f (then_write (write_sub name bl) end) (write_term name t)
            (read_sub (read_term f)) _ (copied_blocks σ bl) x
            (then_write-Writes (write_sub name bl) end ws writes_end) wt (sub-Reads f i ps s h)
            (give-Reads σ f (write_term name t) (read_term f) (subst_term (copied_blocks σ bl))
              (copied σ t) ht)))
