-- ===== src/Encode/RoundTrip.antt =====
-- What is written is read back (src/encode.cc).
use qu_prolog.Base.{
  ℕ, suc, ◌≡◌, refl, ap, ◌∙◌, [], ◌++◌, Option, some, arith, length, length-append, ◌==◌, ◌&&◌,
}
use qu_prolog.Encode.Term.{
  Bytes, Term, Terms, Blocks, Pairs, var, obj_var, cons, struct, quant, integer, double, atom,
  string, subst_term, no_terms, then_term, no_blocks, then_block, no_pairs, then_pair, arity, size,
}
use qu_prolog.Encode.Map.{Key, var_key, obj_var_key, Map}
use qu_prolog.Encode.Images.{
  state_of, Distinct, count, images, total, number, number-Agrees, number-injective,
}
use qu_prolog.Encode.Growth.{Quiet, write_term-Writes, write_terms-Writes, write_pairs-Writes}
use qu_prolog.Encode.Steps.{Reads, emit-Reads, any-Reads}
use qu_prolog.Encode.KeyReads.{var-Reads, obj_var-Reads, atom-Reads}
use qu_prolog.Encode.Leaves.{integer-Reads, double-Reads, string-Reads}
use qu_prolog.Encode.Nodes.{cons-Reads, struct-Reads, quant-Reads, terms-Reads, pairs-Reads}
use qu_prolog.Encode.Substitutions.{PairsRead, subst_term-Reads}
use qu_prolog.Encode.Write.{write_term, write_terms, write_sub, write_pairs}
use qu_prolog.Encode.Read.{give, read_terms, read_pairs, read_term, decode}
use qu_prolog.Encode.Copy.{
  copied, copied_terms, copied_blocks, copied_pairs, IsHeapTerm, AreHeapTerms, AreHeapBlocks,
  AreHeapPairs, is_int64-copied, check_binder-copied,
}

module _ (name : Key → Option Bytes) (σ : Key → ℕ)
    (injective : (v w : ℕ) → σ (obj_var_key v) ≡ σ (obj_var_key w) → v ≡ w) where
  mutual
    unfolding write_term write_terms write_sub write_pairs copied copied_terms copied_blocks
        copied_pairs IsHeapTerm AreHeapTerms AreHeapBlocks AreHeapPairs arity size read_terms
        read_pairs give

    term-Reads :
        (t : Term)
        → IsHeapTerm t
        → (f : ℕ) → Reads σ f (write_term name t) (read_term f) (copied σ t)
    term-Reads (var v) h = any-Reads σ _ _ (λ f. var-Reads σ f v (name (var_key v)))
    term-Reads (obj_var v) h = any-Reads σ _ _ (λ f. obj_var-Reads σ f v (name (obj_var_key v)))
    term-Reads (cons x t) h = any-Reads σ _ _ λ f.
        cons-Reads σ f (write_term name x) (write_term name t) (copied σ x) (copied σ t)
          (write_term-Writes name x) (write_term-Writes name t) (term-Reads x h.0 f)
          (term-Reads t h.1 f)
    term-Reads (struct g ts) h = any-Reads σ _ _ λ f.
        struct-Reads σ f (arity ts) (write_term name g) (write_terms name ts) (copied σ g)
          (copied_terms σ ts) h.2 (ap (λ b. arity ts == 2 && b) (is_int64-copied σ g) ∙ h.3)
          (write_term-Writes name g) (write_terms-Writes name ts) (term-Reads g h.0 f)
          (args-Reads ts h.1 f)
    term-Reads (quant q v b) h = any-Reads σ _ _ λ f.
        quant-Reads σ f (write_term name q) (write_term name v) (write_term name b) (copied σ q)
          (copied σ v) (copied σ b) (check_binder-copied σ injective v [] ∙ h.3)
          (write_term-Writes name q) (write_term-Writes name v) (write_term-Writes name b)
          (term-Reads q h.0 f) (term-Reads v h.1 f) (term-Reads b h.2 f)
    term-Reads (integer i) h = any-Reads σ _ _ (λ f. integer-Reads σ f i h)
    term-Reads (double d) h = any-Reads σ _ _ (λ f. double-Reads σ f d h)
    term-Reads (atom n) h = any-Reads σ _ _ (λ f. atom-Reads σ f n h)
    term-Reads (string s) h = any-Reads σ _ _ (λ f. string-Reads σ f s h)
    term-Reads (subst_term no_blocks t) h = elim h [ ]
    term-Reads (subst_term (then_block i ps s) t) h = any-Reads σ _ _ λ f.
        subst_term-Reads name σ f i ps s t (blocks-Reads (then_block i ps s) h.0 f)
          (term-Reads t h.1 f)

    args-Reads :
        (ts : Terms)
        → AreHeapTerms ts
        → (f : ℕ)
        → Reads σ f (write_terms name ts) (read_terms (read_term f) (arity ts)) (copied_terms σ ts)
    args-Reads no_terms h f = emit-Reads σ f [] (give no_terms) no_terms (λ s rest. refl)
    args-Reads (then_term t ts) h f =
        terms-Reads σ f (arity ts) (write_term name t) (write_terms name ts) (copied σ t)
          (copied_terms σ ts) (write_term-Writes name t) (write_terms-Writes name ts)
          (term-Reads t h.0 f) (args-Reads ts h.1 f)

    blocks-Reads : (s : Blocks) → AreHeapBlocks s → (f : ℕ) → PairsRead name σ f s
    blocks-Reads no_blocks h f = tt
    blocks-Reads (then_block i ps s) h f = (h.0, entries-Reads ps h.1 f, blocks-Reads s h.2 f)

    entries-Reads :
        (ps : Pairs)
        → AreHeapPairs ps
        → (f : ℕ)
        → Reads σ f (write_pairs name ps) (read_pairs (read_term f) (size ps)) (copied_pairs σ ps)
    entries-Reads no_pairs h f = emit-Reads σ f [] (give no_pairs) no_pairs (λ s rest. refl)
    entries-Reads (then_pair d r ps) h f =
        pairs-Reads σ f (size ps) (write_term name d) (write_term name r) (write_pairs name ps)
          (copied σ d) (copied σ r) (copied_pairs σ ps) (write_term-Writes name d)
          (write_term-Writes name r) (write_pairs-Writes name ps) (term-Reads d h.0 f)
          (term-Reads r h.1 f) (entries-Reads ps h.2 f)

-- Different variables get different numbers.
abbrev pub Renames : (Key → ℕ) → Type 0
Renames σ = (k l : Key) → count k ≡ 1 → count l ≡ 1 → σ k ≡ σ l → k ≡ l

module _ (name : Key → Option Bytes) (t : Term) (bs : Bytes) (n : Map) (rest : Bytes) where
  pub decode_written :
      IsHeapTerm t
      → write_term name t [] ≡ some (bs, n)
      → Quiet rest
      → Renames (number 0 n)
        × (decode (bs ++ rest) ≡ some (copied (number 0 n) t, state_of n, rest))
  unfolding decode images total count
  decode_written h w q =
      let renames : Renames (number 0 n) = number-injective n 0 in
      let different : Distinct n = (write_term-Writes name t [] bs n w).0.distinct tt in
      let obj_vars : (v x : ℕ) → number 0 n (obj_var_key v) ≡ number 0 n (obj_var_key x) → v ≡ x =
        λ v x e.
          (let same : obj_var_key v ≡ obj_var_key x =
              renames (obj_var_key v) (obj_var_key x) refl refl e in
            cc same) in
      (
        renames,
        term-Reads name (number 0 n) obj_vars t h (suc (length (bs ++ rest))) [] bs n rest w
            (omega arith) (number-Agrees n different) q (omega (arith, length-append bs rest)),
      )
