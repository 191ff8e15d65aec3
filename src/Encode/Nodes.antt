-- ===== src/Encode/Nodes.antt =====
-- Lists, structures, quantified terms and pairs of a substitution, written and read back
-- (src/encode.cc), if their parts are.
use qu_prolog.Base.{
  ℕ, suc, ◌^◌, ◌<◌, ◌≡◌, refl, sym, subst, true, false, [], ◌∷◌, if◌then◌else◌, ◌==◌, ◌&&◌,
}
use qu_prolog.Base.Int.{pos}
use qu_prolog.Encode.Term.{
  Term, Terms, Pairs, cons, struct, quant, then_term, then_pair, is_int64, check_binder,
}
use qu_prolog.Encode.Map.{Key}
use qu_prolog.Encode.Number.{write_number}
use qu_prolog.Encode.Growth.{Writes, then_write-Writes, then_write_assoc}
use qu_prolog.Encode.Steps.{Reads, then-Reads, give-Reads, tagged-Reads, other-Reads}
use qu_prolog.Encode.Write.{Writer, emit, then_write}
use qu_prolog.Encode.Read.{
  Reader, then_read, give, read_error, read_terms, read_pairs, read_parts, read_list,
  read_quantifier, read_arguments, read_tagged, read_term,
}
use qu_prolog.Encode.Leaves.{read_structure-write_number}

module _ (σ : Key → ℕ) (f : ℕ) where
  -- Two parts, of which something is made.
  pub both-Reads :
      {A B C : Type 0} (p r : Writer) (q : Reader A) (k : Reader B) (g : A → B → C) (x : A) (y : B)
      → Writes p
      → Writes r
      → Reads σ f p q x
      → Reads σ f r k y
      → Reads σ f (then_write p r) (then_read q λ a. then_read k λ b. give (g a b)) (g x y)
  both-Reads p r q k g x y wp wr hp hr =
      then-Reads σ f p r q (λ a. then_read k λ b. give (g a b)) x (g x y) wp wr hp
        (give-Reads σ f r k (g x) y hr)

  pub cons-Reads :
      (p r : Writer) (h t : Term)
      → Writes p
      → Writes r
      → Reads σ f p (read_term f) h
      → Reads σ f r (read_term f) t
      → Reads σ (suc f) (then_write (emit (4 ∷ [])) (then_write p r)) (read_term (suc f)) (cons h t)
  unfolding read_tagged read_list
  cons-Reads p r h t wp wr hp hr =
      tagged-Reads σ f 4 [] (then_write p r) (read_list (read_term f)) (cons h t)
        (then_write-Writes p r wp wr) (λ s rest. refl)
        (both-Reads p r (read_term f) (read_term f) cons h t wp wr hp hr)

  pub struct-Reads :
      (n : ℕ) (p r : Writer) (g : Term) (ts : Terms)
      → n < 2 ^ 32
      → (n == 2 && is_int64 g) ≡ false
      → Writes p
      → Writes r
      → Reads σ f p (read_term f) g
      → Reads σ f r (read_terms (read_term f) n) ts
      → Reads σ
          (suc f)
          (then_write (emit (5 ∷ write_number (pos n))) (then_write p r))
          (read_term (suc f))
          (struct g ts)
  unfolding read_tagged read_arguments
  struct-Reads n p r g ts small plain wp wr hp hr =
      tagged-Reads σ f 5 (write_number (pos n)) (then_write p r) (read_arguments (read_term f) n)
        (struct g ts) (then_write-Writes p r wp wr)
        (λ s rest. read_structure-write_number n (read_term f) s rest small)
        (then-Reads σ f p r (read_term f) _ g (struct g ts) wp wr hp (
          subst
            (λ b.
              Reads σ f r
                (if b
                  then read_parts (read_term f)
                  else then_read (read_terms (read_term f) n) λ us. give (struct g us))
                (struct g ts))
            (sym plain) (give-Reads σ f r (read_terms (read_term f) n) (struct g) ts hr)))

  pub quant-Reads :
      (p r o : Writer) (q v b : Term)
      → check_binder v [] ≡ true
      → Writes p
      → Writes r
      → Writes o
      → Reads σ f p (read_term f) q
      → Reads σ f r (read_term f) v
      → Reads σ f o (read_term f) b
      → Reads σ
          (suc f)
          (then_write (emit (6 ∷ [])) (then_write p (then_write r o)))
          (read_term (suc f))
          (quant q v b)
  unfolding read_tagged read_quantifier
  quant-Reads p r o q v b binder wp wr wo hp hr ho =
      let wro = then_write-Writes r o wr wo in
      tagged-Reads σ f 6 [] (then_write p (then_write r o)) (read_quantifier (read_term f))
        (quant q v b) (then_write-Writes p (then_write r o) wp wro) (λ s rest. refl)
        (then-Reads σ f p (then_write r o) (read_term f) _ q (quant q v b) wp wro hp (
          then-Reads σ f r o (read_term f) _ v (quant q v b) wr wo hr (
            subst
              (λ c.
                Reads σ f o
                  (then_read (read_term f) λ x. if c then give (quant q v x) else read_error)
                  (quant q v b))
              (sym binder) (give-Reads σ f o (read_term f) (quant q v) b ho))))

  pub terms-Reads :
      (n : ℕ) (p r : Writer) (t : Term) (ts : Terms)
      → Writes p
      → Writes r
      → Reads σ f p (read_term f) t
      → Reads σ f r (read_terms (read_term f) n) ts
      → Reads σ f (then_write p r) (read_terms (read_term f) (suc n)) (then_term t ts)
  unfolding read_terms
  terms-Reads n p r t ts wp wr hp hr =
      both-Reads p r (read_term f) (read_terms (read_term f) n) then_term t ts wp wr hp hr

  pub pairs-Reads :
      (n : ℕ) (p r o : Writer) (d e : Term) (ps : Pairs)
      → Writes p
      → Writes r
      → Writes o
      → Reads σ f p (read_term f) d
      → Reads σ f r (read_term f) e
      → Reads σ f o (read_pairs (read_term f) n) ps
      → Reads σ f
          (then_write (then_write p r) o)
          (read_pairs (read_term f) (suc n))
          (then_pair d e ps)
  unfolding read_pairs
  pairs-Reads n p r o d e ps wp wr wo hp hr ho =
      other-Reads σ f (then_write (then_write p r) o) (then_write p (then_write r o))
        (read_pairs (read_term f) (suc n)) (then_pair d e ps) (then_write_assoc p r o)
        (then-Reads σ f p (then_write r o) (read_term f) _ d (then_pair d e ps) wp
          (then_write-Writes r o wr wo) hp
          (both-Reads r o (read_term f) (read_pairs (read_term f) n) (then_pair d) e ps wr wo hr
            ho))
