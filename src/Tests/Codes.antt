-- ===== src/Tests/Codes.antt =====
-- Examples: encoded terms.
use qu_prolog.Base.{
  arith, ◌+◌, ◌==◌, if◌then◌else◌, ◌^◌, ◌≡◌, refl, List, true, [], ◌∷◌, ◌++◌, Option, none, some,
}
use qu_prolog.Base.Int.{pos, negsuc}
use qu_prolog.Encode.Term.{
  Bytes, Term, var, obj_var, cons, struct, quant, integer, atom, subst_term, no_terms, then_term,
  no_blocks, then_block, no_pairs, then_pair, check_binder, is_int64, arity, size,
}
use qu_prolog.Encode.Map.{Key, var_key}
use qu_prolog.Encode.Write.{write_term}
use qu_prolog.Encode.Images.{number, state_of}
use qu_prolog.Encode.Copy.{IsHeapTerm, AreHeapTerms, AreHeapBlocks, AreHeapPairs, copied}
use qu_prolog.Encode.RoundTrip.{Renames}
use qu_prolog.Encode.Success.{
  IsShort, AreShort, AreShortBlocks, AreShortPairs, keys, decode-write_term,
}
use qu_prolog.Encode.Negative.{after_decoding, decode-write_integer}
use qu_prolog.Encode.Read.{decode, read_term, read_more}
use qu_prolog.Encode.Fuel.{read_term_fuel}

abbrev names : Key → Option Bytes
names (var_key v) = if v == 700 then some (88 ∷ []) else none
names _ = none

-- f(X, Y, [a, X], !!q x X, [x/Y] * X, -1, 2^40)
abbrev t : Term
t = struct (atom (102 ∷ [])) (
    then_term (var 700) (
      then_term (var 800) (
        then_term (cons (atom (97 ∷ [])) (var 700)) (
          then_term (quant (atom (113 ∷ [])) (cons (obj_var 5) (atom (91 ∷ 93 ∷ []))) (var 700)) (
            then_term
              (subst_term (then_block true (then_pair (obj_var 5) (var 800) no_pairs) no_blocks)
                (var 700))
              (then_term (integer (negsuc 0)) (then_term (integer (pos (2 ^ 40))) no_terms)))))))

t-IsHeapTerm : IsHeapTerm t
unfolding IsHeapTerm AreHeapTerms AreHeapBlocks AreHeapPairs check_binder is_int64 arity size
t-IsHeapTerm = ground arith

names-IsShort : IsShort names t
unfolding IsShort AreShort AreShortBlocks AreShortPairs
names-IsShort = ground arith

decode-write_term_example :
    (bs : Bytes) × (n : List Key) × (write_term names t [] ≡ some (bs, n))
    × Renames (number 0 n)
    × (decode (bs ++ 5 ∷ []) ≡ some (copied (number 0 n) t, state_of n, 5 ∷ []))
decode-write_term_example =
    decode-write_term names t (5 ∷ []) t-IsHeapTerm names-IsShort (unfold keys in omega arith) refl

decode-write_integer_example :
    (bs : Bytes) × (n : List Key) × (write_term names (integer (negsuc 0)) [] ≡ some (bs, n))
    × (decode bs ≡ some (integer (after_decoding (negsuc 0)), state_of n, []))
decode-write_integer_example = decode-write_integer names (negsuc 0) (omega arith)

minus_one :
    decode (9 ∷ 255 ∷ 255 ∷ 255 ∷ 255 ∷ [])
    ≡ some (integer (pos 4294967295), record { map = []; next = 0 }, [])
unfolding decode
minus_one = refl

-- A list, whose tail is cut off.
read_term_fuel_example :
    (read_term (5 + 4) (record { map = []; next = 0 }) (4 ∷ 8 ∷ 0 ∷ [])
      ≡ read_term 4 (record { map = []; next = 0 }) (4 ∷ 8 ∷ 0 ∷ []))
    × (read_more (read_term 4) (5 + 4) no_blocks (record { map = []; next = 0 }) (4 ∷ 8 ∷ 0 ∷ [])
        ≡ read_more (read_term 4) 4 no_blocks (record { map = []; next = 0 }) (4 ∷ 8 ∷ 0 ∷ []))
read_term_fuel_example =
    read_term_fuel 4 5 (record { map = []; next = 0 }) (4 ∷ 8 ∷ 0 ∷ []) no_blocks (omega arith)
