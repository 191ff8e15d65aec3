-- ===== src/Dynamic/Key.antt =====
-- The keys by which the clauses of a dynamic predicate are indexed: `makeEntry` of
-- src/dynamic_code.cc and `DynamicClauseHashEntry` of src/dynamic_code.h. Tags are those of
-- src/objects.h.
use qu_prolog.Base.{ℕ, ◌-◌, ◌^◌, ◌&&◌, Bool, Option, none, some, ◌==◌}
use qu_prolog.Base.Int.{ℤ, pos, negsuc, word32}
use Prim.Native.Nat.{bit_xor}

-- The argument that is indexed, dereferenced, as far as it is looked at. A functor or a quantifier
-- that is an atom is its address. A double is its two words. For a substitution: its address, and
-- the term that dereferencing it gives.
pub data Index : Type 0 where
  null var obj_var cons string : Index
  struct quant : Option ℕ → Index
  short long : ℤ → Index
  double : ℕ → ℕ → Index
  atom : ℕ → Index
  subst_term : ℕ → Index → Index

-- `tag` and `value` have 32 bits.
pub record Key : Type 0 where
  pub tag : ℕ
  pub value : ℕ

unfoldable pub of_integer : ℤ → ℕ
of_integer (pos n) = word32 n
of_integer (negsuc n) = 2 ^ 32 - 1 - word32 n

abbrev pub key : ℕ → ℕ → Key
key t v = record { tag = t; value = word32 v }

abbrev pub empty_key : Key
empty_key = record { tag = 0; value = 0 }

-- A functor or a quantifier that is no atom may be anything.
unfoldable pub of_atom : ℕ → Option ℕ → Key
of_atom t none = empty_key
of_atom t (some a) = key t a

-- Under a substitution the cases of a number have no `break`: they run on into that of an atom,
-- which sets the tag and the address of the substitution itself.
unfoldable pub under_substitution : ℕ → Index → Key
unfolding of_atom
under_substitution address cons = key 6 0
under_substitution address (struct f) = of_atom 7 f
under_substitution address (quant q) = of_atom 9 q
under_substitution address (short i) = key 10 address
under_substitution address (long i) = key 10 address
under_substitution address (double x y) = key 10 address
under_substitution address (atom a) = key 10 address
under_substitution address string = key 6 0
under_substitution address _ = empty_key

unfoldable pub make_entry : Index → Key
unfolding of_integer of_atom under_substitution
make_entry null = empty_key
make_entry var = empty_key
make_entry obj_var = key 8 0
make_entry cons = key 6 0
make_entry (struct f) = of_atom 7 f
make_entry (quant q) = of_atom 9 q
make_entry (short i) = key 1 (of_integer i)
make_entry (long i) = key 3 (of_integer i)
make_entry (double x y) = key 5 (bit_xor x y)
make_entry (atom a) = key 4 a
make_entry string = key 6 0
make_entry (subst_term address t) = under_substitution address t

-- `isEmpty`
unfoldable pub is_empty : Key → Bool
is_empty k = k.tag == 0

-- `operator==`
unfoldable pub same_key : Key → Key → Bool
same_key k l = k.tag == l.tag && k.value == l.value
