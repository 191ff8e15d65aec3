-- ===== src/Occurs/Truth.antt =====
-- `truth3` of src/truth3.h.
use qu_prolog.Base.{Bool, true, false}

pub data Truth : Type 0 where
  unsure no yes : Truth

-- `truth3(const bool b)`
unfoldable pub of_bool : Bool → Truth
of_bool true = yes
of_bool false = no

unfoldable pub conj : Truth → Truth → Truth
conj no _ = no
conj _ no = no
conj yes yes = yes
conj _ _ = unsure

unfoldable pub disj : Truth → Truth → Truth
disj no no = no
disj yes _ = yes
disj _ yes = yes
disj _ _ = unsure

unfoldable pub negation : Truth → Truth
negation unsure = unsure
negation no = yes
negation yes = no

-- `f == true`
unfoldable pub is_yes : Truth → Bool
is_yes yes = true
is_yes _ = false

-- `f != false`
unfoldable pub is_not_no : Truth → Bool
is_not_no no = false
is_not_no _ = true
