-- ===== src/Prelude/Text.antt =====
-- Texts as lists of bytes, with the parts of the C++ string and stream library that the source uses.
use Prim.Native.Nat.{ℕ}
use Prim.Native.Char.{code}
use Prim.Native.String.{String}
use mathlib.Core.Path.{◌≡◌, refl}
use mathlib.Core.Logic.{◌↔◌, ◌≢◌}
use mathlib.Core.Bool.{Bool, true, false, ◌&&◌, ◌||◌}
use mathlib.Core.List.{List, [], ◌∷◌, ◌++◌}
use mathlib.Core.Option.{Option, none, some}
use native.Mathlib.Omega.{arith}
use youyeetoo_rk3588_toolkit.Prelude.Tests.{leb, ◌==◌, if◌then◌else◌}

abbrev pub Text : Type 0
Text = List ℕ

-- The bytes of an ASCII literal.
unfoldable pub codes : String → Text
codes String.[] = []
codes (String.◌∷◌ c s) = code c ∷ codes s

-- std::string::operator==
unfoldable pub text_eq : Text → Text → Bool
text_eq [] [] = true
text_eq (x ∷ xs) (y ∷ ys) = x == y && text_eq xs ys
text_eq _ _ = false

pub text_eq_iff : (a b : Text) → (text_eq a b ≡ true) ↔ (a ≡ b)
unfolding text_eq
text_eq_iff [] [] = ground arith
text_eq_iff [] (y ∷ ys) = ground arith
text_eq_iff (x ∷ xs) [] = ground arith
text_eq_iff (x ∷ xs) (y ∷ ys) = ground (arith, text_eq_iff xs ys)

pub text_eq_refl : (a : Text) → text_eq a a ≡ true
text_eq_refl a = (text_eq_iff a a).1 refl

pub text_ne : (a b : Text) → text_eq a b ≡ false → a ≢ b
text_ne a b h e = ground (arith, text_eq_iff a b)

-- std::string::empty
abbrev pub is_empty {ℓ} : {A : Type ℓ} → List A → Bool
is_empty [] = true
is_empty (c ∷ cs) = false

-- std::isspace in the C locale
abbrev pub is_space : ℕ → Bool
is_space c = (leb 9 c && leb c 13) || c == 32

unfoldable pub drop_spaces : (ℕ → Bool) → Text → Text
drop_spaces sp [] = []
drop_spaces sp (c ∷ cs) = let rest = drop_spaces sp cs in if sp c then rest else c ∷ cs

abbrev pub keep_unless_blank : (ℕ → Bool) → ℕ → Text → Text
keep_unless_blank sp c [] = if sp c then [] else c ∷ []
keep_unless_blank sp c (d ∷ ds) = c ∷ d ∷ ds

unfoldable pub drop_spaces_end : (ℕ → Bool) → Text → Text
drop_spaces_end sp [] = []
drop_spaces_end sp (c ∷ cs) = keep_unless_blank sp c (drop_spaces_end sp cs)

-- The text without the leading and the trailing characters that `sp` accepts.
unfoldable pub trim_by : (ℕ → Bool) → Text → Text
unfolding drop_spaces drop_spaces_end
trim_by sp s = drop_spaces_end sp (drop_spaces sp s)

abbrev pub cons_head : ℕ → List Text → List Text
cons_head c [] = (c ∷ []) ∷ []
cons_head c (p ∷ ps) = (c ∷ p) ∷ ps

-- The items of `while (std::getline(ss, item, d))`: no item follows a delimiter that ends the text.
unfoldable pub split : ℕ → Text → List Text
split d [] = []
split d (c ∷ cs) = let rest = split d cs in if c == d then [] ∷ rest else cons_head c rest

abbrev pub flush : Text → List Text → List Text
flush [] rest = rest
flush (c ∷ cs) rest = (c ∷ cs) ∷ rest

-- The word that begins the text, and the words behind it.
unfoldable pub words : Text → Text × List Text
words [] = ([], [])
words (c ∷ cs) =
    let (word, rest) = words cs in if is_space c then ([], flush word rest) else (c ∷ word, rest)

-- The items of `while (ss >> item)`.
unfoldable pub split_whitespace : Text → List Text
unfolding words
split_whitespace s = let (word, rest) = words s in flush word rest

-- s.find(d), as the parts before and behind the first d.
unfoldable pub split_at : ℕ → Text → Option (Text × Text)
split_at d [] = none
split_at d (c ∷ cs) =
    let rest = split_at d cs in
    if c == d then some ([], cs) else elim rest [ none ↦ none | some (a, b) ↦ some (c ∷ a, b) ]

-- The decimal digits of std::to_string.
abbrev pub is_digit : ℕ → Bool
is_digit c = leb 48 c && leb c 57

-- A text with something behind it is another text.
pub text_eq-append : (a : Text) (c : ℕ) (s : Text) → text_eq (a ++ (c ∷ s)) a ≡ false
unfolding text_eq
text_eq-append [] c s = refl
text_eq-append (x ∷ a) c s = ground (arith, text_eq-append a c s)
