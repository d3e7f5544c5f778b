-- ===== src/Prelude/Splitting.antt =====
-- How the splitting functions read texts that were put together with delimiters.
use Prim.Native.Nat.{ℕ}
use mathlib.Core.Path.{◌≡◌, refl, ap, ◌∙◌}
use mathlib.Core.Logic.{inl, inr}
use mathlib.Core.Bool.{Bool, true, false, not, ◌&&◌}
use mathlib.Core.List.{List, [], ◌∷◌, ◌++◌}
use mathlib.Core.Option.{some}
use native.Mathlib.Omega.{arith}
use youyeetoo_rk3588_toolkit.Prelude.Tests.{◌==◌, Bool-cases}
use youyeetoo_rk3588_toolkit.Prelude.Lists.{All}
use youyeetoo_rk3588_toolkit.Prelude.Text.{
  Text, is_space, is_empty, split, split_at, words, split_whitespace, flush, cons_head, drop_spaces,
  drop_spaces_end, keep_unless_blank, trim_by,
}

-- The character d does not occur.
abbrev pub Lacks : ℕ → Text → Type 0
Lacks d = All (λ c. (c == d) ≡ false)

-- The test of that.
abbrev pub lacks : ℕ → Text → Bool
lacks d [] = true
lacks d (c ∷ s) = not (c == d) && lacks d s

pub lacks-Lacks : (d : ℕ) (s : Text) → lacks d s ≡ true → Lacks d s
lacks-Lacks d [] h = tt
lacks-Lacks d (c ∷ s) h = (ground arith, lacks-Lacks d s (ground arith))

-- No white space occurs.
abbrev pub IsSolid : Text → Type 0
IsSolid = All (λ c. is_space c ≡ false)

pub Lacks-append : (d : ℕ) (s t : Text) → Lacks d s → Lacks d t → Lacks d (s ++ t)
Lacks-append d [] t a b = b
Lacks-append d (c ∷ s) t (x, a) b = (x, Lacks-append d s t a b)

pub split-append :
    (d : ℕ) (s rest : Text) → Lacks d s → split d (s ++ (d ∷ rest)) ≡ s ∷ split d rest
unfolding split
split-append d [] rest h = ground arith
split-append d (c ∷ s) rest (h, hs) = rw (split-append d s rest hs, h) refl

pub split_last : (d : ℕ) (s : Text) → Lacks d s → is_empty s ≡ false → split d s ≡ s ∷ []
unfolding split
split_last d [] h e = cc
split_last d (c ∷ []) (h, _) e = rw h refl
split_last d (c ∷ b ∷ s) (h, hs) e = rw (split_last d (b ∷ s) hs refl, h) refl

cons_head-Lacks :
    (d c : ℕ) (parts : List Text)
    → (c == d) ≡ false
    → All (Lacks d) parts
    → All (Lacks d) (cons_head c parts)
cons_head-Lacks d c [] h a = ((h, tt), tt)
cons_head-Lacks d c (p ∷ parts) h (a, as') = ((h, a), as')

pub split-Lacks : (d : ℕ) (s : Text) → All (Lacks d) (split d s)
unfolding split
split-Lacks d [] = tt
split-Lacks d (c ∷ s) = elim (Bool-cases (c == d)) [
  | inl here ↦ rw here (tt, split-Lacks d s)
  | inr other ↦ rw other (cons_head-Lacks d c (split d s) other (split-Lacks d s))
]

pub split_at-append :
    (d : ℕ) (s rest : Text) → Lacks d s → split_at d (s ++ (d ∷ rest)) ≡ some (s, rest)
unfolding split_at
split_at-append d [] rest h = ground arith
split_at-append d (c ∷ s) rest (h, hs) = rw (split_at-append d s rest hs, h) refl

words-append :
    (c : ℕ) (s rest : Text)
    → is_space c ≡ true
    → IsSolid s
    → words (s ++ (c ∷ rest)) ≡ (s, split_whitespace rest)
unfolding words split_whitespace
words-append c [] rest sp h = rw sp refl
words-append c (b ∷ s) rest sp (h, hs) = rw (words-append c s rest sp hs, h) refl

words_last : (s : Text) → IsSolid s → words s ≡ (s, [])
unfolding words
words_last [] h = refl
words_last (b ∷ s) (h, hs) = rw (words_last s hs, h) refl

pub split_whitespace-append :
    (c : ℕ) (s rest : Text)
    → is_space c ≡ true
    → IsSolid s
    → is_empty s ≡ false
    → split_whitespace (s ++ (c ∷ rest)) ≡ s ∷ split_whitespace rest
unfolding split_whitespace
split_whitespace-append c [] rest sp h e = cc
split_whitespace-append c (b ∷ s) rest sp h e = rw (words-append c (b ∷ s) rest sp h) refl

pub split_whitespace_last :
    (s : Text) → IsSolid s → is_empty s ≡ false → split_whitespace s ≡ s ∷ []
unfolding split_whitespace
split_whitespace_last [] h e = cc
split_whitespace_last (b ∷ s) h e = rw (words_last (b ∷ s) h) refl

-- The words of a text do not depend on the spaces around it.
words-drop_spaces_end : (s : Text) → words (drop_spaces_end is_space s) ≡ words s
unfolding words drop_spaces_end
words-drop_spaces_end [] = refl
words-drop_spaces_end (c ∷ s) = step c (drop_spaces_end is_space s) s (words-drop_spaces_end s)
  where
    step :
        (c : ℕ) (t s : Text)
        → words t ≡ words s
        → words (keep_unless_blank is_space c t) ≡ words (c ∷ s)
    step c [] s e = elim (Bool-cases (is_space c)) [
      | inl space ↦ rw (space, ← e) refl
      | inr solid ↦ rw (solid, ← e) (rw solid refl)
    ]
    step c (d ∷ t) s e = rw (← e) refl

drop_spaces_solid : (c : ℕ) (s : Text) → is_space c ≡ false → drop_spaces is_space (c ∷ s) ≡ c ∷ s
unfolding drop_spaces
drop_spaces_solid c s h = rw h refl

split_whitespace-drop_spaces :
    (s : Text) → split_whitespace (drop_spaces is_space s) ≡ split_whitespace s
unfolding split_whitespace words drop_spaces
split_whitespace-drop_spaces [] = refl
split_whitespace-drop_spaces (c ∷ s) = elim (Bool-cases (is_space c)) [
  | inl space ↦ rw space (split_whitespace-drop_spaces s)
  | inr solid ↦ ap split_whitespace (drop_spaces_solid c s solid)
]

pub split_whitespace-trim_by :
    (s : Text) → split_whitespace (trim_by is_space s) ≡ split_whitespace s
unfolding split_whitespace trim_by
split_whitespace-trim_by s =
    ap (λ (p : Text × List Text). flush p.0 p.1) (words-drop_spaces_end (drop_spaces is_space s))
    ∙ split_whitespace-drop_spaces s
