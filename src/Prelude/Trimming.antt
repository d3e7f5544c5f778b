-- ===== src/Prelude/Trimming.antt =====
-- Trimming keeps what is solid, forgets nothing on a second run, and brings no new characters in.
use Prim.Native.Nat.{ℕ}
use mathlib.Core.Path.{◌≡◌, refl, ap}
use mathlib.Core.Bool.{Bool, false}
use mathlib.Core.Logic.{inl, inr}
use mathlib.Core.List.{[], ◌∷◌}
use youyeetoo_rk3588_toolkit.Prelude.Tests.{Bool-cases}
use youyeetoo_rk3588_toolkit.Prelude.Lists.{All}
use youyeetoo_rk3588_toolkit.Prelude.Text.{
  Text, drop_spaces, drop_spaces_end, keep_unless_blank, trim_by,
}

module _ (sp : ℕ → Bool) where
  -- The first character, if there is one, is no space.
  abbrev StartsSolid : Text → Type 0
  StartsSolid [] = Unit
  StartsSolid (c ∷ s) = sp c ≡ false

  drop_spaces-StartsSolid : (s : Text) → StartsSolid (drop_spaces sp s)
  unfolding drop_spaces
  drop_spaces-StartsSolid [] = tt
  drop_spaces-StartsSolid (c ∷ s) = elim (Bool-cases (sp c)) [
    | inl space ↦ rw space (drop_spaces-StartsSolid s)
    | inr solid ↦ rw solid solid
  ]

  drop_spaces_solid : (s : Text) → StartsSolid s → drop_spaces sp s ≡ s
  unfolding drop_spaces
  drop_spaces_solid [] h = refl
  drop_spaces_solid (c ∷ s) h = rw h refl

  keep-StartsSolid :
      (c : ℕ) (rest : Text) → sp c ≡ false → StartsSolid (keep_unless_blank sp c rest)
  keep-StartsSolid c [] h = rw h h
  keep-StartsSolid c (d ∷ rest) h = h

  keep_idem :
      (c : ℕ) (rest : Text)
      → drop_spaces_end sp rest ≡ rest
      → drop_spaces_end sp (keep_unless_blank sp c rest) ≡ keep_unless_blank sp c rest
  unfolding drop_spaces_end
  keep_idem c [] h = elim (Bool-cases (sp c)) [
    | inl space ↦ rw space refl
    | inr solid ↦ rw (solid, drop_spaces_end) (rw solid refl)
  ]
  keep_idem c (d ∷ rest) h = ap (keep_unless_blank sp c) h

  drop_spaces_end-StartsSolid : (s : Text) → StartsSolid s → StartsSolid (drop_spaces_end sp s)
  unfolding drop_spaces_end
  drop_spaces_end-StartsSolid [] h = tt
  drop_spaces_end-StartsSolid (c ∷ s) h = keep-StartsSolid c (drop_spaces_end sp s) h

  drop_spaces_end_idem :
      (s : Text) → drop_spaces_end sp (drop_spaces_end sp s) ≡ drop_spaces_end sp s
  unfolding drop_spaces_end
  drop_spaces_end_idem [] = refl
  drop_spaces_end_idem (c ∷ s) = keep_idem c (drop_spaces_end sp s) (drop_spaces_end_idem s)

  pub trim_by_idem : (s : Text) → trim_by sp (trim_by sp s) ≡ trim_by sp s
  unfolding trim_by
  trim_by_idem s =
      let solid = drop_spaces_end-StartsSolid (drop_spaces sp s) (drop_spaces-StartsSolid s) in
      rw (drop_spaces_solid (drop_spaces_end sp (drop_spaces sp s)) solid)
        (drop_spaces_end_idem (drop_spaces sp s))

  -- Trimming leaves a text alone in which nothing is a space.
  pub trim_by_solid : (s : Text) → All (λ c. sp c ≡ false) s → trim_by sp s ≡ s
  unfolding trim_by
  trim_by_solid s h = rw (front s h) (back s h)
    where
      front : (t : Text) → All (λ c. sp c ≡ false) t → drop_spaces sp t ≡ t
      front [] a = refl
      front (c ∷ t) (a, _) = drop_spaces_solid (c ∷ t) a

      keep : (c : ℕ) (t : Text) → sp c ≡ false → keep_unless_blank sp c t ≡ c ∷ t
      keep c [] a = rw a refl
      keep c (d ∷ t) a = refl

      back : (t : Text) → All (λ c. sp c ≡ false) t → drop_spaces_end sp t ≡ t
      back [] a = refl
      back (c ∷ t) (a, rest) = rw (drop_spaces_end, back t rest) (keep c t a)

module _ (P : ℕ → Type 0) (sp : ℕ → Bool) where
  drop_spaces-All : (s : Text) → All P s → All P (drop_spaces sp s)
  unfolding drop_spaces
  drop_spaces-All [] h = tt
  drop_spaces-All (c ∷ s) (h, hs) = elim (Bool-cases (sp c)) [
    | inl space ↦ rw space (drop_spaces-All s hs)
    | inr solid ↦ rw solid (h, hs)
  ]

  keep-All : (c : ℕ) (rest : Text) → P c → All P rest → All P (keep_unless_blank sp c rest)
  keep-All c [] h hs = elim (Bool-cases (sp c)) [
    | inl space ↦ rw space tt
    | inr solid ↦ rw solid (h, tt)
  ]
  keep-All c (d ∷ rest) h hs = (h, hs)

  drop_spaces_end-All : (s : Text) → All P s → All P (drop_spaces_end sp s)
  unfolding drop_spaces_end
  drop_spaces_end-All [] h = tt
  drop_spaces_end-All (c ∷ s) (h, hs) =
      keep-All c (drop_spaces_end sp s) h (drop_spaces_end-All s hs)

  pub trim_by-All : (s : Text) → All P s → All P (trim_by sp s)
  unfolding trim_by
  trim_by-All s h = drop_spaces_end-All (drop_spaces sp s) (drop_spaces-All s h)
