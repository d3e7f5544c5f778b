-- ===== src/CameraController/Selection/Window.antt =====
-- The comparison of texts by which the batch download of app/src/camera_controller.cpp filters a
-- media list, and the order of the times.
use youyeetoo_rk3588_toolkit.Prelude.{
  arith, ◌≡◌, refl, sym, ◌∙◌, ◌⊎◌, inl, inr, ℕ, suc, ◌+◌, ◌-◌, ◌*◌, ◌<◌, Bool, true, false, not,
  ◌&&◌, ◌||◌, some, none, [], ◌∷◌, ◌++◌, ltb, leb, length-append, zero, ◌≤◌, length, take, drop,
  Option-cases, if◌then◌else◌,
}
use youyeetoo_rk3588_toolkit.Prelude.Text.{Text, is_empty, split_at}
use youyeetoo_rk3588_toolkit.CameraController.Selection.{
  text_ltb, all_digits, time_digits, normalize_time_filter_token, extract_media_timestamp_token,
  token_behind, is_selected, file_name,
}

-- The number that digits spell, behind a number read before them.
unfoldable pub value_from : ℕ → Text → ℕ
value_from n [] = n
value_from n (c ∷ cs) = value_from (n * 10 + (c - 48)) cs

abbrev pub value : Text → ℕ
value = value_from 0

value_from-less :
    (a b : ℕ) (s t : Text)
    → all_digits s ≡ true
    → all_digits t ≡ true
    → length s ≡ length t
    → a < b
    → value_from a s < value_from b t
unfolding value_from
value_from-less a b [] [] h k l m = m
value_from-less a b [] (d ∷ t) h k l m = ground arith
value_from-less a b (c ∷ s) [] h k l m = ground arith
value_from-less a b (c ∷ s) (d ∷ t) h k l m =
    value_from-less (a * 10 + (c - 48)) (b * 10 + (d - 48)) s t (ground arith) (ground arith)
      (ground arith) (ground arith)

text_ltb-value_from :
    (n : ℕ) (s t : Text)
    → all_digits s ≡ true
    → all_digits t ≡ true
    → length s ≡ length t
    → text_ltb s t ≡ ltb (value_from n s) (value_from n t)
unfolding text_ltb value_from
text_ltb-value_from n [] [] h k l = ground arith
text_ltb-value_from n [] (d ∷ t) h k l = ground arith
text_ltb-value_from n (c ∷ s) [] h k l = ground arith
text_ltb-value_from n (c ∷ s) (d ∷ t) h k l =
    let hs : all_digits s ≡ true = ground arith in
    let ht : all_digits t ≡ true = ground arith in
    let ls : length s ≡ length t = ground arith in
    ground (
      arith,
      value_from-less (n * 10 + (c - 48)) (n * 10 + (d - 48)) s t hs ht ls,
      value_from-less (n * 10 + (d - 48)) (n * 10 + (c - 48)) t s ht hs (sym ls),
      text_ltb-value_from (n * 10 + (c - 48)) s t hs ht ls,
    )

-- For two texts of as many digits each, the order of the texts is that of the numbers.
pub text_ltb-value :
    (s t : Text)
    → all_digits s ≡ true
    → all_digits t ≡ true
    → length s ≡ length t
    → text_ltb s t ≡ ltb (value s) (value t)
text_ltb-value s t h k l = text_ltb-value_from 0 s t h k l

all_digits-append : (s t : Text) → all_digits (s ++ t) ≡ (all_digits s && all_digits t)
all_digits-append [] t = refl
all_digits-append (c ∷ s) t = ground (arith, all_digits-append s t)

length-take : (n : ℕ) (s : Text) → n ≤ length s → length (take n s) ≡ n
length-take zero s h = ground arith
length-take (suc n) [] h = ground arith
length-take (suc n) (c ∷ s) h = ground (arith, length-take n s)

length-drop : (n : ℕ) (s : Text) → length (drop n s) ≡ length s - n
length-drop zero s = ground arith
length-drop (suc n) [] = ground arith
length-drop (suc n) (c ∷ s) = ground (arith, length-drop n s)

-- A time is fourteen digits.
unfoldable pub IsTime : Text → Type 0
IsTime t = (all_digits t ≡ true) × (length t ≡ 14)

time_digits-digits : (s t : Text) → time_digits s ≡ some t → all_digits t ≡ true
unfolding time_digits
time_digits-digits [] t h = ground arith
time_digits-digits (c ∷ s) t h = elim (Option-cases (time_digits s)) [
  | inl e ↦ ground arith
  | inr (ds, e) ↦ ground (arith, time_digits-digits s ds e)
]

normalize-IsTime :
    (s : Text) → (normalize_time_filter_token s ≡ []) ⊎ IsTime (normalize_time_filter_token s)
unfolding normalize_time_filter_token IsTime
normalize-IsTime s = elim (Option-cases (time_digits s)) [
  | inl e ↦ inl (ground arith)
  | inr (ds, e) ↦ ground (arith, time_digits-digits s ds e)
]

token_behind-IsTime : (tail t : Text) → token_behind tail ≡ some t → IsTime t
unfolding token_behind IsTime
token_behind-IsTime tail t h = ground (
  arith,
  all_digits-append (take 8 tail) (take 6 (drop 9 tail)),
  length-append (take 8 tail) (take 6 (drop 9 tail)),
  length-take 8 tail,
  length-take 6 (drop 9 tail),
  length-drop 9 tail,
)

extract_media_timestamp_token-IsTime :
    (path t : Text) → extract_media_timestamp_token path ≡ some t → IsTime t
unfolding extract_media_timestamp_token
extract_media_timestamp_token-IsTime path t h =
    elim (Option-cases (split_at b'_' (file_name path))) [
      | inl e ↦ ground arith
      | inr (tail, e) ↦ ground (arith, token_behind-IsTime tail.1 t)
    ]

-- Whether a time lies in a window, of which an empty bound is none.
unfoldable pub in_window : (time_from time_to t : Text) → Bool
in_window time_from time_to t =
    (is_empty time_from || leb (value time_from) (value t))
    && (is_empty time_to || leb (value t) (value time_to))

bound-value :
    (s t : Text)
    → (s ≡ []) ⊎ IsTime s
    → IsTime t
    → (not (not (is_empty s) && text_ltb t s) ≡ (is_empty s || leb (value s) (value t)))
      × (not (not (is_empty s) && text_ltb s t) ≡ (is_empty s || leb (value t) (value s)))
unfolding IsTime
bound-value s t (inl e) k = ground arith
bound-value s t (inr h) k =
    ground (
      arith,
      text_ltb-value s t h.0 k.0 (h.1 ∙ sym k.1),
      text_ltb-value t s k.0 h.0 (k.1 ∙ sym h.1),
    )

-- A file is taken without a filter, or if the time in its name lies in the window as a number.
pub is_selected-in_window :
    (u v path : Text)
    → (let time_from = normalize_time_filter_token u in
        let time_to = normalize_time_filter_token v in
        is_selected time_from time_to path ≡ (
          if is_empty time_from && is_empty time_to
          then true
          else elim (extract_media_timestamp_token path) [
            | none ↦ false
            | some t ↦ in_window time_from time_to t
          ]))
unfolding is_selected in_window
is_selected-in_window u v path = elim (Option-cases (extract_media_timestamp_token path)) [
  | inl e ↦ ground arith
  | inr (t, e) ↦
      let time = extract_media_timestamp_token-IsTime path t e in
      ground (
        arith,
        bound-value (normalize_time_filter_token u) t (normalize-IsTime u) time,
        bound-value (normalize_time_filter_token v) t (normalize-IsTime v) time,
      )
]
