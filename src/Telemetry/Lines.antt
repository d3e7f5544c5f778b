-- ===== src/Telemetry/Lines.antt =====
-- Command lines of app/src/telemetry_command_interface.cpp are read back as they are written.
use mathlib.Core.List.{append-nil}
use youyeetoo_rk3588_toolkit.Prelude.{◌≡◌, refl, ap, ◌∙◌, false, List, [], ◌∷◌, ◌++◌, arith, All}
use youyeetoo_rk3588_toolkit.Prelude.Text.{Text, is_empty, is_space, split_whitespace}
use youyeetoo_rk3588_toolkit.Prelude.Splitting.{
  Lacks, IsSolid, split_at-append, split_whitespace-append, split_whitespace_last,
  split_whitespace-trim_by,
}
use youyeetoo_rk3588_toolkit.Prelude.Trimming.{trim_by_solid}
use youyeetoo_rk3588_toolkit.Prelude.Dict.{insert}
use youyeetoo_rk3588_toolkit.Result.{ok}
use youyeetoo_rk3588_toolkit.Telemetry.{parse_command_line, parse_parameters, parse_parameter, trim}

-- A key=value word.
abbrev pub print_parameter : Text × Text → Text
print_parameter (k, v) = k ++ (b'=' ∷ v)

pub print_parameters : List (Text × Text) → Text
print_parameters [] = []
print_parameters (p ∷ ps) = 32 ∷ (print_parameter p ++ print_parameters ps)

-- The line for a command: its name and its parameters, each behind a space.
pub print_command : Text → List (Text × Text) → Text
unfolding print_parameters
print_command name ps = name ++ print_parameters ps

-- A word that is not empty and holds no white space.
abbrev pub IsWord : Text → Type 0
IsWord w = IsSolid w × (is_empty w ≡ false)

-- A parameter whose key and value are words, and whose key has no equals sign.
abbrev pub IsParameter : Text × Text → Type 0
IsParameter (k, v) = IsWord k × Lacks b'=' k × IsWord v

IsSolid-append : (s t : Text) → IsSolid s → IsSolid t → IsSolid (s ++ t)
IsSolid-append [] t a b = b
IsSolid-append (c ∷ s) t (x, a) b = (x, IsSolid-append s t a b)

filled-append : (s t : Text) → is_empty s ≡ false → is_empty (s ++ t) ≡ false
filled-append [] t h = cc
filled-append (c ∷ s) t h = refl

print_parameter-IsWord : (p : Text × Text) → IsParameter p → IsWord (print_parameter p)
print_parameter-IsWord (k, v) ((sk, fk), _, (sv, fv)) =
    (IsSolid-append k (b'=' ∷ v) sk (refl, sv), filled-append k (b'=' ∷ v) fk)

print_words : List (Text × Text) → List Text
print_words [] = []
print_words (p ∷ ps) = print_parameter p ∷ print_words ps

split_whitespace-print :
    (w : Text) (ps : List (Text × Text))
    → IsWord w
    → All IsParameter ps
    → split_whitespace (w ++ print_parameters ps) ≡ w ∷ print_words ps
unfolding print_parameters print_words
split_whitespace-print w [] (sw, fw) h = rw append-nil (split_whitespace_last w sw fw)
split_whitespace-print w (p ∷ ps) (sw, fw) (h, hs) =
    split_whitespace-append 32 w (print_parameter p ++ print_parameters ps) refl sw fw
    ∙ ap (λ r. w ∷ r)
        (split_whitespace-print (print_parameter p) ps (print_parameter-IsWord p h) hs)

parse_parameter-print :
    (p : Text × Text) → IsParameter p → parse_parameter (print_parameter p) ≡ ok p
unfolding parse_parameter trim
parse_parameter-print (k, v) ((sk, fk), lk, (sv, fv)) =
    rw
      (
        parse_parameter,
        split_at-append b'=' k v lk,
        fk,
        fv,
        trim_by_solid is_space k sk,
        trim_by_solid is_space v sv,
      )
      (ground (arith))

-- The parameters stored one after the other: of two with one key the later wins.
pub insert_all : List (Text × Text) → List (Text × Text) → List (Text × Text)
insert_all [] m = m
insert_all ((k, v) ∷ ps) m = insert_all ps (insert k v m)

parse_parameters-print :
    (ps m : List (Text × Text))
    → All IsParameter ps
    → parse_parameters (print_words ps) m ≡ ok (insert_all ps m)
unfolding parse_parameters print_words insert_all
parse_parameters-print [] m h = refl
parse_parameters-print ((k, v) ∷ ps) m (h, hs) =
    rw (parse_parameter-print (k, v) h) (parse_parameters-print ps (insert k v m) hs)

-- A printed command is read back: its name, and its parameters stored in their order, if the name
-- and all keys and values are words and no key has an equals sign.
pub parse_command_line-print_command :
    (name : Text) (ps : List (Text × Text))
    → IsWord name
    → All IsParameter ps
    → parse_command_line (print_command name ps) ≡ ok (name, insert_all ps [])
unfolding parse_command_line print_command
parse_command_line-print_command name ps w h =
    rw (split_whitespace-trim_by (name ++ print_parameters ps), split_whitespace-print name ps w h)
      (rw (parse_parameters-print ps [] h) refl)
