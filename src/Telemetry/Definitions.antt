-- ===== src/Telemetry/Definitions.antt =====
-- The lines of the definitions file that app/src/telemetry_command_interface.cpp reads.
use youyeetoo_rk3588_toolkit.Prelude.{◌≡◌, refl, ap, ◌∙◌, false, List, [], ◌∷◌, ◌++◌, some, All}
use youyeetoo_rk3588_toolkit.Prelude.Text.{Text, codes, is_empty, split, text_eq}
use youyeetoo_rk3588_toolkit.Prelude.Splitting.{Lacks, split-append, split_last}
use youyeetoo_rk3588_toolkit.Result.{ok, err}
use youyeetoo_rk3588_toolkit.Number.{stoi}
use youyeetoo_rk3588_toolkit.Command.{category_to_string}
use youyeetoo_rk3588_toolkit.Command.Names.{parse_category-category_to_string}
use youyeetoo_rk3588_toolkit.Telemetry.{
  CommandDefinition, parse_definition_line, parse_bool, trim, is_unknown,
}

-- Fields joined with |.
pub join : List Text → Text
join [] = []
join (p ∷ []) = p
join (p ∷ q ∷ ps) = p ++ (b'|' ∷ join (q ∷ ps))

-- Fields without | of which the last is not empty.
abbrev AreFields : List Text → Type 0
AreFields [] = Unit
AreFields (p ∷ []) = Lacks b'|' p × (is_empty p ≡ false)
AreFields (p ∷ q ∷ ps) = Lacks b'|' p × AreFields (q ∷ ps)

split-join : (p : Text) (ps : List Text) → AreFields (p ∷ ps) → split b'|' (join (p ∷ ps)) ≡ p ∷ ps
unfolding join
split-join p [] (l, f) = split_last b'|' p l f
split-join p (q ∷ ps) (l, h) =
    split-append b'|' p (join (q ∷ ps)) l ∙ ap (λ r. p ∷ r) (split-join q ps h)

-- A field that trimming leaves alone.
abbrev pub IsField : Text → Type 0
IsField x = Lacks b'|' x × (trim x ≡ x)

module _ (d : CommandDefinition) (count flag : Text) where
  open d use {command_name, category, task_name, output_dir, remote_path, local_path}

  -- The line of a definition, with texts for its count and its flag.
  pub print_definition : Text
  unfolding join
  print_definition = join (
      command_name
      ∷ category_to_string category
      ∷ task_name
      ∷ count
      ∷ output_dir
      ∷ remote_path
      ∷ local_path
      ∷ flag
      ∷ [])

  -- What makes a definition printable.
  pub record IsPrintable : Type 0 where
    pub name_is_field : IsField command_name
    pub named : is_empty command_name ≡ false
    pub category_is_field : IsField (category_to_string category)
    pub known : is_unknown category ≡ false
    pub task_is_field : IsField task_name
    pub has_task : is_empty task_name ≡ false
    pub count_is_field : IsField count
    pub counts : stoi count ≡ some d.repeat_count
    pub output_is_field : IsField output_dir
    pub remote_is_field : IsField remote_path
    pub local_is_field : IsField local_path
    pub flag_is_field : IsField flag
    pub flagged : is_empty flag ≡ false
    pub confirms : parse_bool flag ≡ some d.delete_confirmed

  -- A printable definition (no field holds |, and none begins or ends with white space) is read back
  -- from its line as it was.
  pub parse_definition_line-print_definition :
      IsPrintable → parse_definition_line print_definition ≡ ok d
  unfolding parse_definition_line print_definition
  parse_definition_line-print_definition h =
      rw
        (
          split-join command_name
              (category_to_string category
                ∷ task_name
                ∷ count
                ∷ output_dir
                ∷ remote_path
                ∷ local_path
                ∷ flag
                ∷ [])
              (
                h.name_is_field.0,
                (
                  h.category_is_field.0,
                  (
                    h.task_is_field.0,
                    (
                      h.count_is_field.0,
                      (
                        h.output_is_field.0,
                        (h.remote_is_field.0, (h.local_is_field.0, (h.flag_is_field.0, h.flagged))),
                      ),
                    ),
                  ),
                ),
              ),
          h.name_is_field.1,
          h.category_is_field.1,
          h.task_is_field.1,
          h.count_is_field.1,
          h.output_is_field.1,
          h.remote_is_field.1,
          h.local_is_field.1,
          h.flag_is_field.1,
          parse_category-category_to_string category,
          h.named,
          h.known,
          h.has_task,
          h.counts,
          h.confirms,
        )
        refl

-- A line of eight fields whose last one, the confirmation flag, is left empty is rejected, although
-- ParseBool reads an empty flag as false: the empty field behind the last | is not seen at all.
pub empty_flag_rejected :
    (a b c d e f g : Text)
    → All (Lacks b'|') (a ∷ b ∷ c ∷ d ∷ e ∷ f ∷ g ∷ [])
    → (parse_definition_line (join (a ∷ b ∷ c ∷ d ∷ e ∷ f ∷ g ∷ [] ∷ []))
        ≡ err (codes "expected 8 pipe-separated fields"))
      × (parse_bool [] ≡ some false)
unfolding parse_definition_line join parse_bool codes text_eq split
empty_flag_rejected a b c d e f g (ha, (hb, (hc, (hd, (he, (hf, (hg, _))))))) = (
  rw
      (
        split-append b'|' a _ ha,
        split-append b'|' b _ hb,
        split-append b'|' c _ hc,
        split-append b'|' d _ hd,
        split-append b'|' e _ he,
        split-append b'|' f _ hf,
        split-append b'|' g [] hg,
      )
      refl,
  refl,
)
