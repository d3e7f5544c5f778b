-- ===== src/Command/Names.antt =====
-- The names of the command categories.
use youyeetoo_rk3588_toolkit.Prelude.{◌≡◌, refl, ◌≢◌, arith}
use youyeetoo_rk3588_toolkit.Prelude.Text.{Text, codes, text_eq, text_eq_iff}
use youyeetoo_rk3588_toolkit.Command.{CommandCategory, unknown, category_to_string, parse_category}

-- The printed name of a category is read back as that category.
pub parse_category-category_to_string :
    (c : CommandCategory) → parse_category (category_to_string c) ≡ c
unfolding parse_category category_to_string codes text_eq
parse_category-category_to_string unknown = refl
parse_category-category_to_string _ = refl

-- Every text that is read as a known category is the printed name of that category.
pub category_to_string-parse_category :
    (t : Text) → parse_category t ≢ unknown → category_to_string (parse_category t) ≡ t
unfolding parse_category category_to_string
category_to_string-parse_category t known = ground (
  arith,
  text_eq_iff t (codes "system"),
  text_eq_iff t (codes "boot"),
  text_eq_iff t (codes "usb"),
  text_eq_iff t (codes "camera"),
  text_eq_iff t (codes "storage"),
  text_eq_iff t (codes "narrowband"),
  text_eq_iff t (codes "ota_receive"),
  text_eq_iff t (codes "downlink"),
  text_eq_iff t (codes "log"),
)
