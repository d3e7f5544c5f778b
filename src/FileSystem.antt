-- ===== src/FileSystem.antt =====
-- The files that the service reads and writes: what each path holds, and which can be written.
use youyeetoo_rk3588_toolkit.Prelude.{
  Bool, List, [], ◌∷◌, ◌++◌, Option, none, some, is_some, ◌&&◌, ◌==◌, if◌then◌else◌,
}
use youyeetoo_rk3588_toolkit.Prelude.Text.{Text, text_eq, split}

pub record FileSystem : Type 0 where
  pub contents : Text → Option Text
  pub writable : Text → Bool

-- The lines of a text, as successive calls of std::getline give them.
unfoldable pub lines : Text → List Text
unfolding split
lines = split 10

-- Each line followed by a newline.
unfoldable pub unlines : List Text → Text
unlines [] = []
unlines (l ∷ ls) = l ++ (10 ∷ unlines ls)

-- The path with the separator that a name needs behind it.
abbrev with_slash : Text → Text
with_slash [] = []
with_slash (c ∷ []) = if c == b'/' then c ∷ [] else c ∷ b'/' ∷ []
with_slash (c ∷ d ∷ path) = c ∷ with_slash (d ∷ path)

-- fs::path(base) / name
unfoldable pub path_append : Text → Text → Text
path_append base [] = with_slash base
path_append base (c ∷ name) = if c == b'/' then c ∷ name else with_slash base ++ (c ∷ name)

-- What stands before the last slash, if there is one.
before_slash : Text → Option Text
before_slash [] = none
before_slash (c ∷ path) =
    let further = before_slash path in
    elim further [ some parent ↦ some (c ∷ parent) | none ↦ if c == b'/' then some [] else none ]

-- fs::path::parent_path, where there is one.
unfoldable pub parent_path : Text → Option Text
unfolding before_slash
parent_path path = elim (before_slash path) [
  | none ↦ none
  | some [] ↦ some (b'/' ∷ [])
  | some (c ∷ parent) ↦ some (c ∷ parent)
]

-- fs::exists, fs::remove and fs::rename; `none` where the rename fails.
unfoldable pub exists : Text → FileSystem → Bool
exists path fs = is_some (fs.contents path)

unfoldable pub remove : Text → FileSystem → FileSystem
remove path fs =
    if fs.writable path
    then record fs { contents = λ q. if text_eq path q then none else fs.contents q }
    else fs

unfoldable pub rename : Text → Text → FileSystem → Option FileSystem
rename from to fs = elim (fs.contents from) [
  | none ↦ none
  | some text ↦
      if fs.writable from && fs.writable to
      then some (record fs {
        contents =
            λ q. if text_eq to q then some text else if text_eq from q then none else fs.contents q;
      })
      else none
]

-- An std::ofstream with std::ios::trunc, and what is written to it. Nothing happens where the file
-- cannot be opened, which the callers here do not look at.
unfoldable pub write_file : Text → Text → FileSystem → FileSystem
write_file path text fs =
    if fs.writable path
    then record fs { contents = λ p. if text_eq path p then some text else fs.contents p }
    else fs

-- An std::ofstream with std::ios::app, and what is written to it.
unfoldable pub append_file : Text → Text → FileSystem → FileSystem
unfolding write_file
append_file path text fs = elim (fs.contents path) [
  | none ↦ write_file path text fs
  | some before ↦ write_file path (before ++ text) fs
]
