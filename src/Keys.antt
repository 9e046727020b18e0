-- ===== src/Keys.antt =====
-- src/keys.cpp: key files, their lines, and where they are read into.
pub mod Lines
pub mod Files
mod Tests
use fuse_nx.Prelude.{
  ℕ, zero, suc, ◌+◌, ◌-◌, Bool, true, false, not, ◌||◌, if◌then◌else◌, ◌==◌, List, [], ◌∷◌, ◌++◌,
  length, drop, replicate, Option, none, some,
}
use mathlib.Core.Option
use fuse_nx.Prelude.Slices.{slice}
use fuse_nx.Keyset.Text.{Outcome, ok, thrown, fault, ◌>>=◌, StringView, string_view}
use fuse_nx.Keyset.{KeySet, set_key}
use fuse_nx.Keyset.Titles.{TitlekeySet, set_title_text, set_cli_key}

unfoldable pub contains : List ℕ → ℕ → Bool
contains [] c = false
contains (x ∷ xs) c = x == c || contains xs c

-- The place of the first character that passes the test.
unfoldable pub find : (ℕ → Bool) → List ℕ → Option ℕ
find p [] = none
find p (x ∷ xs) = if p x then some 0 else Option.map suc (find p xs)

-- The members of `std::string` that search from a position; `npos` is `none`.
unfoldable pub find_from : (ℕ → Bool) → List ℕ → Option ℕ → Option ℕ
unfolding find
find_from p line none = none
find_from p line (some pos) = Option.map (λ i. pos + i) (find p (drop pos line))

unfoldable pub find_first_of : List ℕ → List ℕ → Option ℕ → Option ℕ
unfolding find_from contains
find_first_of chars line pos = find_from (contains chars) line pos

unfoldable pub find_first_not_of : List ℕ → List ℕ → Option ℕ → Option ℕ
unfolding find_from contains
find_first_not_of chars line pos = find_from (λ c. not (contains chars c)) line pos

-- `std::string_view(&line[begin], end - begin)`. `line[npos]` is out of bounds, and so is a view
-- that goes on for `npos` characters.
unfoldable pub view_of : List ℕ → Option ℕ → Option ℕ → Outcome StringView
view_of line none end = fault
view_of line (some begin) none = fault
view_of line (some begin) (some end) =
    ok (string_view (slice begin (end - begin) line) (drop end line ++ 0 ∷ []))

-- `b' '` and `b'='`.
abbrev pub separators : List ℕ
separators = b' ' ∷ b'=' ∷ []

-- `" \r\n"`.
abbrev pub blanks : List ℕ
blanks = b' ' ∷ 13 ∷ 10 ∷ []

unfoldable pub parse_line : List ℕ → Outcome (StringView × StringView)
unfolding find_first_of find_first_not_of view_of
parse_line line = do
  let first_begin = find_first_not_of (b' ' ∷ []) line (some 0)
  let first_end = find_first_of separators line first_begin
  let second_begin = find_first_not_of separators line first_end
  let second_end : ℕ = elim (find_first_of blanks line second_begin) [
    | none ↦ length line
    | some e ↦ e
  ]
  id ← view_of line first_begin first_end
  key ← view_of line second_begin (some second_end)
  ok (id, key)

-- `std::getline` until it fails: a last line without a newline counts unless it is empty.
unfoldable pub lines_of : List ℕ → List (List ℕ)
lines_of [] = []
lines_of (c ∷ cs) =
    if c == 10
    then [] ∷ lines_of cs
    else elim (lines_of cs) [ [] ↦ (c ∷ []) ∷ [] | line ∷ rest ↦ (c ∷ line) ∷ rest ]

-- `std::make_unique<KeySet>()`: every array is zero.
abbrev pub no_keys : KeySet
no_keys = record {
  master_keys = replicate 0x20 (replicate 0x10 0);
  titlekeks = replicate 0x20 (replicate 0x10 0);
  header_key = replicate 0x20 0;
  aes_kek_generation_source = replicate 0x10 0;
  aes_key_generation_source = replicate 0x10 0;
  key_area_key_application_source = replicate 0x10 0;
  key_area_key_ocean_source = replicate 0x10 0;
  key_area_key_system_source = replicate 0x10 0;
}

abbrev pub no_titles : TitlekeySet
no_titles = record { cli_key = none; keys = [] }

-- The loop of `parse_console`.
unfoldable pub set_lines : KeySet → List (List ℕ) → Outcome KeySet
unfolding parse_line
set_lines s [] = ok s
set_lines s (line ∷ rest) = do (id, key) ← parse_line line; s' ← set_key s id key; set_lines s' rest

-- A path is what it leads to: nothing, or the text of a file.
unfoldable pub parse_console : Option (List ℕ) → Outcome KeySet
unfolding set_lines lines_of
parse_console none = ok no_keys
parse_console (some text) = set_lines no_keys (lines_of text)

unfoldable pub set_title_lines : TitlekeySet → List (List ℕ) → Outcome TitlekeySet
unfolding parse_line
set_title_lines t [] = ok t
set_title_lines t (line ∷ rest) = do
  (id, key) ← parse_line line
  set_title_lines (set_title_text t id key) rest

unfoldable pub parse_title : Option (List ℕ) → Outcome TitlekeySet
unfolding set_title_lines lines_of
parse_title none = ok no_titles
parse_title (some text) = set_title_lines no_titles (lines_of text)

pub data KeySetType : Type 0 where
  prod dev title : KeySetType

-- `KeySet::instance` and `TitlekeySet::instance`.
pub record Keys : Type 0 where
  pub console : KeySet
  pub titles : TitlekeySet

-- `init_keyset`, at the file that the path or its default leads to.
unfoldable pub init_keyset : KeySetType → Option (List ℕ) → Keys → Outcome Keys
unfolding parse_console parse_title
init_keyset prod file keys = do s ← parse_console file; ok (record keys { console = s })
init_keyset dev file keys = do s ← parse_console file; ok (record keys { console = s })
init_keyset title file keys = do t ← parse_title file; ok (record keys { titles = t })

unfoldable pub set_cli_titlekey : StringView → Keys → Keys
set_cli_titlekey key keys = record keys { titles = set_cli_key keys.titles key }
