-- ===== src/Keys/Files.antt =====
-- Whole key files: a text made of well-formed lines sets the keys of these lines, in order.
use fuse_nx.Prelude.{
  ℕ, ◌≡◌, ◌≢◌, refl, ap, fun_ext, ◌∙◌, Bool, not, ◌==◌, List, [], ◌∷◌, ◌++◌, length, some, map,
}
use fuse_nx.Keyset.Text.{Outcome, ok, ◌>>=◌, string_view}
use fuse_nx.Keyset.{KeySet, set_key}
use fuse_nx.Keys.{contains, separators, blanks, lines_of, set_lines, parse_console, no_keys}
use fuse_nx.Keys.Lines.{AllFail, HeadPasses, parse_line_parts}

pub record KeyLine : Type 0 where
  pub spaces : List ℕ
  pub id : List ℕ
  pub sep : List ℕ
  pub value : List ℕ
  pub tail : List ℕ

abbrev pub after_id : KeyLine → List ℕ
after_id l = l.sep ++ (l.value ++ l.tail)

abbrev pub line_text : KeyLine → List ℕ
line_text l = l.spaces ++ (l.id ++ after_id l)

abbrev newline : ℕ → Bool
newline c = c == 10

pub record IsKeyLine (l : KeyLine) : Type 0 where
  pub spaces_only : AllFail (λ c. not (contains (b' ' ∷ []) c)) l.spaces
  pub id_plain : AllFail (contains separators) l.id
  pub id_some : length l.id ≢ 0
  pub sep_only : AllFail (λ c. not (contains separators c)) l.sep
  pub sep_some : length l.sep ≢ 0
  pub value_plain : AllFail (contains separators) l.value
  pub value_black : AllFail (contains blanks) l.value
  pub value_some : length l.value ≢ 0
  pub tail_blank : HeadPasses (contains blanks) l.tail
  pub one_line : AllFail newline (line_text l)

abbrev pub AreKeyLines : List KeyLine → Type 0
AreKeyLines [] = Unit {0}
AreKeyLines (l ∷ ls) = IsKeyLine l × AreKeyLines ls

-- Every line ends with a newline.
abbrev pub text_of : List KeyLine → List ℕ
text_of [] = []
text_of (l ∷ ls) = line_text l ++ (10 ∷ text_of ls)

lines_of_line :
    (line rest : List ℕ)
    → AllFail newline line
    → lines_of (line ++ (10 ∷ rest)) ≡ line ∷ lines_of rest
unfolding lines_of
lines_of_line [] rest h = refl
lines_of_line (c ∷ cs) rest h = rw (h.0, lines_of_line cs rest h.1) refl

lines_of-text_of : (ls : List KeyLine) → AreKeyLines ls → lines_of (text_of ls) ≡ map line_text ls
unfolding lines_of
lines_of-text_of [] h = refl
lines_of-text_of (l ∷ ls) h =
    lines_of_line (line_text l) (text_of ls) h.0.one_line
    ∙ ap (◌∷◌ (line_text l)) (lines_of-text_of ls h.1)

-- The keys of the lines, set one after another: the views lie in the line, as `getline` keeps it.
abbrev pub set_all : KeySet → List KeyLine → Outcome KeySet
set_all s [] = ok s
set_all s (l ∷ ls) = do
  s' ←
      set_key s (string_view l.id (after_id l ++ (0 ∷ [])))
        (string_view l.value (l.tail ++ (0 ∷ [])))
  set_all s' ls

set_lines-map :
    (s : KeySet) (ls : List KeyLine)
    → AreKeyLines ls
    → set_lines s (map line_text ls) ≡ set_all s ls
unfolding set_lines
set_lines-map s [] h = refl
set_lines-map s (l ∷ ls) (k, hs) =
    rw
      (parse_line_parts l.spaces l.id l.sep l.value l.tail k.spaces_only k.id_plain k.id_some
        k.sep_only k.sep_some k.value_plain k.value_black k.value_some k.tail_blank)
      (ap
        (◌>>=◌ (
          set_key s (string_view l.id (after_id l ++ (0 ∷ [])))
            (string_view l.value (l.tail ++ (0 ∷ [])))))
        (fun_ext λ s'. set_lines-map s' ls hs))

-- A key file of well-formed lines sets their keys in the order of the file, starting from the keys
-- that are all zero; an exception or a store out of bounds of one line is that of the whole file.
pub parse_console-text_of :
    (ls : List KeyLine) → AreKeyLines ls → parse_console (some (text_of ls)) ≡ set_all no_keys ls
unfolding parse_console
parse_console-text_of ls h =
    ap (set_lines no_keys) (lines_of-text_of ls h) ∙ set_lines-map no_keys ls h
