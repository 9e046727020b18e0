-- ===== src/Keys/Lines.antt =====
-- What `parse_line` finds in a line that is laid out as a key file's lines are.
use fuse_nx.Prelude.{
  ℕ, ◌+◌, ◌-◌, ◌≡◌, ◌≢◌, refl, sym, ap, ◌∙◌, arith, Bool, true, false, not, List, [], ◌∷◌, ◌++◌,
  length, drop, take, none, some, append_assoc, append-nil, length-append,
}
use fuse_nx.Keyset.Text.{Outcome, ok, ◌>>=◌, StringView, string_view}
use fuse_nx.Keys.{
  contains, find, find_from, find_first_of, find_first_not_of, view_of, separators, blanks,
  parse_line,
}

-- Every element fails the test.
abbrev pub AllFail : (ℕ → Bool) → List ℕ → Type 0
AllFail p [] = Unit {0}
AllFail p (x ∷ xs) = (p x ≡ false) × AllFail p xs

-- The first element, if there is one, passes it.
abbrev pub HeadPasses : (ℕ → Bool) → List ℕ → Type 0
HeadPasses p [] = Unit {0}
HeadPasses p (x ∷ xs) = p x ≡ true

pub drop_prefix : (xs ys : List ℕ) → drop (length xs) (xs ++ ys) ≡ ys
drop_prefix [] ys = refl
drop_prefix (x ∷ xs) ys = drop_prefix xs ys

pub take_prefix : (xs ys : List ℕ) → take (length xs) (xs ++ ys) ≡ xs
take_prefix [] ys = refl
take_prefix (x ∷ xs) ys = ap (◌∷◌ x) (take_prefix xs ys)

drop_two : (pre xs ys : List ℕ) → drop (length pre + length xs) (pre ++ (xs ++ ys)) ≡ ys
drop_two pre xs ys =
    ap (λ (n : ℕ). drop n (pre ++ (xs ++ ys))) (sym (length-append pre xs))
    ∙ ap (drop (length (pre ++ xs))) (sym (append_assoc pre xs ys))
    ∙ drop_prefix (pre ++ xs) ys

pub find_stop :
    (p : ℕ → Bool) (xs : List ℕ) (y : ℕ) (ys : List ℕ)
    → AllFail p xs
    → p y ≡ true
    → find p (xs ++ (y ∷ ys)) ≡ some (length xs)
unfolding find
find_stop p [] y ys h e = rw e refl
find_stop p (x ∷ xs) y ys h e = rw (h.0, find_stop p xs y ys h.1 e) refl

pub find_nowhere : (p : ℕ → Bool) (xs : List ℕ) → AllFail p xs → find p xs ≡ none
unfolding find
find_nowhere p [] h = refl
find_nowhere p (x ∷ xs) h = rw (h.0, find_nowhere p xs h.1) refl

find_from_stop :
    (p : ℕ → Bool) (pre xs : List ℕ) (y : ℕ) (ys line : List ℕ) (pos : ℕ)
    → line ≡ pre ++ (xs ++ (y ∷ ys))
    → pos ≡ length pre
    → AllFail p xs
    → p y ≡ true
    → find_from p line (some pos) ≡ some (length pre + length xs)
unfolding find_from
find_from_stop p pre xs y ys line pos shape at h e =
    rw (shape, at, drop_prefix pre (xs ++ (y ∷ ys)), find_stop p xs y ys h e) refl

-- The end of the value: where the blanks start, or else where the line ends.
find_from_end :
    (p : ℕ → Bool) (pre xs tail line : List ℕ) (pos : ℕ)
    → line ≡ pre ++ (xs ++ tail)
    → pos ≡ length pre
    → AllFail p xs
    → HeadPasses p tail
    → (elim (find_from p line (some pos)) as (λ _. ℕ) [ none ↦ length line | some e ↦ e ])
      ≡ length pre + length xs
unfolding find_from
find_from_end p pre xs [] line pos shape at h e =
    rw (shape, at, append-nil xs, drop_prefix pre xs, find_nowhere p xs h)
      (ap length (shape ∙ ap (◌++◌ pre) (append-nil xs)) ∙ length-append pre xs)
find_from_end p pre xs (y ∷ ys) line pos shape at h e =
    rw (shape, at, drop_prefix pre (xs ++ (y ∷ ys)), find_stop p xs y ys h e)
      (ap (λ (n : ℕ). n + length xs) at)

view_of_part :
    (pre xs ys line : List ℕ) (begin end : ℕ)
    → line ≡ pre ++ (xs ++ ys)
    → begin ≡ length pre
    → end ≡ length pre + length xs
    → view_of line (some begin) (some end) ≡ ok (string_view xs (ys ++ (0 ∷ [])))
unfolding view_of
view_of_part pre xs ys line begin end shape eb ee =
    let width : length pre + length xs - length pre ≡ length xs = omega arith in
    rw (shape, eb, ee, drop_prefix pre (xs ++ ys), width, take_prefix xs ys, drop_two pre xs ys)
      refl

abbrev pair : Outcome StringView → Outcome StringView → Outcome (StringView × StringView)
pair x y = do id ← x; key ← y; ok (id, key)

both : {x y : Outcome StringView} {a b : StringView} → x ≡ ok a → y ≡ ok b → pair x y ≡ ok (a, b)
both {x} {y} {a} {b} ex ey = rw (ex, ey) refl

-- A line of an identifier, separators, and a value, with spaces before and blanks after if any,
-- gives the identifier and the value, whichever characters stand between them.
pub parse_line_parts :
    (spaces id sep value tail : List ℕ)
    → AllFail (λ c. not (contains (b' ' ∷ []) c)) spaces
    → AllFail (contains separators) id
    → length id ≢ 0
    → AllFail (λ c. not (contains separators c)) sep
    → length sep ≢ 0
    → AllFail (contains separators) value
    → AllFail (contains blanks) value
    → length value ≢ 0
    → HeadPasses (contains blanks) tail
    → parse_line (spaces ++ (id ++ (sep ++ (value ++ tail))))
      ≡ ok (
        string_view id ((sep ++ (value ++ tail)) ++ (0 ∷ [])),
        string_view value (tail ++ (0 ∷ [])),
      )
unfolding parse_line find_first_of find_first_not_of
parse_line_parts spaces [] sep value tail hs hi ni hp np hv hw nv ht = absurd (ni refl)
parse_line_parts spaces (i ∷ is) [] value tail hs hi ni hp np hv hw nv ht = absurd (np refl)
parse_line_parts spaces (i ∷ is) (c ∷ cs) [] tail hs hi ni hp np hv hw nv ht = absurd (nv refl)
parse_line_parts spaces (i ∷ is) (c ∷ cs) (v ∷ vs) tail hs hi ni hp np hv hw nv ht =
    rw (first, first_end, second, last) (both id_view value_view)
  where
    id : List ℕ
    id = i ∷ is

    sep : List ℕ
    sep = c ∷ cs

    value : List ℕ
    value = v ∷ vs

    line : List ℕ
    line = spaces ++ (id ++ (sep ++ (value ++ tail)))

    before_sep : List ℕ
    before_sep = spaces ++ id

    before_value : List ℕ
    before_value = before_sep ++ sep

    at_sep : line ≡ before_sep ++ (sep ++ (value ++ tail))
    at_sep = sym (append_assoc spaces id (sep ++ (value ++ tail)))

    at_value : line ≡ before_value ++ (value ++ tail)
    at_value = at_sep ∙ sym (append_assoc before_sep sep (value ++ tail))

    first : find_first_not_of (b' ' ∷ []) line (some 0) ≡ some (length spaces)
    first =
        find_from_stop (λ c. not (contains (b' ' ∷ []) c)) [] spaces i
          (is ++ (sep ++ (value ++ tail))) line 0 refl refl hs (ground arith)
        ∙ ap some (omega arith)

    first_end :
        find_first_of separators line (some (length spaces)) ≡ some (length spaces + length id)
    first_end =
        find_from_stop (contains separators) spaces id c (cs ++ (value ++ tail)) line
          (length spaces) refl refl hi (ground arith)

    second :
        find_first_not_of separators line (some (length spaces + length id))
        ≡ some (length before_value)
    second =
        find_from_stop (λ c. not (contains separators c)) before_sep sep v (vs ++ tail) line
          (length spaces + length id) at_sep (sym (length-append spaces id)) hp (ground arith)
        ∙ ap some (sym (length-append before_sep sep))

    last :
        (elim (find_first_of blanks line (some (length before_value))) as (λ _. ℕ) [
          | none ↦ length line
          | some e ↦ e
        ])
        ≡ length before_value + length value
    last =
        find_from_end (contains blanks) before_value value tail line (length before_value) at_value
          refl hw ht

    id_view :
        view_of line (some (length spaces)) (some (length spaces + length id))
        ≡ ok (string_view id ((sep ++ (value ++ tail)) ++ (0 ∷ [])))
    id_view = view_of_part spaces id (sep ++ (value ++ tail)) line _ _ refl refl refl

    value_view :
        view_of line (some (length before_value)) (some (length before_value + length value))
        ≡ ok (string_view value (tail ++ (0 ∷ [])))
    value_view = view_of_part before_value value tail line _ _ at_value refl refl
