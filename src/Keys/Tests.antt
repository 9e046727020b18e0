-- ===== src/Keys/Tests.antt =====
-- Two lines of a key file, and the theorems at them.
use fuse_nx.Prelude.{◌≡◌, arith, List, [], ◌∷◌, ℕ, some}
use fuse_nx.Keyset.Text.{codes}
use fuse_nx.Keys.{parse_console, no_keys, contains}
use fuse_nx.Keys.Files.{KeyLine, IsKeyLine, text_of, set_all, parse_console-text_of}

abbrev value : List ℕ
value = codes "00ff"

abbrev ocean : KeyLine
ocean = record {
  spaces = [];
  id = codes "key_area_key_ocean_source";
  sep = codes "=";
  value = value;
  tail = 13 ∷ [];
}

abbrev header : KeyLine
header = record {
  spaces = codes " ";
  id = codes "header_key";
  sep = codes " = ";
  value = value;
  tail = [];
}

ocean-IsKeyLine : IsKeyLine ocean
unfolding contains
ocean-IsKeyLine = record {
  spaces_only = tt;
  id_plain = ground arith;
  id_some = omega arith;
  sep_only = ground arith;
  sep_some = omega arith;
  value_plain = ground arith;
  value_black = ground arith;
  value_some = omega arith;
  tail_blank = ground arith;
  one_line = ground arith;
}

header-IsKeyLine : IsKeyLine header
unfolding contains
header-IsKeyLine = record {
  spaces_only = ground arith;
  id_plain = ground arith;
  id_some = omega arith;
  sep_only = ground arith;
  sep_some = omega arith;
  value_plain = ground arith;
  value_black = ground arith;
  value_some = omega arith;
  tail_blank = tt;
  one_line = ground arith;
}

parse_console-text_of_example :
    parse_console (some (text_of (ocean ∷ header ∷ []))) ≡ set_all no_keys (ocean ∷ header ∷ [])
parse_console-text_of_example =
    parse_console-text_of (ocean ∷ header ∷ []) (ocean-IsKeyLine, (header-IsKeyLine, tt))
