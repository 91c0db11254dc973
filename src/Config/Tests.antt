-- ===== src/Config/Tests.antt =====
-- src/config.rs: the first test of the source, and the theorems at a small file.
use lwrt.Base.{
  false, none, Bool, not, ◌&&◌, ◌==◌, All, ℕ, true, List, [], ◌∷◌, some, ◌≡◌, refl, arith,
  if◌then◌else◌,
}
use lwrt.Base.Bytes.{codes}
use lwrt.Base.Map.{get, insert, same_key, bytes_key, compare_bytes}
use lwrt.Text.{
  trim, trim_start_by, trim_end_by, is_whitespace, split_by, split_once, strip_prefix, strip_suffix,
  strip_cr, lines_of, lines,
}
use lwrt.Config.{
  set, enter, heading, assignment, bracketed, section_of, parse_line, parse_lines, parse, get_value,
}
use lwrt.Config.Lines.{IsPlain, Line, IsLine, comment, blank, section, setting, render}
use lwrt.Config.Files.{plain_to_inline}
use lwrt.Config.Values.{last_value, occurs, has, get_value-parse}
use lwrt.Config.Reading.{get_value-set}

spaces_kept :
    get_value
      (parse (codes "# top\n[a]\nx = 1 # inline\n\n[b]\ny=hello world\n"))
      (codes "b")
      (codes "y")
    ≡ some (codes "hello world")
unfolding get_value parse parse_lines parse_line heading bracketed assignment set enter section_of
    lines lines_of strip_cr split_by split_once strip_prefix strip_suffix trim trim_start_by
    trim_end_by is_whitespace get insert compare_bytes
spaces_kept = refl

abbrev file : List Line
file =
    comment (codes "router")
    ∷ section (codes "lan")
    ∷ setting (codes "ipaddr") (codes "192.168.1.1")
    ∷ blank
    ∷ []

get_value-set_example :
    get_value
      (set (codes "k") (codes "v") (record { cfg = []; cur = codes "lan" })).cfg
      (codes "lan")
      (codes "k")
    ≡ (if same_key (codes "lan") (codes "lan")
        then (if same_key (codes "k") (codes "k")
            then some (codes "v")
            else get_value [] (codes "lan") (codes "k"))
        else get_value [] (codes "lan") (codes "k"))
get_value-set_example =
    get_value-set (record { cfg = []; cur = codes "lan" }) (codes "k") (codes "v") (codes "k")
      (codes "lan")

abbrev is_plain : ℕ → Bool
is_plain c =
    not (is_whitespace c)
    && not (c == b'#')
    && not (b'[' == c)
    && not (c == b'=')
    && not (c == 10)
    && not (c == 13)

is_plain-IsPlain : (c : ℕ) → is_plain c ≡ true → IsPlain c
is_plain-IsPlain c h = record {
  solid = ground arith;
  no_hash = ground arith;
  no_open = ground arith;
  no_equals = ground arith;
  no_feed = ground arith;
  no_return = ground arith;
}

abbrev all_plain : List ℕ → Bool
all_plain [] = true
all_plain (c ∷ s) = is_plain c && all_plain s

all_plain-IsPlain : (s : List ℕ) → all_plain s ≡ true → All IsPlain s
all_plain-IsPlain [] h = tt
all_plain-IsPlain (c ∷ s) h =
    (is_plain-IsPlain c (ground arith), all_plain-IsPlain s (ground arith))

file-IsLine : All IsLine file
unfolding is_whitespace
file-IsLine = (
  plain_to_inline (codes "router") (all_plain-IsPlain (codes "router") refl),
  (
    all_plain-IsPlain (codes "lan") refl,
    (
      (all_plain-IsPlain (codes "ipaddr") refl, all_plain-IsPlain (codes "192.168.1.1") refl),
      (tt, tt),
    ),
  ),
)

get_value-parse_example :
    (get_value (parse (render file)) (codes "lan") (codes "ipaddr")
      ≡ last_value [] (codes "lan") (codes "ipaddr") none file)
    × (has (parse (render file)) (codes "lan") ≡ occurs [] (codes "lan") false file)
get_value-parse_example = get_value-parse file (codes "lan") (codes "ipaddr") file-IsLine
