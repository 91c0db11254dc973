-- ===== src/Ipkg.antt =====
-- src/ipkg.rs: the package index and what an installation does. Files are read and written, and servers
-- are asked, by parameters: `Disk` says which calls succeed, `exchange` sends a request to an address and
-- gives the answer. What is written is a list of effects, in order. `usize` is the number of values of
-- the machine's word; `lossy` is `String::from_utf8_lossy`.
pub mod Archive
pub mod Paths
pub mod Safety
mod Tests
use mathlib.Core.List.{reverse}
use lwrt.Base.{
  ℕ, zero, suc, ◌+◌, ◌-◌, ◌*◌, Bool, true, false, not, ◌&&◌, ◌||◌, List, [], ◌∷◌, ◌++◌, map, Option,
  none, some, length, take, drop, ltb, leb, ◌==◌, if◌then◌else◌,
}
use lwrt.Base.Bytes.{Bytes, codes}
use lwrt.Text.{
  Text, onto_first, equal, lower, is_empty, trim, lines, split, split_once, strip_prefix, filter_by,
  trim_start_by,
}
use lwrt.Text.Numbers.{parse_unsigned}
use lwrt.Sha256.{digest}
use lwrt.Sha256.Hex.{hex}

abbrev pub state : Text
state = codes "/var/ipkg"

-- The index

pub record Entry : Type 0 where
  pub filename : Text
  pub size : Option ℕ
  pub sha256 : Option Text

-- What the lines of a stanza have said so far.
pub record Stanza : Type 0 where
  pub is_match : Bool
  pub filename : Option Text
  pub size : Option ℕ
  pub sha256 : Option Text

abbrev empty_stanza : Stanza
empty_stanza = record { is_match = false; filename = none; size = none; sha256 = none }

-- `index.split("\n\n")`
unfoldable pub stanzas : Text → List Text
stanzas [] = [] ∷ []
stanzas (c ∷ []) = (c ∷ []) ∷ []
stanzas (c ∷ d ∷ s) =
    let parts = stanzas s in
    let more = onto_first c (stanzas (d ∷ s)) in if c == 10 && d == 10 then [] ∷ parts else more

abbrev note_value : ℕ → Text → Text → Text → Stanza → Stanza
note_value usize name key val st =
    if equal key (codes "Package")
    then record st { is_match = equal val name }
    else if equal key (codes "Filename")
    then record st { filename = some val }
    else if equal key (codes "Size")
    then record st { size = parse_unsigned usize val }
    else if equal key (codes "SHA256sum")
    then record st { sha256 = some val }
    else st

abbrev note_line : ℕ → Text → Option (Text × Text) → Stanza → Stanza
note_line usize name none st = st
note_line usize name (some (key, val)) st = note_value usize name (trim key) (trim val) st

unfoldable pub read_stanza : ℕ → Text → List Text → Stanza → Stanza
read_stanza usize name [] st = st
read_stanza usize name (l ∷ ls) st =
    read_stanza usize name ls (note_line usize name (split_once b':' l) st)

abbrev or_default : Text → Option Text → Text
or_default name none = name ++ codes ".ipk"
or_default name (some filename) = filename

unfoldable pub find_stanza : ℕ → Text → List Text → Option Entry
unfolding read_stanza
find_stanza usize name [] = none
find_stanza usize name (s ∷ rest) =
    let st = read_stanza usize name (lines s) empty_stanza in
    let later = find_stanza usize name rest in
    if st.is_match
    then some record { filename = or_default name st.filename; size = st.size; sha256 = st.sha256 }
    else later

unfoldable pub find_entry : ℕ → Text → Text → Option Entry
unfolding find_stanza stanzas
find_entry usize index name = find_stanza usize name (stanzas index)

-- Member names and fields of a header

abbrev until_zero : Bytes → Bytes
until_zero [] = []
until_zero (b ∷ bs) = if b == 0 then [] else b ∷ until_zero bs

-- `trim_start_matches("./")`
unfoldable pub strip_dots : Text → Text
strip_dots [] = []
strip_dots (c ∷ []) = c ∷ []
strip_dots (c ∷ d ∷ s) = if c == b'.' && d == b'/' then strip_dots s else c ∷ d ∷ s

unfoldable pub is_control : Text → Bool
unfolding strip_dots
is_control name = equal (strip_dots name) (codes "control")

unfoldable pub join : Text → List Text → Text
join sep [] = []
join sep (s ∷ []) = s
join sep (s ∷ t ∷ rest) = s ++ (sep ++ join sep (t ∷ rest))

abbrev pub is_safe_component : Text → Bool
is_safe_component c = not (equal c (codes "..")) && not (is_empty c)

unfoldable pub sanitize : Text → Text
unfolding join strip_dots
sanitize name =
    let trimmed = trim_start_by (λ c. c == b'/') (strip_dots name) in
    b'/' ∷ join (b'/' ∷ []) (filter_by is_safe_component (split b'/' trimmed))

unfoldable pub cstr : (Bytes → Text) → Bytes → Text
cstr lossy bs = lossy (until_zero bs)

abbrev octal_digit : ℕ → Option ℕ
octal_digit c = if leb b'0' c && leb c b'7' then some (c - b'0') else none

-- A value that the word does not hold is an error.
unfoldable pub octal_from : ℕ → ℕ → Text → Option ℕ
octal_from usize v [] = some v
octal_from usize v (c ∷ s) = elim (octal_digit c) [
  | none ↦ none
  | some d ↦ if ltb (v * 8 + d) usize then octal_from usize (v * 8 + d) s else none
]

-- `usize::from_str_radix(s, 8)`, which takes a plus sign before the digits.
unfoldable pub from_str_radix8 : ℕ → Text → Option ℕ
unfolding octal_from
from_str_radix8 usize [] = none
from_str_radix8 usize (c ∷ []) = octal_from usize 0 (c ∷ [])
from_str_radix8 usize (c ∷ d ∷ s) =
    if c == b'+' then octal_from usize 0 (d ∷ s) else octal_from usize 0 (c ∷ d ∷ s)

abbrev pub or_zero : Option ℕ → ℕ
or_zero none = 0
or_zero (some n) = n

unfoldable pub octal : ℕ → (Bytes → Text) → Bytes → ℕ
unfolding from_str_radix8 cstr
octal usize lossy bs =
    let s = trim (cstr lossy bs) in
    or_zero (from_str_radix8 usize (if is_empty s then codes "0" else s))
