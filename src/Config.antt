-- ===== src/Config.antt =====
-- src/config.rs: the configuration file. A `Config` is its field `sections`; both maps are ordered by
-- the text of the key.
pub mod Reading
pub mod Lines
pub mod Files
pub mod Values
mod Tests
use lwrt.Base.{ℕ, List, [], ◌∷◌, Option, none, some, if◌then◌else◌}
use lwrt.Base.Bytes.{codes}
use lwrt.Base.Map.{get, insert, bytes_key}
use lwrt.Text.{Text, trim, split, split_once, strip_prefix, strip_suffix, is_empty, lines}

abbrev pub Section : Type 0
Section = List (Text × Text)

abbrev pub Config : Type 0
Config = List (Text × Section)

-- `entry(name).or_default()`
unfoldable pub section_of : Option Section → Section
section_of none = []
section_of (some s) = s

abbrev pub entry : Text → Config → Section
entry name cfg = section_of (get name cfg)

abbrev first : List Text → Text
first [] = []
first (s ∷ parts) = s

-- The configuration so far, and the section that the line stands in.
pub record State : Type 0 where
  pub cfg : Config
  pub cur : Text

unfoldable pub enter : Text → State → State
enter name s = record { cfg = insert name (entry name s.cfg) s.cfg; cur = name }

unfoldable pub set : Text → Text → State → State
set key value s = record s { cfg = insert s.cur (insert key value (entry s.cur s.cfg)) s.cfg }

abbrev without_close : Option Text → Option Text
without_close none = none
without_close (some rest) = strip_suffix (codes "]") rest

unfoldable pub bracketed : Text → Option Text
bracketed line = without_close (strip_prefix (codes "[") line)

unfoldable pub assignment : Option (Text × Text) → State → State
unfolding set
assignment none s = s
assignment (some (k, v)) s = set (trim k) (trim v) s

unfoldable pub heading : Option Text → Text → State → State
unfolding enter assignment
heading (some name) line s = enter (trim name) s
heading none line s = assignment (split_once b'=' line) s

unfoldable pub parse_line : State → Text → State
unfolding heading bracketed
parse_line s raw =
    let line = trim (first (split b'#' raw)) in
    if is_empty line then s else heading (bracketed line) line s

unfoldable pub parse_lines : State → List Text → State
parse_lines s [] = s
parse_lines s (l ∷ ls) = parse_lines (parse_line s l) ls

unfoldable pub parse : Text → Config
unfolding parse_lines
parse text = (parse_lines (record { cfg = []; cur = [] }) (lines text)).cfg

-- `self.sections.get(section)?.get(key)`
abbrev pub in_section : Option Section → Text → Option Text
in_section none key = none
in_section (some s) key = get key s

unfoldable pub get_value : Config → Text → Text → Option Text
get_value cfg section key = in_section (get section cfg) key

abbrev unwrap_or : Option Text → Text → Text
unwrap_or none default = default
unwrap_or (some v) default = v

unfoldable pub get_or : Config → Text → Text → Text → Text
unfolding get_value
get_or cfg section key default = unwrap_or (get_value cfg section key) default
