-- ===== src/Config/Lines.antt =====
-- src/config.rs: `parse` of a file that is written line by line.
use lwrt.Base.{ℕ, false, List, [], ◌∷◌, ◌++◌, ◌==◌, ◌≡◌, refl, All}
use lwrt.Base.Bytes.{codes}
use lwrt.Text.Filtering.{split_by-none}
use lwrt.Text.Lines.{IsInline, All-map}
use lwrt.Text.{Text, is_whitespace}
use lwrt.Text.Trimming.{IsSolid, trim-solid}
use lwrt.Config.{State, enter, set, heading, bracketed, parse_line}

-- A line of a file.
pub data Line : Type 0 where
  blank : Line
  comment : Text → Line
  section : Text → Line
  setting : Text → Text → Line

abbrev pub render_line : Line → Text
render_line blank = []
render_line (comment t) = b'#' ∷ t
render_line (section name) = b'[' ∷ (name ++ codes "]")
render_line (setting key value) = key ++ (b'=' ∷ value)

abbrev pub render : List Line → Text
render [] = []
render (l ∷ ls) = render_line l ++ (10 ∷ render ls)

-- What a line means.
abbrev pub apply : Line → State → State
apply blank s = s
apply (comment t) s = s
apply (section name) s = enter name s
apply (setting key value) s = set key value s

abbrev pub apply_all : List Line → State → State
apply_all [] s = s
apply_all (l ∷ ls) s = apply_all ls (apply l s)

-- No whitespace and none of the characters that the syntax uses.
pub record IsPlain (c : ℕ) : Type 0 where
  pub solid : is_whitespace c ≡ false
  pub no_hash : (c == b'#') ≡ false
  pub no_open : (b'[' == c) ≡ false
  pub no_equals : (c == b'=') ≡ false
  pub no_feed : (c == 10) ≡ false
  pub no_return : (c == 13) ≡ false

abbrev pub IsLine : Line → Type 0
IsLine blank = Unit
IsLine (comment t) = All IsInline t
IsLine (section name) = All IsPlain name
IsLine (setting key value) = All IsPlain key × All IsPlain value

pub plain-IsSolid : (s : Text) → All IsPlain s → IsSolid s
plain-IsSolid s h = All-map IsPlain _ (λ c p. p.solid) s h

-- The line without a comment, trimmed, is the line itself.
pub parse_line-solid :
    (s : State) (c : ℕ) (line : Text)
    → IsSolid (c ∷ line)
    → All (λ c. (c == b'#') ≡ false) (c ∷ line)
    → parse_line s (c ∷ line) ≡ heading (bracketed (c ∷ line)) (c ∷ line) s
unfolding parse_line
parse_line-solid s c line solid clean =
    rw (split_by-none (λ c. c == b'#') (c ∷ line) clean, trim-solid (c ∷ line) solid) refl
