-- ===== src/Config/Files.antt =====
-- src/config.rs: `parse` of a whole file, against what its lines mean.
use mathlib.Core.List.{reverse-append, reverse-reverse}
use lwrt.Base.{ℕ, false, List, [], ◌∷◌, ◌++◌, none, some, ◌==◌, ◌≡◌, refl, ap, ◌∙◌, All, All-append}
use lwrt.Base.Bytes.{codes}
use lwrt.Text.{
  Text, trim, trim_start_by, trim_end_by, is_whitespace, split_by, strip_prefix, strip_suffix,
  lines_of, lines,
}
use lwrt.Text.Trimming.{IsSolid, trim-solid}
use lwrt.Config.{State, enter, set, heading, assignment, bracketed, parse_line, parse_lines, parse}
use lwrt.Text.Lines.{IsInline, All-map, split_once-at, lines-cons}
use lwrt.Config.Lines.{
  Line, blank, comment, section, setting, IsPlain, IsLine, render_line, render, apply, apply_all,
  plain-IsSolid, parse_line-solid,
}

bracketed-section : (name : Text) → bracketed (b'[' ∷ (name ++ codes "]")) ≡ some name
unfolding bracketed strip_prefix strip_suffix
bracketed-section name = rw (reverse-append name (codes "]"), reverse-reverse name) refl

bracketed-other : (c : ℕ) (s : Text) → (b'[' == c) ≡ false → bracketed (c ∷ s) ≡ none
unfolding bracketed strip_prefix
bracketed-other c s h = rw h refl

heading-section :
    (s : State) (name line : Text) → All IsPlain name → heading (some name) line s ≡ enter name s
unfolding heading
heading-section s name line h = rw (trim-solid name (plain-IsSolid name h)) refl

heading-setting :
    (s : State) (key value : Text) (c : ℕ) (line : Text)
    → All IsPlain key
    → All IsPlain value
    → key ++ (b'=' ∷ value) ≡ c ∷ line
    → (b'[' == c) ≡ false
    → heading (bracketed (c ∷ line)) (c ∷ line) s ≡ set key value s
unfolding heading assignment
heading-setting s key value c line hk hv e first =
    rw
      (
        bracketed-other c line first,
        ← e,
        split_once-at b'=' key value (All-map IsPlain _ (λ c p. p.no_equals) key hk) refl,
        trim-solid key (plain-IsSolid key hk),
        trim-solid value (plain-IsSolid value hv),
      )
      refl

close-IsSolid : IsSolid (codes "]")
unfolding is_whitespace
close-IsSolid = (refl, tt)

value-IsSolid : (value : Text) → All IsPlain value → IsSolid (b'=' ∷ value)
unfolding is_whitespace
value-IsSolid value h = (refl, plain-IsSolid value h)

no_hash : (s : Text) → All IsPlain s → All (λ c. (c == b'#') ≡ false) s
no_hash s h = All-map IsPlain _ (λ c p. p.no_hash) s h

pub plain_to_inline : (s : Text) → All IsPlain s → All IsInline s
plain_to_inline s h =
    All-map IsPlain IsInline (λ c p. record { no_feed = p.no_feed; no_return = p.no_return }) s h

open-solid : is_whitespace b'[' ≡ false
unfolding is_whitespace
open-solid = refl

-- Each line means what it says.
parse_line-render : (s : State) (l : Line) → IsLine l → parse_line s (render_line l) ≡ apply l s
parse_line-render s blank h = unfold parse_line split_by trim trim_start_by trim_end_by in refl
parse_line-render s (comment t) h =
    unfold parse_line split_by trim trim_start_by trim_end_by in refl
parse_line-render s (section name) h =
    rw
      (
        parse_line-solid s b'[' (name ++ codes "]")
            (
              open-solid,
              All-append (λ c. is_whitespace c ≡ false) name (codes "]") (plain-IsSolid name h)
                  close-IsSolid,
            )
            (
              refl,
              All-append (λ c. (c == b'#') ≡ false) name (codes "]") (no_hash name h) (refl, tt),
            ),
        bracketed-section name,
      )
      (heading-section s name (b'[' ∷ (name ++ codes "]")) h)
parse_line-render s (setting [] value) (hk, hv) =
    parse_line-solid s b'=' value (value-IsSolid value hv) (refl, no_hash value hv)
    ∙ heading-setting s [] value b'=' value tt hv refl refl
parse_line-render s (setting (c ∷ key) value) (hk, hv) =
    parse_line-solid s c (key ++ (b'=' ∷ value))
      (All-append (λ c. is_whitespace c ≡ false) (c ∷ key) (b'=' ∷ value)
        (plain-IsSolid (c ∷ key) hk) (value-IsSolid value hv))
      (All-append (λ c. (c == b'#') ≡ false) (c ∷ key) (b'=' ∷ value) (no_hash (c ∷ key) hk)
        (refl, no_hash value hv))
    ∙ heading-setting s (c ∷ key) value c (key ++ (b'=' ∷ value)) hk hv refl hk.0.no_open

render_line-IsInline : (l : Line) → IsLine l → All IsInline (render_line l)
render_line-IsInline blank h = tt
render_line-IsInline (comment t) h = (record { no_feed = refl; no_return = refl }, h)
render_line-IsInline (section name) h = (
  record { no_feed = refl; no_return = refl },
  All-append IsInline name (codes "]") (plain_to_inline name h)
      (record { no_feed = refl; no_return = refl }, tt),
)
render_line-IsInline (setting key value) (hk, hv) =
    All-append IsInline key (b'=' ∷ value) (plain_to_inline key hk)
      (record { no_feed = refl; no_return = refl }, plain_to_inline value hv)

parse_lines-render :
    (s : State) (ls : List Line)
    → All IsLine ls
    → parse_lines s (lines (render ls)) ≡ apply_all ls s
unfolding parse_lines
parse_lines-render s [] h = unfold lines lines_of split_by in refl
parse_lines-render s (l ∷ ls) h =
    rw (lines-cons (render_line l) (render ls) (render_line-IsInline l h.0)) (
      ap (λ k. parse_lines k (lines (render ls))) (parse_line-render s l h.0)
      ∙ parse_lines-render (apply l s) ls h.1)

-- The lines of a file that is written take effect one after another.
pub parse-render :
    (ls : List Line)
    → All IsLine ls
    → parse (render ls) ≡ (apply_all ls (record { cfg = []; cur = [] })).cfg
unfolding parse
parse-render ls h =
    ap (λ (s : State). s.cfg) (parse_lines-render (record { cfg = []; cur = [] }) ls h)
