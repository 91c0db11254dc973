-- ===== src/Config/Values.antt =====
-- src/config.rs: what `get` finds after `parse`, against a reading of the file from top to bottom.
use lwrt.Base.{
  Bool, true, false, List, [], ◌∷◌, Option, none, some, if◌then◌else◌, ◌≡◌, refl, ap, ◌∙◌, All,
  Bool-cases, inl, inr,
}
use lwrt.Base.Map.{get, insert, get-insert, bytes_key, same_key, same_key_iff}
use lwrt.Text.{Text}
use lwrt.Config.{Config, State, entry, section_of, in_section, enter, set, get_value, parse}
use lwrt.Config.Lines.{Line, blank, comment, section, setting, IsLine, render, apply_all}
use lwrt.Config.Files.{parse-render}
use lwrt.Config.Reading.{get_value-set}

-- The last value of a key below the headings of a section, where `cur` is the heading so far. Lines
-- before any heading belong to the section with the empty name.
abbrev pub last_value : Text → Text → Text → Option Text → List Line → Option Text
last_value cur name key found [] = found
last_value cur name key found (blank ∷ ls) = last_value cur name key found ls
last_value cur name key found (comment t ∷ ls) = last_value cur name key found ls
last_value cur name key found (section next ∷ ls) = last_value next name key found ls
last_value cur name key found (setting k value ∷ ls) =
    last_value cur name key
      (if same_key cur name then (if same_key k key then some value else found) else found) ls

-- Whether there is a heading of the section, or a setting below it.
abbrev pub occurs : Text → Text → Bool → List Line → Bool
occurs cur name found [] = found
occurs cur name found (blank ∷ ls) = occurs cur name found ls
occurs cur name found (comment t ∷ ls) = occurs cur name found ls
occurs cur name found (section next ∷ ls) =
    occurs next name (if same_key next name then true else found) ls
occurs cur name found (setting k value ∷ ls) =
    occurs cur name (if same_key cur name then true else found) ls

abbrev present : Option (List (Text × Text)) → Bool
present none = false
present (some sect) = true

abbrev pub has : Config → Text → Bool
has cfg name = present (get name cfg)

has-insert :
    (name other : Text) (sect : List (Text × Text)) (cfg : Config)
    → has (insert name sect cfg) other ≡ (if same_key name other then true else has cfg other)
has-insert name other sect cfg =
    ap present (get-insert name other sect cfg) ∙ either (same_key name other)
  where
    either :
        (b : Bool)
        → present (if b then some sect else get other cfg) ≡ (if b then true else has cfg other)
    either true = refl
    either false = refl

get_value-enter :
    (s : State) (name other key : Text)
    → get_value (enter name s).cfg other key ≡ get_value s.cfg other key
unfolding get_value enter
get_value-enter s name other key =
    rw (get-insert name other (entry name s.cfg) s.cfg) (elim (Bool-cases (same_key name other)) [
      | inl same ↦ rw same (
          reads (get name s.cfg)
          ∙ ap (λ n. in_section (get n s.cfg) key) ((same_key_iff name other).0 same))
      | inr differ ↦ rw differ refl
    ])
  where
    reads : (o : Option (List (Text × Text))) → get key (section_of o) ≡ in_section o key
    reads none = unfold section_of get in refl
    reads (some sect) = unfold section_of in refl

apply_all-values :
    (ls : List Line) (s : State) (name key : Text)
    → get_value (apply_all ls s).cfg name key
      ≡ last_value s.cur name key (get_value s.cfg name key) ls
unfolding enter set
apply_all-values [] s name key = refl
apply_all-values (blank ∷ ls) s name key = apply_all-values ls s name key
apply_all-values (comment t ∷ ls) s name key = apply_all-values ls s name key
apply_all-values (section next ∷ ls) s name key =
    apply_all-values ls (enter next s) name key
    ∙ ap (λ v. last_value next name key v ls) (get_value-enter s next name key)
apply_all-values (setting k value ∷ ls) s name key =
    apply_all-values ls (set k value s) name key
    ∙ ap (λ v. last_value s.cur name key v ls) (get_value-set s k value key name)

apply_all-occurs :
    (ls : List Line) (s : State) (name : Text)
    → has (apply_all ls s).cfg name ≡ occurs s.cur name (has s.cfg name) ls
unfolding enter set
apply_all-occurs [] s name = refl
apply_all-occurs (blank ∷ ls) s name = apply_all-occurs ls s name
apply_all-occurs (comment t ∷ ls) s name = apply_all-occurs ls s name
apply_all-occurs (section next ∷ ls) s name =
    apply_all-occurs ls (enter next s) name
    ∙ ap (λ b. occurs next name b ls) (has-insert next name (entry next s.cfg) s.cfg)
apply_all-occurs (setting k value ∷ ls) s name =
    apply_all-occurs ls (set k value s) name
    ∙ ap (λ b. occurs s.cur name b ls)
        (has-insert s.cur name (insert k value (entry s.cur s.cfg)) s.cfg)

-- Of a file of blank lines, comments, section headings and settings, whose names, keys and values have
-- no whitespace and no character of the syntax: after parse, get finds for a key of a section the last
-- value that the file sets it to below a heading of that section, and nothing where it does not; and the
-- sections are those with a heading or a setting.
pub get_value-parse :
    (ls : List Line) (name key : Text)
    → All IsLine ls
    → (get_value (parse (render ls)) name key ≡ last_value [] name key none ls)
      × (has (parse (render ls)) name ≡ occurs [] name false ls)
get_value-parse ls name key h =
    let start : State = record { cfg = []; cur = [] } in
    (
      ap (λ cfg. get_value cfg name key) (parse-render ls h)
          ∙ apply_all-values ls start name key
          ∙ ap (λ v. last_value [] name key v ls) (unfold get_value get in refl),
      ap (λ cfg. has cfg name) (parse-render ls h)
          ∙ apply_all-occurs ls start name
          ∙ ap (λ b. occurs [] name b ls) (unfold get in refl),
    )
