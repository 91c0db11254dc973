-- ===== src/Config/Reading.antt =====
-- src/config.rs: what `parse` makes of a file of clean lines.
use lwrt.Base.{Option, none, some, if◌then◌else◌, ◌≡◌, refl, ap, ◌∙◌, Bool-cases, inl, inr}
use lwrt.Base.Map.{get, insert, get-insert, bytes_key, same_key, same_key_iff}
use lwrt.Text.{Text}
use lwrt.Config.{Config, Section, in_section, State, entry, set, get_value, section_of}

in_section-entry :
    (section key : Text) (cfg : Config) → get key (entry section cfg) ≡ get_value cfg section key
unfolding get_value section_of get
in_section-entry section key cfg = go (get section cfg)
  where
    go : (o : Option Section) → get key (section_of o) ≡ in_section o key
    go none = refl
    go (some s) = refl

-- Setting a key in the section of the line makes it the value that is found there, and leaves every
-- other key and section as it was.
pub get_value-set :
    (s : State) (key value other section : Text)
    → get_value (set key value s).cfg section other ≡ (
        if same_key s.cur section
        then (if same_key key other then some value else get_value s.cfg section other)
        else get_value s.cfg section other)
unfolding get_value set
get_value-set s key value other section =
    rw (get-insert s.cur section (insert key value (entry s.cur s.cfg)) s.cfg)
      (elim (Bool-cases (same_key s.cur section)) [
        | inl same ↦
            rw (same, get-insert key other value (entry s.cur s.cfg))
              (ap (λ k. if same_key key other then some value else k)
                (in_section-entry s.cur other s.cfg
                  ∙ ap (λ k. get_value s.cfg k other) ((same_key_iff s.cur section).0 same)))
        | inr differ ↦ rw differ refl
      ])
