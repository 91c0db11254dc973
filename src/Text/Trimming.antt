-- ===== src/Text/Trimming.antt =====
-- `trim` leaves a text alone that has no whitespace at its ends.
use mathlib.Core.List.{reverse, reverse-cons, reverse-reverse}
use lwrt.Base.{false, [], ◌∷◌, ◌++◌, All-append, ◌≡◌, refl, All}
use lwrt.Text.{Text, trim_start_by, trim_end_by, trim, is_whitespace}

-- No character of the text is whitespace.
abbrev pub IsSolid : Text → Type 0
IsSolid = All (λ c. is_whitespace c ≡ false)

trim_start_by-solid : (s : Text) → IsSolid s → trim_start_by is_whitespace s ≡ s
unfolding trim_start_by
trim_start_by-solid [] h = refl
trim_start_by-solid (c ∷ s) h = rw h.0 refl

IsSolid-append : (s t : Text) → IsSolid s → IsSolid t → IsSolid (s ++ t)
IsSolid-append s t h k = All-append (λ c. is_whitespace c ≡ false) s t h k

IsSolid-reverse : (s : Text) → IsSolid s → IsSolid (reverse s)
IsSolid-reverse [] h = tt
IsSolid-reverse (c ∷ s) h =
    rw (reverse-cons c s) (IsSolid-append (reverse s) (c ∷ []) (IsSolid-reverse s h.1) (h.0, tt))

pub trim-solid : (s : Text) → IsSolid s → trim s ≡ s
unfolding trim trim_end_by
trim-solid s h =
    rw (trim_start_by-solid s h, trim_start_by-solid (reverse s) (IsSolid-reverse s h))
      (reverse-reverse s)
