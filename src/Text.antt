-- ===== src/Text.antt =====
-- What the program uses of Rust's standard library on text. A `str` is the list of its code points;
-- where the program goes over bytes (`as_bytes`) a text is ASCII or given as bytes.
pub mod Numbers
pub mod Utf8
pub mod Printing
pub mod Trimming
pub mod Filtering
pub mod Lines
use mathlib.Core.List.{reverse}
use lwrt.Base.{
  ℕ, ◌+◌, ◌-◌, ◌≤◌, ◌<◌, Bool, true, false, ◌&&◌, ◌||◌, List, [], ◌∷◌, ◌++◌, Option, none, some,
  ltb, leb, ◌==◌, if◌then◌else◌, ◌≡◌, inl, inr, All, Option-cases,
}

abbrev pub Text : Type 0
Text = List ℕ

abbrev within : ℕ → ℕ → ℕ → Bool
within lo hi c = leb lo c && leb c hi

-- `char::is_whitespace`
unfoldable pub is_whitespace : ℕ → Bool
is_whitespace c =
    within 9 13 c
    || c == 0x20
    || c == 0x85
    || c == 0xa0
    || c == 0x1680
    || within 0x2000 0x200a c
    || c == 0x2028
    || c == 0x2029
    || c == 0x202f
    || c == 0x205f
    || c == 0x3000

unfoldable pub trim_start_by : (ℕ → Bool) → Text → Text
trim_start_by p [] = []
trim_start_by p (c ∷ s) = if p c then trim_start_by p s else c ∷ s

unfoldable pub trim_end_by : (ℕ → Bool) → Text → Text
unfolding trim_start_by
trim_end_by p s = reverse (trim_start_by p (reverse s))

unfoldable pub trim : Text → Text
unfolding trim_start_by trim_end_by is_whitespace
trim s = trim_end_by is_whitespace (trim_start_by is_whitespace s)

-- `char::to_ascii_lowercase`
unfoldable pub lower : ℕ → ℕ
lower c = if within b'A' b'Z' c then c + 32 else c

unfoldable pub equal : Text → Text → Bool
equal [] [] = true
equal (x ∷ xs) (y ∷ ys) = x == y && equal xs ys
equal _ _ = false

abbrev pub onto_first : ℕ → List Text → List Text
onto_first c [] = (c ∷ []) ∷ []
onto_first c (s ∷ parts) = (c ∷ s) ∷ parts

-- `split`, at every character that the test takes.
unfoldable pub split_by : (ℕ → Bool) → Text → List Text
split_by p [] = [] ∷ []
split_by p (c ∷ s) = let parts = split_by p s in if p c then [] ∷ parts else onto_first c parts

abbrev pub split : ℕ → Text → List Text
split sep = split_by (λ c. c == sep)

abbrev pub before : ℕ → Option (Text × Text) → Option (Text × Text)
before c none = none
before c (some (k, v)) = some (c ∷ k, v)

unfoldable pub split_once : ℕ → Text → Option (Text × Text)
split_once sep [] = none
split_once sep (c ∷ s) =
    let rest = before c (split_once sep s) in if c == sep then some ([], s) else rest

unfoldable pub strip_prefix : Text → Text → Option Text
strip_prefix [] s = some s
strip_prefix (p ∷ ps) [] = none
strip_prefix (p ∷ ps) (c ∷ s) = if p == c then strip_prefix ps s else none

unfoldable pub filter_by {ℓ} : {A : Type ℓ} → (A → Bool) → List A → List A
filter_by p [] = []
filter_by p (x ∷ xs) = if p x then x ∷ filter_by p xs else filter_by p xs

unfoldable pub filter_map {ℓ κ} : {A : Type ℓ} {B : Type κ} → (A → Option B) → List A → List B
filter_map f [] = []
filter_map f (x ∷ xs) = elim (f x) [ none ↦ filter_map f xs | some y ↦ y ∷ filter_map f xs ]

abbrev pub is_empty {ℓ} : {A : Type ℓ} → List A → Bool
is_empty [] = true
is_empty (_ ∷ _) = false

pub filter_map-All {ℓ κ μ} :
    {A : Type ℓ} {B : Type κ} (f : A → Option B) (P : B → Type μ)
    → ((x : A) (y : B) → f x ≡ some y → P y)
    → (xs : List A) → All P (filter_map f xs)
unfolding filter_map
filter_map-All f P h [] = tt
filter_map-All f P h (x ∷ xs) = elim (Option-cases (f x)) [
  | inl e ↦ rw (e, All) (filter_map-All f P h xs)
  | inr (y, e) ↦ rw (e, All) (h x y e, filter_map-All f P h xs)
]

unfoldable pub strip_cr : Text → Text
strip_cr [] = []
strip_cr (c ∷ []) = if c == 13 then [] else c ∷ []
strip_cr (c ∷ d ∷ s) = c ∷ strip_cr (d ∷ s)

-- What the line feeds part; the last part has none behind it, and is no line where it is empty.
unfoldable pub lines_of : List Text → List Text
lines_of [] = []
lines_of ([] ∷ []) = []
lines_of ((c ∷ s) ∷ []) = (c ∷ s) ∷ []
lines_of (s ∷ t ∷ parts) = strip_cr s ∷ lines_of (t ∷ parts)

-- `lines`: without the `\n` or `\r\n` at the end of each.
unfoldable pub lines : Text → List Text
unfolding lines_of
lines s = lines_of (split 10 s)

abbrev reversed : Option Text → Option Text
reversed none = none
reversed (some s) = some (reverse s)

unfoldable pub strip_suffix : Text → Text → Option Text
unfolding strip_prefix
strip_suffix suffix s = reversed (strip_prefix (reverse suffix) (reverse s))
