-- ===== src/Dns/Leases.antt =====
-- src/dns.rs: `lookup_lease` against a file of leases as data.
use lwrt.Base.{
  ◌<◌, ℕ, zero, suc, ◌≡◌, refl, ap, ap₂, ◌∙◌, ◌⊎◌, inl, inr, Bool, true, false, List, [], ◌∷◌, ◌++◌,
  map, Option, none, some, length, if◌then◌else◌, All, All-append, length-append, arith,
}
use mathlib.Core.List.{reverse-append, reverse-reverse}
use lwrt.Base.Bytes.{codes}
use lwrt.Text.{
  Text, is_whitespace, lower, equal, split_by, filter_by, is_empty, lines, lines_of, strip_prefix,
  strip_suffix,
}
use lwrt.Text.Filtering.{split_by-at, split_by-none}
use lwrt.Text.Lines.{IsInline, All-map, lines-cons}
use lwrt.Text.Numbers.{Ipv4Addr, parse_ipv4}
use lwrt.Dns.{trimmed, trim_end_matches, split_whitespace, or_later, lookup_in, lookup_lease}

-- A lease: the four fields of its line.
pub record Lease : Type 0 where
  pub expiry : Text
  pub mac : Text
  pub ip : Text
  pub name : Text

abbrev pub row : Lease → Text
row l = l.expiry ++ (b' ' ∷ (l.mac ++ (b' ' ∷ (l.ip ++ (b' ' ∷ l.name)))))

abbrev pub file : List Lease → Text
file [] = []
file (l ∷ ls) = row l ++ (10 ∷ file ls)

-- A field is not empty, and has no whitespace, and so no end of a line.
pub record IsField (s : Text) : Type 0 where
  pub some_char : is_empty s ≡ false
  pub solid : All (λ c. is_whitespace c ≡ false) s

pub record IsLease (l : Lease) : Type 0 where
  pub expiry_field : IsField l.expiry
  pub mac_field : IsField l.mac
  pub ip_field : IsField l.ip
  pub name_field : IsField l.name

-- The address in the first lease whose name is the host's, letter case aside.
abbrev pub leased_address : Text → List Lease → Option Ipv4Addr
leased_address host [] = none
leased_address host (l ∷ ls) =
    if equal (map lower l.name) (map lower host) then parse_ipv4 l.ip else leased_address host ls

solid-IsInline : (c : ℕ) → is_whitespace c ≡ false → IsInline c
unfolding is_whitespace
solid-IsInline c h = record { no_feed = ground arith; no_return = ground arith }

field-IsInline : (s : Text) → IsField s → All IsInline s
field-IsInline s f = All-map (λ c. is_whitespace c ≡ false) IsInline solid-IsInline s f.solid

space-IsInline : IsInline b' '
space-IsInline = record { no_feed = refl; no_return = refl }

row-IsInline : (l : Lease) → IsLease l → All IsInline (row l)
row-IsInline l h = All-append IsInline l.expiry _ (field-IsInline l.expiry h.expiry_field) (
  space-IsInline,
  All-append IsInline l.mac _ (field-IsInline l.mac h.mac_field) (
    space-IsInline,
    All-append IsInline l.ip _ (field-IsInline l.ip h.ip_field)
        (space-IsInline, field-IsInline l.name h.name_field),
  ),
)

split-row :
    (l : Lease) → IsLease l → split_by is_whitespace (row l) ≡ l.expiry ∷ l.mac ∷ l.ip ∷ l.name ∷ []
split-row l h =
    split_by-at is_whitespace l.expiry _ b' ' h.expiry_field.solid space
    ∙ ap (◌∷◌ l.expiry) (
        split_by-at is_whitespace l.mac _ b' ' h.mac_field.solid space
        ∙ ap (◌∷◌ l.mac) (
            split_by-at is_whitespace l.ip _ b' ' h.ip_field.solid space
            ∙ ap (◌∷◌ l.ip) (split_by-none is_whitespace l.name h.name_field.solid)))
  where
    space : is_whitespace b' ' ≡ true
    space = unfold is_whitespace in refl

split_whitespace-row :
    (l : Lease) → IsLease l → split_whitespace (row l) ≡ l.expiry ∷ l.mac ∷ l.ip ∷ l.name ∷ []
unfolding filter_by
split_whitespace-row l h =
    rw
      (
        split-row l h,
        h.expiry_field.some_char,
        h.mac_field.some_char,
        h.ip_field.some_char,
        h.name_field.some_char,
      )
      refl

lookup_in-file :
    (host : Text) (ls : List Lease)
    → All IsLease ls
    → lookup_in host (lines (file ls)) ≡ leased_address host ls
unfolding lookup_in
lookup_in-file host [] h = unfold lines lines_of split_by in refl
lookup_in-file host (l ∷ ls) (h, hs) =
    rw
      (
        lines-cons (row l) (file ls) (row-IsInline l h),
        split_whitespace-row l h,
        lookup_in-file host ls hs,
      )
      (either (equal (map lower l.name) (map lower host)))
  where
    either :
        (b : Bool)
        → or_later (if b then some l.ip else none) (leased_address host ls)
          ≡ (if b then parse_ipv4 l.ip else leased_address host ls)
    either true = refl
    either false = refl

-- The name of a host that the leases may have: as it stands, or with the suffix .lan behind it.
pub record IsHost (name host : Text) : Type 0 where
  pub bare : strip_suffix (codes ".lan") host ≡ none
  pub named : (name ≡ host) ⊎ (name ≡ host ++ codes ".lan")

lower-lower : (c : ℕ) → lower (lower c) ≡ lower c
unfolding lower
lower-lower c = ground arith

map-lower : (s : Text) → map lower (map lower s) ≡ map lower s
map-lower [] = refl
map-lower (c ∷ s) = ap₂ (λ x y. x ∷ y) (lower-lower c) (map-lower s)

leased_address-lower :
    (host : Text) (ls : List Lease) → leased_address (map lower host) ls ≡ leased_address host ls
leased_address-lower host [] = refl
leased_address-lower host (l ∷ ls) = rw (map-lower host, leased_address-lower host ls) refl

trimmed-none :
    (fuel : ℕ) (suffix s : Text) → strip_suffix suffix s ≡ none → trimmed fuel suffix s ≡ s
trimmed-none zero suffix s e = refl
trimmed-none (suc fuel) suffix s e = rw (e, trimmed) refl

strip_suffix-append : (s : Text) → strip_suffix (codes ".lan") (s ++ codes ".lan") ≡ some s
unfolding strip_suffix strip_prefix
strip_suffix-append s = rw (reverse-append s (codes ".lan"), reverse-reverse s) refl

trimmed-some :
    (fuel : ℕ) (suffix s t : Text)
    → 0 < fuel
    → strip_suffix suffix s ≡ some t
    → strip_suffix suffix t ≡ none
    → trimmed fuel suffix s ≡ t
trimmed-some zero suffix s t h e n = absurd (omega arith)
trimmed-some (suc fuel) suffix s t h e n = rw (e, trimmed) (trimmed-none fuel suffix t n)

trim_end_matches-host :
    (name host : Text) → IsHost name host → trim_end_matches (codes ".lan") name ≡ host
unfolding trim_end_matches
trim_end_matches-host name host i = elim i.named [
  | inl same ↦
      ap (λ s. trimmed (length s) (codes ".lan") s) same
      ∙ trimmed-none (length host) (codes ".lan") host i.bare
  | inr suffixed ↦
      ap (λ s. trimmed (length s) (codes ".lan") s) suffixed
      ∙ trimmed-some (length (host ++ codes ".lan")) (codes ".lan") (host ++ codes ".lan") host
          (omega (arith, length-append host (codes ".lan"))) (strip_suffix-append host) i.bare
]

pub lookup_lease-file :
    (name host : Text) (leases : List Lease)
    → All IsLease leases
    → IsHost name host
    → lookup_lease (some (file leases)) (map lower (trim_end_matches (codes ".lan") name))
      ≡ leased_address host leases
unfolding lookup_lease
lookup_lease-file name host leases k i =
    ap (λ s. lookup_in (map lower s) (lines (file leases))) (trim_end_matches-host name host i)
    ∙ lookup_in-file (map lower host) leases k
    ∙ leased_address-lower host leases
