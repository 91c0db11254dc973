-- ===== src/Ipkg/Paths.antt =====
-- src/ipkg.rs: where a member of an archive lands.
use lwrt.Base.{Bool, true, false, List, [], ◌∷◌, ◌==◌, ◌≡◌, refl, All, and_true}
use lwrt.Base.Bytes.{codes}
use lwrt.Text.{Text, equal, filter_by, split_by, split, trim_start_by}
use lwrt.Text.Filtering.{
  filter_by-All, kept, both, not-true, split_by-All, split_by-none, split_by-at,
}
use lwrt.Ipkg.{join, sanitize, strip_dots, is_safe_component}

abbrev starts_slash : Text → Bool
starts_slash [] = false
starts_slash (c ∷ s) = c == b'/'

-- An absolute path none of whose components leads upwards.
abbrev pub IsSafe : Text → Type 0
IsSafe path = (starts_slash path ≡ true) × All (λ c. equal c (codes "..") ≡ false) (split b'/' path)

abbrev Plain : Text → Type 0
Plain s = All (λ c. (c == b'/') ≡ false) s

split-join :
    (s : Text) (rest : List Text)
    → Plain s
    → All Plain rest
    → split b'/' (join (b'/' ∷ []) (s ∷ rest)) ≡ s ∷ rest
unfolding join
split-join s [] h hs = split_by-none (λ c. c == b'/') s h
split-join s (t ∷ rest) h (k, ks) = rw (
  split_by-at (λ c. c == b'/') s (join (b'/' ∷ []) (t ∷ rest)) b'/' h refl,
  split-join t rest k ks,
)

join-IsSafe :
    (parts : List Text)
    → All Plain parts
    → All (λ c. equal c (codes "..") ≡ false) parts
    → IsSafe (b'/' ∷ join (b'/' ∷ []) parts)
unfolding split_by join equal
join-IsSafe [] h k = (refl, (refl, (refl, tt)))
join-IsSafe (s ∷ rest) (h, hs) k = (refl, (refl, rw (split-join s rest h hs) k))

-- Whatever a member is called, its path is absolute, and no component of it is `..`.
pub sanitize-IsSafe : (name : Text) → IsSafe (sanitize name)
unfolding sanitize
sanitize-IsSafe name =
    let trimmed = trim_start_by (λ c. c == b'/') (strip_dots name) in
    let parts = split b'/' trimmed in
    join-IsSafe (filter_by is_safe_component parts)
      (filter_by-All is_safe_component Plain parts (split_by-All (λ c. c == b'/') trimmed))
      (both (λ c. is_safe_component c ≡ true) (λ c. is_safe_component c ≡ true)
        (λ c. equal c (codes "..") ≡ false)
        (λ c h _. not-true (equal c (codes "..")) (and_true _ _ h).0)
        (filter_by is_safe_component parts) (kept is_safe_component parts)
        (kept is_safe_component parts))
