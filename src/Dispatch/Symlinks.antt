-- ===== src/Dispatch/Symlinks.antt =====
-- src/main.rs: a symbolic link named for an applet, and the binary with the applet's name behind it.
use lwrt.Base.{
  false, ◌||◌, List, [], ◌∷◌, ◌++◌, ◌==◌, ◌≡◌, refl, ap, ◌∙◌, All, inl, inr, Bool-cases,
}
use lwrt.Base.Bytes.{codes}
use lwrt.Text.{Text, equal, split, split_by, is_empty}
use lwrt.Dispatch.{last_or, base_name, select, main}

abbrev pub HasNoSlash : Text → Type 0
HasNoSlash name = All (λ c. (c == b'/') ≡ false) name

split-HasNoSlash : (name : Text) → HasNoSlash name → split b'/' name ≡ name ∷ []
unfolding split_by
split-HasNoSlash [] h = refl
split-HasNoSlash (c ∷ name) (h, hs) = rw (h, split-HasNoSlash name hs) refl

-- Behind the last separator stands the name, with a part before it.
split-path :
    (path name : Text)
    → HasNoSlash name
    → (x y : Text) × (parts : List Text) × (split b'/' (path ++ (b'/' ∷ name)) ≡ x ∷ y ∷ parts)
      × ((s : Text) → last_or s (y ∷ parts) ≡ name)
unfolding split_by
split-path [] name h = ([], name, [], ap (◌∷◌ []) (split-HasNoSlash name h), λ s. refl)
split-path (c ∷ path) name h =
    let (x, y, parts, e, l) = split-path path name h in
    elim (Bool-cases (c == b'/')) [
      | inl slash ↦ ([], x, y ∷ parts, rw (slash, e) refl, l)
      | inr other ↦ (c ∷ x, y, parts, rw (other, e) refl, l)
    ]

base_name-path : (path name : Text) → HasNoSlash name → base_name (path ++ (b'/' ∷ name)) ≡ name
unfolding base_name
base_name-path path name h =
    let (x, y, parts, e, l) = split-path path name h in
    let s = path ++ (b'/' ∷ name) in ap (last_or s) e ∙ l s

-- A symbolic link, in any directory, named for an applet does with its arguments what the binary, in any
-- directory, does with the applet's name in front of them.
main-symlink :
    (path directory name : Text) (args : List Text)
    → HasNoSlash name
    → (equal name (codes "lwrt") || is_empty name) ≡ false
    → main ((path ++ (b'/' ∷ name)) ∷ args)
      ≡ main ((directory ++ (b'/' ∷ codes "lwrt")) ∷ name ∷ args)
unfolding main select equal
main-symlink path directory name args h other =
    rw
      (
        base_name-path path name h,
        base_name-path directory (codes "lwrt") (refl, (refl, (refl, (refl, tt)))),
        other,
      )
      refl
