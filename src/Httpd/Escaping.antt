-- ===== src/Httpd/Escaping.antt =====
-- src/httpd.rs: `hesc`, the escaping of untrusted text.
use lwrt.Base.{
  ℕ, [], ◌∷◌, ◌++◌, ◌==◌, if◌then◌else◌, ◌≡◌, refl, false, inl, inr, Bool-cases, All, All-append,
}
use lwrt.Base.Bytes.{codes}
use lwrt.Text.{Text}

unfoldable pub escaped : ℕ → Text
escaped c =
    if c == b'&'
    then codes "&amp;"
    else if c == b'<'
    then codes "&lt;"
    else if c == b'>'
    then codes "&gt;"
    else if c == b'"'
    then codes "&quot;"
    else if c == 39
    then codes "&#39;"
    else c ∷ []

unfoldable pub hesc : Text → Text
unfolding escaped
hesc [] = []
hesc (c ∷ s) = escaped c ++ hesc s

-- A character that neither opens a tag nor ends a quoted attribute.
pub record IsInert (c : ℕ) : Type 0 where
  pub no_open : (c == b'<') ≡ false
  pub no_close : (c == b'>') ≡ false
  pub no_quote : (c == b'"') ≡ false
  pub no_apostrophe : (c == 39) ≡ false

inert :
    (c : ℕ)
    → (c == b'<') ≡ false
    → (c == b'>') ≡ false
    → (c == b'"') ≡ false
    → (c == 39) ≡ false
    → IsInert c
inert c h k l m = record { no_open = h; no_close = k; no_quote = l; no_apostrophe = m }

escaped-IsInert : (c : ℕ) → All IsInert (escaped c)
unfolding escaped
escaped-IsInert c = elim (Bool-cases (c == b'&')) [
  | inl e ↦ rw e (
    inert b'&' refl refl refl refl,
    (
      inert b'a' refl refl refl refl,
      (
        inert b'm' refl refl refl refl,
        (inert b'p' refl refl refl refl, (inert b';' refl refl refl refl, tt)),
      ),
    ),
  )
  | inr e ↦ elim (Bool-cases (c == b'<')) [
    | inl f ↦
        rw (e, f)
          (
            inert b'&' refl refl refl refl,
            (
              inert b'l' refl refl refl refl,
              (inert b't' refl refl refl refl, (inert b';' refl refl refl refl, tt)),
            ),
          )
    | inr f ↦ elim (Bool-cases (c == b'>')) [
      | inl g ↦
          rw (e, f, g)
            (
              inert b'&' refl refl refl refl,
              (
                inert b'g' refl refl refl refl,
                (inert b't' refl refl refl refl, (inert b';' refl refl refl refl, tt)),
              ),
            )
      | inr g ↦ elim (Bool-cases (c == b'"')) [
        | inl h ↦
            rw (e, f, g, h)
              (
                inert b'&' refl refl refl refl,
                (
                  inert b'q' refl refl refl refl,
                  (
                    inert b'u' refl refl refl refl,
                    (
                      inert b'o' refl refl refl refl,
                      (inert b't' refl refl refl refl, (inert b';' refl refl refl refl, tt)),
                    ),
                  ),
                ),
              )
        | inr h ↦ elim (Bool-cases (c == 39)) [
          | inl k ↦
              rw (e, f, g, h, k)
                (
                  inert b'&' refl refl refl refl,
                  (
                    inert b'#' refl refl refl refl,
                    (
                      inert b'3' refl refl refl refl,
                      (inert b'9' refl refl refl refl, (inert b';' refl refl refl refl, tt)),
                    ),
                  ),
                )
          | inr k ↦ rw (e, f, g, h, k) (inert c f g h k, tt)
        ]
      ]
    ]
  ]
]

-- Whatever the text, what `hesc` makes of it has no `<`, `>`, double quote or apostrophe.
pub hesc-IsInert : (s : Text) → All IsInert (hesc s)
unfolding hesc
hesc-IsInert [] = tt
hesc-IsInert (c ∷ s) = All-append IsInert (escaped c) (hesc s) (escaped-IsInert c) (hesc-IsInert s)
