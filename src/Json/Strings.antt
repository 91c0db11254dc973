-- ===== src/Json/Strings.antt =====
-- src/json.rs: a string that is written is read back.
use mathlib.Core.Path.{sym, ◌∙◌, subst}
use mathlib.Core.Logic.{◌⊎◌}
use mathlib.Core.List.{append_assoc}
use lwrt.Base.{
  ℕ, zero, suc, ◌+◌, ◌≤◌, ◌<◌, Bool, true, false, ◌&&◌, ◌||◌, [], ◌∷◌, ◌++◌, length, ltb, leb, ◌==◌,
  length-append, take_prefix, drop_prefix, ◌≡◌, refl, ap, inl, inr, All, arith, ==_iff, ltb→lt, ◌≢◌,
  below, done, ◌▸◌, or_true, and_true, Bool-cases, le→leb, leb→le, le→not_ltb, ==_false,
}
use lwrt.Base.Bytes.{Bytes}
use lwrt.Text.Utf8.{utf8_from, from_utf8}
use lwrt.Json.{escape, escapes, write_str}
use lwrt.Json.Parser.{
  ok, bind, string_from, string, escaped_char, raw_char, char_of, encode_utf8, hex4, utf8_extra,
  to_digit16, expect,
}

range : (lo hi c : ℕ) → leb lo c && leb c hi ≡ true → (lo ≤ c) × (c ≤ hi)
range lo hi c h = ground arith

utf8_extra-one : (c : ℕ) → (0xc2 ≤ c) × (c ≤ 0xdf) → utf8_extra c ≡ 1
unfolding utf8_extra
utf8_extra-one c h = ground arith

utf8_extra-two : (c : ℕ) → (0xe0 ≤ c) × (c ≤ 0xef) → utf8_extra c ≡ 2
unfolding utf8_extra
utf8_extra-two c h = ground arith

utf8_extra-three : (c : ℕ) → (0xf0 ≤ c) × (c ≤ 0xf7) → utf8_extra c ≡ 3
unfolding utf8_extra
utf8_extra-three c h = ground arith

exact : (k c : ℕ) → (c == k) ≡ true → c ≡ k
exact k c h = (==_iff c k).0 h

and_intro : {a b : Bool} → a ≡ true → b ≡ true → a && b ≡ true
and_intro h k = rw (h, k)

or_left : {a : Bool} (b : Bool) → a ≡ true → a || b ≡ true
or_left b h = rw h

or_right : (a : Bool) {b : Bool} → b ≡ true → a || b ≡ true
or_right true h = refl
or_right false h = h

-- The bytes behind a lead byte.
continued :
    (n lo hi : ℕ) (bs : Bytes)
    → 0x80 ≤ lo
    → utf8_from n lo hi bs ≡ true
    → (part rest : Bytes) × (bs ≡ part ++ rest)
      × (length part ≡ n)
      × (utf8_from n lo hi part ≡ true)
      × (utf8_from 0 0 0 rest ≡ true)
      × All (λ b. 0x80 ≤ b) part
unfolding utf8_from
continued zero lo hi [] h e = ([], [], refl, refl, refl, refl, tt)
continued zero lo hi (b ∷ bs) h e = ([], b ∷ bs, refl, refl, refl, e, tt)
continued (suc n) lo hi [] h e = cc
continued (suc n) lo hi (b ∷ bs) h e =
    let (fits, later) = and_true _ _ e in
    let (part, rest, parts, long, whole, well, high) =
      continued n 0x80 0xbf bs (omega arith) later in
    (
      b ∷ part,
      rest,
      ap (◌∷◌ b) parts,
      ap suc long,
      and_intro fits whole,
      well,
      (ground arith, high),
    )

middle :
    (c : ℕ)
    → (leb 0xe1 c && leb c 0xec || leb 0xee c && leb c 0xef) ≡ true
    → (0xe1 ≤ c) × (c ≤ 0xef)
middle c h = ground arith

-- The first byte says how many follow.
leading :
    (c : ℕ) (bs : Bytes)
    → utf8_from 0 0 0 (c ∷ bs) ≡ true
    → ((c ≤ 0x7f) × (utf8_from 0 0 0 bs ≡ true))
      ⊎ ((n lo hi : ℕ) × (0x80 ≤ c)
          × (0x80 ≤ lo)
          × (utf8_extra c ≡ n)
          × (utf8_from n lo hi bs ≡ true)
          × ((xs : Bytes) → utf8_from n lo hi xs ≡ true → utf8_from 0 0 0 (c ∷ xs) ≡ true))
unfolding utf8_from
leading c bs h = elim (or_true _ (c == 0xf4 && utf8_from 3 0x80 0x8f bs) h) [
  | inl h ↦ elim (or_true _ (leb 0xf1 c && leb c 0xf3 && utf8_from 3 0x80 0xbf bs) h) [
    | inl h ↦ elim (or_true _ (c == 0xf0 && utf8_from 3 0x90 0xbf bs) h) [
      | inl h ↦ elim (or_true _ (c == 0xed && utf8_from 2 0x80 0x9f bs) h) [
        | inl h ↦
            elim (or_true _
              ((leb 0xe1 c && leb c 0xec || leb 0xee c && leb c 0xef) && utf8_from 2 0x80 0xbf bs)
              h) [
                | inl h ↦ elim (or_true _ (c == 0xe0 && utf8_from 2 0xa0 0xbf bs) h) [
                  | inl h ↦
                      elim (or_true _ (leb 0xc2 c && leb c 0xdf && utf8_from 1 0x80 0xbf bs) h) [
                        | inl h ↦
                            let (fits, later) = and_true (leb c 0x7f) (utf8_from 0 0 0 bs) h in
                            inl (leb→le c 0x7f fits, later)
                        | inr k ↦
                            let (fits, later) =
                              and_true (leb 0xc2 c && leb c 0xdf) (utf8_from 1 0x80 0xbf bs) k in
                            inr (
                              1,
                              0x80,
                              0xbf,
                              omega (arith, range 0xc2 0xdf c fits),
                              omega arith,
                              utf8_extra-one c (
                                omega (arith, range 0xc2 0xdf c fits),
                                omega (arith, range 0xc2 0xdf c fits),
                              ),
                              later,
                              λ xs e. or_left _ (
                                  or_left _ (
                                    or_left _ (
                                      or_left _
                                        (or_left _ (or_left _ (or_right _ (and_intro fits e))))))),
                            )
                      ]
                  | inr k ↦
                      let (fits, later) = and_true (c == 0xe0) (utf8_from 2 0xa0 0xbf bs) k in
                      inr (
                        2,
                        0xa0,
                        0xbf,
                        omega (arith, exact 0xe0 c fits),
                        omega arith,
                        utf8_extra-two c
                            (omega (arith, exact 0xe0 c fits), omega (arith, exact 0xe0 c fits)),
                        later,
                        λ xs e. or_left _ (
                            or_left _
                              (or_left _ (or_left _ (or_left _ (or_right _ (and_intro fits e)))))),
                      )
                ]
                | inr k ↦
                    let (fits, later) =
                      and_true ((leb 0xe1 c && leb c 0xec || leb 0xee c && leb c 0xef))
                        (utf8_from 2 0x80 0xbf bs) k in
                    inr (
                      2,
                      0x80,
                      0xbf,
                      omega (arith, middle c fits),
                      omega arith,
                      utf8_extra-two c (omega (arith, middle c fits), omega (arith, middle c fits)),
                      later,
                      λ xs e.
                          or_left _
                            (or_left _ (or_left _ (or_left _ (or_right _ (and_intro fits e))))),
                    )
              ]
        | inr k ↦
            let (fits, later) = and_true (c == 0xed) (utf8_from 2 0x80 0x9f bs) k in
            inr (
              2,
              0x80,
              0x9f,
              omega (arith, exact 0xed c fits),
              omega arith,
              utf8_extra-two c (omega (arith, exact 0xed c fits), omega (arith, exact 0xed c fits)),
              later,
              λ xs e. or_left _ (or_left _ (or_left _ (or_right _ (and_intro fits e)))),
            )
      ]
      | inr k ↦
          let (fits, later) = and_true (c == 0xf0) (utf8_from 3 0x90 0xbf bs) k in
          inr (
            3,
            0x90,
            0xbf,
            omega (arith, exact 0xf0 c fits),
            omega arith,
            utf8_extra-three c (omega (arith, exact 0xf0 c fits), omega (arith, exact 0xf0 c fits)),
            later,
            λ xs e. or_left _ (or_left _ (or_right _ (and_intro fits e))),
          )
    ]
    | inr k ↦
        let (fits, later) = and_true (leb 0xf1 c && leb c 0xf3) (utf8_from 3 0x80 0xbf bs) k in
        inr (
          3,
          0x80,
          0xbf,
          omega (arith, range 0xf1 0xf3 c fits),
          omega arith,
          utf8_extra-three c
              (omega (arith, range 0xf1 0xf3 c fits), omega (arith, range 0xf1 0xf3 c fits)),
          later,
          λ xs e. or_left _ (or_right _ (and_intro fits e)),
        )
  ]
  | inr k ↦
      let (fits, later) = and_true (c == 0xf4) (utf8_from 3 0x80 0x8f bs) k in
      inr (
        3,
        0x80,
        0x8f,
        omega (arith, exact 0xf4 c fits),
        omega arith,
        utf8_extra-three c (omega (arith, exact 0xf4 c fits), omega (arith, exact 0xf4 c fits)),
        later,
        λ xs e. or_right _ (and_intro fits e),
      )
]

escape-plain : (c : ℕ) → 0x20 ≤ c → c ≢ b'"' → c ≢ b'\\' → escape c ≡ c ∷ []
unfolding escape
escape-plain c h quote slash = ground arith

escapes-plain :
    (part rest : Bytes) → All (λ b. 0x80 ≤ b) part → escapes (part ++ rest) ≡ part ++ escapes rest
unfolding escapes
escapes-plain [] rest h = refl
escapes-plain (b ∷ part) rest (high, highs) = rw (
  escape-plain b (omega arith) (λ e. omega arith) (λ e. omega arith),
  escapes-plain part rest highs,
)

string_from-raw :
    (f c : ℕ) (part rest : Bytes)
    → c ≢ b'"'
    → c ≢ b'\\'
    → length part ≡ utf8_extra c
    → utf8_from 0 0 0 (c ∷ part) ≡ true
    → string_from (suc f) (c ∷ (part ++ rest))
      ≡ bind (string_from f rest) λ (s, after). ok (c ∷ (part ++ s), after)
unfolding string_from raw_char from_utf8
string_from-raw f c part rest quote slash l w = rw (
  ==_false c b'"' quote,
  ==_false c b'\\' slash,
  length-append part rest,
  le→not_ltb (length part + length rest) (utf8_extra c) (omega arith),
  take_prefix (utf8_extra c) part rest l,
  drop_prefix (utf8_extra c) part rest l,
  w,
)

utf8_extra-zero : (c : ℕ) → c ≤ 0x7f → utf8_extra c ≡ 0
unfolding utf8_extra
utf8_extra-zero c h = ground arith

ascii : (c : ℕ) → c ≤ 0x7f → utf8_from 0 0 0 (c ∷ []) ≡ true
unfolding utf8_from
ascii c h = rw (le→leb c 0x7f h)

module _ (f : ℕ) (bs : Bytes) where
  -- The loop reads the character that was written, then goes on.
  abbrev Returns : ℕ → Type 0
  Returns c =
      string_from (suc f) (escape c ++ bs) ≡ bind (string_from f bs) λ (s, rest). ok (c ∷ s, rest)

  Returns-control : (c : ℕ) → c < 0x20 → Returns c
  unfolding string_from escape escaped_char char_of encode_utf8 hex4 to_digit16
  Returns-control = below Returns (
      refl ▸ refl ▸ refl ▸ refl ▸ refl ▸ refl ▸ refl ▸ refl ▸ refl ▸ refl ▸ refl ▸ refl ▸ refl
      ▸ refl ▸ refl ▸ refl ▸ refl ▸ refl ▸ refl ▸ refl ▸ refl ▸ refl ▸ refl ▸ refl ▸ refl ▸ refl
      ▸ refl ▸ refl ▸ refl ▸ refl ▸ refl ▸ refl ▸ done)

  Returns-quote : (c : ℕ) → c ≡ b'"' → Returns c
  unfolding string_from escape escaped_char
  Returns-quote c e = subst Returns (sym e) refl

  Returns-slash : (c : ℕ) → c ≡ b'\\' → Returns c
  unfolding string_from escape escaped_char
  Returns-slash c e = subst Returns (sym e) refl

  Returns-plain : (c : ℕ) → 0x20 ≤ c → c ≤ 0x7f → c ≢ b'"' → c ≢ b'\\' → Returns c
  Returns-plain c h k quote slash =
      rw (escape-plain c h quote slash)
        (string_from-raw f c [] bs quote slash (sym (utf8_extra-zero c k)) (ascii c k))

  Returns-ascii : (c : ℕ) → c ≤ 0x7f → Returns c
  Returns-ascii c h = elim (Bool-cases (ltb c 0x20)) [
    | inl l ↦ Returns-control c (ltb→lt c 0x20 l)
    | inr l ↦ elim (Bool-cases (c == b'"')) [
      | inl e ↦ Returns-quote c (exact b'"' c e)
      | inr q ↦ elim (Bool-cases (c == b'\\')) [
        | inl e ↦ Returns-slash c (exact b'\\' c e)
        | inr s ↦ Returns-plain c (ground arith) h (λ e. ground arith) (λ e. ground arith)
      ]
    ]
  ]

-- A character of several bytes, where the rest is read.
reads_high :
    (f c : ℕ) (part after rest : Bytes)
    → 0x80 ≤ c
    → length part ≡ utf8_extra c
    → utf8_from 0 0 0 (c ∷ part) ≡ true
    → All (λ b. 0x80 ≤ b) part
    → string_from f (escapes after ++ b'"' ∷ rest) ≡ ok (after, rest)
    → string_from (suc f) (escapes (c ∷ (part ++ after)) ++ b'"' ∷ rest)
      ≡ ok (c ∷ (part ++ after), rest)
unfolding escapes
reads_high f c part after rest high long whole plain later = rw (
  escape-plain c (omega arith) (λ e. omega arith) (λ e. omega arith),
  escapes-plain part after plain,
  append_assoc part (escapes after) (b'"' ∷ rest),
  string_from-raw f c part (escapes after ++ b'"' ∷ rest) (λ e. omega arith) (λ e. omega arith) long
      whole,
  later,
)

shorter :
    {f : ℕ} {s : Bytes} (part after : Bytes)
    → s ≡ part ++ after
    → suc (length s) < suc f
    → length after < f
shorter part after e h = omega (arith, ap length e, length-append part after)

string_from-escapes :
    (f : ℕ) (s rest : Bytes)
    → utf8_from 0 0 0 s ≡ true
    → length s < f
    → string_from f (escapes s ++ b'"' ∷ rest) ≡ ok (s, rest)
unfolding string_from escapes
string_from-escapes zero s rest w h = absurd (omega arith)
string_from-escapes (suc f) [] rest w h = refl
string_from-escapes (suc f) (c ∷ s) rest w h = elim (leading c s w) [
  | inl (low, later) ↦ rw (
    append_assoc (escape c) (escapes s) (b'"' ∷ rest),
    Returns-ascii f (escapes s ++ b'"' ∷ rest) c low,
    string_from-escapes f s rest later (omega arith),
  )
  | inr (n, lo, hi, high, from, extra, later, whole) ↦
      let (part, after, parts, long, well, fits, plain) = continued n lo hi s from later in
      subst (λ s. string_from (suc f) (escapes (c ∷ s) ++ b'"' ∷ rest) ≡ ok (c ∷ s, rest))
        (sym parts)
        (reads_high f c part after rest high (long ∙ sym extra) (whole part well) plain
          (string_from-escapes f after rest fits (shorter part after parts h)))
]

length-escape : (c : ℕ) → 1 ≤ length (escape c)
unfolding escape
length-escape c = ground arith

length-escapes : (s : Bytes) → length s ≤ length (escapes s)
unfolding escapes
length-escapes [] = omega arith
length-escapes (c ∷ s) =
    rw (length-append (escape c) (escapes s)) (omega (arith, length-escape c, length-escapes s))

-- The string that write_str wrote, well-formed UTF-8, is what the parser reads, up to what follows it.
pub string-write_str :
    (s rest : Bytes) → utf8_from 0 0 0 s ≡ true → string (write_str s ++ rest) ≡ ok (s, rest)
unfolding string write_str expect
string-write_str s rest w = rw (append_assoc (escapes s) (b'"' ∷ []) rest) (
    string_from-escapes (suc (length (escapes s ++ b'"' ∷ rest))) s rest w
      (rw (length-append (escapes s) (b'"' ∷ rest)) (omega (arith, length-escapes s))))
