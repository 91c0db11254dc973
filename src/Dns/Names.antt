-- ===== src/Dns/Names.antt =====
-- src/dns.rs: the name in a question against an encoder of names, and the fuel of its loop.
use mathlib.Core.List.{append_assoc, append-nil, map}
use lwrt.Base.{
  ℕ, zero, suc, ◌+◌, ◌≤◌, ◌<◌, List, [], ◌∷◌, ◌++◌, none, some, length, take, drop, ◌≡◌, refl, ap,
  ap₂, ◌∙◌, All, arith, length-append, length-drop, take_prefix, drop_prefix, ==_false, lt→not_leb,
  le→not_ltb, if◌then◌else◌, ltb, leb, ◌==◌,
}
use lwrt.Base.Options.{◌>>=◌}
use lwrt.Base.Bytes.{Bytes}
use lwrt.Text.{Text}
use lwrt.Dns.{join, labels, read_name}

-- RFC 1035, 3.1: each label behind its length, then a zero.
unfoldable pub encode_name : List Bytes → Bytes
encode_name [] = 0 ∷ []
encode_name (label ∷ ls) = length label ∷ (label ++ encode_name ls)

-- The top of the range is what `read_name` takes for a pointer.
abbrev pub IsLabel : Bytes → Type 0
IsLabel label = (0 < length label) × (length label < 0xc0)

module _ (lossy : Bytes → Text) where
  -- A round on a label that is there.
  labels-label :
      (fuel pos : ℕ) (label bs : Bytes) (parts : List Text)
      → IsLabel label
      → labels lossy (suc fuel) (length label ∷ (label ++ bs)) pos parts
        ≡ labels lossy fuel bs (pos + 1 + length label) (parts ++ lossy label ∷ [])
  unfolding labels
  labels-label fuel pos label bs parts (some_byte, short) =
      rw
        (
          ==_false (length label) 0 (λ e. absurd (omega arith)),
          lt→not_leb 0xc0 (length label) short,
          le→not_ltb (length (label ++ bs)) (length label) (omega (arith, length-append label bs)),
          take_prefix (length label) label bs refl,
          drop_prefix (length label) label bs refl,
        )
        refl

  labels-encode_name :
      (fuel pos : ℕ) (ls : List Bytes) (rest : Bytes) (parts : List Text)
      → All IsLabel ls
      → length (encode_name ls) ≤ fuel
      → labels lossy fuel (encode_name ls ++ rest) pos parts
        ≡ some (parts ++ map lossy ls, pos + length (encode_name ls))
  unfolding labels encode_name
  labels-encode_name zero pos [] rest parts h f = absurd (omega arith)
  labels-encode_name zero pos (label ∷ ls) rest parts h f = absurd (omega arith)
  labels-encode_name (suc fuel) pos [] rest parts h f = rw (append-nil parts) refl
  labels-encode_name (suc fuel) pos (label ∷ ls) rest parts (h, hs) f =
      let more = encode_name ls in
      ap (λ bs. labels lossy (suc fuel) (length label ∷ bs) pos parts)
        (append_assoc label more rest)
      ∙ labels-label fuel pos label (more ++ rest) parts h
      ∙ labels-encode_name fuel (pos + 1 + length label) ls rest (parts ++ lossy label ∷ []) hs
          (omega (arith, length-append label more))
      ∙ ap₂ (λ ts p. some (ts, p)) (append_assoc parts (lossy label ∷ []) (map lossy ls))
          (omega (arith, length-append label more))

  -- The loop has fuel enough: each round consumes a byte or more.
  labels-fuel :
      (fuel : ℕ) (bs : Bytes) (pos : ℕ) (parts : List Text)
      → length bs ≤ fuel
      → labels lossy (suc fuel) bs pos parts ≡ labels lossy fuel bs pos parts
  unfolding labels
  labels-fuel zero [] pos parts h = refl
  labels-fuel zero (len ∷ bs) pos parts h = absurd (omega arith)
  labels-fuel (suc fuel) [] pos parts h = refl
  labels-fuel (suc fuel) (len ∷ bs) pos parts h =
      ap
        (λ rest.
          if len == 0
          then some (parts, pos + 1)
          else if leb 0xc0 len
          then none
          else if ltb (length bs) len
          then none
          else rest)
        (labels-fuel fuel (drop len bs) (pos + 1 + len) (parts ++ lossy (take len bs) ∷ [])
          (omega (arith, length-drop len bs)))

-- Behind any bytes and before any bytes, read_name reads the labels, of 1 to 191 bytes, that an encoder
-- of RFC 1035 has written, joined by points, and stops behind the name.
pub read_name-encode_name :
    (lossy : Bytes → Text) (front rest : Bytes) (ls : List Bytes)
    → All IsLabel ls
    → read_name lossy (front ++ (encode_name ls ++ rest)) (length front)
      ≡ some (join (map lossy ls), length front + length (encode_name ls))
unfolding read_name
read_name-encode_name lossy front rest ls h =
    let bs = encode_name ls ++ rest in
    ap
      (λ x. labels lossy (length (front ++ bs)) x (length front) [] >>= λ name.
        some (join name.0, name.1))
      (drop_prefix (length front) front bs refl)
    ∙ ap (λ o. o >>= λ name. some (join name.0, name.1))
        (labels-encode_name lossy (length (front ++ bs)) (length front) ls rest [] h
          (omega (arith, length-append front bs, length-append (encode_name ls) rest)))
