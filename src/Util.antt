-- ===== src/Util.antt =====
-- src/util.rs: the base64 decoder. A text is its code points; the bytes of one that is not ASCII are no
-- digits, as its code points are none.
pub mod Base64
mod Tests
use lwrt.Base.{
  ℕ, ◌+◌, ◌-◌, ◌*◌, ◌/◌, ◌%◌, ◌^◌, Bool, ◌&&◌, ◌||◌, List, [], ◌∷◌, Option, none, some, ltb, leb,
  ◌==◌, if◌then◌else◌,
}
use lwrt.Base.Bytes.{Bytes}
use lwrt.Text.{Text, trim}

unfoldable pub val : ℕ → Option ℕ
val c =
    if leb b'A' c && leb c b'Z'
    then some (c - b'A')
    else if leb b'a' c && leb c b'z'
    then some (c - b'a' + 26)
    else if leb b'0' c && leb c b'9'
    then some (c - b'0' + 52)
    else if c == b'+'
    then some 62
    else if c == b'/'
    then some 63
    else none

-- `c == b'=' || c.is_ascii_whitespace()`
unfoldable pub is_skipped : ℕ → Bool
is_skipped c = c == b'=' || (c == 32 || c == 9 || c == 10 || c == 12 || c == 13)

abbrev pub onto : ℕ → Option Bytes → Option Bytes
onto b none = none
onto b (some out) = some (b ∷ out)

-- The loop from `acc` and `bits` on, and what it pushes. A `u32` shift drops the bits above.
unfoldable pub decode_from : ℕ → ℕ → Text → Option Bytes
decode_from acc bits [] = some []
decode_from acc bits (c ∷ s) =
    let skipped = decode_from acc bits s in
    let decoded : Option Bytes = elim (val c) [
      | none ↦ none
      | some v ↦
          let next = acc * 64 % 2 ^ 32 + v in
          let pushed = decode_from next (bits + 6 - 8) s in
          let kept = decode_from next (bits + 6) s in
          if leb 8 (bits + 6) then onto (next / 2 ^ (bits + 6 - 8) % 256) pushed else kept
    ] in
    if is_skipped c then skipped else decoded

unfoldable pub b64_decode : Text → Option Bytes
unfolding decode_from
b64_decode s = decode_from 0 0 (trim s)
