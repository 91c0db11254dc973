-- ===== src/Text/Utf8.antt =====
-- `String::from_utf8` of the standard library: the bytes, where they are well-formed UTF-8; and the
-- characters of such bytes; and the bytes of a text.
use lwrt.Base.{
  ℕ, zero, suc, ◌+◌, ◌*◌, ◌/◌, ◌%◌, ◌++◌, Bool, true, false, ◌&&◌, ◌||◌, [], ◌∷◌, Option, none,
  some, ltb, leb, ◌==◌, if◌then◌else◌,
}
use lwrt.Base.Bytes.{Bytes}
use lwrt.Text.{Text}

abbrev within : ℕ → ℕ → ℕ → Bool
within lo hi c = leb lo c && leb c hi

-- `n` continuation bytes are to come, the next of them between `lo` and `hi`.
unfoldable pub utf8_from : ℕ → ℕ → ℕ → Bytes → Bool
utf8_from zero lo hi [] = true
utf8_from zero lo hi (b ∷ bs) =
    (leb b 0x7f && utf8_from 0 0 0 bs)
    || (within 0xc2 0xdf b && utf8_from 1 0x80 0xbf bs)
    || (b == 0xe0 && utf8_from 2 0xa0 0xbf bs)
    || ((within 0xe1 0xec b || within 0xee 0xef b) && utf8_from 2 0x80 0xbf bs)
    || (b == 0xed && utf8_from 2 0x80 0x9f bs)
    || (b == 0xf0 && utf8_from 3 0x90 0xbf bs)
    || (within 0xf1 0xf3 b && utf8_from 3 0x80 0xbf bs)
    || (b == 0xf4 && utf8_from 3 0x80 0x8f bs)
utf8_from (suc n) lo hi [] = false
utf8_from (suc n) lo hi (b ∷ bs) = within lo hi b && utf8_from n 0x80 0xbf bs

unfoldable pub from_utf8 : Bytes → Option Bytes
from_utf8 bs = if utf8_from 0 0 0 bs then some bs else none

-- `str::chars`: the code points of well-formed UTF-8. `n` bytes of a character are to come, after the
-- bits of those before.
unfoldable pub chars_from : ℕ → ℕ → Bytes → Text
chars_from n bits [] = []
chars_from zero bits (b ∷ bs) =
    if ltb b 0x80
    then b ∷ chars_from 0 0 bs
    else if ltb b 0xe0
    then chars_from 1 (b % 0x20) bs
    else if ltb b 0xf0
    then chars_from 2 (b % 0x10) bs
    else chars_from 3 (b % 8) bs
chars_from (suc zero) bits (b ∷ bs) = (bits * 0x40 + b % 0x40) ∷ chars_from 0 0 bs
chars_from (suc (suc n)) bits (b ∷ bs) = chars_from (suc n) (bits * 0x40 + b % 0x40) bs

unfoldable pub chars : Bytes → Text
unfolding chars_from
chars bs = chars_from 0 0 bs

-- `as_bytes` of a text.
abbrev encoded : ℕ → Bytes
encoded c =
    let last = 0x80 + c % 0x40 in
    let second = 0x80 + c / 0x40 % 0x40 in
    if ltb c 0x80
    then c ∷ []
    else if ltb c 0x800
    then (0xc0 + c / 0x40) ∷ last ∷ []
    else if ltb c 0x10000
    then (0xe0 + c / 0x1000) ∷ second ∷ last ∷ []
    else (0xf0 + c / 0x40000) ∷ (0x80 + c / 0x1000 % 0x40) ∷ second ∷ last ∷ []

unfoldable pub as_bytes : Text → Bytes
as_bytes [] = []
as_bytes (c ∷ s) = encoded c ++ as_bytes s
