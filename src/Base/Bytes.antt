-- ===== src/Base/Bytes.antt =====
-- Bytes as numbers: the encodings `to_le_bytes` and `to_be_bytes` of the standard library and
-- their inverses, writes into a slice, and text as its bytes.
use Prim.Native.Char.{code}
use Prim.Native.String.{String}
use lwrt.Base.Lists.{
  length, take, drop, length-append, length-take, length-drop, take_prefix, drop_prefix,
}
use Prim.Native.Nat.{ℕ, ◌+◌, ◌*◌, ◌/◌, ◌%◌, ◌^◌, ◌≤◌, ◌<◌}
use mathlib.Core.Path.{◌≡◌}
use mathlib.Core.List.{List, [], ◌∷◌, ◌++◌, append_assoc}
use native.Mathlib.Omega.{arith}

abbrev pub Bytes : Type 0
Bytes = List ℕ

-- The bytes of an ASCII text.
abbrev pub codes : String → Bytes
codes String.[] = []
codes (String.◌∷◌ c s) = code c ∷ codes s

abbrev pub le16 : ℕ → Bytes
le16 v = v % 256 ∷ v / 256 % 256 ∷ []

abbrev pub be16 : ℕ → Bytes
be16 v = v / 256 % 256 ∷ v % 256 ∷ []

abbrev pub le32 : ℕ → Bytes
le32 v = v % 256 ∷ v / 256 % 256 ∷ v / 65536 % 256 ∷ v / 16777216 % 256 ∷ []

abbrev pub be32 : ℕ → Bytes
be32 v = v / 16777216 % 256 ∷ v / 65536 % 256 ∷ v / 256 % 256 ∷ v % 256 ∷ []

-- `from_le_bytes` of two and of four bytes.
abbrev pub of_le16 : ℕ → ℕ → ℕ
of_le16 a b = a + b * 256

abbrev pub of_le32 : ℕ → ℕ → ℕ → ℕ → ℕ
of_le32 a b c d = a + b * 256 + c * 65536 + d * 16777216

abbrev pub of_be32 : ℕ → ℕ → ℕ → ℕ → ℕ
of_be32 a b c d = a * 16777216 + b * 65536 + c * 256 + d

pub of_le16-le16 : (v : ℕ) → v < 65536 → of_le16 (v % 256) (v / 256 % 256) ≡ v
of_le16-le16 v h = omega arith

pub of_le32-le32 :
    (v : ℕ)
    → v < 2 ^ 32
    → of_le32 (v % 256) (v / 256 % 256) (v / 65536 % 256) (v / 16777216 % 256) ≡ v
of_le32-le32 v h = omega arith

-- `buf[off..off + bytes.len()].copy_from_slice(bytes)`, where the range lies in the slice.
unfoldable pub copy_at : Bytes → ℕ → Bytes → Bytes
copy_at buf off bytes = take off buf ++ (bytes ++ drop (off + length bytes) buf)

pub copy_at_prefix :
    (front old bytes rest : Bytes) (off : ℕ)
    → length front ≡ off
    → length old ≡ length bytes
    → copy_at (front ++ (old ++ rest)) off bytes ≡ front ++ (bytes ++ rest)
unfolding copy_at
copy_at_prefix front old bytes rest off h k =
    rw (take_prefix off front (old ++ rest) h, ← append_assoc front old rest)
      (rw (
        drop_prefix (off + length bytes) (front ++ old) rest
          (omega (arith, length-append front old))))

pub length-copy_at :
    (buf : Bytes) (off : ℕ) (bytes : Bytes)
    → off + length bytes ≤ length buf
    → length (copy_at buf off bytes) ≡ length buf
unfolding copy_at
length-copy_at buf off bytes h = omega (
  arith,
  length-append (take off buf) (bytes ++ drop (off + length bytes) buf),
  length-append bytes (drop (off + length bytes) buf),
  length-take off buf,
  length-drop (off + length bytes) buf,
)

-- Nothing in front of the place that is written changes.
pub take-copy_at :
    (buf : Bytes) (off : ℕ) (bytes : Bytes)
    → off + length bytes ≤ length buf
    → take (off + length bytes) (copy_at buf off bytes) ≡ take off buf ++ bytes
unfolding copy_at
take-copy_at buf off bytes h =
    rw (← append_assoc (take off buf) bytes (drop (off + length bytes) buf)) (
      take_prefix (off + length bytes) (take off buf ++ bytes) _
        (omega (arith, length-append (take off buf) bytes, length-take off buf)))
