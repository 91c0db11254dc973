-- ===== src/Sha256/Tests.antt =====
-- src/sha256.rs: a known vector, and the theorems at a message in three chunks.
use lwrt.Base.{ℕ, List, length, some, ◌*◌, arith, ◌≡◌, refl, [], ◌∷◌}
use lwrt.Base.Bytes.{Bytes, codes, copy_at}
use lwrt.Sha256.Streaming.{update_all, concat}
use lwrt.Sha256.Padding.{sha256, finish-update_all, digest-concat}
use lwrt.Sha256.Hex.{hex, unhex, unhex-hex}
use lwrt.Sha256.Compress.{compress}
use lwrt.Sha256.{new, update, finish, padded, pad_zeros, whole_blocks, digest}

abc :
    digest (codes "abc")
    ≡ 0xba ∷ 0x78 ∷ 0x16 ∷ 0xbf ∷ 0x8f ∷ 0x01 ∷ 0xcf ∷ 0xea ∷ 0x41 ∷ 0x41 ∷ 0x40 ∷ 0xde ∷ 0x5d
      ∷ 0xae ∷ 0x22 ∷ 0x23 ∷ 0xb0 ∷ 0x03 ∷ 0x61 ∷ 0xa3 ∷ 0x96 ∷ 0x17 ∷ 0x7a ∷ 0x9c ∷ 0xb4 ∷ 0x10
      ∷ 0xff ∷ 0x61 ∷ 0xf2 ∷ 0x00 ∷ 0x15 ∷ 0xad ∷ []
unfolding digest finish padded pad_zeros update whole_blocks new compress copy_at
abc = refl

abbrev chunks : List Bytes
chunks = codes "ab" ∷ [] ∷ codes "c" ∷ []

finish-update_all_example : finish (update_all new chunks) ≡ sha256 (concat chunks)
finish-update_all_example = finish-update_all chunks

digest-concat_example : digest (concat chunks) ≡ finish (update_all new chunks)
digest-concat_example = digest-concat chunks

unhex-hex_example :
    (unhex (hex (0 ∷ 255 ∷ 0x3c ∷ [])) ≡ some (0 ∷ 255 ∷ 0x3c ∷ []))
    × (length (hex (0 ∷ 255 ∷ 0x3c ∷ [])) ≡ 2 * length {A = ℕ} (0 ∷ 255 ∷ 0x3c ∷ []))
unhex-hex_example = unhex-hex (0 ∷ 255 ∷ 0x3c ∷ []) (omega arith)
