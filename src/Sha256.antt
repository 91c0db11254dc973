-- ===== src/Sha256.antt =====
-- src/sha256.rs: the streaming digest. A `[u8; 64]` and a `[u32; 8]` are lists; what a method changes
-- through `&mut self` is in the state that it returns.
pub mod Compress
pub mod Blocks
pub mod Streaming
pub mod Padding
pub mod Hex
mod Tests
use lwrt.Base.{
  ℕ, zero, suc, ◌+◌, ◌*◌, ◌-◌, ◌/◌, ◌%◌, ◌^◌, List, [], ◌∷◌, ◌++◌, length, take, drop, replicate,
  min, ltb, leb, ◌==◌, if◌then◌else◌, Bool, true, false,
}
use lwrt.Base.Bytes.{Bytes, copy_at, be32}
use Compress.{compress, h0}

pub record Sha256 : Type 0 where
  pub h : List ℕ
  pub block : Bytes
  pub fill : ℕ
  pub len : ℕ

abbrev pub u64_mod : ℕ
u64_mod = 2 ^ 64

unfoldable pub new : Sha256
new = record { h = h0; block = replicate 64 0; fill = 0; len = 0 }

-- `while input.len() >= 64`: the hash and what is left of the input. Each round takes 64 bytes.
unfoldable pub whole_blocks : ℕ → List ℕ → Bytes → List ℕ × Bytes
whole_blocks zero h input = (h, input)
whole_blocks (suc fuel) h input =
    let rest = whole_blocks fuel (compress h (take 64 input)) (drop 64 input) in
    if leb 64 (length input) then rest else (h, input)

-- The whole blocks of the input, and the remainder into the block.
unfoldable pub absorb : Sha256 → Bytes → Sha256
absorb s input =
    let (hash, rest) = whole_blocks (length input) s.h input in
    record s { h = hash; block = copy_at s.block 0 rest; fill = length rest }

-- With a partial block: top it up, and go on only if that completes it.
unfoldable pub top_up : Sha256 → Bytes → Sha256
unfolding absorb
top_up s input =
    let taken = min (64 - s.fill) (length input) in
    let block = copy_at s.block s.fill (take taken input) in
    let fill = s.fill + taken in
    let full =
      absorb (record s { h = compress s.h block; block = block; fill = 0 }) (drop taken input) in
    if fill == 64 then full else record s { block = block; fill = fill }

unfoldable pub update : Sha256 → Bytes → Sha256
unfolding top_up absorb
update s input =
    let counted = record s { len = (s.len + length input) % u64_mod } in
    if ltb 0 s.fill then top_up counted input else absorb counted input

-- `while self.fill != 56 { self.update(&[0]) }`
unfoldable pub pad_zeros : ℕ → Sha256 → Sha256
pad_zeros zero s = s
pad_zeros (suc fuel) s =
    let rest = pad_zeros fuel (update s (0 ∷ [])) in if s.fill == 56 then s else rest

abbrev pub be64 : ℕ → Bytes
be64 v = be32 (v / 2 ^ 32) ++ be32 v

abbrev pub words_bytes : List ℕ → Bytes
words_bytes [] = []
words_bytes (w ∷ ws) = be32 w ++ words_bytes ws

-- The state when the length has gone in, and the digest. 63 rounds of padding are enough (`Streaming`).
unfoldable pub padded : Sha256 → Sha256
padded s =
    let bits = s.len * 8 % u64_mod in update (pad_zeros 64 (update s (0x80 ∷ []))) (be64 bits)

unfoldable pub finish : Sha256 → Bytes
finish s = words_bytes (padded s).h

unfoldable pub digest : Bytes → Bytes
digest input = finish (update new input)
