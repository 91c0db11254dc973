-- ===== src/Netlink.antt =====
-- src/nl.rs: the message builder `NlBuf` and the attribute walker `for_each_attr`.
-- `NlBuf` has the one field `buf`, and a `Scope` is an offset, so both are what they hold. A
-- method takes the buffer last, so that statements that run one after another are joined by `⨟`.
-- Sockets (`open`, `send`, `recv_msg`, `close`) are system calls and are not modelled.
pub mod Encoding
pub mod Attributes
pub mod Messages
mod Tests
use Prim.Native.Nat.{bit_or}
use lwrt.Base.{
  ℕ, zero, suc, ◌+◌, ◌-◌, ◌*◌, ◌/◌, ◌%◌, ◌^◌, Bool, true, false, ◌||◌, List, [], ◌∷◌, ◌++◌, length,
  take, drop, replicate, ltb, ◌==◌, if◌then◌else◌, ◌≡◌, refl, Option, none, some,
}
use mathlib.Core.Option
use lwrt.Base.Options.{or_nil}
use lwrt.Base.Bytes.{Bytes, le16, le32, be32, of_le16, copy_at}

abbrev pub nlm_f_request : ℕ
nlm_f_request = 0x1

abbrev pub nlm_f_ack : ℕ
nlm_f_ack = 0x4

abbrev pub nlm_f_excl : ℕ
nlm_f_excl = 0x200

abbrev pub nlm_f_create : ℕ
nlm_f_create = 0x400

abbrev pub nla_f_nested : ℕ
nla_f_nested = 0x8000

-- `(n + 3) & !3`: the mask clears the two lowest bits.
abbrev pub align4 : ℕ → ℕ
align4 n = (n + 3) / 4 * 4

abbrev pub NlBuf : Type 0
NlBuf = Bytes

abbrev pub Scope : Type 0
Scope = ℕ

-- One statement after another.
infixl 20 ◌⨟◌
abbrev pub ◌⨟◌ : (NlBuf → NlBuf) → (NlBuf → NlBuf) → NlBuf → NlBuf
◌⨟◌ f g b = g (f b)

abbrev pub new : NlBuf
new = []

-- `while self.buf.len() % 4 != 0 { self.buf.push(0) }`, in at most `fuel` rounds.
pad_loop : ℕ → NlBuf → NlBuf
pad_loop zero b = b
pad_loop (suc fuel) b =
    let rest = pad_loop fuel (b ++ (0 ∷ [])) in if length b % 4 == 0 then b else rest

unfoldable pub pad : NlBuf → NlBuf
unfolding pad_loop
pad = pad_loop 3

unfoldable pub bytes : Bytes → NlBuf → NlBuf
bytes chunk b = b ++ chunk

unfoldable pub attr : ℕ → Bytes → NlBuf → NlBuf
attr typ payload b =
    let len = (4 + length payload) % 2 ^ 16 in pad (((b ++ le16 len) ++ le16 typ) ++ payload)

-- Native byte order is little-endian on the MIPS (mipsel) and x86 targets.
unfoldable pub attr_u16_ne : ℕ → ℕ → NlBuf → NlBuf
attr_u16_ne typ v = attr typ (le16 v)

unfoldable pub attr_u32_be : ℕ → ℕ → NlBuf → NlBuf
attr_u32_be typ v = attr typ (be32 v)

unfoldable pub attr_u32_le : ℕ → ℕ → NlBuf → NlBuf
attr_u32_le typ v = attr typ (le32 v)

unfoldable pub attr_str : ℕ → Bytes → NlBuf → NlBuf
attr_str typ s b =
    let len = (4 + length s + 1) % 2 ^ 16 in pad ((((b ++ le16 len) ++ le16 typ) ++ s) ++ (0 ∷ []))

-- The buffer with the scope open, and the scope.
unfoldable pub begin_nested : ℕ → NlBuf → NlBuf × Scope
begin_nested typ b = ((b ++ (0 ∷ 0 ∷ [])) ++ le16 (bit_or typ nla_f_nested), length b)

unfoldable pub end_nested : Scope → NlBuf → NlBuf
end_nested scope b = let len = (length b - scope) % 2 ^ 16 in pad (copy_at b scope (le16 len))

unfoldable pub begin_message : ℕ → ℕ → ℕ → NlBuf → NlBuf × Scope
begin_message msg_type flags seq b = (
  ((((b ++ (0 ∷ 0 ∷ 0 ∷ 0 ∷ [])) ++ le16 msg_type) ++ le16 flags) ++ le32 seq) ++ le32 0,
  length b,
)

unfoldable pub end_message : Scope → NlBuf → NlBuf
end_message scope b = let len = (length b - scope) % 2 ^ 32 in pad (copy_at b scope (le32 len))

-- `let s = b.begin_nested(typ); body(b); b.end_nested(s);`
unfoldable pub nested : ℕ → (NlBuf → NlBuf) → NlBuf → NlBuf
nested typ body b = let (opened, scope) = begin_nested typ b in end_nested scope (body opened)

-- `let m = b.begin_message(..); body(b); b.end_message(m);`
unfoldable pub message : ℕ → ℕ → ℕ → (NlBuf → NlBuf) → NlBuf → NlBuf
message msg_type flags seq body b =
    let (opened, scope) = begin_message msg_type flags seq b in end_message scope (body opened)

-- The calls that `for_each_attr` makes of its callback, in order. The argument is `body[i..]`:
-- the loop goes on while four bytes are left, and `i` may step past the end. `none` where there are
-- rounds left and no fuel (`Attributes`).
unfoldable pub walk_attrs : ℕ → Bytes → Option (List (ℕ × Bytes))
walk_attrs zero (a ∷ b ∷ c ∷ d ∷ rest) = none
walk_attrs (suc fuel) (a ∷ b ∷ c ∷ d ∷ rest) =
    let len = of_le16 a b in
    let typ = of_le16 c d % 0x4000 in
    let later = walk_attrs fuel (drop (align4 len) (a ∷ b ∷ c ∷ d ∷ rest)) in
    if ltb len 4 || ltb (4 + length rest) len
    then some []
    else Option.map (◌∷◌ (typ, take (len - 4) rest)) later
walk_attrs _ _ = some []

unfoldable pub for_each_attr : Bytes → List (ℕ × Bytes)
unfolding walk_attrs
for_each_attr body = or_nil (walk_attrs (length body) body)
