-- ===== src/Netlink/Messages.antt =====
-- src/nl.rs and the walk of `count_msgs` in src/fw.rs: a buffer of messages, read back header by
-- header.
use lwrt.Base.{
  ℕ, zero, suc, ◌+◌, ◌-◌, ◌%◌, ◌^◌, ◌≤◌, ◌<◌, List, [], ◌∷◌, ◌++◌, length, take, drop,
  if◌then◌else◌, ◌≡◌, refl, ◌∙◌, arith, length-append, take_prefix, drop_prefix, ltb, ◌||◌,
  le→not_ltb, All, Option, none, some,
}
use mathlib.Core.Option
use lwrt.Base.Bytes.{Bytes, of_le16, of_le32, of_le16-le16, of_le32-le32}
use lwrt.Netlink.{align4}
use lwrt.Netlink.Encoding.{message_bytes}

-- One message: `nlmsghdr` (its process id, zero here, left out) and what follows it.
pub record Message : Type 0 where
  pub msg_type : ℕ
  pub flags : ℕ
  pub seq : ℕ
  pub body : Bytes

-- The fields fit their widths, the body is whole words, and so the length field can hold it.
pub record IsMessage (m : Message) : Type 0 where
  pub type_fits : m.msg_type < 2 ^ 16
  pub flags_fit : m.flags < 2 ^ 16
  pub seq_fits : m.seq < 2 ^ 32
  pub body_fits : 16 + length m.body < 2 ^ 32
  pub words : length m.body % 4 ≡ 0

abbrev pub encode : Message → Bytes
encode m = message_bytes m.msg_type m.flags m.seq m.body

abbrev pub encode_all : List Message → Bytes
encode_all [] = []
encode_all (m ∷ ms) = encode m ++ encode_all ms

-- `while pos + 16 <= buf.len()` over `buf[pos..]`. A length field that is too small, or reaches past
-- the end, and a last place that is not the end, since bytes are left over or the padding of the last
-- message passes the end, are the failed assertions, `none`.
unfoldable pub read_messages : ℕ → Bytes → Option (List Message)
read_messages (suc fuel)
      (l0 ∷ l1 ∷ l2 ∷ l3 ∷ t0 ∷ t1 ∷ f0 ∷ f1 ∷ s0 ∷ s1 ∷ s2 ∷ s3 ∷ p0 ∷ p1 ∷ p2 ∷ p3 ∷ rest) =
    let len = of_le32 l0 l1 l2 l3 in
    let here : Message = record {
      msg_type = of_le16 t0 t1;
      flags = of_le16 f0 f1;
      seq = of_le32 s0 s1 s2 s3;
      body = take (len - 16) rest;
    } in
    let later = Option.map (◌∷◌ here) (read_messages fuel (drop (align4 len - 16) rest)) in
    if ltb len 16 || ltb (16 + length rest) len
    then none
    else if ltb (16 + length rest) (align4 len)
    then none
    else later
read_messages _ [] = some []
read_messages _ _ = none

read_messages-nil : (fuel : ℕ) → read_messages fuel [] ≡ some []
unfolding read_messages
read_messages-nil zero = refl
read_messages-nil (suc fuel) = refl

read_messages-encode :
    (fuel : ℕ) (m : Message) (rest : Bytes)
    → IsMessage m
    → read_messages (suc fuel) (encode m ++ rest) ≡ Option.map (◌∷◌ m) (read_messages fuel rest)
unfolding read_messages message_bytes
read_messages-encode fuel m rest w =
    let n = length m.body in
    let len = (16 + n) % 2 ^ 32 in
    let counted = of_le32-le32 len (omega arith) in
    let whole : len ≡ 16 + n = omega (arith, w.body_fits) in
    let typed = of_le16-le16 m.msg_type w.type_fits in
    let flagged = of_le16-le16 m.flags w.flags_fit in
    let numbered = of_le32-le32 m.seq w.seq_fits in
    let taken = take_prefix (16 + n - 16) m.body rest (omega arith) in
    let dropped = drop_prefix (align4 (16 + n) - 16) m.body rest (omega (arith, w.words)) in
    let long = le→not_ltb (16 + n) 16 (omega arith) in
    let inside =
      le→not_ltb (16 + length (m.body ++ rest)) (16 + n)
        (omega (arith, length-append m.body rest)) in
    let tiled =
      le→not_ltb (16 + length (m.body ++ rest)) (align4 (16 + n))
        (omega (arith, w.words, length-append m.body rest)) in
    rw (counted, whole, typed, flagged, numbered, long, inside, tiled, taken, dropped)

pub read_messages-encode_all :
    (fuel : ℕ) (ms : List Message)
    → length ms ≤ fuel
    → All IsMessage ms
    → read_messages fuel (encode_all ms) ≡ some ms
read_messages-encode_all fuel [] h w = read_messages-nil fuel
read_messages-encode_all zero (m ∷ ms) h w = absurd (omega arith)
read_messages-encode_all (suc fuel) (m ∷ ms) h w =
    read_messages-encode fuel m (encode_all ms) w.0
    ∙ rw (read_messages-encode_all fuel ms (omega arith) w.1)

pub length-encode_all-ge : (ms : List Message) → length ms ≤ length (encode_all ms)
unfolding message_bytes
length-encode_all-ge [] = omega arith
length-encode_all-ge (m ∷ ms) =
    omega (arith, length-encode_all-ge ms, length-append (encode m) (encode_all ms))
