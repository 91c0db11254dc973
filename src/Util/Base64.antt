-- ===== src/Util/Base64.antt =====
-- src/util.rs: `b64_decode` against an encoder of RFC 4648.
use lwrt.Base.{
  ℕ, ◌+◌, ◌-◌, ◌*◌, ◌/◌, ◌%◌, ◌^◌, ◌<◌, ◌≤◌, false, [], ◌∷◌, some, ltb, ◌==◌, if◌then◌else◌, ◌≡◌,
  lt→not_leb, le→leb, refl, ap, arith, All,
}
use lwrt.Base.Bytes.{Bytes}
use lwrt.Text.{Text, is_whitespace}
use lwrt.Text.Trimming.{IsSolid, trim-solid}
use lwrt.Util.{val, is_skipped, onto, decode_from, b64_decode}

unfoldable pub digit : ℕ → ℕ
digit v =
    if ltb v 26
    then b'A' + v
    else if ltb v 52
    then b'a' + (v - 26)
    else if ltb v 62
    then b'0' + (v - 52)
    else if v == 62
    then b'+'
    else b'/'

val-digit : (v : ℕ) → v < 64 → val (digit v) ≡ some v
unfolding val digit
val-digit v h = ground arith

digit-not_skipped : (v : ℕ) → v < 64 → is_skipped (digit v) ≡ false
unfolding is_skipped digit
digit-not_skipped v h = ground arith

digit-solid : (v : ℕ) → v < 64 → is_whitespace (digit v) ≡ false
unfolding is_whitespace digit
digit-solid v h = ground arith

-- Groups of three bytes, the last one padded.
unfoldable pub encode : Bytes → Text
encode [] = []
encode (a ∷ []) = digit (a / 4) ∷ digit (a % 4 * 16) ∷ b'=' ∷ b'=' ∷ []
encode (a ∷ b ∷ []) = digit (a / 4) ∷ digit (a % 4 * 16 + b / 16) ∷ digit (b % 16 * 4) ∷ b'=' ∷ []
encode (a ∷ b ∷ c ∷ rest) =
    digit (a / 4)
    ∷ digit (a % 4 * 16 + b / 16)
    ∷ digit (b % 16 * 4 + c / 64)
    ∷ digit (c % 64)
    ∷ encode rest

-- One digit, before and after there are eight bits.
decode_from-keep :
    (acc bits v : ℕ) (s : Text)
    → v < 64
    → bits + 6 < 8
    → decode_from acc bits (digit v ∷ s) ≡ decode_from (acc * 64 % 2 ^ 32 + v) (bits + 6) s
unfolding decode_from
decode_from-keep acc bits v s h k =
    rw (digit-not_skipped v h, val-digit v h, lt→not_leb 8 (bits + 6) k) refl

decode_from-push :
    (acc bits v : ℕ) (s : Text)
    → v < 64
    → 8 ≤ bits + 6
    → decode_from acc bits (digit v ∷ s)
      ≡ onto
          ((acc * 64 % 2 ^ 32 + v) / 2 ^ (bits + 6 - 8) % 256)
          (decode_from (acc * 64 % 2 ^ 32 + v) (bits + 6 - 8) s)
unfolding decode_from
decode_from-push acc bits v s h k =
    rw (digit-not_skipped v h, val-digit v h, le→leb 8 (bits + 6) k) refl

-- The three places where eight bits are there: the accumulator `x` as it was, and the bytes.
second :
    (x a b : ℕ)
    → a < 256
    → b < 16
    → ((x * 64 % 2 ^ 32 + a / 4) * 64 % 2 ^ 32 + (a % 4 * 16 + b)) / 16 % 256 ≡ a
second x a b h k = omega arith

third :
    (x a b c : ℕ)
    → b < 256
    → a < 4
    → c < 4
    → ((x * 64 % 2 ^ 32 + (a * 16 + b / 16)) * 64 % 2 ^ 32 + (b % 16 * 4 + c)) / 4 % 256 ≡ b
third x a b c h k l = omega arith

fourth :
    (x b c : ℕ)
    → c < 256
    → b < 16
    → ((x * 64 % 2 ^ 32 + (b * 4 + c / 64)) * 64 % 2 ^ 32 + c % 64) / 1 % 256 ≡ c
fourth x b c h k = omega arith

two_pads : (acc bits : ℕ) → decode_from acc bits (b'=' ∷ b'=' ∷ []) ≡ some []
unfolding decode_from is_skipped
two_pads acc bits = refl

one_pad : (acc bits : ℕ) → decode_from acc bits (b'=' ∷ []) ≡ some []
unfolding decode_from is_skipped
one_pad acc bits = refl

decode_from-encode :
    (acc : ℕ) (bs : Bytes) → All (λ b. b < 256) bs → decode_from acc 0 (encode bs) ≡ some bs
unfolding encode
decode_from-encode acc [] h = unfold decode_from in refl
decode_from-encode acc (a ∷ []) h =
    let x1 = acc * 64 % 2 ^ 32 + a / 4 in
    rw
      (
        decode_from-keep acc 0 (a / 4) (digit (a % 4 * 16) ∷ b'=' ∷ b'=' ∷ []) (omega (arith, h.0))
            (omega arith),
        decode_from-push x1 6 (a % 4 * 16) (b'=' ∷ b'=' ∷ []) (omega arith) (omega arith),
        two_pads (x1 * 64 % 2 ^ 32 + a % 4 * 16) 4,
      )
      (ap (λ n. some (n ∷ [])) (omega (arith, h.0)))
decode_from-encode acc (a ∷ b ∷ []) h =
    let x1 = acc * 64 % 2 ^ 32 + a / 4 in
    let x2 = x1 * 64 % 2 ^ 32 + (a % 4 * 16 + b / 16) in
    rw
      (
        decode_from-keep acc 0 (a / 4) _ (omega (arith, h.0)) (omega arith),
        decode_from-push x1 6 (a % 4 * 16 + b / 16) _ (omega (arith, h.1.0)) (omega arith),
        decode_from-push x2 4 (b % 16 * 4) (b'=' ∷ []) (omega arith) (omega arith),
        one_pad (x2 * 64 % 2 ^ 32 + b % 16 * 4) 2,
        second acc a (b / 16) h.0 (omega (arith, h.1.0)),
      )
      (ap (λ n. some (a ∷ n ∷ [])) (omega (arith, h.1.0)))
decode_from-encode acc (a ∷ b ∷ c ∷ rest) h =
    let x1 = acc * 64 % 2 ^ 32 + a / 4 in
    let x2 = x1 * 64 % 2 ^ 32 + (a % 4 * 16 + b / 16) in
    let x3 = x2 * 64 % 2 ^ 32 + (b % 16 * 4 + c / 64) in
    rw
      (
        decode_from-keep acc 0 (a / 4) _ (omega (arith, h.0)) (omega arith),
        decode_from-push x1 6 (a % 4 * 16 + b / 16) _ (omega (arith, h.1.0)) (omega arith),
        decode_from-push x2 4 (b % 16 * 4 + c / 64) _ (omega (arith, h.1.1.0)) (omega arith),
        decode_from-push x3 2 (c % 64) _ (omega arith) (omega arith),
      )
      (rw
        (
          second acc a (b / 16) h.0 (omega (arith, h.1.0)),
          third x1 (a % 4) b (c / 64) h.1.0 (omega arith) (omega (arith, h.1.1.0)),
          fourth x2 (b % 16) c h.1.1.0 (omega arith),
          decode_from-encode (x3 * 64 % 2 ^ 32 + c % 64) rest h.1.1.1,
        )
        refl)

encode-IsSolid : (bs : Bytes) → All (λ b. b < 256) bs → IsSolid (encode bs)
unfolding encode is_whitespace
encode-IsSolid [] h = tt
encode-IsSolid (a ∷ []) h = (
  digit-solid (a / 4) (omega (arith, h.0)),
  (digit-solid (a % 4 * 16) (omega arith), (refl, (refl, tt))),
)
encode-IsSolid (a ∷ b ∷ []) h = (
  digit-solid (a / 4) (omega (arith, h.0)),
  (
    digit-solid (a % 4 * 16 + b / 16) (omega (arith, h.1.0)),
    (digit-solid (b % 16 * 4) (omega arith), (refl, tt)),
  ),
)
encode-IsSolid (a ∷ b ∷ c ∷ rest) h = (
  digit-solid (a / 4) (omega (arith, h.0)),
  (
    digit-solid (a % 4 * 16 + b / 16) (omega (arith, h.1.0)),
    (
      digit-solid (b % 16 * 4 + c / 64) (omega (arith, h.1.1.0)),
      (digit-solid (c % 64) (omega arith), encode-IsSolid rest h.1.1.1),
    ),
  ),
)

-- `b64_decode` gives back the bytes, all below 256, that an encoder of RFC 4648 has written.
pub b64_decode-encode : (bs : Bytes) → All (λ b. b < 256) bs → b64_decode (encode bs) ≡ some bs
unfolding b64_decode
b64_decode-encode bs h =
    rw (trim-solid (encode bs) (encode-IsSolid bs h)) (decode_from-encode 0 bs h)
