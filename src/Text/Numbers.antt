-- ===== src/Text/Numbers.antt =====
-- `str::parse` of the standard library, for unsigned integers and for `Ipv4Addr`.
use lwrt.Base.{
  ℕ, ◌+◌, ◌-◌, ◌*◌, ◌/◌, ◌%◌, ◌^◌, ◌<◌, Bool, ◌&&◌, ◌||◌, List, [], ◌∷◌, Option, none, some, ltb,
  leb, ◌==◌, if◌then◌else◌, ◌≡◌, refl, arith, length,
}
use lwrt.Base.Bytes.{of_be32}
use lwrt.Text.{Text, split}

abbrev pub is_digit : ℕ → Bool
is_digit c = leb b'0' c && leb c b'9'

-- The digits left, after those that made `acc`; `none` on another character, and where the value
-- reaches the type's bound.
unfoldable pub digits_from : ℕ → ℕ → Text → Option ℕ
digits_from bound acc [] = some acc
digits_from bound acc (c ∷ s) =
    let next = acc * 10 + (c - b'0') in
    let rest = digits_from bound next s in
    if is_digit c then (if ltb next bound then rest else none) else none

abbrev parse_digits : ℕ → Text → Option ℕ
parse_digits bound [] = none
parse_digits bound (c ∷ s) = digits_from bound 0 (c ∷ s)

-- `s.parse::<uN>()` with `bound = 2 ^ N`: a leading `+` is allowed, and there is some digit.
unfoldable pub parse_unsigned : ℕ → Text → Option ℕ
unfolding digits_from
parse_unsigned bound [] = none
parse_unsigned bound (c ∷ s) =
    if c == b'+' then parse_digits bound s else parse_digits bound (c ∷ s)

pub digits_from-lt :
    (bound acc : ℕ) (s : Text) {v : ℕ} → acc < bound → digits_from bound acc s ≡ some v → v < bound
unfolding digits_from
digits_from-lt bound acc [] h e = ground arith
digits_from-lt bound acc (c ∷ s) {v} h e =
    ground (arith, digits_from-lt bound (acc * 10 + (c - b'0')) s {v = v})

pub parse_unsigned-lt :
    (bound : ℕ) (s : Text) {v : ℕ} → 0 < bound → parse_unsigned bound s ≡ some v → v < bound
unfolding parse_unsigned
parse_unsigned-lt bound [] h e = cc
parse_unsigned-lt bound (c ∷ []) {v} h e = ground (arith, digits_from-lt bound 0 (c ∷ []) {v = v} h)
parse_unsigned-lt bound (c ∷ d ∷ s) {v} h e =
    ground (
      arith,
      digits_from-lt bound 0 (d ∷ s) {v = v} h,
      digits_from-lt bound 0 (c ∷ d ∷ s) {v = v} h,
    )

-- `Ipv4Addr`: four octets.
pub record Ipv4Addr : Type 0 where
  pub a : ℕ
  pub b : ℕ
  pub c : ℕ
  pub d : ℕ

pub record IsAddr (ip : Ipv4Addr) : Type 0 where
  pub a_fits : ip.a < 256
  pub b_fits : ip.b < 256
  pub c_fits : ip.c < 256
  pub d_fits : ip.d < 256

abbrev pub octets : Ipv4Addr → List ℕ
octets ip = ip.a ∷ ip.b ∷ ip.c ∷ ip.d ∷ []

-- One octet: one to three digits, no zero in front, below 256.
octet : Text → Option ℕ
unfolding digits_from
octet [] = none
octet (c ∷ []) = digits_from 256 0 (c ∷ [])
octet (c ∷ d ∷ s) = if c == b'0' || ltb 1 (length s) then none else digits_from 256 0 (c ∷ d ∷ s)

octet-lt : (s : Text) (v : ℕ) → octet s ≡ some v → v < 256
unfolding octet
octet-lt [] v e = cc
octet-lt (c ∷ []) v e = digits_from-lt 256 0 (c ∷ []) (omega arith) e
octet-lt (c ∷ d ∷ s) v e = ground (arith, digits_from-lt 256 0 (c ∷ d ∷ s) {v = v})

address : Option ℕ → Option ℕ → Option ℕ → Option ℕ → Option Ipv4Addr
address (some a) (some b) (some c) (some d) = some (record { a = a; b = b; c = c; d = d })
address _ _ _ _ = none

of_parts : List Text → Option Ipv4Addr
unfolding octet address
of_parts (a ∷ b ∷ c ∷ d ∷ []) = address (octet a) (octet b) (octet c) (octet d)
of_parts _ = none

unfoldable pub parse_ipv4 : Text → Option Ipv4Addr
unfolding of_parts
parse_ipv4 s = of_parts (split b'.' s)

abbrev IsOctet : Option ℕ → Type 0
IsOctet none = Unit
IsOctet (some v) = v < 256

octet-IsOctet : (s : Text) → IsOctet (octet s)
octet-IsOctet s = go (octet s) refl
  where
    go : (o : Option ℕ) → octet s ≡ o → IsOctet o
    go none e = tt
    go (some v) e = octet-lt s v e

address-IsAddr :
    (a b c d : Option ℕ) {ip : Ipv4Addr}
    → IsOctet a
    → IsOctet b
    → IsOctet c
    → IsOctet d
    → address a b c d ≡ some ip
    → IsAddr ip
unfolding address
address-IsAddr (some a) (some b) (some c) (some d) h i j k e = ground arith
address-IsAddr _ _ _ _ h i j k e = cc

of_parts-IsAddr : (parts : List Text) {ip : Ipv4Addr} → of_parts parts ≡ some ip → IsAddr ip
unfolding of_parts
of_parts-IsAddr (a ∷ b ∷ c ∷ d ∷ []) e =
    address-IsAddr (octet a) (octet b) (octet c) (octet d) (octet-IsOctet a) (octet-IsOctet b)
      (octet-IsOctet c) (octet-IsOctet d) e
of_parts-IsAddr _ e = cc

pub parse_ipv4-IsAddr : (s : Text) {ip : Ipv4Addr} → parse_ipv4 s ≡ some ip → IsAddr ip
unfolding parse_ipv4
parse_ipv4-IsAddr s e = of_parts-IsAddr (split b'.' s) e

-- `u32::from(Ipv4Addr)` and `Ipv4Addr::from(u32)`.
abbrev pub u32_of : Ipv4Addr → ℕ
u32_of ip = of_be32 ip.a ip.b ip.c ip.d

abbrev pub addr_of : ℕ → Ipv4Addr
addr_of v = record { a = v / 16777216 % 256; b = v / 65536 % 256; c = v / 256 % 256; d = v % 256 }

pub u32_of-addr_of : (v : ℕ) → v < 2 ^ 32 → u32_of (addr_of v) ≡ v
u32_of-addr_of v h = omega arith

pub addr_of-u32_of : (ip : Ipv4Addr) → IsAddr ip → addr_of (u32_of ip) ≡ ip
addr_of-u32_of ip ok =
    go (omega (arith, ok.a_fits, ok.b_fits, ok.c_fits, ok.d_fits))
      (omega (arith, ok.a_fits, ok.b_fits, ok.c_fits, ok.d_fits))
      (omega (arith, ok.a_fits, ok.b_fits, ok.c_fits, ok.d_fits))
      (omega (arith, ok.a_fits, ok.b_fits, ok.c_fits, ok.d_fits))
  where
    go :
        {a b c d : ℕ}
        → a ≡ ip.a
        → b ≡ ip.b
        → c ≡ ip.c
        → d ≡ ip.d
        → record { a = a; b = b; c = c; d = d } ≡ ip
    go e f g h = cc
