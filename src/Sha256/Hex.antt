-- ===== src/Sha256/Hex.antt =====
-- src/sha256.rs: `hex`, the text of a digest.
use lwrt.Base.{
  ℕ, zero, ◌+◌, ◌*◌, ◌-◌, suc, ap, ◌/◌, ◌%◌, ◌<◌, [], ◌∷◌, length, get_or, All, Option, none, some,
  leb, if◌then◌else◌, ◌≡◌, refl, arith,
}
use lwrt.Base.Bytes.{Bytes, codes}

abbrev lut : Bytes
lut = codes "0123456789abcdef"

-- `b >> 4` and `b & 0xf` index the table.
unfoldable pub hex : Bytes → Bytes
hex [] = []
hex (b ∷ bs) = get_or lut (b / 16) 0 ∷ get_or lut (b % 16) 0 ∷ hex bs

-- A reading of hex digits, either case, that does not know the table.
abbrev pub digit_of : ℕ → Option ℕ
digit_of c =
    if leb 48 c
    then if leb c 57
      then some (c - 48)
      else if leb 97 c
      then if leb c 102 then some (c - 87) else none
      else none
    else none

abbrev pub pair_of : Option ℕ → Option ℕ → Option Bytes → Option Bytes
pair_of (some a) (some b) (some bs) = some ((a * 16 + b) ∷ bs)
pair_of _ _ _ = none

unfoldable pub unhex : Bytes → Option Bytes
unhex [] = some []
unhex (c ∷ []) = none
unhex (c ∷ d ∷ s) = pair_of (digit_of c) (digit_of d) (unhex s)

digit_of-get_or : (n : ℕ) → n < 16 → digit_of (get_or lut n 0) ≡ some n
digit_of-get_or zero h = refl
digit_of-get_or (suc zero) h = refl
digit_of-get_or (suc (suc zero)) h = refl
digit_of-get_or (suc (suc (suc zero))) h = refl
digit_of-get_or (suc (suc (suc (suc zero)))) h = refl
digit_of-get_or (suc (suc (suc (suc (suc zero))))) h = refl
digit_of-get_or (suc (suc (suc (suc (suc (suc zero)))))) h = refl
digit_of-get_or (suc (suc (suc (suc (suc (suc (suc zero))))))) h = refl
digit_of-get_or (suc (suc (suc (suc (suc (suc (suc (suc zero)))))))) h = refl
digit_of-get_or (suc (suc (suc (suc (suc (suc (suc (suc (suc zero))))))))) h = refl
digit_of-get_or (suc (suc (suc (suc (suc (suc (suc (suc (suc (suc zero)))))))))) h = refl
digit_of-get_or (suc (suc (suc (suc (suc (suc (suc (suc (suc (suc (suc zero))))))))))) h = refl
digit_of-get_or (suc (suc (suc (suc (suc (suc (suc (suc (suc (suc (suc (suc zero)))))))))))) h =
    refl
digit_of-get_or (suc (suc (suc (suc (suc (suc (suc (suc (suc (suc (suc (suc (suc zero)))))))))))))
      h =
    refl
digit_of-get_or
      (suc (suc (suc (suc (suc (suc (suc (suc (suc (suc (suc (suc (suc (suc zero)))))))))))))) h =
    refl
digit_of-get_or
      (suc (suc (suc (suc (suc (suc (suc (suc (suc (suc (suc (suc (suc (suc (suc zero)))))))))))))))
      h =
    refl
digit_of-get_or
      (suc
        (suc (suc (suc (suc (suc (suc (suc (suc (suc (suc (suc (suc (suc (suc (suc n))))))))))))))))
      h =
    absurd (omega arith)

-- The hex text of bytes below 256 has two digits for each of them, and reading it gives the bytes back.
pub unhex-hex :
    (bs : Bytes)
    → All (λ b. b < 256) bs
    → (unhex (hex bs) ≡ some bs) × (length (hex bs) ≡ 2 * length bs)
unfolding unhex hex
unhex-hex [] h = (refl, refl)
unhex-hex (b ∷ bs) (small, rest) =
    rw
      (
        digit_of-get_or (b / 16) (omega arith),
        digit_of-get_or (b % 16) (omega arith),
        (unhex-hex bs rest).0,
      )
      (ap (λ n. some (n ∷ bs)) (omega arith), omega (arith, (unhex-hex bs rest).1))
