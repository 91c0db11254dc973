-- ===== src/Text/Printing.antt =====
-- `Display` of unsigned integers and of `Ipv4Addr`, and `{:02x}` of a byte.
use lwrt.Base.{ℕ, zero, suc, ◌+◌, ◌/◌, ◌%◌, [], ◌∷◌, ◌++◌, get_or, ltb, if◌then◌else◌}
use lwrt.Base.Bytes.{codes}
use lwrt.Text.{Text}
use lwrt.Text.Numbers.{Ipv4Addr}

-- The digits of `n`, in front of what follows.
unfoldable pub digits_onto : ℕ → ℕ → Text → Text
digits_onto zero n s = s
digits_onto (suc fuel) n s =
    let digit = b'0' + n % 10 in
    let rest = digits_onto fuel (n / 10) (digit ∷ s) in if ltb n 10 then digit ∷ s else rest

-- A `u64` has at most twenty digits.
unfoldable pub decimal : ℕ → Text
unfolding digits_onto
decimal n = digits_onto 20 n []

abbrev pub hex2 : ℕ → Text
hex2 n =
    get_or (codes "0123456789abcdef") (n / 16) 0 ∷ get_or (codes "0123456789abcdef") (n % 16) 0 ∷ []

unfoldable pub addr_text : Ipv4Addr → Text
unfolding decimal
addr_text ip =
    decimal ip.a ++ (b'.' ∷ (decimal ip.b ++ (b'.' ∷ (decimal ip.c ++ (b'.' ∷ decimal ip.d)))))
