-- ===== src/Json/Samples.antt =====
-- Naturals in the place of floating point numbers, for tests and examples.
use lwrt.Base.{ℕ, true, ltb, ◌^◌}
use lwrt.Text.Numbers.{parse_unsigned}
use lwrt.Text.Printing.{decimal}
use lwrt.Json.{Floats}

abbrev pub naturals : Floats
naturals = record {
  F64 = ℕ;
  is_finite = λ _. true;
  is_whole = λ _. true;
  is_small = λ n. ltb n 1000000000000000;
  is_nonnegative = λ _. true;
  integer_text = decimal;
  text = decimal;
  from_text = parse_unsigned (2 ^ 64);
  to_u64 = λ n. n;
  of_u64 = λ n. n;
  negative = λ n. 0;
}
