-- ===== src/Json/Tests.antt =====
-- src/json.rs: the cases of its unit tests, with naturals for numbers, and the theorems at examples.
use lwrt.Base.{ℕ, true, [], ◌∷◌, ◌++◌, ◌≡◌, refl}
use lwrt.Base.Bytes.{codes}
use lwrt.Text.Numbers.{parse_unsigned}
use lwrt.Text.Utf8.{utf8_from}
use lwrt.Text.Printing.{decimal}
use lwrt.Json.{
  Value, null, bool, num, str, array, object, no_items, item, no_pairs, pair, obj, to_string, write,
  write_num,
}
use lwrt.Json.Samples.{naturals}
use lwrt.Json.RoundTrip.{IsReadable, parse-to_string}
use lwrt.Json.Parser.{parse, ok, err, trailing_data, unexpected_byte}

abbrev sample : Value ℕ
sample = obj {F = ℕ} (
    (codes "a", num 1)
    ∷ (
      codes "b",
      array (
          item (bool true) (item null (item (str (codes "x\"\n\\" ++ 0xc3 ∷ 0xa9 ∷ [])) no_items))),
    )
    ∷ (codes "c", object (pair (codes "d") (num 42) no_pairs))
    ∷ [])

sample_text :
    to_string naturals sample
    ≡ codes "{\"a\":1,\"b\":[true,null,\"x\\\"\\n\\\\"
      ++ 0xc3 ∷ 0xa9 ∷ codes "\"],\"c\":{\"d\":42}}"
unfolding write decimal
sample_text = refl

sample_read :
    parse naturals
      (codes " { \"a\":1, \"b\" : [true,null,\"x\\\"\\n\\\\\\u00e9\"],\"c\":{\"d\": 42}} ")
    ≡ ok sample
unfolding parse parse_unsigned utf8_from
sample_read = refl

trailing : parse naturals (codes "1 2") ≡ err trailing_data
unfolding parse parse_unsigned utf8_from
trailing = refl

surrogate_pair :
    parse naturals (codes "\"\\ud83d\\ude00\"") ≡ ok (str (0xf0 ∷ 0x9f ∷ 0x98 ∷ 0x80 ∷ []))
unfolding parse
surrogate_pair = refl

dangling_comma : parse naturals (codes "[1,]") ≡ err unexpected_byte
unfolding parse parse_unsigned utf8_from
dangling_comma = refl

sample-IsReadable : IsReadable naturals sample
unfolding IsReadable write_num utf8_from decimal parse_unsigned
sample-IsReadable = (
  refl,
  ((refl, (refl, tt)), refl),
  (refl, (tt, (tt, (refl, tt))), (refl, (refl, ((refl, (refl, (refl, tt))), refl), tt), tt)),
)

parse-to_string_example : parse naturals (to_string naturals sample) ≡ ok sample
parse-to_string_example = parse-to_string naturals sample sample-IsReadable
