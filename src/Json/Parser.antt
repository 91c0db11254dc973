-- ===== src/Json/Parser.antt =====
-- src/json.rs: the parser. A step takes the bytes from the position on, and gives what it reads and the
-- bytes behind it. An error is its kind; the position and the byte in the message are left out.
use lwrt.Base.{
  ℕ, zero, suc, ◌+◌, ◌*◌, ◌-◌, ◌/◌, ◌%◌, ◌^◌, Bool, true, false, ◌&&◌, ◌||◌, [], ◌∷◌, ◌++◌, Option,
  none, some, length, take, drop, ltb, leb, ◌==◌, if◌then◌else◌,
}
use lwrt.Base.Bytes.{Bytes, codes}
use lwrt.Text.{strip_prefix}
use lwrt.Text.Utf8.{from_utf8}
use lwrt.Json.{
  Floats, Value, Items, Pairs, null, bool, num, str, array, object, no_items, item, no_pairs, pair,
}

-- `out_of_fuel` has no counterpart in the program.
pub data Error : Type 0 where
  trailing_data unexpected_byte unexpected_end expected expected_separator : Error
  unterminated_string unterminated_escape bad_escape truncated_utf8 invalid_utf8 : Error
  lone_high_surrogate bad_low_surrogate invalid_code_point truncated_unicode non_hex : Error
  bad_number invalid_number invalid_literal out_of_fuel : Error

pub data Result {ℓ} (A : Type ℓ) : Type ℓ where
  ok : A → Result A
  err : Error → Result A

abbrev pub bind {ℓ κ} : {A : Type ℓ} {B : Type κ} → Result A → (A → Result B) → Result B
bind (ok a) f = f a
bind (err e) f = err e

abbrev pub Parser {ℓ} : Type ℓ → Type ℓ
Parser A = Bytes → Result (A × Bytes)

abbrev pub pure {ℓ} : {A : Type ℓ} → A → Parser A
pure a bs = ok (a, bs)

module _ {ℓ κ} {A : Type ℓ} {B : Type κ} where
  infixl 1 ◌>>=◌ ◌>>◌
  abbrev pub ◌>>=◌ : Parser A → (A → Parser B) → Parser B
  p >>= f = λ bs. bind (p bs) λ (a, rest). f a rest

  abbrev pub ◌>>◌ : Parser A → Parser B → Parser B
  p >> q = p >>= λ _. q

abbrev pub run {ℓ} : {A : Type ℓ} → Bytes → Parser A → Result (A × Bytes)
run bs p = p bs

abbrev pub is_ws : ℕ → Bool
is_ws c = c == b' ' || c == 9 || c == 10 || c == 13

unfoldable pub ws : Bytes → Bytes
ws [] = []
ws (c ∷ bs) = if is_ws c then ws bs else c ∷ bs

abbrev pub skip : Parser (Unit {0})
skip bs = ok (tt, ws bs)

abbrev pub peek_is : ℕ → Bytes → Bool
peek_is c [] = false
peek_is c (b ∷ bs) = b == c

unfoldable pub expect : ℕ → Parser (Unit {0})
expect c [] = err expected
expect c (b ∷ bs) = if b == c then ok (tt, bs) else err expected

-- Numbers

abbrev pub is_ascii_digit : ℕ → Bool
is_ascii_digit c = leb b'0' c && leb c b'9'

abbrev pub is_number_byte : ℕ → Bool
is_number_byte c = is_ascii_digit c || c == b'.' || c == b'e' || c == b'E' || c == b'+' || c == b'-'

abbrev pub onto_span : ℕ → Bytes × Bytes → Bytes × Bytes
onto_span c (taken, rest) = (c ∷ taken, rest)

unfoldable pub number_span : Bytes → Bytes × Bytes
number_span [] = ([], [])
number_span (c ∷ bs) =
    let more = onto_span c (number_span bs) in if is_number_byte c then more else ([], c ∷ bs)

unfoldable pub number_text : Bytes → Bytes × Bytes
unfolding number_span
number_text [] = ([], [])
number_text (c ∷ bs) = if c == b'-' then onto_span c (number_span bs) else number_span (c ∷ bs)

abbrev pub parsed : {F : Type 0} → Option F → Bytes → Result (Value F × Bytes)
parsed none rest = err invalid_number
parsed (some n) rest = ok (num n, rest)

abbrev pub number_of : (fl : Floats) → Option Bytes → Bytes → Result (Value fl.F64 × Bytes)
number_of fl none rest = err bad_number
number_of fl (some text) rest = parsed (fl.from_text text) rest

unfoldable pub number : (fl : Floats) → Parser (Value fl.F64)
unfolding number_text from_utf8
number fl bs = number_of fl (from_utf8 (number_text bs).0) (number_text bs).1

-- Strings

unfoldable pub utf8_extra : ℕ → ℕ
utf8_extra lead =
    if leb 0xc0 lead && leb lead 0xdf
    then 1
    else if leb 0xe0 lead && leb lead 0xef
    then 2
    else if leb 0xf0 lead && leb lead 0xf7
    then 3
    else 0

unfoldable pub to_digit16 : ℕ → Option ℕ
to_digit16 c =
    if leb b'0' c && leb c b'9'
    then some (c - b'0')
    else if leb b'a' c && leb c b'f'
    then some (c - b'a' + 10)
    else if leb b'A' c && leb c b'F'
    then some (c - b'A' + 10)
    else none

-- `n` more digits, after the value `v` of those before.
unfoldable pub hex_digits : ℕ → ℕ → Parser ℕ
unfolding to_digit16
hex_digits zero v bs = ok (v, bs)
hex_digits (suc n) v [] = err truncated_unicode
hex_digits (suc n) v (c ∷ bs) = elim (to_digit16 c) [
  | none ↦ err non_hex
  | some d ↦ hex_digits n (v * 16 + d) bs
]

unfoldable pub hex4 : Parser ℕ
unfolding hex_digits
hex4 bs = hex_digits 4 0 bs

-- `char::encode_utf8`
unfoldable pub encode_utf8 : ℕ → Bytes
encode_utf8 c =
    if ltb c 0x80
    then c ∷ []
    else if ltb c 0x800
    then (0xc0 + c / 0x40) ∷ (0x80 + c % 0x40) ∷ []
    else if ltb c 0x10000
    then (0xe0 + c / 0x1000) ∷ (0x80 + c / 0x40 % 0x40) ∷ (0x80 + c % 0x40) ∷ []
    else (0xf0 + c / 0x40000)
      ∷ (0x80 + c / 0x1000 % 0x40)
      ∷ (0x80 + c / 0x40 % 0x40)
      ∷ (0x80 + c % 0x40)
      ∷ []

-- `char::from_u32`, pushed onto the string.
unfoldable pub char_of : ℕ → Parser Bytes
unfolding encode_utf8
char_of cp bs =
    if ltb cp 0xd800 || (leb 0xe000 cp && leb cp 0x10ffff)
    then ok (encode_utf8 cp, bs)
    else err invalid_code_point

abbrev pub low_surrogate : ℕ → ℕ → Parser Bytes
unfolding char_of
low_surrogate hi lo bs =
    if leb 0xdc00 lo && leb lo 0xdfff
    then char_of (0x10000 + (hi - 0xd800) * 2 ^ 10 + (lo - 0xdc00)) bs
    else err bad_low_surrogate

abbrev pub backslash : Parser (Unit {0})
backslash [] = err lone_high_surrogate
backslash (b ∷ bs) = if b == b'\\' then ok (tt, bs) else err lone_high_surrogate

abbrev pub surrogates : ℕ → Parser Bytes
unfolding hex4 expect
surrogates hi bs = run bs do backslash; expect b'u'; lo ← hex4; low_surrogate hi lo

unfoldable pub unicode_escape : Parser Bytes
unfolding hex4 char_of
unicode_escape bs = run bs do
  hi ← hex4
  λ rest. if leb 0xd800 hi && leb hi 0xdbff then surrogates hi rest else char_of hi rest

-- Behind a backslash.
unfoldable pub escaped_char : Parser Bytes
unfolding unicode_escape
escaped_char [] = err unterminated_escape
escaped_char (e ∷ bs) =
    if e == b'"'
    then ok (b'"' ∷ [], bs)
    else if e == b'\\'
    then ok (b'\\' ∷ [], bs)
    else if e == b'/'
    then ok (b'/' ∷ [], bs)
    else if e == b'n'
    then ok (10 ∷ [], bs)
    else if e == b'r'
    then ok (13 ∷ [], bs)
    else if e == b't'
    then ok (9 ∷ [], bs)
    else if e == b'b'
    then ok (8 ∷ [], bs)
    else if e == b'f'
    then ok (12 ∷ [], bs)
    else if e == b'u'
    then unicode_escape bs
    else err bad_escape

abbrev pub checked : Option Bytes → Bytes → Result (Bytes × Bytes)
checked none rest = err invalid_utf8
checked (some part) rest = ok (part, rest)

-- A character that stands for itself, in as many bytes as its first says.
unfoldable pub raw_char : ℕ → Parser Bytes
unfolding utf8_extra from_utf8
raw_char c bs =
    if ltb (length bs) (utf8_extra c)
    then err truncated_utf8
    else checked (from_utf8 (c ∷ take (utf8_extra c) bs)) (drop (utf8_extra c) bs)

-- The loop of `string`, behind the opening quote.
unfoldable pub string_from : ℕ → Parser Bytes
unfolding escaped_char raw_char
string_from zero bs = err out_of_fuel
string_from (suc f) [] = err unterminated_string
string_from (suc f) (c ∷ bs) =
    let more = run bs do
      piece ← λ bs. if c == b'\\' then escaped_char bs else raw_char c bs
      rest ← string_from f
      pure (piece ++ rest)
    in if c == b'"' then ok ([], bs) else more

unfoldable pub string : Parser Bytes
unfolding expect string_from
string bs = run bs do expect b'"'; λ rest. string_from (suc (length rest)) rest

-- Values

abbrev pub literal : {F : Type 0} → Bytes → Value F → Option Bytes → Result (Value F × Bytes)
literal word v none = err invalid_literal
literal word v (some rest) = ok (v, rest)

unfoldable pub boolean : {F : Type 0} → Parser (Value F)
unfolding strip_prefix
boolean bs = elim (strip_prefix (codes "true") bs) [
  | some rest ↦ ok (bool true, rest)
  | none ↦ literal (codes "false") (bool false) (strip_prefix (codes "false") bs)
]

unfoldable pub null_word : {F : Type 0} → Parser (Value F)
unfolding strip_prefix
null_word bs = literal (codes "null") null (strip_prefix (codes "null") bs)

-- Behind an element: a comma and more, or the closing bracket.
unfoldable pub then_more {ℓ} : {A : Type ℓ} → ℕ → A → Parser A → Parser A
then_more close empty p [] = err expected_separator
then_more close empty p (c ∷ bs) =
    let more = p bs in
    if c == b',' then more else if c == close then ok (empty, bs) else err expected_separator

-- Behind the opening bracket: the closing one, or elements.
unfoldable pub opened {ℓ} : {A : Type ℓ} → ℕ → A → Parser A → Parser A
unfolding ws
opened close empty p bs =
    let more = p (ws bs) in if peek_is close (ws bs) then ok (empty, drop 1 (ws bs)) else more

unfoldable mutual
  unfolding expect string number boolean null_word then_more opened

  pub value : (fl : Floats) → ℕ → Parser (Value fl.F64)
  value fl zero bs = err out_of_fuel
  value fl (suc f) [] = err unexpected_end
  value fl (suc f) (c ∷ bs) =
      let as_object = run bs do pure (object (← opened b'}' no_pairs (pairs fl f)))
      in let as_array = run bs do pure (array (← opened b']' no_items (items fl f)))
        in if c == b'{'
          then as_object
          else if c == b'['
          then as_array
          else if c == b'"'
          then (run (c ∷ bs) do pure (str (← string)))
          else if c == b't' || c == b'f'
          then boolean (c ∷ bs)
          else if c == b'n'
          then null_word (c ∷ bs)
          else if c == b'-' || is_ascii_digit c
          then number fl (c ∷ bs)
          else err unexpected_byte

  -- The loop of `array`.
  pub items : (fl : Floats) → ℕ → Parser (Items fl.F64)
  items fl zero bs = err out_of_fuel
  items fl (suc f) bs =
      run (ws bs)
        do v ← value fl f; skip; rest ← then_more b']' no_items (items fl f); pure (item v rest)

  -- The loop of `object`.
  pub pairs : (fl : Floats) → ℕ → Parser (Pairs fl.F64)
  pairs fl zero bs = err out_of_fuel
  pairs fl (suc f) bs = run (ws bs) do
    k ← string
    skip
    expect b':'
    skip
    v ← value fl f
    skip
    rest ← then_more b'}' no_pairs (pairs fl f)
    pure (pair k v rest)

unfoldable pub finish {ℓ} : {A : Type ℓ} → A → Bytes → Result A
finish v [] = ok v
finish v (_ ∷ _) = err trailing_data

-- `Value::parse`
unfoldable pub parse : (fl : Floats) → Bytes → Result (Value fl.F64)
unfolding ws value finish
parse fl input = bind (value fl (2 * length input + 1) (ws input)) λ (v, rest). finish v (ws rest)
