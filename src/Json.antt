-- ===== src/Json.antt =====
-- src/json.rs: the value type, its accessors and the writer. A string is its UTF-8 bytes; the writer
-- escapes ASCII characters only, so going over the bytes is going over the characters. `f64` is a
-- parameter (`Floats`): the type, and what the program uses of its standard library.
pub mod Parser
pub mod Strings
pub mod RoundTrip
pub mod Samples
mod Tests
use lwrt.Base.{
  ℕ, Bool, true, false, ◌&&◌, List, [], ◌∷◌, ◌++◌, Option, none, some, ltb, ◌==◌, if◌then◌else◌,
}
use lwrt.Base.Bytes.{Bytes, codes}
use lwrt.Text.{equal}
use lwrt.Text.Printing.{hex2}

-- `is_whole` is `fract() == 0.0`, `is_small` is `abs() < 1e15`, `integer_text` the Display of
-- `n as i64`, `text` that of `n`, `from_text` is `str::parse::<f64>`,
-- `of_u64` is `as f64` and `negative n` the same of `-n`.
pub record Floats : Type 1 where
  pub F64 : Type 0
  pub is_finite : F64 → Bool
  pub is_whole : F64 → Bool
  pub is_small : F64 → Bool
  pub is_nonnegative : F64 → Bool
  pub integer_text : F64 → Bytes
  pub text : F64 → Bytes
  pub from_text : Bytes → Option F64
  pub to_u64 : F64 → ℕ
  pub of_u64 : ℕ → F64
  pub negative : ℕ → F64

mutual
  pub data Value (F : Type 0) : Type 0 where
    null : Value F
    bool : Bool → Value F
    num : F → Value F
    str : Bytes → Value F
    array : Items F → Value F
    object : Pairs F → Value F

  -- `Vec<Value>`
  pub data Items (F : Type 0) : Type 0 where
    no_items : Items F
    item : Value F → Items F → Items F

  -- `Vec<(String, Value)>`
  pub data Pairs (F : Type 0) : Type 0 where
    no_pairs : Pairs F
    pair : Bytes → Value F → Pairs F → Pairs F

module _ {F : Type 0} where
  unfoldable pub find : Bytes → Pairs F → Option (Value F)
  find key no_pairs = none
  find key (pair k v rest) = let later = find key rest in if equal k key then some v else later

  unfoldable pub get : Bytes → Value F → Option (Value F)
  unfolding find
  get key (object pairs) = find key pairs
  get key _ = none

  unfoldable pub as_str : Value F → Option Bytes
  as_str (str s) = some s
  as_str _ = none

  unfoldable pub as_array : Value F → Option (Items F)
  as_array (array items) = some items
  as_array _ = none

  -- `obj`
  abbrev pub obj : List (Bytes × Value F) → Value F
  obj pairs = object (pairs_of pairs)
    where
      pairs_of : List (Bytes × Value F) → Pairs F
      pairs_of [] = no_pairs
      pairs_of ((k, v) ∷ rest) = pair k v (pairs_of rest)

unfoldable pub as_u64 : (fl : Floats) → Value fl.F64 → Option ℕ
as_u64 fl (num n) = if fl.is_nonnegative n && fl.is_whole n then some (fl.to_u64 n) else none
as_u64 fl _ = none

-- What `write_str` makes of one character.
unfoldable pub escape : ℕ → Bytes
escape c =
    if c == b'"'
    then codes "\\\""
    else if c == b'\\'
    then codes "\\\\"
    else if c == 10
    then codes "\\n"
    else if c == 13
    then codes "\\r"
    else if c == 9
    then codes "\\t"
    else if c == 8
    then codes "\\b"
    else if c == 12
    then codes "\\f"
    else if ltb c 0x20
    then codes "\\u00" ++ hex2 c
    else c ∷ []

unfoldable pub escapes : Bytes → Bytes
unfolding escape
escapes [] = []
escapes (c ∷ s) = escape c ++ escapes s

unfoldable pub write_str : Bytes → Bytes
unfolding escapes
write_str s = b'"' ∷ (escapes s ++ b'"' ∷ [])

unfoldable pub write_num : (fl : Floats) → fl.F64 → Bytes
write_num fl n =
    if fl.is_finite n && (fl.is_whole n && fl.is_small n)
    then fl.integer_text n
    else if fl.is_finite n
    then fl.text n
    else codes "null"

-- `if i > 0 { out.push(',') }`
abbrev pub sep : Bool → Bytes
sep first = if first then [] else b',' ∷ []

module _ (fl : Floats) where
  unfoldable mutual
    unfolding write_str write_num

    -- What `write` appends.
    pub write : Value fl.F64 → Bytes
    write null = codes "null"
    write (bool true) = codes "true"
    write (bool false) = codes "false"
    write (num n) = write_num fl n
    write (str s) = write_str s
    write (array items) = b'[' ∷ (write_items true items ++ b']' ∷ [])
    write (object pairs) = b'{' ∷ (write_pairs true pairs ++ b'}' ∷ [])

    pub write_items : Bool → Items fl.F64 → Bytes
    write_items first no_items = []
    write_items first (item v rest) = sep first ++ (write v ++ write_items false rest)

    pub write_pairs : Bool → Pairs fl.F64 → Bytes
    write_pairs first no_pairs = []
    write_pairs first (pair k v rest) =
        sep first ++ (write_str k ++ b':' ∷ (write v ++ write_pairs false rest))

abbrev pub to_string : (fl : Floats) → Value fl.F64 → Bytes
to_string fl v = write fl v
