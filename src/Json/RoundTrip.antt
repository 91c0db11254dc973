-- ===== src/Json/RoundTrip.antt =====
-- src/json.rs: a value that is written is read back.
use mathlib.Core.List.{append_assoc, append-nil}
use lwrt.Base.{
  ℕ, zero, suc, ◌+◌, ◌*◌, ◌≤◌, Bool, true, false, ◌||◌, [], ◌∷◌, ◌++◌, some, length, ◌==◌,
  length-append, ◌≡◌, refl, ap, All, arith, le→leb, ==_false, if_either,
}
use lwrt.Base.Bytes.{Bytes}
use lwrt.Text.Utf8.{utf8_from, from_utf8}
use lwrt.Json.{
  Floats, Value, Items, Pairs, null, bool, num, str, array, object, no_items, item, no_pairs, pair,
  write_num, write_str, write, write_items, write_pairs, to_string,
}
use lwrt.Json.Parser.{
  ok, ws, peek_is, is_ascii_digit, is_number_byte, number_span, number_text, number, expect,
  then_more, opened, value, items, pairs, parse, finish,
}
use lwrt.Json.Strings.{string-write_str}

-- A text of digits, signs, points and exponents, with a digit or a minus first.
abbrev starts_number : Bytes → Bool
starts_number [] = false
starts_number (c ∷ s) = c == b'-' || is_ascii_digit c

abbrev IsNumber : Bytes → Type 0
IsNumber s = (starts_number s ≡ true) × All (λ c. is_number_byte c ≡ true) s

-- Where no number goes on.
abbrev stops : Bytes → Bool
stops [] = true
stops (c ∷ s) = c == b',' || c == b']' || c == b'}'

number_span-stop :
    (s rest : Bytes)
    → All (λ c. is_number_byte c ≡ true) s
    → stops rest ≡ true
    → number_span (s ++ rest) ≡ (s, rest)
unfolding number_span
number_span-stop [] [] h e = refl
number_span-stop [] (c ∷ rest) h e = ground arith
number_span-stop (c ∷ s) rest (h, hs) e = rw (h, number_span-stop s rest hs e)

utf8-number : (s : Bytes) → All (λ c. is_number_byte c ≡ true) s → utf8_from 0 0 0 s ≡ true
unfolding utf8_from
utf8-number [] h = refl
utf8-number (c ∷ s) (h, hs) = rw (le→leb c 0x7f (low c h), utf8-number s hs)
  where
    low : (c : ℕ) → is_number_byte c ≡ true → c ≤ 0x7f
    low c h = ground arith

first : (c : ℕ) → (c == b'-' || is_ascii_digit c) ≡ true → (b'-' ≤ c) × (c ≤ b'9')
first c h = ground arith

number_text-stop :
    (s rest : Bytes) → IsNumber s → stops rest ≡ true → number_text (s ++ rest) ≡ (s, rest)
unfolding number_text number_span
number_text-stop [] rest (start, h) e = cc
number_text-stop (c ∷ s) rest (start, (h, hs)) e =
    rw (h, number_span-stop s rest hs e) (if_either (λ x. x ≡ (c ∷ s, rest)) (c == b'-') refl refl)

module _ (fl : Floats) where
  number-text :
      (n : fl.F64) (s rest : Bytes)
      → IsNumber s
      → fl.from_text s ≡ some n
      → stops rest ≡ true
      → number fl (s ++ rest) ≡ ok (num n, rest)
  unfolding number from_utf8
  number-text n s rest h e k = rw (number_text-stop s rest h k, utf8-number s h.1, e)

  value-number :
      (f : ℕ) (s rest : Bytes) → IsNumber s → value fl (suc f) (s ++ rest) ≡ number fl (s ++ rest)
  unfolding value
  value-number f [] rest (start, h) = cc
  value-number f (c ∷ s) rest (start, h) = rw (
    ==_false c b'{' (λ e. omega (arith, first c start)),
    ==_false c b'[' (λ e. omega (arith, first c start)),
    ==_false c b'"' (λ e. omega (arith, first c start)),
    ==_false c b't' (λ e. omega (arith, first c start)),
    ==_false c b'f' (λ e. omega (arith, first c start)),
    ==_false c b'n' (λ e. omega (arith, first c start)),
    start,
  )

  -- What reads back: strings are well-formed UTF-8, numbers have a text that their own reading takes.
  unfoldable mutual
    pub IsReadable : Value fl.F64 → Type 0
    IsReadable null = Unit
    IsReadable (bool b) = Unit
    IsReadable (num n) = IsNumber (write_num fl n) × (fl.from_text (write_num fl n) ≡ some n)
    IsReadable (str s) = utf8_from 0 0 0 s ≡ true
    IsReadable (array xs) = AllReadable xs
    IsReadable (object ps) = PairsReadable ps

    pub AllReadable : Items fl.F64 → Type 0
    AllReadable no_items = Unit
    AllReadable (item v xs) = IsReadable v × AllReadable xs

    pub PairsReadable : Pairs fl.F64 → Type 0
    PairsReadable no_pairs = Unit
    PairsReadable (pair k v ps) = (utf8_from 0 0 0 k ≡ true) × IsReadable v × PairsReadable ps

  -- What is written of a value begins with no whitespace and no closing bracket.
  abbrev Begins : Bytes → Type 0
  Begins s = (rest : Bytes) → (ws (s ++ rest) ≡ s ++ rest) × (peek_is b']' (s ++ rest) ≡ false)

  number-Begins : (s : Bytes) → IsNumber s → Begins s
  unfolding ws
  number-Begins [] (start, h) = λ rest. cc
  number-Begins (c ∷ s) (start, h) = λ rest. ground arith

  write-Begins : (v : Value fl.F64) → IsReadable v → Begins (write fl v)
  unfolding write IsReadable ws write_str
  write-Begins null h = λ rest. (refl, refl)
  write-Begins (bool true) h = λ rest. (refl, refl)
  write-Begins (bool false) h = λ rest. (refl, refl)
  write-Begins (num n) h = number-Begins (write_num fl n) h.0
  write-Begins (str s) h = λ rest. (refl, refl)
  write-Begins (array xs) h = λ rest. (refl, refl)
  write-Begins (object ps) h = λ rest. (refl, refl)

  abbrev ReadsValue : Value fl.F64 → Type 0
  ReadsValue v =
      IsReadable v
      → (rest : Bytes) → stops rest ≡ true
      → (f : ℕ) → 2 * length (write fl v) + 1 ≤ f
      → value fl f (write fl v ++ rest) ≡ ok (v, rest)

  -- Behind the opening bracket, and behind an element.
  abbrev ReadsItems : Items fl.F64 → Type 0
  ReadsItems xs =
      AllReadable xs
      → (rest : Bytes) (f : ℕ) → 2 * length (write_items fl false xs) + 1 ≤ f
      → (opened b']' no_items (items fl f) (write_items fl true xs ++ b']' ∷ rest) ≡ ok (xs, rest))
        × (then_more b']' no_items (items fl f) (write_items fl false xs ++ b']' ∷ rest)
            ≡ ok (xs, rest))

  abbrev ReadsPairs : Pairs fl.F64 → Type 0
  ReadsPairs ps =
      PairsReadable ps
      → (rest : Bytes) (f : ℕ) → 2 * length (write_pairs fl false ps) + 1 ≤ f
      → (opened b'}' no_pairs (pairs fl f) (write_pairs fl true ps ++ b'}' ∷ rest) ≡ ok (ps, rest))
        × (then_more b'}' no_pairs (pairs fl f) (write_pairs fl false ps ++ b'}' ∷ rest)
            ≡ ok (ps, rest))

  ws-write_str : (k rest : Bytes) → ws (write_str k ++ rest) ≡ write_str k ++ rest
  unfolding ws write_str
  ws-write_str k rest = refl

  peek_is-write_str : (k rest : Bytes) → peek_is b'}' (write_str k ++ rest) ≡ false
  unfolding write_str
  peek_is-write_str k rest = refl

  -- Where a bound leaves fuel, one unit is spent and the bound is met by the others.
  fuelled {ℓ} :
      {bound : ℕ} (G : ℕ → Type ℓ)
      → ((left : ℕ) → bound ≤ left → G (suc left))
      → (fuel : ℕ) → bound + 1 ≤ fuel
      → G fuel
  fuelled G step zero enough = absurd (omega arith)
  fuelled G step (suc left) enough = step left (omega arith)

  -- What stands behind an element.
  after_items :
      (xs : Items fl.F64) (rest : Bytes)
      → let more = write_items fl false xs ++ b']' ∷ rest in (ws more ≡ more) × (stops more ≡ true)
  unfolding write ws
  after_items no_items rest = (refl, refl)
  after_items (item v xs) rest = (refl, refl)

  after_pairs :
      (ps : Pairs fl.F64) (rest : Bytes)
      → let more = write_pairs fl false ps ++ b'}' ∷ rest in (ws more ≡ more) × (stops more ≡ true)
  unfolding write ws
  after_pairs no_pairs rest = (refl, refl)
  after_pairs (pair k v ps) rest = (refl, refl)

  items-step :
      (v : Value fl.F64) (xs : Items fl.F64) (rest : Bytes) (f : ℕ)
      → let more = write_items fl false xs ++ b']' ∷ rest in
        Begins (write fl v)
        → value fl f (write fl v ++ more) ≡ ok (v, more)
        → then_more b']' no_items (items fl f) more ≡ ok (xs, rest)
        → items fl (suc f) (write fl v ++ more) ≡ ok (item v xs, rest)
  unfolding value
  items-step v xs rest f begins here later =
      let more = write_items fl false xs ++ b']' ∷ rest in
      rw ((begins more).0, here, (after_items xs rest).0, later)

  pairs-step :
      (k : Bytes) (v : Value fl.F64) (ps : Pairs fl.F64) (rest : Bytes) (f : ℕ)
      → let more = write_pairs fl false ps ++ b'}' ∷ rest in
        utf8_from 0 0 0 k ≡ true
        → Begins (write fl v)
        → value fl f (write fl v ++ more) ≡ ok (v, more)
        → then_more b'}' no_pairs (pairs fl f) more ≡ ok (ps, rest)
        → pairs fl (suc f) (write_str k ++ b':' ∷ (write fl v ++ more)) ≡ ok (pair k v ps, rest)
  unfolding value expect
  pairs-step k v ps rest f utf8 begins here later =
      let more = write_pairs fl false ps ++ b'}' ∷ rest in
      rw (
        ws-write_str k (b':' ∷ (write fl v ++ more)),
        string-write_str k (b':' ∷ (write fl v ++ more)) utf8,
        (begins more).0,
        here,
        (after_pairs ps rest).0,
        later,
      )

  length-array :
      (xs : Items fl.F64) (f : ℕ)
      → 2 * length (write fl (array xs)) ≤ f
      → 2 * length (write_items fl false xs) + 1 ≤ f
  unfolding write
  length-array no_items f h = omega arith
  length-array (item v xs) f h =
      let body = write fl v ++ write_items fl false xs in
      omega (arith, length-append body (b']' ∷ []))

  length-object :
      (ps : Pairs fl.F64) (f : ℕ)
      → 2 * length (write fl (object ps)) ≤ f
      → 2 * length (write_pairs fl false ps) + 1 ≤ f
  unfolding write
  length-object no_pairs f h = omega arith
  length-object (pair k v ps) f h =
      let body = write_str k ++ b':' ∷ (write fl v ++ write_pairs fl false ps) in
      omega (arith, length-append body (b'}' ∷ []))

  read-items :
      (v : Value fl.F64) (xs : Items fl.F64) (rest : Bytes) (f : ℕ)
      → IsReadable v
      → value fl f (write fl v ++ (write_items fl false xs ++ b']' ∷ rest))
        ≡ ok (v, write_items fl false xs ++ b']' ∷ rest)
      → then_more b']' no_items (items fl f) (write_items fl false xs ++ b']' ∷ rest)
        ≡ ok (xs, rest)
      → (opened b']' no_items (items fl (suc f)) (write_items fl true (item v xs) ++ b']' ∷ rest)
          ≡ ok (item v xs, rest))
        × (then_more b']' no_items
              (items fl (suc f))
              (write_items fl false (item v xs) ++ b']' ∷ rest)
            ≡ ok (item v xs, rest))
  unfolding opened then_more write
  read-items v xs rest f h here later =
      let more = write_items fl false xs ++ b']' ∷ rest in
      let begins = write-Begins v h in
      let read = items-step v xs rest f begins here later in
      rw
        (
          append_assoc (write fl v) (write_items fl false xs) (b']' ∷ rest),
          (begins more).0,
          (begins more).1,
        )
        (read, read)

  read-pairs :
      (k : Bytes) (v : Value fl.F64) (ps : Pairs fl.F64) (rest : Bytes) (f : ℕ)
      → utf8_from 0 0 0 k ≡ true
      → IsReadable v
      → value fl f (write fl v ++ (write_pairs fl false ps ++ b'}' ∷ rest))
        ≡ ok (v, write_pairs fl false ps ++ b'}' ∷ rest)
      → then_more b'}' no_pairs (pairs fl f) (write_pairs fl false ps ++ b'}' ∷ rest)
        ≡ ok (ps, rest)
      → (opened b'}' no_pairs (pairs fl (suc f)) (write_pairs fl true (pair k v ps) ++ b'}' ∷ rest)
          ≡ ok (pair k v ps, rest))
        × (then_more b'}' no_pairs
              (pairs fl (suc f))
              (write_pairs fl false (pair k v ps) ++ b'}' ∷ rest)
            ≡ ok (pair k v ps, rest))
  unfolding then_more opened write
  read-pairs k v ps rest f utf8 h here later =
      let more = write_pairs fl false ps ++ b'}' ∷ rest in
      let read = pairs-step k v ps rest f utf8 (write-Begins v h) here later in
      rw
        (
          append_assoc (write_str k) (b':' ∷ (write fl v ++ write_pairs fl false ps)) (b'}' ∷ rest),
          append_assoc (write fl v) (write_pairs fl false ps) (b'}' ∷ rest),
          ws-write_str k (b':' ∷ (write fl v ++ more)),
          peek_is-write_str k (b':' ∷ (write fl v ++ more)),
        )
        (read, read)

  length-item :
      (v : Value fl.F64) (xs : Items fl.F64)
      → length (write_items fl false (item v xs))
        ≡ suc (length (write fl v) + length (write_items fl false xs))
  unfolding write
  length-item v xs = ap suc (length-append (write fl v) (write_items fl false xs))

  length-pair :
      (k : Bytes) (v : Value fl.F64) (ps : Pairs fl.F64)
      → suc (length (write fl v) + length (write_pairs fl false ps))
        ≤ length (write_pairs fl false (pair k v ps))
  unfolding write
  length-pair k v ps =
      rw
        (
          length-append (write_str k) (b':' ∷ (write fl v ++ write_pairs fl false ps)),
          length-append (write fl v) (write_pairs fl false ps),
        )
        (omega arith)

  write-Reads : (v : Value fl.F64) → ReadsValue v
  unfolding IsReadable
  write-Reads v = elim v as ReadsValue ReadsItems ReadsPairs [
    | null ↦ λ h rest k. fuelled _ λ f l. unfold value write in refl
    | bool true ↦ λ h rest k. fuelled _ λ f l. unfold value write in refl
    | bool false ↦ λ h rest k. fuelled _ λ f l. unfold value write in refl
    | num n ↦ λ h rest k. fuelled _ λ f l.
        unfold write in
        rw (value-number f (write_num fl n) rest h.0)
          (number-text n (write_num fl n) rest h.0 h.1 k)
    | str s ↦ λ h rest k. fuelled _ λ f l. unfold value write in rw (string-write_str s rest h)
    | array (xs → ih) ↦ λ h rest k. fuelled _ λ f l.
        unfold value write in
        rw (
          append_assoc (write_items fl true xs) (b']' ∷ []) rest,
          (ih h rest f (length-array xs f l)).0,
        )
    | object (ps → ih) ↦ λ h rest k. fuelled _ λ f l.
        unfold value write in
        rw (
          append_assoc (write_pairs fl true ps) (b'}' ∷ []) rest,
          (ih h rest f (length-object ps f l)).0,
        )
    | no_items ↦ λ h rest. fuelled _ λ f l. unfold value write in (refl, refl)
    | item (v → ih) (xs → ihs) ↦ λ h rest. fuelled _ λ f l.
        read-items v xs rest f h.0
          (ih h.0 _ (after_items xs rest).1 f (omega (arith, length-item v xs)))
          (ihs h.1 rest f (omega (arith, length-item v xs))).1
    | no_pairs ↦ λ h rest. fuelled _ λ f l. unfold value write in (refl, refl)
    | pair k (v → ih) (ps → ihs) ↦ λ h rest. fuelled _ λ f l.
        read-pairs k v ps rest f h.0 h.1
          (ih h.1 _ (after_pairs ps rest).1 f (omega (arith, length-pair k v ps)))
          (ihs h.2 rest f (omega (arith, length-pair k v ps))).1
  ]

-- What to_string writes of a value, its strings well-formed UTF-8 and its numbers with a text that reads
-- back, parse reads as that value.
pub parse-to_string :
    (fl : Floats) (v : Value fl.F64) → IsReadable fl v → parse fl (to_string fl v) ≡ ok v
unfolding parse finish ws
parse-to_string fl v h =
    let whole = write-Reads fl v h [] refl (2 * length (write fl v) + 1) (omega arith) in
    let begins = (write-Begins fl v h []).0 in
    rw (rw append-nil at begins) (rw (rw append-nil at whole) refl)
