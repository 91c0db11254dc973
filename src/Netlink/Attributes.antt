-- ===== src/Netlink/Attributes.antt =====
-- src/nl.rs: what `for_each_attr` reads back of the attributes that the builder wrote.
use lwrt.Base.{
  ℕ, zero, suc, ◌+◌, ◌-◌, ◌/◌, ◌%◌, ◌^◌, ◌≤◌, ◌<◌, List, [], ◌∷◌, ◌++◌, length, take, drop, ◌≡◌,
  refl, sym, ap, ◌∙◌, arith, some, if_either, Bool-cases, inl, inr, ltb, false, not_ltb→le,
  append_assoc, append-nil, length-append, length-replicate, length-drop, take_prefix, drop_prefix,
  le→not_ltb, All,
}
use mathlib.Core.Option
use lwrt.Base.Options.{or_nil, Ends, map-Ends, Ends-or_nil}
use lwrt.Base.Bytes.{Bytes, of_le16}
use lwrt.Netlink.{NlBuf, ◌⨟◌, new, attr, align4, walk_attrs, for_each_attr}
use lwrt.Netlink.Encoding.{attr_bytes, length-attr_bytes, padding, Emits, Emits-attr, Emits-then}

walk_attrs-nil : (f : ℕ) → walk_attrs f [] ≡ some []
unfolding walk_attrs
walk_attrs-nil zero = refl
walk_attrs-nil (suc f) = refl

-- What a round leaves, where its length field is four or more.
abbrev later : Bytes → ℕ → Bytes
later body len = drop (align4 len) body

later-shorter :
    (body : Bytes) (len : ℕ)
    → 4 ≤ length body
    → ltb len 4 ≡ false
    → length (later body len) < length body
later-shorter body len h l = omega (arith, length-drop (align4 len) body, not_ltb→le len 4 l)

walk_attrs-Ends : (f : ℕ) (body : Bytes) → length body ≤ f → Ends (walk_attrs f body)
unfolding walk_attrs
walk_attrs-Ends zero (a ∷ b ∷ c ∷ d ∷ rest) h = absurd (omega arith)
walk_attrs-Ends (suc f) (a ∷ b ∷ c ∷ d ∷ rest) h =
    let len = of_le16 a b in
    let body = a ∷ b ∷ c ∷ d ∷ rest in
    let typ = of_le16 c d % 0x4000 in
    elim (Bool-cases (ltb len 4)) [
      | inl short ↦ rw short ([], refl)
      | inr long ↦ rw long (
          if_either Ends (ltb (4 + length rest) len) ([], refl)
            (map-Ends (◌∷◌ (typ, take (len - 4) rest)) (walk_attrs f (later body len)) (
              walk_attrs-Ends f (later body len)
                (omega (arith, later-shorter body len (omega arith) long)))))
    ]
walk_attrs-Ends zero _ h = ([], refl)
walk_attrs-Ends (suc f) _ h = ([], refl)

walk_attrs-fuel :
    (f g : ℕ) (body : Bytes)
    → length body ≤ f
    → length body ≤ g
    → walk_attrs f body ≡ walk_attrs g body
unfolding walk_attrs
walk_attrs-fuel f g [] h k = walk_attrs-nil f ∙ sym (walk_attrs-nil g)
walk_attrs-fuel zero g (a ∷ _) h k = absurd (omega arith)
walk_attrs-fuel (suc f) zero (a ∷ _) h k = absurd (omega arith)
walk_attrs-fuel (suc f) (suc g) (a ∷ b ∷ c ∷ d ∷ rest) h k =
    let len = of_le16 a b in
    let body = a ∷ b ∷ c ∷ d ∷ rest in
    elim (Bool-cases (ltb len 4)) [
      | inl short ↦ rw short refl
      | inr long ↦
          let less = later-shorter body len (omega arith) long in
          rw (walk_attrs-fuel f g (later body len) (omega (arith, less)) (omega (arith, less))) refl
    ]
walk_attrs-fuel (suc f) (suc g) _ h k = refl

-- However malformed the bytes, the loop of `for_each_attr` ends by its own tests: on any fuel of at
-- least the buffer's length it does not run out, and makes the calls of for_each_attr.
pub for_each_attr-ends :
    (f : ℕ) (body : Bytes) → length body ≤ f → walk_attrs f body ≡ some (for_each_attr body)
unfolding for_each_attr
for_each_attr-ends f body h =
    walk_attrs-fuel f (length body) body h (omega arith)
    ∙ Ends-or_nil (walk_attrs (length body) body) (walk_attrs-Ends (length body) body (omega arith))

-- A type without flag bits, and a payload whose length the 16-bit field holds.
pub record IsAttr (a : ℕ × Bytes) : Type 0 where
  pub plain : a.0 < 0x4000
  pub fits : 4 + length a.1 < 2 ^ 16

-- `for (typ, payload) in attrs { b.attr(typ, payload); }`
pub write_attrs : List (ℕ × Bytes) → NlBuf → NlBuf
write_attrs [] = λ b. b
write_attrs ((typ, payload) ∷ attrs) = attr typ payload ⨟ write_attrs attrs

abbrev pub attrs_bytes : List (ℕ × Bytes) → Bytes
attrs_bytes [] = []
attrs_bytes ((typ, payload) ∷ attrs) = attr_bytes typ payload ++ attrs_bytes attrs

pub Emits-write_attrs : (attrs : List (ℕ × Bytes)) → Emits (write_attrs attrs) (attrs_bytes attrs)
unfolding write_attrs
Emits-write_attrs [] = record { appends = λ b h. sym (append-nil b); aligned = omega arith }
Emits-write_attrs ((typ, payload) ∷ attrs) =
    Emits-then (Emits-attr typ payload) (Emits-write_attrs attrs)

-- One round on an attribute takes it off, with its padding.
walk_attrs-attr :
    (fuel typ : ℕ) (payload rest : Bytes)
    → typ < 0x4000
    → 4 + length payload < 2 ^ 16
    → walk_attrs (suc fuel) (attr_bytes typ payload ++ rest)
      ≡ Option.map (◌∷◌ (typ, payload)) (walk_attrs fuel rest)
unfolding walk_attrs attr_bytes
walk_attrs-attr fuel typ payload rest t l =
    let n = length payload in
    let counted : of_le16 ((4 + n) % 2 ^ 16 % 256) ((4 + n) % 2 ^ 16 / 256 % 256) ≡ 4 + n =
      omega arith in
    let typed : of_le16 (typ % 256) (typ / 256 % 256) % 0x4000 ≡ typ = omega arith in
    let padded = payload ++ padding n in
    let whole = length-append payload (padding n) in
    let taken : take (4 + n - 4) (padded ++ rest) ≡ payload =
      rw (append_assoc payload (padding n) rest)
        (take_prefix (4 + n - 4) payload (padding n ++ rest) (omega arith)) in
    let dropped : drop (align4 (4 + n)) (attr_bytes typ payload ++ rest) ≡ rest =
      drop_prefix (align4 (4 + n)) (attr_bytes typ payload) rest
        (omega (arith, whole, length-replicate ((4 - n % 4) % 4) zero)) in
    let long = le→not_ltb (4 + n) 4 (omega arith) in
    let inside =
      le→not_ltb (4 + length (padded ++ rest)) (4 + n)
        (omega (arith, length-append padded rest, whole)) in
    rw (counted, typed, long, inside, taken, dropped)

walk_attrs-attrs :
    (fuel : ℕ) (attrs : List (ℕ × Bytes))
    → length (attrs_bytes attrs) ≤ fuel
    → All IsAttr attrs
    → walk_attrs fuel (attrs_bytes attrs) ≡ some attrs
walk_attrs-attrs fuel [] h w = walk_attrs-nil fuel
walk_attrs-attrs zero ((typ, payload) ∷ attrs) h w = absurd (
    omega (
      arith,
      length-append (attr_bytes typ payload) (attrs_bytes attrs),
      length-attr_bytes typ payload,
    ))
walk_attrs-attrs (suc fuel) ((typ, payload) ∷ attrs) h w =
    walk_attrs-attr fuel typ payload (attrs_bytes attrs) w.0.plain w.0.fits
    ∙ ap (Option.map (◌∷◌ (typ, payload))) (
        walk_attrs-attrs fuel attrs
          (omega (
            arith,
            length-append (attr_bytes typ payload) (attrs_bytes attrs),
            length-attr_bytes typ payload,
          ))
          w.1)

-- Attributes written one after another into a new buffer, with types below 0x4000 and payloads
-- that their 16-bit lengths can hold, are read back by `for_each_attr` in order, each with its type
-- and its payload and without the padding.
pub for_each_attr-write_attrs :
    (attrs : List (ℕ × Bytes)) → All IsAttr attrs → for_each_attr (write_attrs attrs new) ≡ attrs
for_each_attr-write_attrs attrs w = rw ((Emits-write_attrs attrs).appends new refl) (
    unfold for_each_attr in
    ap or_nil (walk_attrs-attrs (length (attrs_bytes attrs)) attrs (omega arith) w))
