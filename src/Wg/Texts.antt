-- ===== src/Wg/Texts.antt =====
-- src/wg.rs: endpoints and allowed addresses are read as what their texts say.
use mathlib.Core.List.{reverse, reverse-append, reverse-cons, reverse-reverse}
use lwrt.Base.{
  ℕ, zero, suc, ◌%◌, ◌^◌, false, List, [], ◌∷◌, ◌++◌, map, Option, none, some, replicate, ◌==◌, ◌≡◌,
  refl, ap, ap₂, ◌∙◌, All, All-append, append_assoc,
}
use lwrt.Base.Bytes.{codes}
use lwrt.Base.Map.{bytes_key}
use lwrt.Text.{Text, trim, trim_start_by, is_whitespace, split, split_once}
use lwrt.Text.Filtering.{split_by-at, split_by-none}
use lwrt.Text.Lines.{All-map, split_once-at}
use lwrt.Text.Numbers.{parse_ipv4, parse_unsigned}
use lwrt.Text.Trimming.{IsSolid, trim-solid}
use lwrt.Wg.{split_cidr, mask_or_32, or_32, sockaddr_in}
use lwrt.Wg.Encoding.{entry_bytes, allowed_bytes}
use lwrt.Wg.Device.{
  Address, Number, IsPart, IsAddress, IsNumber, Allowed, cidr, entry_text, allowed_text,
  endpoint_text, Each, IsAllowed, mask_value, allowed_data, endpoint_data,
}

-- The texts are read as the data

reverse-All : (P : ℕ → Type 0) (s : Text) → All P s → All P (reverse s)
reverse-All P [] h = tt
reverse-All P (c ∷ s) (h, hs) =
    rw (reverse-cons c s) (All-append P (reverse s) (c ∷ []) (reverse-All P s hs) (h, tt))

parts-IsSolid : (s : Text) → All IsPart s → IsSolid s
parts-IsSolid s h = All-map IsPart _ (λ c p. p.solid) s h

trim-spaces : (n : ℕ) (s : Text) → IsSolid s → trim (replicate n b' ' ++ s) ≡ s
unfolding trim trim_start_by is_whitespace
trim-spaces zero s h = trim-solid s h
trim-spaces (suc n) s h = trim-spaces n s h

cidr-IsSolid : (a : Allowed) → IsAllowed a → IsSolid (cidr a.address.text a.mask)
cidr-IsSolid a (i, k) = solid a.mask k
  where
    slash : is_whitespace b'/' ≡ false
    slash = unfold is_whitespace in refl

    solid : (m : Option Number) → Each (IsNumber 256) m → IsSolid (cidr a.address.text m)
    solid none k = parts-IsSolid a.address.text i.parts
    solid (some n) k =
        All-append (λ c. is_whitespace c ≡ false) a.address.text (b'/' ∷ n.text)
          (parts-IsSolid a.address.text i.parts) (slash, parts-IsSolid n.text k.parts)

spaces-All : (n : ℕ) → All (λ c. (c == b',') ≡ false) (replicate n b' ')
spaces-All zero = tt
spaces-All (suc n) = (refl, spaces-All n)

entry-All : (a : Allowed) → IsAllowed a → All (λ c. (c == b',') ≡ false) (entry_text a)
entry-All a (i, k) =
    All-append (λ c. (c == b',') ≡ false) (replicate a.spaces b' ') (cidr a.address.text a.mask)
      (spaces-All a.spaces) (clean a.mask k)
  where
    clean :
        (m : Option Number)
        → Each (IsNumber 256) m
        → All (λ c. (c == b',') ≡ false) (cidr a.address.text m)
    clean none k = All-map IsPart _ (λ c p. p.no_comma) a.address.text i.parts
    clean (some n) k =
        All-append (λ c. (c == b',') ≡ false) a.address.text (b'/' ∷ n.text)
          (All-map IsPart _ (λ c p. p.no_comma) a.address.text i.parts)
          (refl, All-map IsPart _ (λ c p. p.no_comma) n.text k.parts)

pub split-allowed_text :
    (a : Allowed) (others : List Allowed)
    → IsAllowed a
    → All IsAllowed others
    → split b',' (allowed_text a others) ≡ map entry_text (a ∷ others)
split-allowed_text a [] h hs = split_by-none (λ c. c == b',') (entry_text a) (entry-All a h)
split-allowed_text a (b ∷ bs) h (k, ks) =
    split_by-at (λ c. c == b',') (entry_text a) (allowed_text b bs) b',' (entry-All a h) refl
    ∙ ap (◌∷◌ (entry_text a)) (split-allowed_text b bs k ks)

split_once-none : (sep : ℕ) (s : Text) → All (λ c. (c == sep) ≡ false) s → split_once sep s ≡ none
unfolding split_once
split_once-none sep [] h = refl
split_once-none sep (c ∷ s) (h, hs) = rw (h, split_once-none sep s hs) refl

mask_text : Option Number → Text
mask_text none = codes "32"
mask_text (some n) = n.text

split_cidr-cidr :
    (a : Address) (m : Option Number)
    → IsAddress a
    → split_cidr (cidr a.text m) ≡ (a.text, mask_text m)
unfolding split_cidr mask_text
split_cidr-cidr a none i =
    ap (or_32 a.text)
      (split_once-none b'/' a.text (All-map IsPart _ (λ c p. p.no_slash) a.text i.parts))
split_cidr-cidr a (some n) i =
    ap (or_32 (a.text ++ (b'/' ∷ n.text)))
      (split_once-at b'/' a.text n.text (All-map IsPart _ (λ c p. p.no_slash) a.text i.parts) refl)

mask-reads :
    (m : Option Number)
    → Each (IsNumber 256) m
    → mask_or_32 (parse_unsigned 256 (mask_text m)) ≡ mask_value m
unfolding mask_text
mask-reads none h = unfold parse_unsigned in refl
mask-reads (some n) h = ap mask_or_32 h.reads

pub allowed_bytes-data :
    (idx : ℕ) (others : List Allowed)
    → All IsAllowed others
    → allowed_bytes idx (map entry_text others) ≡ allowed_data idx others
unfolding allowed_bytes
allowed_bytes-data idx [] h = refl
allowed_bytes-data idx (a ∷ others) ((i, k), hs) =
    let solid = trim-spaces a.spaces (cidr a.address.text a.mask) (cidr-IsSolid a (i, k)) in
    let parts = ap split_cidr solid ∙ split_cidr-cidr a.address a.mask i in
    ap₂ (λ x y. x ++ y)
      (ap
          (λ (p : Text × Text).
            entry_bytes (idx % 2 ^ 16) (parse_ipv4 p.0) (mask_or_32 (parse_unsigned 256 p.1)))
          parts
        ∙ ap₂ (entry_bytes (idx % 2 ^ 16)) i.reads (mask-reads a.mask k))
      (allowed_bytes-data (suc idx) others hs)

pub sockaddr_in-endpoint :
    (e : Address × Number)
    → IsAddress e.0 × IsNumber (2 ^ 16) e.1
    → sockaddr_in (endpoint_text e) ≡ some (endpoint_data e)
unfolding sockaddr_in
sockaddr_in-endpoint (host, port) (i, k) =
    let turned : reverse (host.text ++ (b':' ∷ port.text))
        ≡ reverse port.text ++ (b':' ∷ reverse host.text) =
      reverse-append host.text (b':' ∷ port.text)
      ∙ ap (λ t. t ++ reverse host.text) (reverse-cons b':' port.text)
      ∙ append_assoc (reverse port.text) (b':' ∷ []) (reverse host.text) in
    let clean =
      reverse-All (λ c. (c == b':') ≡ false) port.text
        (All-map IsPart _ (λ c p. p.no_colon) port.text k.parts) in
    rw
      (
        turned,
        split_once-at b':' (reverse port.text) (reverse host.text) clean refl,
        reverse-reverse host.text,
        reverse-reverse port.text,
        i.reads,
        k.reads,
      )
      refl
