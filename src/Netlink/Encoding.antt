-- ===== src/Netlink/Encoding.antt =====
-- src/nl.rs: the reference encoding that its header calls the naive approach, one fresh byte string
-- for each attribute and message, and the proof that `NlBuf`, which appends in place and patches
-- lengths afterwards, writes the same bytes.
use Prim.Native.Nat.{bit_or}
use lwrt.Base.{
  ℕ, zero, suc, ◌+◌, ◌-◌, ◌%◌, ◌^◌, ◌≤◌, [], ◌∷◌, ◌++◌, length, replicate, ◌≡◌, refl, sym, ap, ◌∙◌,
  arith, append_assoc, append-nil, length-append, length-replicate, ==_true, ==_false,
}
use lwrt.Base.Bytes.{Bytes, le16, le32, be32, copy_at, copy_at_prefix}
use lwrt.Netlink.{
  NlBuf, ◌⨟◌, pad_loop, pad, bytes, attr, attr_u32_be, attr_str, begin_nested, end_nested, nested,
  begin_message, end_message, message, nla_f_nested,
}

-- The zeros that bring `n` bytes to a multiple of four.
abbrev pub padding : ℕ → Bytes
padding n = replicate ((4 - n % 4) % 4) 0

unfoldable pub attr_bytes : ℕ → Bytes → Bytes
attr_bytes typ payload =
    le16 ((4 + length payload) % 2 ^ 16) ++ (le16 typ ++ (payload ++ padding (length payload)))

unfoldable pub nested_bytes : ℕ → Bytes → Bytes
nested_bytes typ body =
    le16 ((4 + length body) % 2 ^ 16) ++ (le16 (bit_or typ nla_f_nested) ++ body)

unfoldable pub message_bytes : ℕ → ℕ → ℕ → Bytes → Bytes
message_bytes msg_type flags seq body =
    le32 ((16 + length body) % 2 ^ 32)
    ++ (le16 msg_type ++ (le16 flags ++ (le32 seq ++ (le32 0 ++ body))))

-- `k` is the number of zeros that are missing.
pad_loop_lem :
    (k fuel : ℕ) (b : NlBuf)
    → (length b + k) % 4 ≡ 0
    → k ≤ 3
    → k ≤ fuel
    → pad_loop fuel b ≡ b ++ replicate k 0
unfolding pad_loop
pad_loop_lem zero zero b h l m = sym (append-nil b)
pad_loop_lem zero (suc fuel) b h l m =
    rw (==_true (length b % 4) 0 (omega arith)) (sym (append-nil b))
pad_loop_lem (suc k) zero b h l m = absurd (omega arith)
pad_loop_lem (suc k) (suc fuel) b h l m = rw (==_false (length b % 4) 0 (omega arith)) (
    pad_loop_lem k fuel (b ++ (0 ∷ [])) (omega (arith, length-append b (0 ∷ []))) (omega arith)
      (omega arith)
    ∙ append_assoc b (0 ∷ []) (replicate k 0))

-- The loop ends by its test: three rounds bring every length to a multiple of four.
pub pad-append : (b : NlBuf) → pad b ≡ b ++ padding (length b)
unfolding pad
pad-append b = pad_loop_lem ((4 - length b % 4) % 4) 3 b (omega arith) (omega arith) (omega arith)

pub length-padding : (n : ℕ) → (n + length (padding n)) % 4 ≡ 0
length-padding n = omega (arith, length-replicate ((4 - n % 4) % 4) (zero))

padding_mod : (m n : ℕ) → m % 4 ≡ n % 4 → padding m ≡ padding n
padding_mod m n h = ap (λ k. replicate ((4 - k) % 4) 0) h

-- Run on a buffer of whole words, `f` appends `out`, which is whole words too.
pub record Emits (f : NlBuf → NlBuf) (out : Bytes) : Type 0 where
  pub appends : (b : NlBuf) → length b % 4 ≡ 0 → f b ≡ b ++ out
  pub aligned : length out % 4 ≡ 0

aligned_append : (b out : Bytes) → length b % 4 ≡ 0 → length out % 4 ≡ 0 → length (b ++ out) % 4 ≡ 0
aligned_append b out h k = omega (arith, length-append b out)

pub Emits-then :
    {f g : NlBuf → NlBuf} {out more : Bytes}
    → Emits f out
    → Emits g more
    → Emits (f ⨟ g) (out ++ more)
Emits-then {f} {g} {out} {more} p q = record {
  appends = λ b h.
      ap g (p.appends b h)
      ∙ q.appends (b ++ out) (aligned_append b out h p.aligned)
      ∙ append_assoc b out more;
  aligned = aligned_append out more p.aligned q.aligned;
}

pub Emits-bytes : (chunk : Bytes) → length chunk % 4 ≡ 0 → Emits (bytes chunk) chunk
unfolding bytes
Emits-bytes chunk h = record { appends = λ b _. refl; aligned = h }

pad_aligned : (b : NlBuf) → length b % 4 ≡ 0 → pad b ≡ b
pad_aligned b h = pad-append b ∙ rw (padding_mod (length b) 0 h) (append-nil b)

-- A closed attribute: the header's four bytes, the payload and the padding for the payload.
pad-attribute :
    (b header payload : Bytes)
    → length b % 4 ≡ 0
    → length header ≡ 4
    → pad ((b ++ header) ++ payload) ≡ b ++ (header ++ (payload ++ padding (length payload)))
pad-attribute b header payload h k =
    pad-append ((b ++ header) ++ payload)
    ∙ rw
        (padding_mod (length ((b ++ header) ++ payload)) (length payload)
          (omega (arith, length-append (b ++ header) payload, length-append b header)))
        (simp append_assoc)

length-attribute :
    (header payload : Bytes)
    → length header ≡ 4
    → length (header ++ (payload ++ padding (length payload))) % 4 ≡ 0
length-attribute header payload h = omega (
  arith,
  length-append header (payload ++ padding (length payload)),
  length-append payload (padding (length payload)),
  length-padding (length payload),
)

-- An attribute in place is the reference's attribute.
pub Emits-attr : (typ : ℕ) (payload : Bytes) → Emits (attr typ payload) (attr_bytes typ payload)
unfolding attr attr_bytes
Emits-attr typ payload = record {
  appends = λ b h.
      rw (append_assoc b (le16 ((4 + length payload) % 2 ^ 16)) (le16 typ))
        (pad-attribute b (le16 ((4 + length payload) % 2 ^ 16) ++ le16 typ) payload h refl);
  aligned = length-attribute (le16 ((4 + length payload) % 2 ^ 16) ++ le16 typ) payload refl;
}

attr_str-attr : (typ : ℕ) (s : Bytes) (b : NlBuf) → attr_str typ s b ≡ attr typ (s ++ (0 ∷ [])) b
unfolding attr attr_str
attr_str-attr typ s b =
    let counted : 4 + length s + 1 ≡ 4 + length (s ++ (0 ∷ [])) =
      omega (arith, length-append s (0 ∷ [])) in
    ap (λ n. pad ((((b ++ le16 (n % 2 ^ 16)) ++ le16 typ) ++ s) ++ (0 ∷ []))) counted
    ∙ ap pad (append_assoc _ s (0 ∷ []))

-- The text of a string attribute is closed by a NUL byte, which its length counts.
pub Emits-attr_str : (typ : ℕ) (s : Bytes) → Emits (attr_str typ s) (attr_bytes typ (s ++ (0 ∷ [])))
Emits-attr_str typ s = record {
  appends = λ b h. attr_str-attr typ s b ∙ (Emits-attr typ (s ++ (0 ∷ []))).appends b h;
  aligned = (Emits-attr typ (s ++ (0 ∷ []))).aligned;
}

module _ (f : NlBuf → NlBuf) {out : Bytes} (e : Emits f out) (b old header : Bytes)
    (h : length b % 4 ≡ 0) (k : (length old + length header) % 4 ≡ 0) where
  opened-append : f ((b ++ old) ++ header) ≡ b ++ (old ++ (header ++ out))
  opened-append =
      e.appends ((b ++ old) ++ header)
        (omega (arith, length-append (b ++ old) header, length-append b old))
      ∙ simp append_assoc

  length_opened :
      length (f ((b ++ old) ++ header)) - length b ≡ length old + length header + length out
  length_opened = rw opened-append (
      omega (
        arith,
        length-append b (old ++ (header ++ out)),
        length-append old (header ++ out),
        length-append header out,
      ))

  -- A scope that is opened, filled and closed: `old` stands where the length goes.
  closed-append :
      (len : Bytes)
      → length old ≡ length len
      → pad (copy_at (f ((b ++ old) ++ header)) (length b) len) ≡ b ++ (len ++ (header ++ out))
  closed-append len l =
      rw (opened-append, copy_at_prefix b old len (header ++ out) (length b) refl l)
        (pad_aligned (b ++ (len ++ (header ++ out))) (
          omega (
            arith,
            e.aligned,
            length-append b (len ++ (header ++ out)),
            length-append len (header ++ out),
            length-append header out,
          )))

-- A nested attribute in place, its length patched at the end, is the reference's.
pub Emits-nested :
    (typ : ℕ) {body : NlBuf → NlBuf} {out : Bytes}
    → Emits body out
    → Emits (nested typ body) (nested_bytes typ out)
unfolding nested begin_nested end_nested nested_bytes
Emits-nested typ {body} {out} e = record {
  appends = λ b h.
      rw (length_opened body e b (0 ∷ 0 ∷ []) (le16 (bit_or typ nla_f_nested)) h refl)
        (closed-append body e b (0 ∷ 0 ∷ []) (le16 (bit_or typ nla_f_nested)) h refl _ refl);
  aligned = omega (arith, e.aligned);
}

abbrev message_header : ℕ → ℕ → ℕ → Bytes
message_header msg_type flags seq = le16 msg_type ++ (le16 flags ++ (le32 seq ++ le32 0))

begin_message-header :
    (msg_type flags seq : ℕ) (b : NlBuf)
    → begin_message msg_type flags seq b
      ≡ ((b ++ (0 ∷ 0 ∷ 0 ∷ 0 ∷ [])) ++ message_header msg_type flags seq, length b)
unfolding begin_message
begin_message-header msg_type flags seq b = simp append_assoc

-- So is a message, with its 16-byte header.
pub Emits-message :
    (msg_type flags seq : ℕ) {body : NlBuf → NlBuf} {out : Bytes}
    → Emits body out
    → Emits (message msg_type flags seq body) (message_bytes msg_type flags seq out)
unfolding message end_message message_bytes
Emits-message msg_type flags seq {body} {out} e = record {
  appends = λ b h.
      let header = message_header msg_type flags seq in
      let zeros : Bytes = 0 ∷ 0 ∷ 0 ∷ 0 ∷ [] in
      rw (begin_message-header msg_type flags seq b, length_opened body e b zeros header h refl)
        (closed-append body e b zeros header h refl _ refl);
  aligned = omega (arith, e.aligned);
}

pub length-attr_bytes :
    (typ : ℕ) (payload : Bytes)
    → length (attr_bytes typ payload) ≡ 4 + (length payload + length (padding (length payload)))
unfolding attr_bytes
length-attr_bytes typ payload = omega (arith, length-append payload (padding (length payload)))

pub Emits-attr_u32_be : (typ v : ℕ) → Emits (attr_u32_be typ v) (attr_bytes typ (be32 v))
unfolding attr_u32_be
Emits-attr_u32_be typ v = Emits-attr typ (be32 v)

-- A nested attribute whose body is raw bytes of any length, which the close pads.
pub Emits-nested_payload :
    (typ : ℕ) (payload : Bytes)
    → Emits (nested typ (bytes payload)) (attr_bytes (bit_or typ nla_f_nested) payload)
unfolding nested begin_nested end_nested bytes attr_bytes
Emits-nested_payload typ payload = record {
  appends = λ b h.
      let typed = le16 (bit_or typ nla_f_nested) in
      let zeros : Bytes = 0 ∷ 0 ∷ [] in
      let counted = le16 ((4 + length payload) % 2 ^ 16) in
      let opened : ((b ++ zeros) ++ typed) ++ payload ≡ b ++ (zeros ++ (typed ++ payload)) =
        simp append_assoc in
      let whole : length (b ++ (zeros ++ (typed ++ payload))) - length b ≡ 4 + length payload =
        omega (arith, length-append b (zeros ++ (typed ++ payload))) in
      rw
        (
          opened,
          whole,
          copy_at_prefix b zeros counted (typed ++ payload) (length b) refl refl,
          ← append_assoc b (counted ++ typed) payload,
        )
        (pad-attribute b (counted ++ typed) payload h refl);
  aligned =
      length-attribute (le16 ((4 + length payload) % 2 ^ 16) ++ le16 (bit_or typ nla_f_nested))
        payload refl;
}
