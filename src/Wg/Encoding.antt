-- ===== src/Wg/Encoding.antt =====
-- src/wg.rs: the bytes of WG_CMD_SET_DEVICE, of the device and its peers as data.
use Prim.Native.Nat.{bit_or}
use mathlib.Core.List.{append_assoc, append-nil}
use lwrt.Base.{
  ℕ, suc, ◌+◌, ◌%◌, ◌^◌, Bool, true, false, List, [], ◌∷◌, ◌++◌, Option, none, some, length,
  if◌then◌else◌, ◌≡◌, refl, sym, ap, ap₂, subst, ◌∙◌, arith, length-append,
}
use lwrt.Base.Options.{◌>>=◌}
use lwrt.Base.Bytes.{Bytes, codes, le16, le32}
use lwrt.Base.Map.{get, bytes_key}
use lwrt.Text.{Text, trim, split, strip_prefix}
use lwrt.Text.Numbers.{Ipv4Addr, octets, parse_ipv4, parse_unsigned}
use lwrt.Config.{Config, Section}
use lwrt.Netlink.{
  NlBuf, new, nla_f_nested, bytes, attr, attr_u16_ne, attr_u32_le, begin_nested, end_nested, nested,
}
use lwrt.Netlink.Encoding.{
  Emits, attr_bytes, nested_bytes, message_bytes, Emits-then, Emits-bytes, Emits-attr,
  Emits-attr_str, Emits-nested, Emits-message,
}
use lwrt.Wg.{
  split_cidr, mask_or_32, allowed_entry, allowedip, sockaddr_in, optionally, allowed_from,
  public_key, peer_body, Peers, add_peer, is_peer, add_peers, close_peers, peers_list, set_device,
}

-- The device as data

abbrev pub optional_bytes {ℓ} : {A : Type ℓ} → (A → Bytes) → Option A → Bytes
optional_bytes out none = []
optional_bytes out (some a) = out a

abbrev pub entry_bytes : ℕ → Option Ipv4Addr → ℕ → Bytes
entry_bytes idx none mask = []
entry_bytes idx (some addr) mask =
    nested_bytes idx
      ((attr_bytes 1 (le16 2) ++ attr_bytes 2 (octets addr)) ++ attr_bytes 3 (mask ∷ []))

-- An entry that is no address writes nothing, and its index is left out.
unfoldable pub allowed_bytes : ℕ → List Text → Bytes
allowed_bytes idx [] = []
allowed_bytes idx (cidr ∷ rest) =
    let (ip, mask) = split_cidr (trim cidr) in
    entry_bytes (idx % 2 ^ 16) (parse_ipv4 ip) (mask_or_32 (parse_unsigned 256 mask))
    ++ allowed_bytes (suc idx) rest

unfoldable pub peer_bytes : Section → Bytes → Bytes
peer_bytes sect pubk =
    ((attr_bytes 1 pubk
        ++ optional_bytes (λ ka. attr_bytes 5 (le16 ka))
            (get (codes "keepalive") sect >>= parse_unsigned (2 ^ 16)))
      ++ optional_bytes (attr_bytes 4) (get (codes "endpoint") sect >>= sockaddr_in))
    ++ optional_bytes (λ aips. nested_bytes 9 (allowed_bytes 0 (split b',' aips)))
        (get (codes "allowed_ips") sect)

abbrev pub chosen : Bool → Option Bytes → Option Bytes
chosen p o = if p then o else none

abbrev pub onto : Section → Option Bytes → List (Section × Bytes) → List (Section × Bytes)
onto sect none rest = rest
onto sect (some pubk) rest = (sect, pubk) ∷ rest

-- The sections of peers with a key of 32 bytes, in order.
unfoldable pub peers_of : Config → List (Section × Bytes)
peers_of [] = []
peers_of ((name, sect) ∷ rest) =
    onto sect (chosen (is_peer (strip_prefix (codes "peer") name)) (public_key sect))
      (peers_of rest)

-- Each peer is a nested attribute whose type is its index.
unfoldable pub peers_bytes : ℕ → List (Section × Bytes) → Bytes
peers_bytes idx [] = []
peers_bytes idx ((sect, pubk) ∷ rest) =
    nested_bytes idx (peer_bytes sect pubk) ++ peers_bytes ((idx + 1) % 2 ^ 16) rest

abbrev pub list_bytes : List (Section × Bytes) → Bytes
list_bytes [] = []
list_bytes (p ∷ ps) = nested_bytes 8 (peers_bytes 0 (p ∷ ps))

-- What the statements append

Emits-skip : Emits (λ b. b) []
Emits-skip = record { appends = λ b h. sym (append-nil b); aligned = refl }

Emits-optionally {ℓ} :
    {A : Type ℓ} (f : A → NlBuf → NlBuf) (out : A → Bytes) (o : Option A)
    → ((a : A) → Emits (f a) (out a))
    → Emits (optionally f o) (optional_bytes out o)
Emits-optionally f out none h = Emits-skip
Emits-optionally f out (some a) h = h a

Emits-attr_u16_ne : (typ v : ℕ) → Emits (attr_u16_ne typ v) (attr_bytes typ (le16 v))
unfolding attr_u16_ne
Emits-attr_u16_ne typ v = Emits-attr typ (le16 v)

Emits-attr_u32_le : (typ v : ℕ) → Emits (attr_u32_le typ v) (attr_bytes typ (le32 v))
unfolding attr_u32_le
Emits-attr_u32_le typ v = Emits-attr typ (le32 v)

Emits-allowed_entry :
    (idx : ℕ) (o : Option Ipv4Addr) (mask : ℕ)
    → Emits (allowed_entry idx o mask) (entry_bytes idx o mask)
Emits-allowed_entry idx none mask = Emits-skip
Emits-allowed_entry idx (some addr) mask = Emits-nested idx (
    Emits-then (Emits-then (Emits-attr_u16_ne 1 2) (Emits-attr 2 (octets addr)))
      (Emits-attr 3 (mask ∷ [])))

Emits-allowed_from :
    (idx : ℕ) (cidrs : List Text) → Emits (allowed_from idx cidrs) (allowed_bytes idx cidrs)
unfolding allowed_from allowedip allowed_bytes
Emits-allowed_from idx [] = Emits-skip
Emits-allowed_from idx (cidr ∷ rest) =
    let (ip, mask) = split_cidr (trim cidr) in
    Emits-then
      (Emits-allowed_entry (idx % 2 ^ 16) (parse_ipv4 ip) (mask_or_32 (parse_unsigned 256 mask)))
      (Emits-allowed_from (suc idx) rest)

Emits-peer_body :
    (sect : Section) (pubk : Bytes) → Emits (peer_body sect pubk) (peer_bytes sect pubk)
unfolding peer_body peer_bytes
Emits-peer_body sect pubk =
    Emits-then
      (Emits-then
        (Emits-then (Emits-attr 1 pubk)
          (Emits-optionally (attr_u16_ne 5) (λ ka. attr_bytes 5 (le16 ka)) _ (Emits-attr_u16_ne 5)))
        (Emits-optionally (attr 4) (attr_bytes 4) _ (Emits-attr 4)))
      (Emits-optionally (λ aips. nested 9 (allowed_from 0 (split b',' aips)))
        (λ aips. nested_bytes 9 (allowed_bytes 0 (split b',' aips))) _
        (λ aips. Emits-nested 9 (Emits-allowed_from 0 (split b',' aips))))

Emits-peer :
    (idx : ℕ) (sect : Section) (pubk : Bytes)
    → Emits (nested idx (peer_body sect pubk)) (nested_bytes idx (peer_bytes sect pubk))
Emits-peer idx sect pubk = Emits-nested idx (Emits-peer_body sect pubk)

peers_bytes-aligned : (idx : ℕ) (ps : List (Section × Bytes)) → length (peers_bytes idx ps) % 4 ≡ 0
unfolding peers_bytes
peers_bytes-aligned idx [] = refl
peers_bytes-aligned idx ((sect, pubk) ∷ rest) =
    let here = nested_bytes idx (peer_bytes sect pubk) in
    let more = peers_bytes ((idx + 1) % 2 ^ 16) rest in
    omega (
      arith,
      length-append here more,
      (Emits-peer idx sect pubk).aligned,
      peers_bytes-aligned ((idx + 1) % 2 ^ 16) rest,
    )

-- The loop over the sections is the loop over the peers.
unfoldable add_valid : List (Section × Bytes) → Peers → Peers
unfolding add_peer
add_valid [] st = st
add_valid ((sect, pubk) ∷ ps) st = add_valid ps (add_peer sect (some pubk) st)

add_peer-chosen :
    (sect : Section) (p : Bool) (o : Option Bytes) (st : Peers)
    → (if p then add_peer sect o st else st) ≡ add_peer sect (chosen p o) st
unfolding add_peer
add_peer-chosen sect true o st = refl
add_peer-chosen sect false o st = refl

add_valid-onto :
    (sect : Section) (o : Option Bytes) (ps : List (Section × Bytes)) (st : Peers)
    → add_valid (onto sect o ps) st ≡ add_valid ps (add_peer sect o st)
unfolding add_valid
add_valid-onto sect none ps st = refl
add_valid-onto sect (some pubk) ps st = refl

add_peers-peers_of : (cfg : Config) (st : Peers) → add_peers cfg st ≡ add_valid (peers_of cfg) st
unfolding add_peers peers_of add_valid
add_peers-peers_of [] st = refl
add_peers-peers_of ((name, sect) ∷ rest) st =
    let p = is_peer (strip_prefix (codes "peer") name) in
    add_peers-peers_of rest (if p then add_peer sect (public_key sect) st else st)
    ∙ ap (add_valid (peers_of rest)) (add_peer-chosen sect p (public_key sect) st)
    ∙ sym (add_valid-onto sect (chosen p (public_key sect)) (peers_of rest) st)

-- With the list open, each peer is appended.
add_valid-open :
    (ps : List (Section × Bytes)) (s idx : ℕ) (b : NlBuf)
    → length b % 4 ≡ 0
    → let st = add_valid ps record { scope = some s; idx = idx; buf = b } in
      (st.scope ≡ some s) × (st.buf ≡ b ++ peers_bytes idx ps)
unfolding add_valid peers_bytes
add_valid-open [] s idx b h = (refl, sym (append-nil b))
add_valid-open ((sect, pubk) ∷ ps) s idx b h =
    let here = nested_bytes idx (peer_bytes sect pubk) in
    let next = (idx + 1) % 2 ^ 16 in
    let (scope, buf) =
      add_valid-open ps s next (b ++ here)
        (omega (arith, length-append b here, (Emits-peer idx sect pubk).aligned)) in
    subst
      (λ x.
        let st = add_valid ps record { scope = some s; idx = next; buf = x } in
        (st.scope ≡ some s) × (st.buf ≡ b ++ (here ++ peers_bytes next ps)))
      (sym ((Emits-peer idx sect pubk).appends b h))
      (scope, buf ∙ append_assoc b here (peers_bytes next ps))

-- The list is opened by the first peer, and closed where there was one.
list_emit : List (Section × Bytes) → NlBuf → NlBuf
list_emit [] = λ b. b
list_emit (p ∷ ps) = nested 8 (bytes (peers_bytes 0 (p ∷ ps)))

begin_nested-aligned : (b : NlBuf) → length b % 4 ≡ 0 → length (begin_nested 8 b).0 % 4 ≡ 0
unfolding begin_nested
begin_nested-aligned b h =
    let typed = le16 (bit_or 8 nla_f_nested) in
    omega (arith, length-append (b ++ (0 ∷ 0 ∷ [])) typed, length-append b (0 ∷ 0 ∷ []))

end_nested-bytes :
    (b : NlBuf) (body : Bytes)
    → end_nested (begin_nested 8 b).1 ((begin_nested 8 b).0 ++ body) ≡ nested 8 (bytes body) b
unfolding nested bytes
end_nested-bytes b body = refl

add_valid-closed :
    (ps : List (Section × Bytes)) (b : NlBuf)
    → length b % 4 ≡ 0
    → let st = add_valid ps record { scope = none; idx = 0; buf = b } in
      close_peers st.scope st.buf ≡ list_emit ps b
unfolding list_emit add_valid peers_bytes
add_valid-closed [] b h = refl
add_valid-closed ((sect, pubk) ∷ ps) b h =
    let here = nested_bytes 0 (peer_bytes sect pubk) in
    let (start, scope) = begin_nested 8 b in
    let aligned = begin_nested-aligned b h in
    let (still, buf) =
      add_valid-open ps scope 1 (start ++ here)
        (omega (arith, aligned, length-append start here, (Emits-peer 0 sect pubk).aligned)) in
    let more = peers_bytes 1 ps in
    subst
      (λ x.
        let st = add_valid ps record { scope = some scope; idx = 1; buf = x } in
        close_peers st.scope st.buf ≡ nested 8 (bytes (here ++ more)) b)
      (sym ((Emits-peer 0 sect pubk).appends start aligned))
      (ap₂ close_peers still buf
        ∙ ap (end_nested scope) (append_assoc start here more)
        ∙ end_nested-bytes b (here ++ more))

Emits-list : (ps : List (Section × Bytes)) → Emits (list_emit ps) (list_bytes ps)
unfolding list_emit
Emits-list [] = Emits-skip
Emits-list (p ∷ ps) =
    Emits-nested 8 (Emits-bytes (peers_bytes 0 (p ∷ ps)) (peers_bytes-aligned 0 (p ∷ ps)))

Emits-peers_list : (cfg : Config) → Emits (peers_list cfg) (list_bytes (peers_of cfg))
unfolding peers_list
Emits-peers_list cfg = record {
  appends = λ b h.
      rw (add_peers-peers_of cfg record { scope = none; idx = 0; buf = b })
        (add_valid-closed (peers_of cfg) b h ∙ (Emits-list (peers_of cfg)).appends b h);
  aligned = (Emits-list (peers_of cfg)).aligned;
}

-- The buffer of set_device, with the peers as the sections that have a key.
pub set_device-bytes :
    (family : ℕ) (ifname privk : Bytes) (port : ℕ) (cfg : Config)
    → set_device family ifname privk port cfg
      ≡ message_bytes family 5 1 (
          ((((1 ∷ 1 ∷ 0 ∷ 0 ∷ []) ++ attr_bytes 2 (ifname ++ 0 ∷ [])) ++ attr_bytes 5 (le32 1))
            ++ attr_bytes 3 privk)
          ++ attr_bytes 6 (le16 port)
          ++ list_bytes (peers_of cfg))
unfolding set_device
set_device-bytes family ifname privk port cfg =
    (Emits-message family 5 1 (
        Emits-then
          (Emits-then
            (Emits-then
              (Emits-then
                (Emits-then (Emits-bytes (1 ∷ 1 ∷ 0 ∷ 0 ∷ []) refl) (Emits-attr_str 2 ifname))
                (Emits-attr_u32_le 5 1))
              (Emits-attr 3 privk))
            (Emits-attr_u16_ne 6 port))
          (Emits-peers_list cfg))).appends
      new refl
