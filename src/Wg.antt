-- ===== src/Wg.antt =====
-- src/wg.rs: the netlink messages that create the interface, ask for the family and set the device. What
-- the kernel answers is an argument. Sockets are not modelled.
pub mod Encoding
mod Setup
pub mod Device
pub mod Texts
pub mod Sections
mod Tests
use Prim.Native.Nat.{bit_or}
use mathlib.Core.List.{reverse}
use lwrt.Base.{
  ℕ, zero, suc, ◌+◌, ◌/◌, ◌%◌, ◌^◌, Bool, true, false, ◌&&◌, List, [], ◌∷◌, ◌++◌, Option, none,
  some, length, drop, replicate, ltb, leb, ◌==◌, if◌then◌else◌,
}
use lwrt.Base.Options.{◌>>=◌}
use lwrt.Base.Bytes.{Bytes, codes, le16, be16, of_le16}
use lwrt.Base.Map.{get, bytes_key}
use lwrt.Text.{Text, equal, trim, split, split_once, strip_prefix}
use lwrt.Text.Numbers.{Ipv4Addr, octets, parse_ipv4, parse_unsigned}
use lwrt.Config.{Config, Section}
use lwrt.Util.{b64_decode}
use lwrt.Netlink.{
  NlBuf, Scope, new, nlm_f_request, nlm_f_ack, nlm_f_excl, nlm_f_create, bytes, attr, attr_u16_ne,
  attr_u32_le, attr_str, begin_nested, end_nested, nested, message, for_each_attr, ◌⨟◌,
}

-- Creating the link: RTM_NEWLINK, IFLA_IFNAME, IFLA_LINKINFO, IFLA_INFO_KIND.
unfoldable pub link_message : Bytes → NlBuf
link_message ifname =
    message 16 (bit_or (bit_or (bit_or nlm_f_request nlm_f_create) nlm_f_excl) nlm_f_ack) 1
      (bytes (replicate 16 0) ⨟ attr_str 3 ifname ⨟ nested 18 (attr_str 1 (codes "wireguard"))) new

abbrev pub genlmsghdr : ℕ → ℕ → NlBuf → NlBuf
genlmsghdr cmd version = bytes (cmd ∷ version ∷ 0 ∷ 0 ∷ [])

-- CTRL_CMD_GETFAMILY
unfoldable pub family_request : Bytes → NlBuf
family_request name =
    message 16 (bit_or nlm_f_request nlm_f_ack) 1 (genlmsghdr 3 1 ⨟ attr_str 2 name) new

abbrev note_id : ℕ → Bytes → ℕ → ℕ
note_id typ (a ∷ b ∷ rest) id = if typ == 1 then of_le16 a b else id
note_id typ _ id = id

unfoldable pub last_id : List (ℕ × Bytes) → ℕ → ℕ
last_id [] id = id
last_id ((typ, val) ∷ attrs) id = last_id attrs (note_id typ val id)

-- The family in a reply: behind both headers, the last CTRL_ATTR_FAMILY_ID, and none where it is 0.
unfoldable pub family_id : Bytes → Option ℕ
unfolding last_id
family_id reply =
    let id = last_id (for_each_attr (drop 20 reply)) 0 in
    if ltb (length reply) 20 then none else if id == 0 then none else some id

abbrev pub or_32 : Text → Option (Text × Text) → Text × Text
or_32 s none = (s, codes "32")
or_32 s (some parts) = parts

unfoldable pub split_cidr : Text → Text × Text
split_cidr s = or_32 s (split_once b'/' s)

abbrev pub mask_or_32 : Option ℕ → ℕ
mask_or_32 none = 32
mask_or_32 (some n) = n

-- AF_INET is 2.
abbrev pub allowed_entry : ℕ → Option Ipv4Addr → ℕ → NlBuf → NlBuf
allowed_entry idx none mask = λ b. b
allowed_entry idx (some addr) mask =
    nested idx (attr_u16_ne 1 2 ⨟ attr 2 (octets addr) ⨟ attr 3 (mask ∷ []))

unfoldable pub allowedip : ℕ → Text → NlBuf → NlBuf
unfolding split_cidr
allowedip idx cidr =
    let (ip, mask) = split_cidr cidr in
    allowed_entry idx (parse_ipv4 ip) (mask_or_32 (parse_unsigned 256 mask))

-- `rsplit_once`, at the last separator.
abbrev pub backwards : Option (Text × Text) → Option (Text × Text)
backwards none = none
backwards (some (back, front)) = some (reverse front, reverse back)

abbrev endpoint_of : Option Ipv4Addr → Option ℕ → Option Bytes
endpoint_of (some addr) (some port) = some (le16 2 ++ (be16 port ++ (octets addr ++ replicate 8 0)))
endpoint_of _ _ = none

abbrev pub endpoint_parts : Option (Text × Text) → Option Bytes
endpoint_parts none = none
endpoint_parts (some (host, port)) = endpoint_of (parse_ipv4 host) (parse_unsigned (2 ^ 16) port)

unfoldable pub sockaddr_in : Text → Option Bytes
sockaddr_in ep = endpoint_parts (backwards (split_once b':' (reverse ep)))

-- One statement after another; a statement that is left out does nothing.
abbrev pub optionally {ℓ} : {A : Type ℓ} → (A → NlBuf → NlBuf) → Option A → NlBuf → NlBuf
optionally f none = λ b. b
optionally f (some a) = f a

unfoldable pub allowed_from : ℕ → List Text → NlBuf → NlBuf
unfolding allowedip
allowed_from idx [] = λ b. b
allowed_from idx (cidr ∷ rest) = allowedip (idx % 2 ^ 16) (trim cidr) ⨟ allowed_from (suc idx) rest

-- A key of 32 bytes.
abbrev pub whole_key : Option Bytes → Option Bytes
whole_key none = none
whole_key (some k) = if length k == 32 then some k else none

unfoldable pub public_key : Section → Option Bytes
public_key sect = whole_key (get (codes "public_key") sect >>= b64_decode)

unfoldable pub peer_body : Section → Bytes → NlBuf → NlBuf
unfolding allowed_from sockaddr_in
peer_body sect pubk =
    attr 1 pubk
    ⨟ optionally (attr_u16_ne 5) (get (codes "keepalive") sect >>= parse_unsigned (2 ^ 16))
    ⨟ optionally (attr 4) (get (codes "endpoint") sect >>= sockaddr_in)
    ⨟ optionally (λ aips. nested 9 (allowed_from 0 (split b',' aips)))
        (get (codes "allowed_ips") sect)

-- The variables of the loop over the sections.
pub record Peers : Type 0 where
  pub scope : Option Scope
  pub idx : ℕ
  pub buf : NlBuf

-- `peers_scope.get_or_insert_with(|| b.begin_nested(WGDEVICE_A_PEERS))`
abbrev pub opened : Option Scope → NlBuf → NlBuf × Scope
opened none b = begin_nested 8 b
opened (some scope) b = (b, scope)

abbrev pub add_peer : Section → Option Bytes → Peers → Peers
unfolding peer_body
add_peer sect none st = st
add_peer sect (some pubk) st =
    let (b, scope) = opened st.scope st.buf in
    record {
      scope = some scope;
      idx = (st.idx + 1) % 2 ^ 16;
      buf = nested st.idx (peer_body sect pubk) b;
    }

abbrev pub is_peer : Option Text → Bool
is_peer none = false
is_peer (some _) = true

unfoldable pub add_peers : Config → Peers → Peers
unfolding public_key peer_body
add_peers [] st = st
add_peers ((name, sect) ∷ rest) st =
    add_peers rest (
      if is_peer (strip_prefix (codes "peer") name) then add_peer sect (public_key sect) st else st)

abbrev pub close_peers : Option Scope → NlBuf → NlBuf
close_peers none b = b
close_peers (some scope) b = end_nested scope b

unfoldable pub peers_list : Config → NlBuf → NlBuf
unfolding add_peers
peers_list cfg b =
    let st = add_peers cfg record { scope = none; idx = 0; buf = b } in close_peers st.scope st.buf

-- WG_CMD_SET_DEVICE
unfoldable pub set_device : ℕ → Bytes → Bytes → ℕ → Config → NlBuf
unfolding peers_list
set_device family ifname privk port cfg =
    message family (bit_or nlm_f_request nlm_f_ack) 1
      (genlmsghdr 1 1
        ⨟ attr_str 2 ifname
        ⨟ attr_u32_le 5 1
        ⨟ attr 3 privk
        ⨟ attr_u16_ne 6 port
        ⨟ peers_list cfg)
      new
