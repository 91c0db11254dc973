-- ===== src/Wg/Device.antt =====
-- src/wg.rs: a device's peers as data, a configuration that says them, and their bytes.
use mathlib.Core.Option
use lwrt.Base.{
  ℕ, suc, ◌+◌, ◌%◌, ◌/◌, ◌^◌, ◌<◌, ◌≢◌, false, List, [], ◌∷◌, ◌++◌, Option, none, some, length,
  replicate, ◌==◌, ◌≡◌, All,
}
use lwrt.Base.Bytes.{Bytes, codes}
use lwrt.Base.Map.{get, bytes_key}
use lwrt.Text.{Text, is_whitespace, strip_prefix}
use lwrt.Text.Numbers.{Ipv4Addr, octets, parse_ipv4, parse_unsigned}
use lwrt.Config.{Config, Section}
use lwrt.Util.{b64_decode}
use lwrt.Util.Base64.{encode}
use lwrt.Netlink.Encoding.{attr_bytes, nested_bytes}
use lwrt.Wg.Encoding.{optional_bytes}

-- Values with a text that `str::parse` reads as them.
pub record Address : Type 0 where
  pub text : Text
  pub addr : Ipv4Addr

pub record Number : Type 0 where
  pub text : Text
  pub value : ℕ

pub record IsPart (c : ℕ) : Type 0 where
  pub solid : is_whitespace c ≡ false
  pub no_slash : (c == b'/') ≡ false
  pub no_comma : (c == b',') ≡ false
  pub no_colon : (c == b':') ≡ false

pub record IsAddress (a : Address) : Type 0 where
  pub reads : parse_ipv4 a.text ≡ some a.addr
  pub parts : All IsPart a.text

pub record IsNumber (bound : ℕ) (n : Number) : Type 0 where
  pub reads : parse_unsigned bound n.text ≡ some n.value
  pub parts : All IsPart n.text

-- An entry of allowed_ips, with the spaces in front of it.
pub record Allowed : Type 0 where
  pub spaces : ℕ
  pub address : Address
  pub mask : Option Number

pub record Peer : Type 0 where
  pub key : Bytes
  pub keepalive : Option Number
  pub endpoint : Option (Address × Number)
  pub allowed : Option (Allowed × List Allowed)

-- The texts of a configuration

abbrev pub cidr : Text → Option Number → Text
cidr t none = t
cidr t (some n) = t ++ (b'/' ∷ n.text)

abbrev pub entry_text : Allowed → Text
entry_text a = replicate a.spaces b' ' ++ cidr a.address.text a.mask

abbrev pub allowed_text : Allowed → List Allowed → Text
allowed_text a [] = entry_text a
allowed_text a (b ∷ bs) = entry_text a ++ (b',' ∷ allowed_text b bs)

abbrev pub endpoint_text : Address × Number → Text
endpoint_text (host, port) = host.text ++ (b':' ∷ port.text)

abbrev pub Each {ℓ κ} : {A : Type ℓ} → (A → Type κ) → Option A → Type κ
Each P none = Unit
Each P (some a) = P a

abbrev pub IsAllowed : Allowed → Type 0
IsAllowed a = IsAddress a.address × Each (IsNumber 256) a.mask

pub record IsSectionOf (sect : Section) (p : Peer) : Type 0 where
  pub key_text : get (codes "public_key") sect ≡ some (encode p.key)
  pub key_bytes : All (λ b. b < 256) p.key
  pub key_length : length p.key ≡ 32
  pub keepalive_text :
      get (codes "keepalive") sect ≡ Option.map (λ (n : Number). n.text) p.keepalive
  pub keepalive_reads : Each (IsNumber (2 ^ 16)) p.keepalive
  pub endpoint_is : get (codes "endpoint") sect ≡ Option.map endpoint_text p.endpoint
  pub endpoint_reads : Each (λ e. IsAddress e.0 × IsNumber (2 ^ 16) e.1) p.endpoint
  pub allowed_is : get (codes "allowed_ips") sect ≡ Option.map (λ a. allowed_text a.0 a.1) p.allowed
  pub allowed_reads : Each (λ a. IsAllowed a.0 × All IsAllowed a.1) p.allowed

-- A configuration and the peers that it has: a section counts where its name starts with peer and its
-- key has 32 bytes.
pub data Reads : Config → List Peer → Type 0 where
  finished : Reads [] []
  other :
      (name : Text) (sect : Section) (cfg : Config) (ps : List Peer)
      → strip_prefix (codes "peer") name ≡ none
      → Reads cfg ps
      → Reads ((name, sect) ∷ cfg) ps
  keyless :
      (name : Text) (sect : Section) (cfg : Config) (ps : List Peer)
      → get (codes "public_key") sect ≡ none
      → Reads cfg ps
      → Reads ((name, sect) ∷ cfg) ps
  garbled :
      (name text : Text) (sect : Section) (cfg : Config) (ps : List Peer)
      → get (codes "public_key") sect ≡ some text
      → b64_decode text ≡ none
      → Reads cfg ps
      → Reads ((name, sect) ∷ cfg) ps
  wrong_length :
      (name : Text) (key : Bytes) (sect : Section) (cfg : Config) (ps : List Peer)
      → get (codes "public_key") sect ≡ some (encode key)
      → All (λ b. b < 256) key
      → length key ≢ 32
      → Reads cfg ps
      → Reads ((name, sect) ∷ cfg) ps
  peer :
      (suffix : Text) (sect : Section) (p : Peer) (cfg : Config) (ps : List Peer)
      → IsSectionOf sect p
      → Reads cfg ps
      → Reads ((codes "peer" ++ suffix, sect) ∷ cfg) (p ∷ ps)

-- The bytes of the peers

abbrev pub mask_value : Option Number → ℕ
mask_value none = 32
mask_value (some n) = n.value

abbrev pub allowed_data : ℕ → List Allowed → Bytes
allowed_data idx [] = []
allowed_data idx (a ∷ others) =
    nested_bytes (idx % 2 ^ 16) (
      (attr_bytes 1 (2 ∷ 0 ∷ []) ++ attr_bytes 2 (octets a.address.addr))
      ++ attr_bytes 3 (mask_value a.mask ∷ []))
    ++ allowed_data (suc idx) others

-- sockaddr_in: the family, the port in network order, the address, eight zeros.
abbrev pub endpoint_data : Address × Number → Bytes
endpoint_data (host, port) =
    2 ∷ 0 ∷ port.value / 256 % 256 ∷ port.value % 256 ∷ (octets host.addr ++ replicate 8 0)

abbrev pub peer_data : Peer → Bytes
peer_data p =
    ((attr_bytes 1 p.key
        ++ optional_bytes (λ (n : Number). attr_bytes 5 (n.value % 256 ∷ n.value / 256 % 256 ∷ []))
            p.keepalive)
      ++ optional_bytes (λ e. attr_bytes 4 (endpoint_data e)) p.endpoint)
    ++ optional_bytes (λ a. nested_bytes 9 (allowed_data 0 (a.0 ∷ a.1))) p.allowed

abbrev pub peers_data : ℕ → List Peer → Bytes
peers_data idx [] = []
peers_data idx (p ∷ ps) = nested_bytes idx (peer_data p) ++ peers_data ((idx + 1) % 2 ^ 16) ps

abbrev pub list_data : List Peer → Bytes
list_data [] = []
list_data (p ∷ ps) = nested_bytes 8 (peers_data 0 (p ∷ ps))
