-- ===== src/Wg/Tests.antt =====
-- src/wg.rs: the message for a device with one peer, and the parts of a peer's settings.
use lwrt.Base.{
  ℕ, ◌^◌, Bool, true, not, ◌&&◌, [], ◌∷◌, ◌++◌, some, none, replicate, ◌==◌, ◌≡◌, refl, All, arith,
}
use lwrt.Base.Bytes.{Bytes, codes}
use lwrt.Base.Map.{get, compare_bytes}
use lwrt.Text.{Text, is_whitespace, split_once, split_by, strip_prefix}
use lwrt.Text.Numbers.{parse_ipv4, parse_unsigned}
use lwrt.Config.{Config, Section}
use lwrt.Util.Base64.{encode}
use lwrt.Netlink.Encoding.{attr_bytes, message_bytes}
use lwrt.Wg.{sockaddr_in, split_cidr, set_device}
use lwrt.Wg.Sections.{set_device-data}
use lwrt.Wg.Device.{
  Number, IsPart, IsAddress, IsNumber, Allowed, Peer, IsSectionOf, finished, other, peer, list_data,
}

endpoint :
    sockaddr_in (codes "10.0.0.7:51820")
    ≡ some (2 ∷ 0 ∷ 0xca ∷ 0x6c ∷ 10 ∷ 0 ∷ 0 ∷ 7 ∷ 0 ∷ 0 ∷ 0 ∷ 0 ∷ 0 ∷ 0 ∷ 0 ∷ 0 ∷ [])
unfolding sockaddr_in split_once split_by parse_ipv4 parse_unsigned
endpoint = refl

no_port : sockaddr_in (codes "10.0.0.7") ≡ none
unfolding sockaddr_in split_once
no_port = refl

whole_host : split_cidr (codes "10.0.0.7") ≡ (codes "10.0.0.7", codes "32")
unfolding split_cidr split_once
whole_host = refl

abbrev zero_key : Bytes
zero_key = replicate 32 0

abbrev office : Allowed
office = record {
  spaces = 1;
  address = record { text = codes "192.168.0.0"; addr = record { a = 192; b = 168; c = 0; d = 0 } };
  mask = some (record { text = codes "16"; value = 16 });
}

abbrev gateway : Allowed
gateway = record {
  spaces = 0;
  address = record { text = codes "10.0.0.7"; addr = record { a = 10; b = 0; c = 0; d = 7 } };
  mask = none;
}

abbrev port : Number
port = record { text = codes "51820"; value = 51820 }

abbrev one_peer : Peer
one_peer = record {
  key = zero_key;
  keepalive = some (record { text = codes "25"; value = 25 });
  endpoint = some (gateway.address, port);
  allowed = some (gateway, office ∷ []);
}

abbrev sect : Section
sect =
    (codes "allowed_ips", codes "10.0.0.7, 192.168.0.0/16")
    ∷ (codes "endpoint", codes "10.0.0.7:51820")
    ∷ (codes "keepalive", codes "25")
    ∷ (codes "public_key", encode zero_key)
    ∷ []

abbrev config : Config
config = (codes "lan", []) ∷ (codes "peer1", sect) ∷ []

abbrev is_part : ℕ → Bool
is_part c = not (is_whitespace c) && not (c == b'/') && not (c == b',') && not (c == b':')

abbrev all_parts : Text → Bool
all_parts [] = true
all_parts (c ∷ s) = is_part c && all_parts s

all_parts-IsPart : (s : Text) → all_parts s ≡ true → All IsPart s
all_parts-IsPart [] h = tt
all_parts-IsPart (c ∷ s) h = (
  record {
    solid = ground arith;
    no_slash = ground arith;
    no_comma = ground arith;
    no_colon = ground arith;
  },
  all_parts-IsPart s (ground arith),
)

gateway-IsAddress : IsAddress gateway.address
unfolding parse_ipv4 is_whitespace split_by
gateway-IsAddress = record { reads = refl; parts = all_parts-IsPart gateway.address.text refl }

office-IsAddress : IsAddress office.address
unfolding parse_ipv4 is_whitespace split_by
office-IsAddress = record { reads = refl; parts = all_parts-IsPart office.address.text refl }

number-IsNumber :
    (bound : ℕ) (n : Number)
    → parse_unsigned bound n.text ≡ some n.value
    → all_parts n.text ≡ true
    → IsNumber bound n
number-IsNumber bound n r h = record { reads = r; parts = all_parts-IsPart n.text h }

sect-IsSectionOf : IsSectionOf sect one_peer
unfolding get compare_bytes parse_unsigned is_whitespace
sect-IsSectionOf = record {
  key_text = refl;
  key_bytes = omega arith;
  key_length = refl;
  keepalive_text = refl;
  keepalive_reads = number-IsNumber (2 ^ 16) (record { text = codes "25"; value = 25 }) refl refl;
  endpoint_is = refl;
  endpoint_reads = (gateway-IsAddress, number-IsNumber (2 ^ 16) port refl refl);
  allowed_is = refl;
  allowed_reads = (
    (gateway-IsAddress, tt),
    (
      (office-IsAddress, number-IsNumber 256 (record { text = codes "16"; value = 16 }) refl refl),
      tt,
    ),
  );
}

lan-no_peer : strip_prefix (codes "peer") (codes "lan") ≡ none
unfolding strip_prefix
lan-no_peer = refl

set_device-data_example :
    set_device 27 (codes "wg0") (replicate 32 7) 51820 config
    ≡ message_bytes 27 5 1 (
        ((((1 ∷ 1 ∷ 0 ∷ 0 ∷ []) ++ attr_bytes 2 (codes "wg0" ++ 0 ∷ []))
            ++ attr_bytes 5 (1 ∷ 0 ∷ 0 ∷ 0 ∷ []))
          ++ attr_bytes 3 (replicate 32 7))
        ++ attr_bytes 6 (0x6c ∷ 0xca ∷ [])
        ++ list_data (one_peer ∷ []))
set_device-data_example =
    set_device-data 27 (codes "wg0") (replicate 32 7) 51820 config (one_peer ∷ []) (
      other (codes "lan") [] ((codes "peer1", sect) ∷ []) (one_peer ∷ []) lan-no_peer
        (peer (codes "1") sect one_peer [] [] sect-IsSectionOf finished))
