-- ===== src/Firewall/Forwards.antt =====
-- src/fw.rs: the `forward` list of the configuration.
use lwrt.Base.{ℕ, ◌^◌, ◌<◌, ◌≡◌, ◌⊎◌, not, List, [], ◌∷◌, map, Option, none, some, if◌then◌else◌}
use lwrt.Base.Bytes.{codes}
use lwrt.Base.Options.{◌>>=◌}
use lwrt.Text.{Text, trim, lower, equal, split, filter_by, filter_map, is_empty}
use lwrt.Text.Numbers.{parse_unsigned, Ipv4Addr, IsAddr, parse_ipv4}
use lwrt.Firewall.Constants.{ipproto_tcp, ipproto_udp}

-- One DNAT port-forward.
pub record Forward : Type 0 where
  pub proto : ℕ
  pub dport : ℕ
  pub dest_ip : Ipv4Addr
  pub dest_port : ℕ

proto_of : Text → Option ℕ
proto_of name =
    if equal name (codes "tcp")
    then some ipproto_tcp
    else if equal name (codes "udp")
    then some ipproto_udp
    else none

-- The fields, once `it.next()` has given them all; with one more the entry is refused.
forward_of : Text → Text → Text → Text → Option Forward
forward_of proto dport ip port = do
  p ← proto_of (map lower (trim proto))
  d ← parse_unsigned (2 ^ 16) (trim dport)
  a ← parse_ipv4 (trim ip)
  q ← parse_unsigned (2 ^ 16) (trim port)
  some (record { proto = p; dport = d; dest_ip = a; dest_port = q })

forward_of_fields : List Text → Option Forward
forward_of_fields (proto ∷ dport ∷ ip ∷ port ∷ []) = forward_of proto dport ip port
forward_of_fields _ = none

unfoldable pub parse_forward : Text → Option Forward
unfolding forward_of_fields forward_of proto_of
parse_forward spec = forward_of_fields (split b':' (trim spec))

unfoldable pub parse_forwards : Text → List Forward
unfolding parse_forward
parse_forwards spec =
    filter_map parse_forward (filter_by (λ s. not (is_empty s)) (map trim (split b',' spec)))

-- TCP or UDP, both ports 16-bit, and an address of four bytes.
pub record IsForward (f : Forward) : Type 0 where
  pub proto_known : (f.proto ≡ ipproto_tcp) ⊎ (f.proto ≡ ipproto_udp)
  pub dport_fits : f.dport < 2 ^ 16
  pub ip_fits : IsAddr f.dest_ip
  pub port_fits : f.dest_port < 2 ^ 16
