-- ===== src/Wg/Setup.antt =====
-- src/wg.rs: `up` and `run`. Whether the kernel takes the device is an argument, since `set_device` ends with its
-- acknowledgement; the results of the other calls are not read.
use lwrt.Base.{
  ℕ, ◌^◌, Bool, true, false, not, List, [], ◌∷◌, ◌++◌, Option, none, some, if◌then◌else◌, ◌≡◌, refl,
}
use lwrt.Base.Options.{◌>>=◌}
use lwrt.Base.Bytes.{Bytes, codes}
use lwrt.Text.{Text, equal}
use lwrt.Text.Numbers.{Ipv4Addr, parse_ipv4, parse_unsigned}
use lwrt.Config.{Config, get_value, get_or}
use lwrt.Util.{b64_decode}
use lwrt.Netlink.{NlBuf}
use lwrt.Wg.{link_message, whole_key, split_cidr}

data Effect : Type 0 where
  create : NlBuf → Effect
  set : Bytes → Bytes → ℕ → Effect
  configure : Text → Ipv4Addr → Ipv4Addr → Effect
  bring_up : Text → Effect

abbrev wg0 : Text
wg0 = codes "wg0"

abbrev or_51820 : Option ℕ → ℕ
or_51820 none = 51820
or_51820 (some port) = port

abbrev configured : Option Ipv4Addr → List Effect
configured none = []
configured (some ip) = configure wg0 ip record { a = 255; b = 255; c = 255; d = 0 } ∷ []

abbrev addressed : Option Text → List Effect
addressed none = []
addressed (some addr) = configured (parse_ipv4 (split_cidr addr).0)

unfoldable with_key : Bool → Config → Option Bytes → ℕ × List Effect
with_key accepted cfg none = (1, [])
with_key accepted cfg (some privk) =
    let port = or_51820 (
      parse_unsigned (2 ^ 16)
        (get_or cfg (codes "wireguard") (codes "listen_port") (codes "51820"))) in
    if accepted
    then (
      0,
      set wg0 privk port
          ∷ (addressed (get_value cfg (codes "wireguard") (codes "address")) ++ bring_up wg0 ∷ []),
    )
    else (1, set wg0 privk port ∷ [])

abbrev private_key : Config → Option Bytes
private_key cfg = whole_key (get_value cfg (codes "wireguard") (codes "private_key") >>= b64_decode)

-- The exit code, and what is done, in order.
unfoldable up : Bool → Config → ℕ × List Effect
unfolding with_key
up accepted cfg =
    let (code, effects) = with_key accepted cfg (private_key cfg) in
    if not (equal (get_or cfg (codes "wireguard") (codes "enabled") (codes "0")) (codes "1"))
    then (0, [])
    else (code, create (link_message wg0) ∷ effects)

unfoldable run : Bool → List Text → Config → ℕ × List Effect
unfolding up
run accepted [] cfg = up accepted cfg
run accepted (arg ∷ args) cfg = if equal arg (codes "down") then (0, []) else up accepted cfg

unfoldable brings_up : List Effect → Bool
brings_up [] = false
brings_up (bring_up ifname ∷ rest) = true
brings_up (e ∷ rest) = brings_up rest

with_key-brings_up :
    (accepted : Bool) (cfg : Config) (o : Option Bytes)
    → brings_up (with_key accepted cfg o).1 ≡ true
    → (accepted ≡ true) × ((key : Bytes) × (o ≡ some key)) × ((with_key accepted cfg o).0 ≡ 0)
unfolding with_key brings_up
with_key-brings_up true cfg none h = cc
with_key-brings_up false cfg none h = cc
with_key-brings_up false cfg (some key) h = cc
with_key-brings_up true cfg (some key) h = (refl, (key, refl), refl)

-- The interface is brought up only where WireGuard is enabled, there is a private key of 32 bytes and the
-- kernel has taken the device; the exit code is then 0.
up-brings_up :
    (accepted : Bool) (cfg : Config)
    → brings_up (up accepted cfg).1 ≡ true
    → (equal (get_or cfg (codes "wireguard") (codes "enabled") (codes "0")) (codes "1") ≡ true)
      × (accepted ≡ true)
      × ((key : Bytes) × (private_key cfg ≡ some key))
      × ((up accepted cfg).0 ≡ 0)
unfolding up brings_up
up-brings_up accepted cfg h = go _ refl
  where
    go :
        (enabled : Bool)
        → equal (get_or cfg (codes "wireguard") (codes "enabled") (codes "0")) (codes "1") ≡ enabled
        → (enabled ≡ true)
          × (accepted ≡ true)
          × ((key : Bytes) × (private_key cfg ≡ some key))
          × ((up accepted cfg).0 ≡ 0)
    go true e =
        let (taken, key, code) = with_key-brings_up accepted cfg (private_key cfg) (rw e at h) in
        (refl, taken, key, rw e code)
    go false e = absurd (untrue (rw e at h))
      where
        untrue : ¬ (false ≡ true)
        untrue e = cc
