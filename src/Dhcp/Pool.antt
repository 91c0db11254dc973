-- ===== src/Dhcp/Pool.antt =====
-- src/dhcp.rs: the server's address pool. An address is a `u32`; a sum of two wraps, as it does in the
-- release profile. A `BTreeSet` is a map to `Unit`.
use Prim.Native.Nat.{Ordering}
use lwrt.Base.{
  ℕ, zero, suc, ◌+◌, ◌%◌, ◌^◌, List, Option, none, some, Bool, true, false, ◌&&◌, not, ltb, leb,
  if◌then◌else◌, ◌≡◌, ◌↔◌, ap,
}
use lwrt.Base.Bytes.{Bytes}
use lwrt.Base.Map.{Key, nat_key, get, insert, compare_bytes, compare_bytes_iff}
use lwrt.Text.{Text}
use lwrt.Text.Numbers.{Ipv4Addr, addr_of, u32_of}
use lwrt.Dhcp.{Mac, mac_bytes, byte}

mac_of : Bytes → Mac
mac_of b = record {
  m0 = byte b 0;
  m1 = byte b 1;
  m2 = byte b 2;
  m3 = byte b 3;
  m4 = byte b 4;
  m5 = byte b 5;
}

abbrev pub compare_macs : Mac → Mac → Ordering
compare_macs a b = compare_bytes (mac_bytes a) (mac_bytes b)

pub compare_macs_iff : (a b : Mac) → (compare_macs a b ≡ Ordering.eq) ↔ (a ≡ b)
unfolding mac_of
compare_macs_iff a b = (
  (λ e. ap mac_of ((compare_bytes_iff (mac_bytes a) (mac_bytes b)).0 e)),
  (λ e. (compare_bytes_iff (mac_bytes a) (mac_bytes b)).1 (ap mac_bytes e)),
)

instance abbrev pub mac_key : Key Mac
mac_key = record { cmp = compare_macs; cmp_iff = compare_macs_iff }

pub record Pool : Type 0 where
  pub start : ℕ
  pub count : ℕ
  pub mask : Ipv4Addr
  pub server : Ipv4Addr
  pub lease : ℕ
  pub by_mac : List (Mac × ℕ)
  pub used : List {0} (ℕ × Unit)
  pub names : List (ℕ × Text)

abbrev u32_mod : ℕ
u32_mod = 2 ^ 32

unfoldable pub contains : ℕ → List {0} (ℕ × Unit) → Bool
contains v used = elim (get v used) [ none ↦ false | some _ ↦ true ]

unfoldable pub assign : Pool → Mac → ℕ → Pool
assign p mac v = record p { by_mac = insert mac v p.by_mac; used = insert v tt p.used }

-- `for off in 0..self.count`: the first address that is not in use, from the offset on.
unfoldable pub first_free : ℕ → ℕ → Pool → Option ℕ
first_free zero off p = none
first_free (suc left) off p =
    let v = (p.start + off) % u32_mod in
    let rest = first_free left (suc off) p in if contains v p.used then rest else some v

unfoldable pub lease_first : Pool → Mac → Option Ipv4Addr × Pool
lease_first p mac = elim (first_free p.count 0 p) [
  | none ↦ (none, p)
  | some v ↦ (some (addr_of v), assign p mac v)
]

-- The request that is honoured: inside the pool and free.
unfoldable pub is_free_request : Pool → ℕ → Bool
is_free_request p v =
    leb p.start v && ltb v ((p.start + p.count) % u32_mod) && not (contains v p.used)

unfoldable pub lease_new : Pool → Mac → Option Ipv4Addr → Option Ipv4Addr × Pool
lease_new p mac none = lease_first p mac
lease_new p mac (some r) =
    if is_free_request p (u32_of r) then (some r, assign p mac (u32_of r)) else lease_first p mac

unfoldable pub lease_for : Pool → Mac → Option Ipv4Addr → Option Ipv4Addr × Pool
lease_for p mac requested = elim (get mac p.by_mac) [
  | some ip ↦ (some (addr_of ip), p)
  | none ↦ lease_new p mac requested
]
