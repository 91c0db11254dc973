-- ===== src/Dhcp.antt =====
-- src/dhcp.rs: the packets of the DHCP applet. A packet is its bytes; `[u8; 4]` and `[u8; 6]` are records.
pub mod Options
pub mod Packets
pub mod Pool
pub mod Leases
pub mod Server
mod Tests
use lwrt.Base.{
  ℕ, zero, suc, ◌+◌, ◌-◌, ◌*◌, ◌/◌, ◌%◌, ◌^◌, List, [], ◌∷◌, ◌++◌, length, take, drop, get_or,
  replicate, ltb, ◌==◌, if◌then◌else◌, Bool, true, false, ◌&&◌, ◌||◌, not, Option, none, some,
}
use mathlib.Core.Option
use lwrt.Base.Options.{or_nil}
use lwrt.Base.Bytes.{Bytes, copy_at, be32}
use lwrt.Base.Map.{same_key, bytes_key}
use lwrt.Text.{Text}
use lwrt.Text.Numbers.{Ipv4Addr, octets}
use lwrt.Text.Utf8.{from_utf8}

abbrev pub magic : Bytes
magic = 99 ∷ 130 ∷ 83 ∷ 99 ∷ []

abbrev pub op_request : ℕ
op_request = 1

abbrev pub op_reply : ℕ
op_reply = 2

abbrev pub opt_subnet : ℕ
opt_subnet = 1

abbrev pub opt_router : ℕ
opt_router = 3

abbrev pub opt_dns : ℕ
opt_dns = 6

abbrev pub opt_lease : ℕ
opt_lease = 51

abbrev pub opt_msgtype : ℕ
opt_msgtype = 53

abbrev pub opt_serverid : ℕ
opt_serverid = 54

abbrev pub opt_reqip : ℕ
opt_reqip = 50

abbrev pub opt_end : ℕ
opt_end = 255

abbrev pub discover : ℕ
discover = 1

abbrev pub offer : ℕ
offer = 2

abbrev pub request : ℕ
request = 3

abbrev pub ack : ℕ
ack = 5

abbrev pub nak : ℕ
nak = 6

pub record Xid : Type 0 where
  pub x0 : ℕ
  pub x1 : ℕ
  pub x2 : ℕ
  pub x3 : ℕ

abbrev pub xid_bytes : Xid → Bytes
xid_bytes x = x.x0 ∷ x.x1 ∷ x.x2 ∷ x.x3 ∷ []

pub record Mac : Type 0 where
  pub m0 : ℕ
  pub m1 : ℕ
  pub m2 : ℕ
  pub m3 : ℕ
  pub m4 : ℕ
  pub m5 : ℕ

abbrev pub mac_bytes : Mac → Bytes
mac_bytes m = m.m0 ∷ m.m1 ∷ m.m2 ∷ m.m3 ∷ m.m4 ∷ m.m5 ∷ []

pub record Packet : Type 0 where
  pub op : ℕ
  pub xid : Xid
  pub chaddr : Mac
  pub yiaddr : Ipv4Addr
  pub msg_type : ℕ
  pub req_ip : Option Ipv4Addr
  pub hostname : Option Text

-- `options`: what is left behind the place `i`, and the pairs that the iterator yields from there.
-- `none` where there are rounds left and no fuel (`Options`).
unfoldable pub options_from : ℕ → Bytes → Option (List (ℕ × Bytes))
options_from _ [] = some []
options_from zero (code ∷ body) = none
options_from (suc fuel) (code ∷ []) =
    let padded = options_from fuel [] in
    if code == opt_end then some [] else if code == 0 then padded else some []
options_from (suc fuel) (code ∷ len ∷ body) =
    let padded = options_from fuel (len ∷ body) in
    let rest = Option.map (◌∷◌ (code, take len body)) (options_from fuel (drop len body)) in
    if code == opt_end then some [] else if code == 0 then padded else rest

unfoldable pub options : Bytes → List (ℕ × Bytes)
unfolding options_from
options buf = or_nil (options_from (length buf) (drop 240 buf))

unfoldable pub ipv4 : Bytes → Option Ipv4Addr
ipv4 (a ∷ b ∷ c ∷ d ∷ rest) = some (record { a = a; b = b; c = c; d = d })
ipv4 _ = none

abbrev pub byte : Bytes → ℕ → ℕ
byte buf i = get_or buf i 0

abbrev pub slice : Bytes → ℕ → ℕ → Bytes
slice buf from to = take (to - from) (drop from buf)

-- The arms of the match in `parse`.
unfoldable pub parse_option : Packet → ℕ × Bytes → Packet
parse_option p (code, val) =
    if code == opt_msgtype
    then record p { msg_type = byte val 0 }
    else if code == opt_reqip
    then record p { req_ip = ipv4 val }
    else if code == 12
    then record p { hostname = from_utf8 val }
    else p

unfoldable pub parse_options : Packet → List (ℕ × Bytes) → Packet
parse_options p [] = p
parse_options p (o ∷ os) = parse_options (parse_option p o) os

abbrev pub header : Bytes → Packet
header buf = record {
  op = byte buf 0;
  xid = record { x0 = byte buf 4; x1 = byte buf 5; x2 = byte buf 6; x3 = byte buf 7 };
  chaddr = record {
    m0 = byte buf 28;
    m1 = byte buf 29;
    m2 = byte buf 30;
    m3 = byte buf 31;
    m4 = byte buf 32;
    m5 = byte buf 33;
  };
  yiaddr = record { a = byte buf 16; b = byte buf 17; c = byte buf 18; d = byte buf 19 };
  msg_type = 0;
  req_ip = none;
  hostname = none;
}

unfoldable pub parse : Bytes → Option Packet
parse buf =
    if ltb (length buf) 240 || not (same_key (slice buf 236 240) magic)
    then none
    else some (parse_options (header buf) (options buf))

-- `opt` of `build_reply`, and the pushes of `build_client`.
abbrev pub push_option : Bytes → ℕ → Bytes → Bytes
push_option b code val = b ++ (code ∷ length val % 256 ∷ val)

unfoldable pub build_reply : Packet → ℕ → Ipv4Addr → Ipv4Addr → Ipv4Addr → Ipv4Addr → ℕ → Bytes
unfolding copy_at
build_reply req msg_type yiaddr server mask dns lease =
    let b = op_reply ∷ 1 ∷ 6 ∷ replicate 237 0 in
    let b = copy_at b 4 (xid_bytes req.xid) in
    let b = copy_at b 16 (octets yiaddr) in
    let b = copy_at b 20 (octets server) in
    let b = copy_at b 28 (mac_bytes req.chaddr) in
    let b = copy_at b 236 magic in
    let b = push_option b opt_msgtype (msg_type ∷ []) in
    let b = push_option b opt_serverid (octets server) in
    let b = push_option b opt_lease (be32 lease) in
    let b = push_option b opt_subnet (octets mask) in
    let b = push_option b opt_router (octets server) in
    let b = push_option b opt_dns (octets dns) in b ++ (opt_end ∷ [])

abbrev push_ip : Bytes → ℕ → Option Ipv4Addr → Bytes
push_ip b code none = b
push_ip b code (some ip) = push_option b code (octets ip)

unfoldable pub build_client : Xid → Mac → ℕ → Option Ipv4Addr → Option Ipv4Addr → Bytes
unfolding copy_at
build_client xid mac msg_type req_ip server =
    let b = op_request ∷ 1 ∷ 6 ∷ replicate 237 0 in
    let b = copy_at b 4 (xid_bytes xid) in
    let b = copy_at b 10 (0x80 ∷ []) in
    let b = copy_at b 28 (mac_bytes mac) in
    let b = copy_at b 236 magic in
    let b = push_option b opt_msgtype (msg_type ∷ []) in
    let b = push_ip b opt_reqip req_ip in
    let b = push_ip b opt_serverid server in
    let b = push_option b 55 (opt_subnet ∷ opt_router ∷ opt_dns ∷ []) in b ++ (opt_end ∷ [])

-- What the loop of `parse_ack` keeps.
pub record Answer : Type 0 where
  pub is_ack : Bool
  pub mask : Ipv4Addr
  pub gw : Option Ipv4Addr
  pub dns : Option Ipv4Addr

abbrev pub or_else {ℓ} : {A : Type ℓ} → Option A → Option A → Option A
or_else none b = b
or_else (some a) b = some a

abbrev unwrap_or {ℓ} : {A : Type ℓ} → Option A → A → A
unwrap_or none b = b
unwrap_or (some a) b = a

abbrev first_is : ℕ → Bytes → Bool
first_is n [] = false
first_is n (b ∷ bs) = b == n

unfoldable pub ack_option : Answer → ℕ × Bytes → Answer
ack_option s (code, val) =
    if code == opt_msgtype && first_is ack val
    then record s { is_ack = true }
    else if code == opt_subnet
    then record s { mask = unwrap_or (ipv4 val) s.mask }
    else if code == opt_router
    then record s { gw = or_else (ipv4 val) s.gw }
    else if code == opt_dns
    then record s { dns = or_else (ipv4 val) s.dns }
    else s

unfoldable pub ack_options : Answer → List (ℕ × Bytes) → Answer
ack_options s [] = s
ack_options s (o ∷ os) = ack_options (ack_option s o) os

abbrev no_answer : Answer
no_answer = record {
  is_ack = false;
  mask = record { a = 255; b = 255; c = 255; d = 0 };
  gw = none;
  dns = none;
}

unfoldable pub parse_ack : Bytes → Xid → Option (Ipv4Addr × Option Ipv4Addr × Option Ipv4Addr)
parse_ack buf xid =
    let s = ack_options no_answer (options buf) in
    if ltb (length buf) 240
      || not (same_key (slice buf 236 240) magic)
      || not (same_key (slice buf 4 8) (xid_bytes xid))
      || not (byte buf 0 == op_reply)
    then none
    else if s.is_ack
    then some (s.mask, s.gw, s.dns)
    else none
