-- ===== src/Dhcp/Packets.antt =====
-- src/dhcp.rs: what `parse` and `parse_ack` read from what `build_client` and `build_reply` write.
use lwrt.Base.{
  ◌↔◌, ==_iff, ==_true, ◌==◌, if◌then◌else◌, true, false, ℕ, Option, none, some, Bool, ◌≡◌, refl,
  ap, arith,
}
use lwrt.Base.Bytes.{Bytes, copy_at}
use lwrt.Base.Map.{compare_bytes, same_key, same_key_iff, bytes_key}
use lwrt.Text.Numbers.{Ipv4Addr}
use lwrt.Dhcp.{
  magic, byte, Xid, xid_bytes, Mac, Packet, options, options_from, ipv4, parse, parse_option,
  parse_options, parse_ack, ack_option, ack_options, build_reply, build_client, op_request,
  op_reply, ack,
}

-- `parse` reads in every packet of `build_client` the transaction, the hardware address, the message type
-- and the requested address that went in.
pub parse-build_client :
    (xid : Xid) (mac : Mac) (msg_type : ℕ) (req_ip server : Option Ipv4Addr)
    → parse (build_client xid mac msg_type req_ip server)
      ≡ some (record {
        op = op_request;
        xid = xid;
        chaddr = mac;
        yiaddr = record { a = 0; b = 0; c = 0; d = 0 };
        msg_type = msg_type;
        req_ip = req_ip;
        hostname = none;
      })
unfolding parse build_client options options_from parse_option parse_options ipv4 copy_at
    compare_bytes
parse-build_client xid mac msg_type none none = refl
parse-build_client xid mac msg_type none (some s) = refl
parse-build_client xid mac msg_type (some r) none = refl
parse-build_client xid mac msg_type (some r) (some s) = refl

-- `parse` reads in every packet of `build_reply` the request's transaction and hardware address, the
-- address that is given and the message type.
pub parse-build_reply :
    (req : Packet) (msg_type : ℕ) (yiaddr server mask dns : Ipv4Addr) (lease : ℕ)
    → parse (build_reply req msg_type yiaddr server mask dns lease)
      ≡ some (record {
        op = op_reply;
        xid = req.xid;
        chaddr = req.chaddr;
        yiaddr = yiaddr;
        msg_type = msg_type;
        req_ip = none;
        hostname = none;
      })
unfolding parse build_reply options options_from parse_option parse_options ipv4 copy_at
    compare_bytes
parse-build_reply req msg_type yiaddr server mask dns lease = refl

-- `parse_ack` of a reply: the comparison of the transactions and the type of the message decide.
parse_ack-reply :
    (req : Packet) (msg_type : ℕ) (yiaddr server mask dns : Ipv4Addr) (lease : ℕ) (xid : Xid)
    (b c : Bool)
    → (msg_type == ack) ≡ b
    → same_key (xid_bytes req.xid) (xid_bytes xid) ≡ c
    → parse_ack (build_reply req msg_type yiaddr server mask dns lease) xid
      ≡ (if c then (if b then some (mask, some server, some dns) else none) else none)
unfolding parse_ack build_reply options options_from ack_option ack_options ipv4 copy_at
parse_ack-reply req msg_type yiaddr server mask dns lease xid true true e k =
    rw (e, k, (same_key_iff magic magic).1 refl) refl
parse_ack-reply req msg_type yiaddr server mask dns lease xid true false e k =
    rw (e, k, (same_key_iff magic magic).1 refl) refl
parse_ack-reply req msg_type yiaddr server mask dns lease xid false true e k =
    rw (e, k, (same_key_iff magic magic).1 refl) refl
parse_ack-reply req msg_type yiaddr server mask dns lease xid false false e k =
    rw (e, k, (same_key_iff magic magic).1 refl) refl

xid_of : Bytes → Xid
xid_of b = record { x0 = byte b 0; x1 = byte b 1; x2 = byte b 2; x3 = byte b 3 }

same_xid : (x y : Xid) → same_key (xid_bytes x) (xid_bytes y) ≡ true → x ≡ y
unfolding xid_of
same_xid x y e = ap xid_of ((same_key_iff (xid_bytes x) (xid_bytes y)).0 e)

given {ℓ} :
    {A : Type ℓ} (v : A) (b c : Bool)
    → ((if c then (if b then some v else none) else none) ≡ some v) ↔ ((b ≡ true) × (c ≡ true))
given v true true = ground arith
given v true false = ground arith
given v false true = ground arith
given v false false = ground arith

-- `parse_ack` of a packet of `build_reply` gives the mask, the server as router and the name server that
-- went in exactly where the message is an ACK of the client's own transaction.
pub parse_ack-build_reply :
    (req : Packet) (msg_type : ℕ) (yiaddr server mask dns : Ipv4Addr) (lease : ℕ) (xid : Xid)
    → (parse_ack (build_reply req msg_type yiaddr server mask dns lease) xid
        ≡ some (mask, some server, some dns))
      ↔ ((msg_type ≡ ack) × (req.xid ≡ xid))
parse_ack-build_reply req msg_type yiaddr server mask dns lease xid =
    let typed = msg_type == ack in
    let same = same_key (xid_bytes req.xid) (xid_bytes xid) in
    let both = given (mask, some server, some dns) typed same in
    rw (parse_ack-reply req msg_type yiaddr server mask dns lease xid typed same refl refl) (
      (λ h. ((==_iff msg_type ack).0 (both.0 h).0, same_xid req.xid xid (both.0 h).1)),
      (λ h. both.1 (
        ==_true msg_type ack h.0,
        (same_key_iff (xid_bytes req.xid) (xid_bytes xid)).1 (ap xid_bytes h.1),
      )),
    )
