-- ===== src/Dhcp/Server.antt =====
-- src/dhcp.rs: `server`: what a datagram does to the pool, and what the server sends and writes.
-- `now` is the clock that `persist` reads, in seconds.
pub mod Requests
pub mod Answers
pub mod Runs
use lwrt.Base.{
  ℕ, ◌+◌, List, [], ◌∷◌, ◌++◌, Option, none, some, Bool, true, false, ◌==◌, if◌then◌else◌,
}
use lwrt.Base.Bytes.{Bytes, codes}
use lwrt.Base.Map.{nat_key, get, insert}
use lwrt.Text.{Text}
use lwrt.Text.Numbers.{Ipv4Addr, u32_of, addr_of}
use lwrt.Text.Printing.{decimal, hex2, addr_text}
use lwrt.Dhcp.{Mac, Packet, parse, build_reply, op_request, discover, offer, request, ack, nak}
use lwrt.Dhcp.Pool.{Pool, mac_key, lease_for}

-- A datagram to the broadcast address, and a new content of the file of the leases, where the file can
-- be created: `persist` passes over a failure.
pub data Effect : Type 0 where
  sent : Bytes → Effect
  wrote : Text → Effect

abbrev mac_text : Mac → Text
mac_text m =
    hex2 m.m0
    ++ (b':'
        ∷ (hex2 m.m1
            ++ (b':'
                ∷ (hex2 m.m2
                    ++ (b':' ∷ (hex2 m.m3 ++ (b':' ∷ (hex2 m.m4 ++ (b':' ∷ hex2 m.m5)))))))))

abbrev name_of : Option Text → Text
name_of none = codes "*"
name_of (some name) = name

unfoldable pub lease_lines : ℕ → Pool → List (Mac × ℕ) → Text
lease_lines now p [] = []
lease_lines now p ((mac, ip) ∷ rest) =
    decimal (now + p.lease)
    ++ (b' '
        ∷ (mac_text mac
            ++ (b' '
                ∷ (addr_text (addr_of ip)
                    ++ (b' ' ∷ (name_of (get ip p.names) ++ (10 ∷ lease_lines now p rest)))))))

unfoldable pub persist : ℕ → Pool → Effect
unfolding lease_lines
persist now p = wrote (lease_lines now p p.by_mac)

unfoldable pub note_name : Pool → Ipv4Addr → Option Text → Pool
note_name p ip none = p
note_name p ip (some name) = record p { names = insert (u32_of ip) name p.names }

abbrev reply : Pool → Packet → ℕ → Ipv4Addr → ℕ → Effect
reply p req msg_type ip lease = sent (build_reply req msg_type ip p.server p.mask p.server lease)

unfoldable pub on_discover : Packet → Option Ipv4Addr × Pool → List Effect × Pool
on_discover req (none, p) = ([], p)
on_discover req (some ip, p) = (reply p req offer ip p.lease ∷ [], note_name p ip req.hostname)

-- `by_mac.get(..).or_else(|| pool.lease_for(..))`
unfoldable pub grant : Pool → Packet → Option Ipv4Addr × Pool
grant p req = elim (get req.chaddr p.by_mac) [
  | some v ↦ (some (addr_of v), p)
  | none ↦ lease_for p req.chaddr req.req_ip
]

abbrev unspecified : Ipv4Addr
unspecified = record { a = 0; b = 0; c = 0; d = 0 }

unfoldable pub on_request : ℕ → Packet → Option Ipv4Addr × Pool → List Effect × Pool
unfolding note_name persist
on_request now req (some ip, p) =
    let named = note_name p ip req.hostname in
    (reply p req ack ip p.lease ∷ persist now named ∷ [], named)
on_request now req (none, p) = (reply p req nak unspecified 0 ∷ [], p)

unfoldable pub answer : ℕ → Pool → Packet → List Effect × Pool
answer now p req =
    if req.op == op_request
    then (if req.msg_type == discover
        then on_discover req (lease_for p req.chaddr req.req_ip)
        else if req.msg_type == request
        then on_request now req (grant p req)
        else ([], p))
    else ([], p)

unfoldable pub handle : ℕ → Pool → Bytes → List Effect × Pool
unfolding answer
handle now p buf = elim (parse buf) [ none ↦ ([], p) | some req ↦ answer now p req ]

-- The loop over the datagrams that arrive, each with the time of its arrival.
unfoldable pub serve : Pool → List (ℕ × Bytes) → List Effect × Pool
unfolding handle
serve p [] = ([], p)
serve p ((now, buf) ∷ rest) =
    let (effects, q) = handle now p buf in let (later, r) = serve q rest in (effects ++ later, r)

-- The pool that the server starts with.
unfoldable pub fresh : ℕ → ℕ → Ipv4Addr → Ipv4Addr → ℕ → Pool
fresh start count mask server lease = record {
  start = start;
  count = count;
  mask = mask;
  server = server;
  lease = lease;
  by_mac = [];
  used = [];
  names = [];
}
