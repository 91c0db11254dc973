-- ===== src/Dhcp/Tests.antt =====
-- src/dhcp.rs: the theorems at small pools and packets.
use lwrt.Base.{
  drop, Bool, true, ◌&&◌, ltb, ℕ, ◌+◌, ◌≤◌, ◌<◌, ◌≢◌, ◌↔◌, ◌⊎◌, List, [], ◌∷◌, ◌++◌, replicate,
  none, some, ◌≡◌, refl, arith,
}
use lwrt.Base.Bytes.{Bytes, copy_at}
use lwrt.Base.Map.{get, insert, compare_bytes}
use lwrt.Text.Numbers.{Ipv4Addr, addr_of}
use lwrt.Dhcp.{
  Xid, Mac, Packet, options_from, options, parse, parse_ack, build_reply, build_client, op_request,
  op_reply, opt_end, discover, offer, request, ack, nak, ipv4, parse_option, parse_options,
}
use lwrt.Dhcp.Options.{write_options, values, options_from-ends, options-write_options}
use lwrt.Dhcp.Packets.{parse-build_client, parse-build_reply, parse_ack-build_reply}
use lwrt.Dhcp.Pool.{Pool, mac_key, lease_for, lease_new, lease_first, first_free, contains, assign}
use lwrt.Dhcp.Leases.{IsPool, lease_for-IsPool, lease_for-none}
use lwrt.Dhcp.Server.{sent, persist, handle, serve, fresh, answer, on_discover, note_name}
use lwrt.Dhcp.Server.Requests.{AreBytes}
use lwrt.Dhcp.Server.Answers.{handle_request_lem, handle_discover_lem}
use lwrt.Dhcp.Server.Runs.{serve-fresh, serve-keeps, fresh-IsPool}

abbrev laptop : Mac
laptop = record { m0 = 2; m1 = 0; m2 = 0; m3 = 0; m4 = 0; m5 = 1 }

abbrev phone : Mac
phone = record { m0 = 2; m1 = 0; m2 = 0; m3 = 0; m4 = 0; m5 = 2 }

abbrev transaction : Xid
transaction = record { x0 = 0xde; x1 = 0xad; x2 = 0xbe; x3 = 0xef }

abbrev router : Ipv4Addr
router = record { a = 192; b = 168; c = 1; d = 1 }

abbrev netmask : Ipv4Addr
netmask = record { a = 255; b = 255; c = 255; d = 0 }

abbrev first_addr : ℕ
first_addr = 3232235876

-- A pool of the addresses from 192.168.1.100 on.
abbrev pool : ℕ → Pool
pool count = fresh first_addr count netmask router 43200

abbrev ask : Mac → ℕ → Bytes
ask mac msg_type = build_client transaction mac msg_type none none

abbrev asked : Mac → ℕ → Packet
asked mac msg_type = record {
  op = op_request;
  xid = transaction;
  chaddr = mac;
  yiaddr = record { a = 0; b = 0; c = 0; d = 0 };
  msg_type = msg_type;
  req_ip = none;
  hostname = none;
}

abbrev all_bytes : Bytes → Bool
all_bytes [] = true
all_bytes (b ∷ bs) = ltb b 256 && all_bytes bs

all_bytes-AreBytes : (bs : Bytes) → all_bytes bs ≡ true → AreBytes bs
all_bytes-AreBytes [] h = tt
all_bytes-AreBytes (b ∷ bs) h = ground (arith, all_bytes-AreBytes bs)

ask-AreBytes : AreBytes (ask laptop discover)
unfolding build_client copy_at
ask-AreBytes = all_bytes-AreBytes (ask laptop discover) refl

request-AreBytes : AreBytes (ask laptop request)
unfolding build_client copy_at
request-AreBytes = all_bytes-AreBytes (ask laptop request) refl

parse-build_client_example :
    parse (build_client transaction laptop request (some router) none)
    ≡ some (record {
      op = op_request;
      xid = transaction;
      chaddr = laptop;
      yiaddr = record { a = 0; b = 0; c = 0; d = 0 };
      msg_type = request;
      req_ip = some router;
      hostname = none;
    })
parse-build_client_example = parse-build_client transaction laptop request (some router) none

parse-build_reply_example :
    parse (build_reply (asked laptop request) ack (addr_of first_addr) router netmask router 43200)
    ≡ some (record {
      op = op_reply;
      xid = transaction;
      chaddr = laptop;
      yiaddr = addr_of first_addr;
      msg_type = ack;
      req_ip = none;
      hostname = none;
    })
parse-build_reply_example =
    parse-build_reply (asked laptop request) ack (addr_of first_addr) router netmask router 43200

parse_ack-build_reply_example :
    (parse_ack
        (build_reply (asked laptop request) ack (addr_of first_addr) router netmask router 43200)
        transaction
      ≡ some (netmask, some router, some router))
    ↔ ((ack ≡ ack) × (transaction ≡ transaction))
parse_ack-build_reply_example =
    parse_ack-build_reply (asked laptop request) ack (addr_of first_addr) router netmask router
      43200 transaction

abbrev padded_options : List (ℕ × (ℕ × Bytes))
padded_options = (2, (53, 1 ∷ [])) ∷ (0, (50, 192 ∷ 168 ∷ 1 ∷ 50 ∷ [])) ∷ []

options-write_options_example :
    options (replicate 240 0 ++ (write_options padded_options ++ (opt_end ∷ 0xff ∷ 0xff ∷ [])))
    ≡ values padded_options
options-write_options_example =
    options-write_options (replicate 240 0) padded_options (0xff ∷ 0xff ∷ []) refl (omega arith)

abbrev pads : Bytes
pads = replicate 240 0 ++ replicate 9 0

options_from-ends_example : options_from 249 (drop 240 pads) ≡ some (options pads)
options_from-ends_example = options_from-ends 249 pads (omega arith)

pool-IsPool : (count : ℕ) → count < 1000 → IsPool (pool count)
pool-IsPool count h = fresh-IsPool first_addr count netmask router 43200 (omega arith)

abbrev one_leased : Pool
one_leased = (lease_for (pool 1) laptop none).1

one_leased-IsPool : IsPool one_leased
one_leased-IsPool = lease_for-IsPool (pool 1) laptop none (pool-IsPool 1 (omega arith)) tt

one_leased-laptop : get laptop one_leased.by_mac ≡ some first_addr
unfolding get insert lease_for lease_new lease_first first_free contains assign fresh compare_bytes
one_leased-laptop = refl

one_leased-phone : (lease_for one_leased phone none).0 ≡ none
unfolding get insert lease_for lease_new lease_first first_free contains assign fresh compare_bytes
one_leased-phone = refl

one_leased-start : one_leased.start ≡ first_addr
unfolding get insert lease_for lease_new lease_first first_free contains assign fresh
one_leased-start = refl

one_leased-count : one_leased.count ≡ 1
unfolding get insert lease_for lease_new lease_first first_free contains assign fresh
one_leased-count = refl

lease_for-none_example : (m : Mac) × (m ≢ phone) × (get m one_leased.by_mac ≡ some first_addr)
lease_for-none_example =
    lease_for-none one_leased phone none one_leased-IsPool tt one_leased-phone first_addr
      (omega (arith, one_leased-start)) (omega (arith, one_leased-start, one_leased-count))

serve-keeps_example :
    get laptop (serve one_leased ((0, ask laptop discover) ∷ [])).1.by_mac ≡ some first_addr
serve-keeps_example =
    serve-keeps one_leased ((0, ask laptop discover) ∷ []) laptop first_addr one_leased-IsPool
      (ask-AreBytes, tt) one_leased-laptop

abbrev after_discover : Pool
after_discover = (serve (pool 2) ((0, ask laptop discover) ∷ [])).1

after_discover-laptop : get laptop after_discover.by_mac ≡ some first_addr
unfolding get insert lease_for lease_new lease_first first_free contains assign fresh compare_bytes
    serve handle answer on_discover note_name parse options options_from parse_options parse_option
    build_client copy_at ipv4
after_discover-laptop = refl

serve-fresh_example :
    (first_addr ≤ first_addr)
    × (first_addr < first_addr + 2)
    × ((get phone after_discover.by_mac ≡ some first_addr) ↔ (laptop ≡ phone))
serve-fresh_example =
    serve-fresh first_addr 2 netmask router 43200 ((0, ask laptop discover) ∷ []) laptop phone
      first_addr (omega arith) (ask-AreBytes, tt) after_discover-laptop

handle_request_lem_example :
    ((v : ℕ) × (get laptop (handle 0 (pool 2) (ask laptop request)).1.by_mac ≡ some v)
      × ((handle 0 (pool 2) (ask laptop request)).0
          ≡ sent (
              build_reply
                (asked laptop request)
                ack
                (addr_of v)
                (pool 2).server
                (pool 2).mask
                (pool 2).server
                (pool 2).lease)
            ∷ persist 0 (handle 0 (pool 2) (ask laptop request)).1
            ∷ []))
    ⊎ (handle 0 (pool 2) (ask laptop request) ≡ (
      sent (
            build_reply
              (asked laptop request)
              nak
              (addr_of 0)
              (pool 2).server
              (pool 2).mask
              (pool 2).server
              0)
          ∷ [],
      pool 2,
    ))
handle_request_lem_example =
    handle_request_lem 0 (pool 2) (ask laptop request) (asked laptop request)
      (pool-IsPool 2 (omega arith)) request-AreBytes
      (parse-build_client transaction laptop request none none) refl refl

handle_discover_lem_example :
    ((v : ℕ) × (get laptop (handle 0 (pool 2) (ask laptop discover)).1.by_mac ≡ some v)
      × ((handle 0 (pool 2) (ask laptop discover)).0
          ≡ sent (
              build_reply
                (asked laptop discover)
                offer
                (addr_of v)
                (pool 2).server
                (pool 2).mask
                (pool 2).server
                (pool 2).lease)
            ∷ []))
    ⊎ (handle 0 (pool 2) (ask laptop discover) ≡ ([], pool 2))
handle_discover_lem_example =
    handle_discover_lem 0 (pool 2) (ask laptop discover) (asked laptop discover)
      (pool-IsPool 2 (omega arith)) ask-AreBytes
      (parse-build_client transaction laptop discover none none) refl refl
