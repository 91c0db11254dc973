-- ===== src/Dhcp/Server/Answers.antt =====
-- src/dhcp.rs: what the server answers to a client.
use lwrt.Base.{
  ℕ, ◌⊎◌, inl, inr, List, [], ◌∷◌, Option, none, some, ◌≡◌, refl, sym, ap, ap₂, ◌∙◌, arith,
  Option-cases, ==_true, ==_false,
}
use lwrt.Base.Bytes.{Bytes}
use lwrt.Base.Map.{nat_key, get, insert, get-insert_self}
use lwrt.Text.{Text}
use lwrt.Text.Numbers.{Ipv4Addr, addr_of}
use lwrt.Dhcp.{Mac, Packet, parse, build_reply, op_request, discover, offer, request, ack, nak}
use lwrt.Dhcp.Pool.{Pool, mac_key, assign, lease_for}
use lwrt.Dhcp.Leases.{IsPool, Leased, lease_for-Leased, lease_for-old}
use lwrt.Dhcp.Server.Requests.{AreBytes, parse-IsRequest}
use lwrt.Dhcp.Server.{sent, note_name, persist, on_discover, grant, on_request, answer, handle}

-- Asking for the client's address first changes nothing: `lease_for` does the same.
grant-lease_for : (p : Pool) (req : Packet) → grant p req ≡ lease_for p req.chaddr req.req_ip
unfolding grant
grant-lease_for p req = elim (Option-cases (get req.chaddr p.by_mac)) [
  | inl new ↦ rw (new, grant) refl
  | inr (v, old) ↦ rw (old, grant) (sym (lease_for-old p req.chaddr req.req_ip v old))
]

handle-request :
    (now : ℕ) (p : Pool) (buf : Bytes) (req : Packet)
    → parse buf ≡ some req
    → req.op ≡ op_request
    → req.msg_type ≡ request
    → handle now p buf ≡ on_request now req (lease_for p req.chaddr req.req_ip)
unfolding handle answer
handle-request now p buf req e op type =
    rw
      (
        e,
        handle,
        ==_true req.op op_request op,
        ==_false req.msg_type discover (omega (arith, type)),
        ==_true req.msg_type request type,
      )
      (ap (on_request now req) (grant-lease_for p req))

handle-discover :
    (now : ℕ) (p : Pool) (buf : Bytes) (req : Packet)
    → parse buf ≡ some req
    → req.op ≡ op_request
    → req.msg_type ≡ discover
    → handle now p buf ≡ on_discover req (lease_for p req.chaddr req.req_ip)
unfolding handle answer
handle-discover now p buf req e op type =
    rw (e, handle, ==_true req.op op_request op, ==_true req.msg_type discover type) refl

-- An address is given, and belongs to the client then; or none is, and the pool is as it was.
lease_for-given :
    (p : Pool) (mac : Mac) (requested : Option Ipv4Addr)
    → Leased p mac (lease_for p mac requested)
    → ((v : ℕ) × (table : List (Mac × ℕ)) × (used : List {0} (ℕ × Unit)) × (lease_for p mac
            requested
          ≡ (some (addr_of v), record p { by_mac = table; used = used }))
        × (get mac table ≡ some v))
      ⊎ (lease_for p mac requested ≡ (none, p))
unfolding Leased assign
lease_for-given p mac requested leased = elim leased [
  | inl (v, old, e, same) ↦ inl (v, p.by_mac, p.used, ap₂ (λ a b. (a, b)) e same, old)
  | inr (inl (v, new, free, lo, hi, e, same)) ↦ inl (
    v,
    insert mac v p.by_mac,
    insert v tt p.used,
    ap₂ (λ a b. (a, b)) e same,
    get-insert_self mac v p.by_mac,
  )
  | inr (inr (new, full, e, same)) ↦ inr (ap₂ (λ a b. (a, b)) e same)
]

note_name-get :
    (mac : Mac) (p : Pool) (ip : Ipv4Addr) (name : Option Text)
    → get mac (note_name p ip name).by_mac ≡ get mac p.by_mac
unfolding note_name
note_name-get mac p ip none = refl
note_name-get mac p ip (some name) = refl

on_request-given :
    (now : ℕ) (p : Pool) (req : Packet) (v : ℕ)
    → get req.chaddr p.by_mac ≡ some v
    → (get req.chaddr (on_request now req (some (addr_of v), p)).1.by_mac ≡ some v)
      × ((on_request now req (some (addr_of v), p)).0
          ≡ sent (build_reply req ack (addr_of v) p.server p.mask p.server p.lease)
            ∷ persist now (on_request now req (some (addr_of v), p)).1
            ∷ [])
unfolding on_request
on_request-given now p req v owns =
    (note_name-get req.chaddr p (addr_of v) req.hostname ∙ owns, refl)

-- A REQUEST of a client to a sound pool is answered in one of two ways. It is acknowledged with the
-- address that is the client's after the step, and the leases are written out as they are then. Or it
-- is refused and the pool stays as it was.
pub handle_request_lem :
    (now : ℕ) (p : Pool) (buf : Bytes) (req : Packet)
    → IsPool p
    → AreBytes buf
    → parse buf ≡ some req
    → req.op ≡ op_request
    → req.msg_type ≡ request
    → ((v : ℕ) × (get req.chaddr (handle now p buf).1.by_mac ≡ some v)
        × ((handle now p buf).0
            ≡ sent (build_reply req ack (addr_of v) p.server p.mask p.server p.lease)
              ∷ persist now (handle now p buf).1
              ∷ []))
      ⊎ (handle now p buf
          ≡ (sent (build_reply req nak (addr_of 0) p.server p.mask p.server 0) ∷ [], p))
unfolding on_request
handle_request_lem now p buf req ok bytes e op type =
    let asked = parse-IsRequest buf req bytes e in
    rw (handle-request now p buf req e op type)
      (elim (lease_for-given p req.chaddr req.req_ip
        (lease_for-Leased p req.chaddr req.req_ip ok asked)) [
          | inl (v, table, used, given, owns) ↦
              let q = record p { by_mac = table; used = used } in
              let (held, effects) = on_request-given now q req v owns in
              rw given (inl (v, held, effects))
          | inr refused ↦ rw refused (inr refl)
        ])

-- A DISCOVER of a client to a sound pool is answered with an offer of the address that is the client's
-- after the step; or nothing is sent and the pool stays as it was.
pub handle_discover_lem :
    (now : ℕ) (p : Pool) (buf : Bytes) (req : Packet)
    → IsPool p
    → AreBytes buf
    → parse buf ≡ some req
    → req.op ≡ op_request
    → req.msg_type ≡ discover
    → ((v : ℕ) × (get req.chaddr (handle now p buf).1.by_mac ≡ some v)
        × ((handle now p buf).0
            ≡ sent (build_reply req offer (addr_of v) p.server p.mask p.server p.lease) ∷ []))
      ⊎ (handle now p buf ≡ ([], p))
unfolding on_discover
handle_discover_lem now p buf req ok bytes e op type =
    let asked = parse-IsRequest buf req bytes e in
    rw (handle-discover now p buf req e op type)
      (elim (lease_for-given p req.chaddr req.req_ip
        (lease_for-Leased p req.chaddr req.req_ip ok asked)) [
          | inl (v, table, used, given, owns) ↦
              let q = record p { by_mac = table; used = used } in
              rw given (inl (v, note_name-get req.chaddr q (addr_of v) req.hostname ∙ owns, refl))
          | inr refused ↦ rw refused (inr refl)
        ])
