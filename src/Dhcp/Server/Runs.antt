-- ===== src/Dhcp/Server/Runs.antt =====
-- src/dhcp.rs: the pool along every run of the server.
use lwrt.Base.{
  ℕ, ◌+◌, ◌^◌, ◌<◌, ◌≤◌, inl, inr, List, [], ◌∷◌, Option, none, some, ◌==◌, ◌≡◌, ◌↔◌, refl, subst,
  ◌∙◌, arith, Option-cases, All, if_either,
}
use lwrt.Base.Bytes.{Bytes}
use lwrt.Base.Map.{nat_key, get}
use lwrt.Text.{Text}
use lwrt.Text.Numbers.{Ipv4Addr}
use lwrt.Dhcp.{Mac, Packet, parse, op_request, discover, request}
use lwrt.Dhcp.Pool.{Pool, assign, mac_key, contains, lease_for}
use lwrt.Dhcp.Leases.{Leased, lease_for-Leased, assign-IsPool, kept, IsPool, IsRequest}
use lwrt.Dhcp.Server.Requests.{AreBytes, parse-IsRequest}
use lwrt.Dhcp.Server.{
  Effect, note_name, on_discover, grant, on_request, answer, handle, serve, fresh,
}

-- What a step may make of the pool `p`: it is sound, has the same range, and every lease is kept.
pub record Grows (p q : Pool) : Type 0 where
  pub sound : IsPool q
  pub same_start : q.start ≡ p.start
  pub same_count : q.count ≡ p.count
  pub keeps : (m : Mac) (v : ℕ) → get m p.by_mac ≡ some v → get m q.by_mac ≡ some v

Grows-refl : (p : Pool) → IsPool p → Grows p p
Grows-refl p ok = record { sound = ok; same_start = refl; same_count = refl; keeps = λ m v e. e }

Grows-trans : (p q r : Pool) → Grows p q → Grows q r → Grows p r
Grows-trans p q r g h = record {
  sound = h.sound;
  same_start = h.same_start ∙ g.same_start;
  same_count = h.same_count ∙ g.same_count;
  keeps = λ m v e. h.keeps m v (g.keeps m v e);
}

lease_for-Grows :
    (p : Pool) (mac : Mac) (requested : Option Ipv4Addr)
    → IsPool p
    → IsRequest requested
    → Grows p (lease_for p mac requested).1
unfolding Leased assign
lease_for-Grows p mac requested ok asked = elim (lease_for-Leased p mac requested ok asked) [
  | inl (v, old, e, same) ↦ rw same (Grows-refl p ok)
  | inr (inl (v, new, free, lo, hi, e, same)) ↦ rw same (record {
    sound = assign-IsPool p mac v ok new free lo hi;
    same_start = refl;
    same_count = refl;
    keeps = λ m w old. kept m mac v w p.by_mac new old;
  })
  | inr (inr (new, full, e, same)) ↦ rw same (Grows-refl p ok)
]

-- A name that is noted is not part of what the invariant speaks of.
note_name-Grows :
    (p q : Pool) (ip : Ipv4Addr) (name : Option Text) → Grows p q → Grows p (note_name q ip name)
unfolding note_name
note_name-Grows p q ip none g = g
note_name-Grows p q ip (some name) g = record {
  sound = record {
    fits = g.sound.fits;
    ranged = g.sound.ranged;
    marked = g.sound.marked;
    owned = g.sound.owned;
    apart = g.sound.apart;
  };
  same_start = g.same_start;
  same_count = g.same_count;
  keeps = g.keeps;
}

grant-Grows : (p : Pool) (req : Packet) → IsPool p → IsRequest req.req_ip → Grows p (grant p req).1
unfolding grant
grant-Grows p req ok asked = elim (Option-cases (get req.chaddr p.by_mac)) [
  | inl new ↦ rw (new, grant) (lease_for-Grows p req.chaddr req.req_ip ok asked)
  | inr (v, old) ↦ rw (old, grant) (Grows-refl p ok)
]

on_discover-Grows :
    (p : Pool) (req : Packet) (r : Option Ipv4Addr × Pool)
    → Grows p r.1
    → Grows p (on_discover req r).1
unfolding on_discover
on_discover-Grows p req (none, q) g = g
on_discover-Grows p req (some ip, q) g = note_name-Grows p q ip req.hostname g

on_request-Grows :
    (now : ℕ) (p : Pool) (req : Packet) (r : Option Ipv4Addr × Pool)
    → Grows p r.1
    → Grows p (on_request now req r).1
unfolding on_request
on_request-Grows now p req (none, q) g = g
on_request-Grows now p req (some ip, q) g = note_name-Grows p q ip req.hostname g

answer-Grows :
    (now : ℕ) (p : Pool) (req : Packet)
    → IsPool p
    → IsRequest req.req_ip
    → Grows p (answer now p req).1
unfolding answer
answer-Grows now p req ok asked =
    let P : List Effect × Pool → Type 0 = λ r. Grows p r.1 in
    if_either P (req.op == op_request)
      (if_either P (req.msg_type == discover)
        (on_discover-Grows p req (lease_for p req.chaddr req.req_ip)
          (lease_for-Grows p req.chaddr req.req_ip ok asked))
        (if_either P (req.msg_type == request)
          (on_request-Grows now p req (grant p req) (grant-Grows p req ok asked))
          (Grows-refl p ok)))
      (Grows-refl p ok)

handle-Grows :
    (now : ℕ) (p : Pool) (buf : Bytes) → IsPool p → AreBytes buf → Grows p (handle now p buf).1
unfolding handle
handle-Grows now p buf ok bytes = elim (Option-cases (parse buf)) [
  | inl e ↦ rw (e, handle) (Grows-refl p ok)
  | inr (req, e) ↦ rw (e, handle) (answer-Grows now p req ok (parse-IsRequest buf req bytes e))
]

serve-Grows :
    (p : Pool) (arrivals : List (ℕ × Bytes))
    → IsPool p
    → All (λ a. AreBytes a.1) arrivals
    → Grows p (serve p arrivals).1
unfolding serve
serve-Grows p [] ok h = Grows-refl p ok
serve-Grows p ((now, buf) ∷ rest) ok h =
    let once = handle-Grows now p buf ok h.0 in
    Grows-trans p (handle now p buf).1 (serve p ((now, buf) ∷ rest)).1 once
      (serve-Grows (handle now p buf).1 rest once.sound h.1)

-- A client that has an address in a sound pool has the same address after any datagrams, from
-- whomever and in whatever order.
pub serve-keeps :
    (p : Pool) (arrivals : List (ℕ × Bytes)) (m : Mac) (v : ℕ)
    → IsPool p
    → All (λ a. AreBytes a.1) arrivals
    → get m p.by_mac ≡ some v
    → get m (serve p arrivals).1.by_mac ≡ some v
serve-keeps p arrivals m v ok bytes held = (serve-Grows p arrivals ok bytes).keeps m v held

pub fresh-IsPool :
    (start count : ℕ) (mask server : Ipv4Addr) (lease : ℕ)
    → start + count < 2 ^ 32
    → IsPool (fresh start count mask server lease)
unfolding fresh get contains
fresh-IsPool start count mask server lease fits = record {
  fits = fits;
  ranged = λ m v e. cc;
  marked = λ m v e. cc;
  owned = λ v e. cc;
  apart = λ m n v e f. cc;
}

-- A server that starts with a range inside the 32-bit addresses, after any datagrams in any order: each
-- address that a client holds is in that range, and no other client holds it.
pub serve-fresh :
    (start count : ℕ) (mask server : Ipv4Addr) (lease : ℕ) (arrivals : List (ℕ × Bytes)) (m n : Mac)
    (v : ℕ)
    → start + count < 2 ^ 32
    → All (λ a. AreBytes a.1) arrivals
    → get m (serve (fresh start count mask server lease) arrivals).1.by_mac ≡ some v
    → (start ≤ v)
      × (v < start + count)
      × (get n (serve (fresh start count mask server lease) arrivals).1.by_mac ≡ some v ↔ m ≡ n)
unfolding fresh
serve-fresh start count mask server lease arrivals m n v fits bytes held =
    let p = fresh start count mask server lease in
    let g = serve-Grows p arrivals (fresh-IsPool start count mask server lease fits) bytes in
    let (lo, hi) = g.sound.ranged m v held in
    (
      omega (arith, lo, g.same_start),
      omega (arith, hi, g.same_start, g.same_count),
      (
        (λ e. g.sound.apart m n v held e),
        (λ e. subst (λ k. get k (serve p arrivals).1.by_mac ≡ some v) e held),
      ),
    )
