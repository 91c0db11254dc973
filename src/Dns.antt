-- ===== src/Dns.antt =====
-- src/dns.rs: the name in a question, the answer for a leased hostname, and a round of the loop with its
-- cache. The clock, the content of the file of the leases and what the upstream server sends back come
-- with the query; `lossy` is `String::from_utf8_lossy`. Sockets are not modelled.
pub mod Answers
pub mod Names
pub mod Leases
pub mod Replies
mod Tests
use lwrt.Base.{
  ℕ, zero, suc, ◌+◌, ◌-◌, ◌*◌, ◌^◌, Bool, true, false, ◌||◌, List, [], ◌∷◌, ◌++◌, Option, none,
  some, length, take, drop, map, get_or, ltb, leb, ◌==◌, if◌then◌else◌, not,
}
use lwrt.Base.Options.{◌>>=◌}
use lwrt.Base.Bytes.{Bytes, codes, be16, be32, copy_at}
use lwrt.Base.Map.{get, insert, bytes_key}
use lwrt.Text.{
  Text, is_whitespace, lower, equal, trim, split_by, filter_by, is_empty, lines, strip_prefix,
  strip_suffix,
}
use lwrt.Text.Numbers.{Ipv4Addr, octets, parse_ipv4}

-- `upstream`, of the content of the file with the name server.
abbrev or_default : Option Ipv4Addr → Ipv4Addr
or_default none = record { a = 1; b = 1; c = 1; d = 1 }
or_default (some addr) = addr

abbrev parsed : Option Text → Option Ipv4Addr
parsed none = none
parsed (some s) = parse_ipv4 (trim s)

unfoldable pub upstream : Option Text → Ipv4Addr
upstream file = or_default (parsed file)

-- `parts.join(".")`
unfoldable pub join : List Text → Text
join [] = []
join (s ∷ []) = s
join (s ∷ t ∷ parts) = s ++ (b'.' ∷ join (t ∷ parts))

-- `read_name` behind `pos`: the labels, and the position behind them.
module _ (lossy : Bytes → Text) where
  unfoldable pub labels : ℕ → Bytes → ℕ → List Text → Option (List Text × ℕ)
  labels zero bs pos parts = none
  labels (suc fuel) [] pos parts = none
  labels (suc fuel) (len ∷ bs) pos parts =
      let rest = labels fuel (drop len bs) (pos + 1 + len) (parts ++ lossy (take len bs) ∷ []) in
      if len == 0
      then some (parts, pos + 1)
      else if leb 0xc0 len
      then none
      else if ltb (length bs) len
      then none
      else rest

  unfoldable pub read_name : Bytes → ℕ → Option (Text × ℕ)
  unfolding labels
  read_name buf pos =
      labels (length buf) (drop pos buf) pos [] >>= λ name. some (join name.0, name.1)

-- `trim_end_matches`: each round takes off a character or more.
abbrev pub trimmed : ℕ → Text → Text → Text
trimmed zero suffix s = s
trimmed (suc fuel) suffix s = elim (strip_suffix suffix s) [
  | none ↦ s
  | some front ↦ trimmed fuel suffix front
]

unfoldable pub trim_end_matches : Text → Text → Text
trim_end_matches suffix s = trimmed (length s) suffix s

abbrev pub split_whitespace : Text → List Text
split_whitespace s = filter_by (λ part. not (is_empty part)) (split_by is_whitespace s)

abbrev pub leased : Text → List Text → Option Text
leased host (expiry ∷ mac ∷ ip ∷ name ∷ more) =
    if equal (map lower name) (map lower host) then some ip else none
leased host _ = none

abbrev pub or_later : Option Text → Option Ipv4Addr → Option Ipv4Addr
or_later none later = later
or_later (some ip) later = parse_ipv4 ip

unfoldable pub lookup_in : Text → List Text → Option Ipv4Addr
lookup_in host [] = none
lookup_in host (line ∷ rest) = or_later (leased host (split_whitespace line)) (lookup_in host rest)

unfoldable pub lookup_lease : Option Text → Text → Option Ipv4Addr
unfolding lookup_in
lookup_lease none host = none
lookup_lease (some text) host = lookup_in host (lines text)

-- The question, with the header of an answer, and the record behind it.
unfoldable pub lease_reply : Bytes → ℕ → Ipv4Addr → Bytes
lease_reply query after ip =
    copy_at (copy_at (take (after + 4) query) 2 (0x81 ∷ 0x80 ∷ [])) 6 (0 ∷ 1 ∷ [])
    ++ ((0xc0 ∷ 0x0c ∷ []) ++ (be16 1 ++ (be16 1 ++ (be32 120 ++ (be16 4 ++ octets ip)))))

abbrev pub byte : Bytes → ℕ → ℕ
byte bs i = get_or bs i 0

module _ (lossy : Bytes → Text) where
  abbrev pub answer_for : Bytes → Option Text → Text × ℕ → Option Bytes
  answer_for query leases (name, after) =
      let found = lookup_lease leases (map lower (trim_end_matches (codes ".lan") name)) >>= λ ip.
      some (lease_reply query after ip) in
      if ltb (length query) (after + 4)
      then none
      else if not (byte query after * 256 + byte query (after + 1) == 1)
      then none
      else found

  unfoldable pub local_answer : Option Text → Bytes → Option Bytes
  unfolding lookup_lease lease_reply trim_end_matches
  local_answer leases query =
      let found = read_name lossy query 12 >>= answer_for query leases in
      if not (byte query 4 * 256 + byte query 5 == 1) then none else found

-- The loop

-- What `recv_from` gives, when the cache is looked at, and when the reply is stored.
pub record Query : Type 0 where
  pub bytes : Bytes
  pub leases : Option Text
  pub asked_at : ℕ
  pub response : Option Bytes
  pub stored_at : ℕ

-- Question section to a response and its time in nanoseconds.
abbrev pub Cache : Type 0
Cache = List (Bytes × (Bytes × ℕ))

abbrev pub ttl : ℕ
ttl = 60 * 10 ^ 9

-- The writes to the first two bytes, which panic where they are not there.
abbrev pub with_id : ℕ → ℕ → Bytes → Option Bytes
with_id a b (x ∷ y ∷ bs) = some (a ∷ b ∷ bs)
with_id a b _ = none

-- None is a panic, which ends the process.
abbrev pub Outcome : Type 0
Outcome = Option (Option Bytes × Cache)

abbrev pub stored : Query → Bytes → Cache → Option Bytes → Outcome
stored q resp cache none = none
stored q resp cache (some store) =
    some (some resp, insert (drop 12 q.bytes) (store, q.stored_at) cache)

abbrev pub forwarded : Query → Cache → Option Bytes → Outcome
forwarded q cache none = some (none, cache)
forwarded q cache (some resp) = stored q resp cache (with_id 0 0 resp)

abbrev pub hit : Cache → Option Bytes → Outcome
hit cache none = none
hit cache (some out) = some (some out, cache)

abbrev pub cached : Query → Cache → Option (Bytes × ℕ) → Outcome
cached q cache none = forwarded q cache q.response
cached q cache (some (resp, when)) =
    if ltb (q.asked_at - when) ttl
    then hit cache (with_id (byte q.bytes 0) (byte q.bytes 1) resp)
    else forwarded q cache q.response

abbrev pub answered : Query → Cache → Option Bytes → Outcome
answered q cache (some reply) = some (some reply, cache)
answered q cache none = cached q cache (get (drop 12 q.bytes) cache)

module _ (lossy : Bytes → Text) where
  unfoldable pub step : Query → Cache → Outcome
  step q cache =
      let reply = answered q cache (local_answer lossy q.leases q.bytes) in
      if ltb (length q.bytes) 12 then some (none, cache) else reply

  abbrev pub next : Outcome → (Cache → Option Cache) → Option Cache
  next none more = none
  next (some (reply, cache)) more = more cache

  -- The cache after some queries.
  unfoldable pub run : List Query → Cache → Option Cache
  unfolding step
  run [] cache = some cache
  run (q ∷ qs) cache = next (step q cache) (run qs)
