-- ===== src/Dns/Replies.antt =====
-- src/dns.rs: the local answer to a question for a name.
use lwrt.Base.{
  ℕ, ◌+◌, ◌*◌, ◌≡◌, refl, ap, ◌∙◌, inl, inr, Bool, true, false, not, List, [], ◌∷◌, ◌++◌, map,
  Option, none, some, length, take, get_or, get_or-append, ◌==◌, if◌then◌else◌, All, Bool-cases,
  append_assoc, length-append, take_prefix, le→not_ltb, arith,
}
use lwrt.Base.Options.{◌>>=◌}
use lwrt.Base.Bytes.{Bytes, copy_at}
use lwrt.Text.{Text}
use lwrt.Text.Numbers.{Ipv4Addr, octets}
use lwrt.Dns.{join, read_name, lease_reply, answer_for, local_answer}
use lwrt.Dns.Names.{IsLabel, encode_name, read_name-encode_name}
use lwrt.Dns.Leases.{Lease, IsLease, IsHost, file, leased_address, lookup_lease-file}

-- The header of a query: its id, its flags and its four counts.
pub record Header : Type 0 where
  pub i0 : ℕ
  pub i1 : ℕ
  pub f0 : ℕ
  pub f1 : ℕ
  pub q0 : ℕ
  pub q1 : ℕ
  pub an0 : ℕ
  pub an1 : ℕ
  pub ns0 : ℕ
  pub ns1 : ℕ
  pub ar0 : ℕ
  pub ar1 : ℕ

-- The name, the type and the class.
pub record Question : Type 0 where
  pub labels : List Bytes
  pub t0 : ℕ
  pub t1 : ℕ
  pub c0 : ℕ
  pub c1 : ℕ

abbrev tail : Question → Bytes
tail q = q.t0 ∷ q.t1 ∷ q.c0 ∷ q.c1 ∷ []

abbrev pub question : Question → Bytes
question q = encode_name q.labels ++ tail q

abbrev pub query : Header → Question → Bytes → Bytes
query h q rest =
    h.i0
    ∷ h.i1
    ∷ h.f0
    ∷ h.f1
    ∷ h.q0
    ∷ h.q1
    ∷ h.an0
    ∷ h.an1
    ∷ h.ns0
    ∷ h.ns1
    ∷ h.ar0
    ∷ h.ar1
    ∷ (question q ++ rest)

-- The reply: the id and the counts of the query but for one answer, the question, and behind it the
-- address, with a pointer to the name, for two minutes.
abbrev pub reply : Header → Question → Ipv4Addr → Bytes
reply h q ip =
    h.i0
    ∷ h.i1
    ∷ 0x81
    ∷ 0x80
    ∷ h.q0
    ∷ h.q1
    ∷ 0
    ∷ 1
    ∷ h.ns0
    ∷ h.ns1
    ∷ h.ar0
    ∷ h.ar1
    ∷ (question q ++ (0xc0 ∷ 0x0c ∷ 0 ∷ 1 ∷ 0 ∷ 1 ∷ 0 ∷ 0 ∷ 0 ∷ 120 ∷ 0 ∷ 4 ∷ octets ip))

abbrev pub answered_with : Option Ipv4Addr → (Ipv4Addr → Bytes) → Option Bytes
answered_with none f = none
answered_with (some ip) f = some (f ip)

taken :
    (h : Header) (q : Question) (rest : Bytes)
    → take (12 + length (encode_name q.labels) + 4) (query h q rest)
      ≡ h.i0
        ∷ h.i1
        ∷ h.f0
        ∷ h.f1
        ∷ h.q0
        ∷ h.q1
        ∷ h.an0
        ∷ h.an1
        ∷ h.ns0
        ∷ h.ns1
        ∷ h.ar0
        ∷ h.ar1
        ∷ question q
taken h q rest =
    take_prefix (12 + length (encode_name q.labels) + 4)
      (h.i0
        ∷ h.i1
        ∷ h.f0
        ∷ h.f1
        ∷ h.q0
        ∷ h.q1
        ∷ h.an0
        ∷ h.an1
        ∷ h.ns0
        ∷ h.ns1
        ∷ h.ar0
        ∷ h.ar1
        ∷ question q)
      rest (omega (arith, length-append (encode_name q.labels) (tail q)))

lease_reply-query :
    (h : Header) (q : Question) (rest : Bytes) (ip : Ipv4Addr)
    → lease_reply (query h q rest) (12 + length (encode_name q.labels)) ip ≡ reply h q ip
unfolding lease_reply copy_at
lease_reply-query h q rest ip = rw (taken h q rest) refl

abbrev front : Header → Bytes
front h =
    h.i0 ∷ h.i1 ∷ h.f0 ∷ h.f1 ∷ h.q0 ∷ h.q1 ∷ h.an0 ∷ h.an1 ∷ h.ns0 ∷ h.ns1 ∷ h.ar0 ∷ h.ar1 ∷ []

abbrev after : Question → ℕ
after q = 12 + length (encode_name q.labels)

read_name-query :
    (lossy : Bytes → Text) (h : Header) (q : Question) (rest : Bytes)
    → All IsLabel q.labels
    → read_name lossy (query h q rest) 12 ≡ some (join (map lossy q.labels), after q)
read_name-query lossy h q rest w =
    ap (λ bs. read_name lossy (front h ++ bs) 12)
      (append_assoc (encode_name q.labels) (tail q) rest)
    ∙ read_name-encode_name lossy (front h) (tail q ++ rest) q.labels w

-- The bytes behind the name.
byte-after :
    (h : Header) (q : Question) (rest : Bytes) (i k : ℕ)
    → after q + i ≡ k
    → get_or (query h q rest) k 0 ≡ get_or (tail q ++ rest) i 0
byte-after h q rest i k e =
    let named = front h ++ encode_name q.labels in
    let place : k ≡ length named + i =
      omega (arith, e, length-append (front h) (encode_name q.labels)) in
    ap (λ bs. get_or (front h ++ bs) k 0) (append_assoc (encode_name q.labels) (tail q) rest)
    ∙ ap (λ j. get_or (named ++ (tail q ++ rest)) j 0) place
    ∙ get_or-append named (tail q ++ rest) i 0

answer_for-query :
    (lossy : Bytes → Text) (h : Header) (q : Question) (rest : Bytes) (leases : List Lease)
    (host : Text)
    → All IsLease leases
    → IsHost (join (map lossy q.labels)) host
    → answer_for lossy (query h q rest) (some (file leases)) (join (map lossy q.labels), after q)
      ≡ (if q.t0 * 256 + q.t1 == 1
          then answered_with (leased_address host leases) (reply h q)
          else none)
answer_for-query lossy h q rest leases host k i =
    rw
      (
        le→not_ltb (length (query h q rest)) (after q + 4) (
            omega (
              arith,
              length-append (question q) rest,
              length-append (encode_name q.labels) (tail q),
            )),
        byte-after h q rest 0 (after q) (omega arith),
        byte-after h q rest 1 (after q + 1) refl,
        lookup_lease-file (join (map lossy q.labels)) host leases k i,
      )
      (either (q.t0 * 256 + q.t1 == 1) (leased_address host leases))
  where
    either :
        (b : Bool) (o : Option Ipv4Addr)
        → (if not b then none else (o >>= λ ip. some (lease_reply (query h q rest) (after q) ip)))
          ≡ (if b then answered_with o (reply h q) else none)
    either false o = refl
    either true none = refl
    either true (some ip) = ap some (lease_reply-query h q rest ip)

-- A query with a whole question of an encoded name, labels of 1 to 191 bytes, to a host that has the name as
-- it is or with .lan behind it, and a file of leases whose fields have no whitespace: where the query has
-- one question and it is for an address, and a lease has the host's name, letter case aside, the answer
-- is the reply with the address of the first such lease, where that is one; else there is no local answer.
pub local_answer-query :
    (lossy : Bytes → Text) (h : Header) (q : Question) (rest : Bytes) (leases : List Lease)
    (host : Text)
    → All IsLabel q.labels
    → All IsLease leases
    → IsHost (join (map lossy q.labels)) host
    → local_answer lossy (some (file leases)) (query h q rest) ≡ (
        if h.q0 * 256 + h.q1 == 1
        then (if q.t0 * 256 + q.t1 == 1
            then answered_with (leased_address host leases) (reply h q)
            else none)
        else none)
unfolding local_answer
local_answer-query lossy h q rest leases host w k i = elim (Bool-cases (h.q0 * 256 + h.q1 == 1)) [
  | inr differ ↦ rw differ refl
  | inl one ↦
      rw (one, read_name-query lossy h q rest w) (answer_for-query lossy h q rest leases host k i)
]
