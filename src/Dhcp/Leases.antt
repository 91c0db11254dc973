-- ===== src/Dhcp/Leases.antt =====
-- src/dhcp.rs: the pool never gives one address to two clients.
use lwrt.Base.{
  ℕ, zero, suc, ◌+◌, ◌%◌, ◌^◌, ◌<◌, ◌≤◌, ◌⊎◌, inl, inr, List, Option, none, some, true, false,
  if◌then◌else◌, ◌≡◌, ◌≢◌, refl, sym, ap, ◌∙◌, arith, Option-cases, Bool-cases,
}
use lwrt.Base.Map.{nat_key, get, insert, get-insert, get-insert_self, same_key, same_key_iff}
use lwrt.Text.Numbers.{Ipv4Addr, IsAddr, addr_of, u32_of, addr_of-u32_of}
use lwrt.Dhcp.{Mac}
use lwrt.Dhcp.Pool.{
  Pool, mac_key, contains, assign, first_free, lease_first, is_free_request, lease_new, lease_for,
}

pub record IsPool (p : Pool) : Type 0 where
  pub fits : p.start + p.count < 2 ^ 32
  pub ranged : (m : Mac) (v : ℕ) → get m p.by_mac ≡ some v → (p.start ≤ v) × (v < p.start + p.count)
  pub marked : (m : Mac) (v : ℕ) → get m p.by_mac ≡ some v → contains v p.used ≡ true
  pub owned : (v : ℕ) → contains v p.used ≡ true → (m : Mac) × (get m p.by_mac ≡ some v)
  pub apart : (m n : Mac) (v : ℕ) → get m p.by_mac ≡ some v → get n p.by_mac ≡ some v → m ≡ n

-- An entry after an insertion is the new one, or was there before.
leased_cases :
    (m mac : Mac) (v w : ℕ) (table : List (Mac × ℕ))
    → get m (insert mac v table) ≡ some w
    → ((mac ≡ m) × (v ≡ w)) ⊎ (get m table ≡ some w)
leased_cases m mac v w table e = ground (arith, get-insert mac m v table, same_key_iff mac m)

contains-insert :
    (v w : ℕ) (used : List {0} (ℕ × Unit))
    → contains w (insert v tt used) ≡ (if same_key v w then true else contains w used)
unfolding contains
contains-insert v w used = ground (arith, get-insert v w tt used, same_key_iff v w)

pub kept :
    (m mac : Mac) (v w : ℕ) (table : List (Mac × ℕ))
    → get mac table ≡ none
    → get m table ≡ some w
    → get m (insert mac v table) ≡ some w
kept m mac v w table free e = ground (arith, get-insert mac m v table, same_key_iff mac m)

-- An address that is not in use belongs to nobody.
in_use {ℓ} :
    {A : Type ℓ} (p : Pool) (v w : ℕ) (m : Mac)
    → IsPool p
    → contains v p.used ≡ false
    → v ≡ w
    → get m p.by_mac ≡ some w
    → A
in_use p v w m ok free same old = let held = ok.marked m w old in cc

pub assign-IsPool :
    (p : Pool) (mac : Mac) (v : ℕ)
    → IsPool p
    → get mac p.by_mac ≡ none
    → contains v p.used ≡ false
    → p.start ≤ v
    → v < p.start + p.count
    → IsPool (assign p mac v)
unfolding assign
assign-IsPool p mac v ok new free lo hi = record {
  fits = ok.fits;
  ranged = λ m w e. elim (leased_cases m mac v w p.by_mac e) [
    | inl (_, same) ↦ (omega (arith, same), omega (arith, same))
    | inr old ↦ ok.ranged m w old
  ];
  marked = λ m w e. elim (leased_cases m mac v w p.by_mac e) [
    | inl (_, same) ↦ rw (contains-insert v w p.used, (same_key_iff v w).1 same) refl
    | inr old ↦ ground (arith, contains-insert v w p.used, ok.marked m w old)
  ];
  owned = λ w e. elim (Bool-cases (same_key v w)) [
    | inl same ↦ (mac, get-insert_self mac v p.by_mac ∙ ap some ((same_key_iff v w).0 same))
    | inr other ↦
        let (m, old) = ok.owned w (ground (arith, contains-insert v w p.used, e)) in
        (m, kept m mac v w p.by_mac new old)
  ];
  apart = λ m n w e f. elim (leased_cases m mac v w p.by_mac e) [
    | inl (me, same) ↦ elim (leased_cases n mac v w p.by_mac f) [
      | inl (me2, _) ↦ sym me ∙ me2
      | inr old ↦ in_use p v w n ok free same old
    ]
    | inr old ↦ elim (leased_cases n mac v w p.by_mac f) [
      | inl (_, same) ↦ in_use p v w m ok free same old
      | inr old2 ↦ ok.apart m n w old old2
    ]
  ];
}

first_or_later : (v w : ℕ) → v ≤ w → (v ≡ w) ⊎ (v < w)
first_or_later v w h = omega arith

-- The scan from an offset on finds the first free address, and none only where all are in use.
first_free_cases :
    (p : Pool) (left off : ℕ)
    → off + left ≡ p.count
    → p.start + p.count < 2 ^ 32
    → ((first_free left off p ≡ none)
        × ((v : ℕ) → p.start + off ≤ v → v < p.start + p.count → contains v p.used ≡ true))
      ⊎ ((v : ℕ) × (first_free left off p ≡ some v)
          × (p.start ≤ v)
          × (v < p.start + p.count)
          × (contains v p.used ≡ false))
unfolding first_free
first_free_cases p zero off all fits = inl (refl, λ v lo hi. absurd (omega arith))
first_free_cases p (suc left) off all fits =
    let v = p.start + off in
    let small : v % 2 ^ 32 ≡ v = omega arith in
    elim (Bool-cases (contains v p.used)) [
      | inl taken ↦
          rw (small, taken)
            (elim (first_free_cases p left (suc off) (omega arith) fits) [
              | inl (e, full) ↦ inl (
                e,
                λ w lo hi. elim (first_or_later v w lo) [
                  | inl same ↦ rw (← same) taken
                  | inr later ↦ full w (omega arith) hi
                ],
              )
              | inr found ↦ inr found
            ])
      | inr free ↦ rw (small, free) (inr (v, refl, omega arith, omega arith, free))
    ]

-- What `lease_for` may do: the client has an address already, or it gets one that was free, or the
-- pool is exhausted.
unfoldable pub Leased : Pool → Mac → Option Ipv4Addr × Pool → Type 0
Leased p mac (answer, q) =
    ((v : ℕ) × (get mac p.by_mac ≡ some v) × (answer ≡ some (addr_of v)) × (q ≡ p))
    ⊎ ((v : ℕ) × (get mac p.by_mac ≡ none)
        × (contains v p.used ≡ false)
        × (p.start ≤ v)
        × (v < p.start + p.count)
        × (answer ≡ some (addr_of v))
        × (q ≡ assign p mac v))
    ⊎ ((get mac p.by_mac ≡ none)
        × ((v : ℕ) → p.start ≤ v → v < p.start + p.count → contains v p.used ≡ true)
        × (answer ≡ none)
        × (q ≡ p))

abbrev pub IsRequest : Option Ipv4Addr → Type 0
IsRequest none = Unit
IsRequest (some r) = IsAddr r

lease_first-none :
    (p : Pool) (mac : Mac) → first_free p.count 0 p ≡ none → lease_first p mac ≡ (none, p)
unfolding lease_first
lease_first-none p mac e = rw (e, lease_first) refl

lease_first-some :
    (p : Pool) (mac : Mac) (v : ℕ)
    → first_free p.count 0 p ≡ some v
    → lease_first p mac ≡ (some (addr_of v), assign p mac v)
unfolding lease_first
lease_first-some p mac v e = rw (e, lease_first) refl

lease_first-Leased :
    (p : Pool) (mac : Mac) → IsPool p → get mac p.by_mac ≡ none → Leased p mac (lease_first p mac)
unfolding Leased
lease_first-Leased p mac ok new = elim (first_free_cases p p.count 0 (omega arith) ok.fits) [
  | inl (e, full) ↦
      rw (lease_first-none p mac e)
        (inr (inr (new, (λ v lo hi. full v (omega arith) hi), refl, refl)))
  | inr (v, e, lo, hi, free) ↦
      rw (lease_first-some p mac v e) (inr (inl (v, new, free, lo, hi, refl, refl)))
]

is_free_request_lem :
    (p : Pool) (v : ℕ)
    → p.start + p.count < 2 ^ 32
    → is_free_request p v ≡ true
    → (p.start ≤ v) × (v < p.start + p.count) × (contains v p.used ≡ false)
unfolding is_free_request
is_free_request_lem p v fits e =
    let small : (p.start + p.count) % 2 ^ 32 ≡ p.start + p.count = omega arith in ground arith

lease_new-Leased :
    (p : Pool) (mac : Mac) (requested : Option Ipv4Addr)
    → IsPool p
    → IsRequest requested
    → get mac p.by_mac ≡ none
    → Leased p mac (lease_new p mac requested)
unfolding lease_new Leased
lease_new-Leased p mac none ok asked new = lease_first-Leased p mac ok new
lease_new-Leased p mac (some r) ok asked new = elim (Bool-cases (is_free_request p (u32_of r))) [
  | inl granted ↦
      let (lo, hi, free) = is_free_request_lem p (u32_of r) ok.fits granted in
      rw granted
        (inr (inl (u32_of r, new, free, lo, hi, ap some (sym (addr_of-u32_of r asked)), refl)))
  | inr refused ↦ rw refused (lease_first-Leased p mac ok new)
]

lease_for-new :
    (p : Pool) (mac : Mac) (requested : Option Ipv4Addr)
    → get mac p.by_mac ≡ none
    → lease_for p mac requested ≡ lease_new p mac requested
unfolding lease_for
lease_for-new p mac requested e = rw (e, lease_for) refl

pub lease_for-old :
    (p : Pool) (mac : Mac) (requested : Option Ipv4Addr) (v : ℕ)
    → get mac p.by_mac ≡ some v
    → lease_for p mac requested ≡ (some (addr_of v), p)
unfolding lease_for
lease_for-old p mac requested v e = rw (e, lease_for) refl

-- In a sound pool `lease_for` gives the address that the client has, or else a free one of the pool
-- that becomes the client's; it gives none only where every address is in use.
pub lease_for-Leased :
    (p : Pool) (mac : Mac) (requested : Option Ipv4Addr)
    → IsPool p
    → IsRequest requested
    → Leased p mac (lease_for p mac requested)
unfolding Leased
lease_for-Leased p mac requested ok asked = elim (Option-cases (get mac p.by_mac)) [
  | inl new ↦ rw (lease_for-new p mac requested new) (lease_new-Leased p mac requested ok asked new)
  | inr (v, old) ↦ rw (lease_for-old p mac requested v old) (inl (v, old, refl, refl))
]

-- `lease_for` keeps the pool sound: one owner for each address in use, all of them in the range.
pub lease_for-IsPool :
    (p : Pool) (mac : Mac) (requested : Option Ipv4Addr)
    → IsPool p
    → IsRequest requested
    → IsPool (lease_for p mac requested).1
unfolding Leased
lease_for-IsPool p mac requested ok asked = elim (lease_for-Leased p mac requested ok asked) [
  | inl (v, old, e, same) ↦ rw same ok
  | inr (inl (v, new, free, lo, hi, e, same)) ↦ rw same (assign-IsPool p mac v ok new free lo hi)
  | inr (inr (new, full, e, same)) ↦ rw same ok
]

-- Where `lease_for` gives no address to a client of a sound pool, each address of the pool's range belongs
-- to another client.
pub lease_for-none :
    (p : Pool) (mac : Mac) (requested : Option Ipv4Addr)
    → IsPool p
    → IsRequest requested
    → (lease_for p mac requested).0 ≡ none
    → (v : ℕ) → p.start ≤ v
    → v < p.start + p.count
    → (m : Mac) × (m ≢ mac) × (get m p.by_mac ≡ some v)
unfolding Leased
lease_for-none p mac requested ok asked e v lo hi =
    elim (lease_for-Leased p mac requested ok asked) [
      | inl (w, old, f, same) ↦ absurd cc
      | inr (inl (w, new, free, lo2, hi2, f, same)) ↦ absurd cc
      | inr (inr (new, full, f, same)) ↦
          let (m, owns) = ok.owned v (full v lo hi) in (m, (λ q. absurd cc), owns)
    ]
