-- ===== src/Ubus/Sets.antt =====
-- src/ubus.rs: sets of connections, and lists of objects that are filtered.
use lwrt.Base.{
  ℕ, Bool, true, false, List, [], ◌∷◌, ◌++◌, ◌==◌, if◌then◌else◌, ◌≡◌, refl, subst, inl, inr, All,
  All-append, arith, Bool-cases, ==_iff, if_either,
}
use lwrt.Base.Map.{nat_key}
use lwrt.Text.{equal, filter_by}
use lwrt.Text.Filtering.{filter_by-All}
use lwrt.Ubus.{Object, Ids, has, put, discard}

-- No two objects of the list have the same path.
abbrev pub Distinct : List Object → Type 0
Distinct [] = Unit
Distinct (o ∷ rest) = All (λ o'. equal o.path o'.path ≡ false) rest × Distinct rest

-- Sets

pub has-put : (i j : ℕ) (ids : Ids) → has j (put i ids) ≡ (if i == j then true else has j ids)
unfolding has put
has-put i j ids = elim (Bool-cases (has i ids)) [
  | inl e ↦ rw e (elim (Bool-cases (i == j)) [
    | inl k ↦ rw k (subst (λ j. has j ids ≡ true) ((==_iff i j).0 k) e)
    | inr k ↦ rw k refl
  ])
  | inr e ↦ rw e refl
]

pub has-discard :
    (i j : ℕ) (ids : Ids) → has j (discard i ids) ≡ (if i == j then false else has j ids)
unfolding has discard
has-discard i j [] = ground arith
has-discard i j (k ∷ ids) = ground (arith, has-discard i j ids)

pub Distinct-filter_by :
    (q : Object → Bool) (os : List Object) → Distinct os → Distinct (filter_by q os)
unfolding filter_by
Distinct-filter_by q [] h = tt
Distinct-filter_by q (o ∷ os) (h, hs) =
    let rest = Distinct-filter_by q os hs in
    if_either Distinct (q o) (filter_by-All q (λ o'. equal o.path o'.path ≡ false) os h, rest) rest

pub Distinct-append :
    (os : List Object) (o : Object)
    → Distinct os
    → All (λ o'. equal o'.path o.path ≡ false) os
    → Distinct (os ++ o ∷ [])
Distinct-append [] o h k = (tt, tt)
Distinct-append (o1 ∷ os) o (h, hs) (k, ks) = (
  All-append (λ o'. equal o1.path o'.path ≡ false) os (o ∷ []) h (k, tt),
  Distinct-append os o hs ks,
)
