-- ===== src/Base/Map.antt =====
-- A `BTreeMap` as its entries in key order, over keys that are compared by `cmp`.
use Prim.Native.Nat.{ℕ, compare, Ordering}
use lwrt.Base.Tests.{if◌then◌else◌}
use lwrt.Base.Bytes.{Bytes}
use mathlib.Core.Path.{◌≡◌, refl}
use mathlib.Core.Logic.{◌↔◌}
use mathlib.Core.Bool.{Bool, true, false}
use mathlib.Core.Option.{Option, none, some}
use mathlib.Core.List.{List, [], ◌∷◌}
use native.Mathlib.Omega.{arith}

-- The `Ord` of a key type, and what the map needs of it.
pub record Key {ℓ} (K : Type ℓ) : Type ℓ where
  pub cmp : K → K → Ordering
  pub cmp_iff : (a b : K) → (cmp a b ≡ Ordering.eq) ↔ (a ≡ b)

pub compare_iff : (a b : ℕ) → (compare a b ≡ Ordering.eq) ↔ (a ≡ b)
compare_iff a b = ground arith

instance abbrev pub nat_key : Key ℕ
nat_key = record { cmp = compare; cmp_iff = compare_iff }

-- Arrays, slices and texts are ordered lexicographically.
unfoldable pub compare_bytes : Bytes → Bytes → Ordering
compare_bytes [] [] = Ordering.eq
compare_bytes [] (y ∷ ys) = Ordering.lt
compare_bytes (x ∷ xs) [] = Ordering.gt
compare_bytes (x ∷ xs) (y ∷ ys) = elim (compare x y) [
  | Ordering.lt ↦ Ordering.lt
  | Ordering.eq ↦ compare_bytes xs ys
  | Ordering.gt ↦ Ordering.gt
]

pub compare_bytes_iff : (a b : Bytes) → (compare_bytes a b ≡ Ordering.eq) ↔ (a ≡ b)
unfolding compare_bytes
compare_bytes_iff [] [] = ground arith
compare_bytes_iff [] (y ∷ ys) = ground arith
compare_bytes_iff (x ∷ xs) [] = ground arith
compare_bytes_iff (x ∷ xs) (y ∷ ys) = ground (arith, compare_bytes_iff xs ys)

instance abbrev pub bytes_key : Key Bytes
bytes_key = record { cmp = compare_bytes; cmp_iff = compare_bytes_iff }

module _ {ℓ} {K : Type ℓ} ⦃key : Key K⦄ where
  abbrev pub same_key : K → K → Bool
  same_key a b = elim (key.cmp a b) [ Ordering.eq ↦ true | _ ↦ false ]

  pub same_key_iff : (a b : K) → (same_key a b ≡ true) ↔ (a ≡ b)
  same_key_iff a b = ground (arith, key.cmp_iff a b)

module _ {ℓ κ} {K : Type ℓ} ⦃key : Key K⦄ {V : Type κ} where
  unfoldable pub get : K → List (K × V) → Option V
  get k [] = none
  get k ((j, v) ∷ m) = if same_key j k then some v else get k m

  unfoldable pub insert : K → V → List (K × V) → List (K × V)
  insert k v [] = (k, v) ∷ []
  insert k v ((j, w) ∷ m) = elim (key.cmp k j) [
    | Ordering.lt ↦ (k, v) ∷ (j, w) ∷ m
    | Ordering.eq ↦ (k, v) ∷ m
    | Ordering.gt ↦ (j, w) ∷ insert k v m
  ]

  pub get-insert :
      (k j : K) (v : V) (m : List (K × V))
      → get j (insert k v m) ≡ (if same_key k j then some v else get j m)
  unfolding get insert
  get-insert k j v [] = refl
  get-insert k j v ((i, w) ∷ m) =
      ground (arith, get-insert k j v m, key.cmp_iff k j, key.cmp_iff k i, key.cmp_iff i j)

  pub get-insert_self : (k : K) (v : V) (m : List (K × V)) → get k (insert k v m) ≡ some v
  get-insert_self k v m = rw (get-insert k k v m, (same_key_iff k k).1 refl)

  unfoldable pub remove : K → List (K × V) → List (K × V)
  remove k [] = []
  remove k ((j, v) ∷ m) = if same_key j k then remove k m else (j, v) ∷ remove k m

  pub get-remove :
      (k j : K) (m : List (K × V)) → get j (remove k m) ≡ (if same_key k j then none else get j m)
  unfolding get remove
  get-remove k j [] = ground arith
  get-remove k j ((i, w) ∷ m) =
      ground (arith, get-remove k j m, same_key_iff i k, same_key_iff i j, same_key_iff k j)
