-- ===== src/Sha256/Blocks.antt =====
-- src/sha256.rs: the loop over whole blocks, as a fold that may be interrupted anywhere.
use lwrt.Base.{
  ℕ, zero, suc, ◌+◌, ◌%◌, ◌≤◌, ◌<◌, List, ◌++◌, length, take, drop, leb, ◌≡◌, refl, arith, inl, inr,
  Bool-cases, length-append, length-drop, take-append, drop-append, leb→le, le→leb, lt→not_leb,
  take_prefix, drop_prefix,
}
use lwrt.Base.Bytes.{Bytes}
use lwrt.Sha256.Compress.{compress}
use lwrt.Sha256.{whole_blocks}

-- `leb 64 n` is the loop's test.
whole_blocks-fuel :
    (f g : ℕ) (h : List ℕ) (m : Bytes)
    → length m ≤ f
    → length m ≤ g
    → whole_blocks f h m ≡ whole_blocks g h m
unfolding whole_blocks
whole_blocks-fuel zero zero h m p q = refl
whole_blocks-fuel zero (suc g) h m p q = rw (lt→not_leb 64 (length m) (omega arith))
whole_blocks-fuel (suc f) zero h m p q = rw (lt→not_leb 64 (length m) (omega arith))
whole_blocks-fuel (suc f) (suc g) h m p q = elim (Bool-cases (leb 64 (length m))) [
  | inl more ↦ rw more (
      whole_blocks-fuel f g (compress h (take 64 m)) (drop 64 m)
        (omega (arith, leb→le 64 (length m) more, length-drop 64 m))
        (omega (arith, leb→le 64 (length m) more, length-drop 64 m)))
  | inr done ↦ rw done
]

-- The loop leaves what does not fill a block.
length-whole_blocks :
    (f : ℕ) (h : List ℕ) (m : Bytes) → length m ≤ f → length (whole_blocks f h m).1 ≡ length m % 64
unfolding whole_blocks
length-whole_blocks zero h m p = omega arith
length-whole_blocks (suc f) h m p = elim (Bool-cases (leb 64 (length m))) [
  | inl more ↦
      let long = leb→le 64 (length m) more in
      let shorter = length-drop 64 m in
      rw more (
        omega (
          arith,
          long,
          shorter,
          length-whole_blocks f (compress h (take 64 m)) (drop 64 m) (omega (arith, long, shorter)),
        ))
  | inr done ↦ rw done (ground arith)
]

whole_blocks-more :
    (f : ℕ) (h : List ℕ) (m : Bytes)
    → 64 ≤ length m
    → whole_blocks (suc f) h m ≡ whole_blocks f (compress h (take 64 m)) (drop 64 m)
unfolding whole_blocks
whole_blocks-more f h m p = rw (le→leb 64 (length m) p)

whole_blocks-less : (f : ℕ) (h : List ℕ) (m : Bytes) → length m < 64 → whole_blocks f h m ≡ (h, m)
unfolding whole_blocks
whole_blocks-less zero h m p = refl
whole_blocks-less (suc f) h m p = rw (lt→not_leb 64 (length m) p)

-- Taking `m` first and then what is left of it together with `d`, on enough fuel.
append_fuel :
    (f : ℕ) (h : List ℕ) (m d : Bytes)
    → length m + length d ≤ f
    → whole_blocks f h (m ++ d)
      ≡ whole_blocks f (whole_blocks f h m).0 ((whole_blocks f h m).1 ++ d)
append_fuel zero h m d p = rw (whole_blocks-less zero h m (omega arith))
append_fuel (suc f) h m d p = elim (Bool-cases (leb 64 (length m))) [
  | inl more ↦
      let long = leb→le 64 (length m) more in
      let once = compress h (take 64 m) in
      let left = whole_blocks f once (drop 64 m) in
      let small = length-whole_blocks f once (drop 64 m) (omega (arith, length-drop 64 m)) in
      rw
        (
          whole_blocks-more f h (m ++ d) (omega (arith, length-append m d)),
          whole_blocks-more f h m long,
          take-append 64 m d long,
          drop-append 64 m d long,
          append_fuel f once (drop 64 m) d (omega (arith, length-drop 64 m)),
        )
        (whole_blocks-fuel f (suc f) left.0 (left.1 ++ d)
          (omega (arith, length-append left.1 d, length-drop 64 m, small))
          (omega (arith, length-append left.1 d, length-drop 64 m, small)))
  | inr done ↦ rw (whole_blocks-less (suc f) h m (ground arith))
]

-- All whole blocks of a message and the bytes behind the last of them.
unfoldable pub blocks : List ℕ → Bytes → List ℕ × Bytes
blocks h m = whole_blocks (length m) h m

pub blocks-append :
    (h : List ℕ) (m d : Bytes) → blocks h (m ++ d) ≡ blocks (blocks h m).0 ((blocks h m).1 ++ d)
unfolding blocks
blocks-append h m d =
    let all = length m + length d in
    let left = whole_blocks all h m in
    let small = length-whole_blocks all h m (omega arith) in
    rw
      (
        whole_blocks-fuel (length m) all h m (omega arith) (omega arith),
        whole_blocks-fuel (length (m ++ d)) all h (m ++ d) (omega arith)
            (omega (arith, length-append m d)),
        append_fuel all h m d (omega arith),
      )
      (whole_blocks-fuel all (length (left.1 ++ d)) left.0 (left.1 ++ d)
        (omega (arith, length-append left.1 d, small)) (omega arith))

pub length-blocks : (h : List ℕ) (m : Bytes) → length (blocks h m).1 ≡ length m % 64
unfolding blocks
length-blocks h m = length-whole_blocks (length m) h m (omega arith)

pub blocks-less : (h : List ℕ) (m : Bytes) → length m < 64 → blocks h m ≡ (h, m)
unfolding blocks
blocks-less h m p = whole_blocks-less (length m) h m p

-- One block that is there in full.
pub blocks-full :
    (h : List ℕ) (m d : Bytes) → length m ≡ 64 → blocks h (m ++ d) ≡ blocks (compress h m) d
unfolding blocks
blocks-full h m d p =
    let all = length d + 64 in
    rw
      (
        whole_blocks-fuel (length (m ++ d)) (suc (length d + 63)) h (m ++ d) (omega arith)
            (omega (arith, length-append m d)),
        whole_blocks-more (length d + 63) h (m ++ d) (omega (arith, length-append m d)),
        take_prefix 64 m d p,
        drop_prefix 64 m d p,
      )
      (whole_blocks-fuel (length d + 63) (length d) (compress h m) d (omega arith) (omega arith))
