-- ===== src/Mtd/Erasing.antt =====
-- src/mtd.rs: the erase loop ends, and leaves the range blank.
use native.Mathlib.Nat.{mod-lt, mod-eq_of_lt}
use lwrt.Base.{
  ℕ, zero, suc, ◌+◌, ◌-◌, ◌*◌, ◌%◌, ◌^◌, ◌≤◌, ◌<◌, ◌⊎◌, inl, inr, min, Bool, true, false, length,
  Option, some, ltb, ltb→lt, if◌then◌else◌, ◌≡◌, refl, sym, subst, ◌∙◌, arith, Bool-cases, lt→ltb,
  le→not_ltb,
}
use lwrt.Base.Bytes.{Bytes}
use lwrt.Mtd.{div_ceil, MtdInfo, Device, block_size, range_end, erase_loop}

-- What the flash does: a block that is erased is blank, and a blank byte stays so until it is written; a
-- write over blank bytes can be read back, also after a flush.
pub record IsFlash {D : Type 0} (device : Device D) (Blank : D → ℕ → Type 0) : Type 0 where
  pub unlock_keeps : (d : D) (off bs i : ℕ) → Blank d i → Blank (device.unlock d off bs) i
  pub erase_keeps : (d : D) (off bs i : ℕ) → Blank d i → Blank (device.erase_block d off bs).1 i
  pub erase_blanks :
      (d : D) (off bs i : ℕ)
      → (device.erase_block d off bs).0 ≡ true
      → off ≤ i
      → i < off + bs
      → Blank (device.erase_block d off bs).1 i
  pub write_reads :
      (d : D) (image : Bytes)
      → ((i : ℕ) → i < length image → Blank d i)
      → (device.write_all d image).0 ≡ true
      → device.read_exact (device.write_all d image).1 (length image) ≡ some image
  pub flush_reads : (d : D) (n : ℕ) → device.read_exact (device.flush d).1 n ≡ device.read_exact d n

below : (a b : ℕ) → (a < b) ⊎ (b ≤ a)
below a b = omega arith

same_end {ℓ} :
    {A : Type ℓ} {a b : A} → ◌≡◌ {A = Option (Bool × A)} (some (true, a)) (some (true, b)) → a ≡ b
same_end e = cc

-- What a conditional answer says where it is a success.
if_erased {ℓ} :
    {A : Type ℓ} (b : Bool) (rest : Option (Bool × A)) (a e : A)
    → (if b then rest else some (false, a)) ≡ some (true, e)
    → (b ≡ true) × (rest ≡ some (true, e))
if_erased true rest a e h = (refl, h)
if_erased false rest a e h = absurd cc

module _ {D : Type 0} (device : Device D) where
  -- What the block at `off` leaves.
  abbrev erased : D → ℕ → ℕ → Bool × D
  erased d off bs = device.erase_block (device.unlock d off bs) off bs

  erase_loop-more :
      (fuel : ℕ) (d : D) (off end bs : ℕ)
      → off < end
      → off + bs < 2 ^ 32
      → erase_loop device (suc fuel) d off end bs ≡ (
          if (erased d off bs).0
          then erase_loop device fuel (erased d off bs).1 (off + bs) end bs
          else some (false, (erased d off bs).1))
  unfolding erase_loop
  erase_loop-more fuel d off end bs more fits =
      let wrap : (off + bs) % 2 ^ 32 ≡ off + bs = omega arith in rw (lt→ltb off end more, wrap) refl

  erase_loop-done :
      (fuel : ℕ) (d : D) (off end bs : ℕ)
      → end ≤ off
      → erase_loop device fuel d off end bs ≡ some (true, d)
  unfolding erase_loop
  erase_loop-done zero d off end bs done = rw (le→not_ltb off end done) refl
  erase_loop-done (suc fuel) d off end bs done = rw (le→not_ltb off end done) refl

  -- The loop ends within the fuel.
  pub erase_loop-ends :
      (fuel : ℕ) (d : D) (off end bs : ℕ)
      → 0 < bs
      → end + bs ≤ 2 ^ 32
      → end ≤ off + fuel
      → (r : Bool × D) × (erase_loop device fuel d off end bs ≡ some r)
  erase_loop-ends zero d off end bs pos fits enough =
      ((true, d), erase_loop-done zero d off end bs (omega arith))
  erase_loop-ends (suc fuel) d off end bs pos fits enough = elim (below off end) [
    | inl more ↦
        let (r, e) =
          erase_loop-ends fuel (erased d off bs).1 (off + bs) end bs pos fits (omega arith) in
        let step = erase_loop-more fuel d off end bs more (omega arith) in
        elim (Bool-cases (erased d off bs).0) [
          | inl ok ↦ (r, step ∙ rw ok e)
          | inr failed ↦ ((false, (erased d off bs).1), step ∙ rw failed refl)
        ]
    | inr done ↦ ((true, d), erase_loop-done (suc fuel) d off end bs done)
  ]

  -- A byte that is blank already, if it lies in front of the place of the loop, is blank at the end.
  pub erase_loop-blanks :
      (Blank : D → ℕ → Type 0)
      → IsFlash device Blank
      → (fuel : ℕ) (d e : D) (off end bs i : ℕ) → end + bs ≤ 2 ^ 32
      → end ≤ off + fuel
      → 0 < bs
      → i < end
      → (i < off → Blank d i)
      → erase_loop device fuel d off end bs ≡ some (true, e)
      → Blank e i
  erase_loop-blanks Blank flash zero d e off end bs i fits enough pos inside before done =
      subst (λ k. Blank k i)
        (same_end (sym (erase_loop-done zero d off end bs (omega arith)) ∙ done))
        (before (omega arith))
  erase_loop-blanks Blank flash (suc fuel) d e off end bs i fits enough pos inside before done =
      elim (below off end) [
        | inr past ↦
            subst (λ k. Blank k i)
              (same_end (sym (erase_loop-done (suc fuel) d off end bs past) ∙ done))
              (before (omega arith))
        | inl more ↦
            let (ok, later) =
              if_erased (erased d off bs).0 _ (erased d off bs).1 e
                (sym (erase_loop-more fuel d off end bs more (omega arith)) ∙ done) in
            erase_loop-blanks Blank flash fuel (erased d off bs).1 e (off + bs) end bs i fits
              (omega arith) pos inside
              (λ reached. elim (below i off) [
                | inl old ↦
                    flash.erase_keeps (device.unlock d off bs) off bs i
                      (flash.unlock_keeps d off bs i (before old))
                | inr now ↦ flash.erase_blanks (device.unlock d off bs) off bs i ok now reached
              ])
              later
      ]

-- Rounding up to whole blocks covers the number, by less than a block more.
div_ceil-bounds : (n d : ℕ) → 0 < d → (n ≤ div_ceil n d * d) × (div_ceil n d * d < n + d)
div_ceil-bounds n d pos = elim (Bool-cases (ltb 0 (n % d))) [
  | inl more ↦ rw more (
    omega (arith, mod-lt n pos, ltb→lt 0 (n % d) more),
    omega (arith, mod-lt n pos, ltb→lt 0 (n % d) more),
  )
  | inr none_more ↦ let whole : n % d ≡ 0 = ground arith in rw none_more (omega arith, omega arith)
]

pub block_size-pos : (info : MtdInfo) → 0 < block_size info
block_size-pos info = ground arith

-- Where the partition ends a block or more below 2^32: the range that is erased ends inside it, and
-- covers the bytes that are asked for.
pub range_end-bounds :
    (info : MtdInfo) (len : ℕ)
    → info.size + block_size info ≤ 2 ^ 32
    → len ≤ info.size
    → (len ≤ range_end info 0 len) × (range_end info 0 len ≤ info.size)
unfolding range_end
range_end-bounds info len fits inside =
    let bs = block_size info in
    let pos = block_size-pos info in
    let n = min (0 + len) (2 ^ 32 - 1) in
    let (lo, hi) = div_ceil-bounds n bs pos in
    let product = div_ceil n bs * bs in
    let wrap : product % 2 ^ 32 ≡ product = mod-eq_of_lt (omega arith) in
    rw wrap (omega arith, omega arith)
