-- ===== src/Mtd/Writing.antt =====
-- src/mtd.rs: a `write` that reports success has stored the image.
use lwrt.Base.{
  ℕ, ◌+◌, ◌-◌, ◌%◌, ◌^◌, ◌≤◌, ◌<◌, ◌⊎◌, inl, inr, Bool, true, false, length, Option, none, some,
  if◌then◌else◌, ◌≡◌, refl, sym, ap, ◌∙◌, arith, le→not_ltb, lt→ltb,
}
use lwrt.Base.Bytes.{Bytes}
use lwrt.Base.Map.{same_key_iff, bytes_key}
use lwrt.Mtd.{
  MtdInfo, Device, block_size, range_end, erase_loop, erase_range, write_erased, write, verify,
}
use lwrt.Mtd.Erasing.{IsFlash, erase_loop-ends, erase_loop-blanks, range_end-bounds, block_size-pos}

below : (a b : ℕ) → (a < b) ⊎ (b ≤ a)
below a b = omega arith

abbrev exit_code {ℓ} : {D : Type ℓ} → Option (ℕ × D) → ℕ
exit_code none = 0
exit_code (some c) = c.0

not_zero {ℓ κ} :
    {D : Type ℓ} {A : Type κ} {d e : D} → ◌≡◌ {A = Option (ℕ × D)} (some (1, d)) (some (0, e)) → A
not_zero h = let codes : ◌≡◌ {A = ℕ} 1 0 = ap exit_code h in absurd (omega (arith, codes))

if_ends {ℓ} :
    {D : Type ℓ} (written flushed : Bool) (d1 d2 : D)
    → (c : ℕ × D) × ((if written
          then (if flushed then some (0, d2) else some (1, d2))
          else some (1, d1))
        ≡ some c)
if_ends true true d1 d2 = ((0, d2), refl)
if_ends true false d1 d2 = ((1, d2), refl)
if_ends false flushed d1 d2 = ((1, d1), refl)

if_stored {ℓ} :
    {D : Type ℓ} (written flushed : Bool) (d1 d2 e : D)
    → ◌≡◌ {A = Option (ℕ × D)}
        (if written then (if flushed then some (0, d2) else some (1, d2)) else some (1, d1))
        (some (0, e))
    → (written ≡ true) × (d2 ≡ e)
if_stored true true d1 d2 e h = (refl, cc)
if_stored true false d1 d2 e h = not_zero h
if_stored false flushed d1 d2 e h = not_zero h

whole :
    (info : MtdInfo) (image : Bytes)
    → info.size + block_size info ≤ 2 ^ 32
    → length image ≤ info.size
    → length image % 2 ^ 32 ≡ length image
whole info image fits inside = let pos = block_size-pos info in omega arith

module _ {D : Type 0} (device : Device D) where
  erase_range-zero :
      (d : D) (info : MtdInfo) (len : ℕ)
      → erase_range device d info 0 len
        ≡ erase_loop device (range_end info 0 len) d 0 (range_end info 0 len) (block_size info)
  unfolding erase_range
  erase_range-zero d info len =
      let aligned : 0 - 0 % block_size info ≡ 0 = omega arith in rw aligned refl

  write_erased-ends :
      (image : Bytes) (r : Bool × D) → (c : ℕ × D) × (write_erased device image (some r) ≡ some c)
  unfolding write_erased
  write_erased-ends image (false, d) = ((1, d), refl)
  write_erased-ends image (true, d) =
      let (written, d1) = device.write_all d image in
      let (flushed, d2) = device.flush d1 in if_ends written flushed d1 d2

  -- The image fits: the loop from the start, and what follows it.
  write-small :
      (d : D) (image : Bytes) (info : MtdInfo)
      → info.size + block_size info ≤ 2 ^ 32
      → length image ≤ info.size
      → write device d (some image) (some info)
        ≡ write_erased device image (
            erase_loop device
              (range_end info 0 (length image))
              d
              0
              (range_end info 0 (length image))
              (block_size info))
  unfolding write
  write-small d image info fits inside =
      rw (le→not_ltb info.size (length image) inside, whole info image fits inside)
        (ap (write_erased device image) (erase_range-zero d info (length image)))

  write-large :
      (d : D) (image : Bytes) (info : MtdInfo)
      → info.size < length image
      → write device d (some image) (some info) ≡ some (1, d)
  unfolding write
  write-large d image info large = rw (lt→ltb info.size (length image) large) refl

  -- Whatever the device answers, `write` of an image to a partition that ends a block or more below
  -- 2^32 ends with an exit code: its erase loop has fuel enough.
  pub write-ends :
      (d : D) (image : Bytes) (info : MtdInfo)
      → info.size + block_size info ≤ 2 ^ 32
      → (c : ℕ × D) × (write device d (some image) (some info) ≡ some c)
  write-ends d image info fits = elim (below info.size (length image)) [
    | inl large ↦ ((1, d), write-large d image info large)
    | inr inside ↦
        let end = range_end info 0 (length image) in
        let (_, last) = range_end-bounds info (length image) fits inside in
        let (r, e) =
          erase_loop-ends device end d 0 end (block_size info) (block_size-pos info)
            (omega (arith, last)) (omega arith) in
        let (c, f) = write_erased-ends image r in
        (c, write-small d image info fits inside ∙ (ap (write_erased device image) e ∙ f))
  ]

  -- What a success says of the steps behind it.
  write_erased-success :
      (image : Bytes) (r : Option (Bool × D)) (e : D)
      → write_erased device image r ≡ some (0, e)
      → (d : D) × (r ≡ some (true, d))
        × ((device.write_all d image).0 ≡ true)
        × ((device.flush (device.write_all d image).1).1 ≡ e)
  unfolding write_erased
  write_erased-success image none e h = absurd cc
  write_erased-success image (some (false, d)) e h = not_zero h
  write_erased-success image (some (true, d)) e h =
      let d1 = (device.write_all d image).1 in
      let d2 = (device.flush d1).1 in
      let (written, same) = if_stored (device.write_all d image).0 (device.flush d1).0 d1 d2 e h in
      (d, refl, written, same)

  verify-reads :
      (e : D) (image : Bytes) (info : MtdInfo)
      → device.read_exact e (length image) ≡ some image
      → verify device e (some image) (some info) ≡ 0
  unfolding verify
  verify-reads e image info reads = rw (reads, verify, (same_key_iff image image).1 refl) refl

  -- On a flash that erases and stores as documented, with a partition that ends a block or more below
  -- 2^32: after a `write` with exit code 0, `verify` of the same image gives 0.
  pub verify-write :
      (Blank : D → ℕ → Type 0) (d e : D) (image : Bytes) (info : MtdInfo)
      → IsFlash device Blank
      → info.size + block_size info ≤ 2 ^ 32
      → write device d (some image) (some info) ≡ some (0, e)
      → verify device e (some image) (some info) ≡ 0
  verify-write Blank d e image info flash fits done = elim (below info.size (length image)) [
    | inl large ↦ not_zero (sym (write-large d image info large) ∙ done)
    | inr inside ↦
        let end = range_end info 0 (length image) in
        let (first, last) = range_end-bounds info (length image) fits inside in
        let pos = block_size-pos info in
        let (blanked, erased, written, same) =
          write_erased-success image _ e (sym (write-small d image info fits inside) ∙ done) in
        let blank : (i : ℕ) → i < length image → Blank blanked i = λ i below_end.
          erase_loop-blanks device Blank flash end d blanked 0 end (block_size info) i
            (omega (arith, last)) (omega arith) pos (omega (arith, first))
            (λ h. absurd (omega arith)) erased in
        verify-reads e image info (
          ap (λ k. device.read_exact k (length image)) (sym same)
          ∙ (flash.flush_reads (device.write_all blanked image).1 (length image)
              ∙ flash.write_reads blanked image blank written))
  ]
