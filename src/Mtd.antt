-- ===== src/Mtd.antt =====
-- src/mtd.rs: the raw flash tool. The character device and its ioctls are the kernel's: `Device` has the
-- calls that the tool makes of an open partition, each with the state of the flash before and after.
pub mod Erasing
pub mod Writing
pub mod Naming
pub mod Table
mod Tests
use lwrt.Base.{
  ℕ, zero, suc, ◌+◌, ◌-◌, ◌*◌, ◌/◌, ◌%◌, ◌^◌, min, Bool, true, false, List, length, Option, none,
  some, ltb, if◌then◌else◌,
}
use lwrt.Base.Bytes.{Bytes}
use lwrt.Base.Map.{same_key, bytes_key}

pub record MtdInfo : Type 0 where
  pub size : ℕ
  pub erasesize : ℕ

-- Each call: whether it succeeded, and the flash then. `unlock` is advisory, its result is not read.
pub record Device (D : Type 0) : Type 0 where
  pub unlock : D → ℕ → ℕ → D
  pub erase_block : D → ℕ → ℕ → Bool × D
  pub write_all : D → Bytes → Bool × D
  pub flush : D → Bool × D
  pub read_exact : D → ℕ → Option Bytes

abbrev u32_mod : ℕ
u32_mod = 2 ^ 32

abbrev pub block_size : MtdInfo → ℕ
block_size info = if ltb 0 info.erasesize then info.erasesize else 1

abbrev pub div_ceil : ℕ → ℕ → ℕ
div_ceil n d = if ltb 0 (n % d) then n / d + 1 else n / d

-- `end` of `erase_range`, with the sum that saturates and the product that wraps.
unfoldable pub range_end : MtdInfo → ℕ → ℕ → ℕ
range_end info start len =
    let bs = block_size info in
    min (div_ceil (min (start + len) (u32_mod - 1)) bs * bs % u32_mod) info.size

module _ {D : Type 0} (device : Device D) where
  -- `while off < end`; `none` where the fuel does not suffice.
  unfoldable pub erase_loop : ℕ → D → ℕ → ℕ → ℕ → Option (Bool × D)
  erase_loop zero d off end bs = if ltb off end then none else some (true, d)
  erase_loop (suc fuel) d off end bs =
      let (erased, next) = device.erase_block (device.unlock d off bs) off bs in
      let rest = erase_loop fuel next ((off + bs) % u32_mod) end bs in
      if ltb off end then (if erased then rest else some (false, next)) else some (true, d)

  -- A round goes on by a byte or more, so the end is fuel enough (`Erasing`).
  unfoldable pub erase_range : D → MtdInfo → ℕ → ℕ → Option (Bool × D)
  unfolding erase_loop
  erase_range d info start len =
      let bs = block_size info in
      let end = range_end info start len in erase_loop end d (start - start % bs) end bs

  -- The exit code and the flash, once the blocks are erased.
  unfoldable pub write_erased : Bytes → Option (Bool × D) → Option (ℕ × D)
  write_erased image none = none
  write_erased image (some (false, d)) = some (1, d)
  write_erased image (some (true, d)) =
      let (written, d1) = device.write_all d image in
      let (flushed, d2) = device.flush d1 in
      if written then (if flushed then some (0, d2) else some (1, d2)) else some (1, d1)

  -- The image and the partition, each where it could be read or opened.
  unfoldable pub write : D → Option Bytes → Option MtdInfo → Option (ℕ × D)
  unfolding erase_range write_erased
  write d none part = some (1, d)
  write d (some image) none = some (1, d)
  write d (some image) (some info) =
      if ltb info.size (length image)
      then some (1, d)
      else write_erased image (erase_range d info 0 (length image % u32_mod))

  unfoldable pub erase : D → Option MtdInfo → Option (ℕ × D)
  unfolding erase_range
  erase d none = some (1, d)
  erase d (some info) = elim (erase_range d info 0 info.size) [
    | none ↦ none
    | some (true, next) ↦ some (0, next)
    | some (false, next) ↦ some (1, next)
  ]

  unfoldable pub verify : D → Option Bytes → Option MtdInfo → ℕ
  verify d none part = 1
  verify d (some image) none = 1
  verify d (some image) (some info) = elim (device.read_exact d (length image)) [
    | none ↦ 1
    | some on_flash ↦ if same_key on_flash image then 0 else 2
  ]
