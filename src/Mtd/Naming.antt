-- ===== src/Mtd/Naming.antt =====
-- src/mtd.rs: `resolve`, and the numbers of the ioctls on MIPS and elsewhere. The content of /proc/mtd is an
-- argument, `none` where it cannot be read.
use Prim.Native.Nat.{bit_or}
use lwrt.Base.{
  ℕ, ◌*◌, ◌^◌, Bool, true, false, not, ◌&&◌, List, [], ◌∷◌, ◌++◌, Option, none, some, if◌then◌else◌,
  get_elem?,
}
use lwrt.Base.Bytes.{codes}
use lwrt.Text.{Text, equal, trim, split, split_once, strip_prefix, lines, is_empty}
use lwrt.Text.Numbers.{is_digit}

-- The direction's shift and its two values: MIPS, and the generic layout.
pub record Layout : Type 0 where
  pub dirshift : ℕ
  pub sizeshift : ℕ
  pub read : ℕ
  pub write : ℕ

abbrev pub mips : Layout
mips = record { dirshift = 29; sizeshift = 16; read = 2; write = 4 }

abbrev pub generic : Layout
generic = record { dirshift = 30; sizeshift = 16; read = 2; write = 1 }

abbrev pub ioc : Layout → ℕ → ℕ → ℕ → ℕ → ℕ
ioc layout dir ty nr size =
    bit_or (bit_or (bit_or (dir * 2 ^ layout.dirshift) (ty * 2 ^ 8)) nr)
      (size * 2 ^ layout.sizeshift)

abbrev pub memgetinfo : Layout → ℕ
memgetinfo layout = ioc layout layout.read b'M' 1 32

abbrev pub memerase : Layout → ℕ
memerase layout = ioc layout layout.write b'M' 2 8

abbrev pub memunlock : Layout → ℕ
memunlock layout = ioc layout layout.write b'M' 6 8

abbrev pub all_digits : Text → Bool
all_digits [] = true
all_digits (c ∷ s) = is_digit c && all_digits s

abbrev pub device : Text → Text
device name = codes "/dev/" ++ name

-- `rest.split('"').nth(1)` names the partition.
abbrev pub names : Text → Option Text → Bool
names part none = false
names part (some name) = equal name part

-- A line without a colon is passed over.
abbrev pub named_device : Text → Option (Text × Text) → Option Text
named_device part none = none
named_device part (some (dev, rest)) =
    if names part (get_elem? (split b'"' rest) 1) then some (device (trim dev)) else none

abbrev pub or_later : Option Text → Option Text → Option Text
or_later none later = later
or_later (some path) later = some path

unfoldable pub find_line : Text → List Text → Option Text
find_line part [] = none
find_line part (line ∷ rest) =
    or_later (named_device part (split_once b':' line)) (find_line part rest)

abbrev in_table : Text → Option Text → Option Text
in_table part none = none
in_table part (some table) = find_line part (lines table)

abbrev shorthand : Text → Option Text → Option Text → Option Text
shorthand part table none = in_table part table
shorthand part table (some n) =
    if all_digits n && not (is_empty n) then some (codes "/dev/mtd" ++ n) else in_table part table

abbrev explicit : Text → Option Text → Option Text → Option Text
explicit part table none = shorthand part table (strip_prefix (codes "mtd") part)
explicit part table (some _) = some part

unfoldable pub resolve : Text → Option Text → Option Text
unfolding find_line
resolve part table = explicit part table (strip_prefix (codes "/dev/") part)
