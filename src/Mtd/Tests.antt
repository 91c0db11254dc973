-- ===== src/Mtd/Tests.antt =====
-- src/mtd.rs: the theorems at a flash in memory: a byte is blank, or holds what was written to it while
-- it was blank.
use lwrt.Base.{
  inl, Bool, not, All, ◌++◌, ◌==◌, ℕ, zero, suc, ◌+◌, ◌<◌, true, ◌&&◌, [], ◌∷◌, length, get_elem?,
  Option, none, some, ltb, leb, if◌then◌else◌, ◌≡◌, refl, ap, ◌∙◌, arith, if_either, lt→ltb, le→leb,
}
use lwrt.Base.Bytes.{Bytes, codes}
use lwrt.Mtd.{MtdInfo, Device, write, verify, erase_range, erase_loop, range_end, write_erased}
use lwrt.Mtd.Erasing.{IsFlash}
use lwrt.Mtd.Naming.{generic, mips, memgetinfo, memerase, memunlock, resolve}
use lwrt.Text.{Text, is_whitespace, strip_prefix}
use lwrt.Mtd.Table.{
  Partition, table, first_device, IsDevChar, IsFieldChar, IsPartition, IsName, resolve-table,
}
use lwrt.Mtd.Writing.{write-ends, verify-write}

abbrev Flash : Type 0
Flash = ℕ → Option ℕ

abbrev stored : Option ℕ → Option ℕ → Option ℕ
stored none new = new
stored (some b) new = some b

abbrev onto : Option ℕ → Option Bytes → Option Bytes
onto (some b) (some bs) = some (b ∷ bs)
onto _ _ = none

abbrev read_from : Flash → ℕ → ℕ → Option Bytes
read_from d i zero = some []
read_from d i (suc n) = onto (d i) (read_from d (suc i) n)

abbrev memory : Device Flash
memory = record {
  unlock = λ d off bs. d;
  erase_block = λ d off bs. (true, λ i. if leb off i && ltb i (off + bs) then none else d i);
  write_all = λ d image. (true, λ i. stored (d i) (get_elem? image i));
  flush = λ d. (true, d);
  read_exact = λ d n. read_from d 0 n;
}

abbrev Blank : Flash → ℕ → Type 0
Blank d i = d i ≡ none

read_from-stored :
    (d : Flash) (i : ℕ) (image : Bytes)
    → ((j : ℕ) → j < length image → d (i + j) ≡ get_elem? image j)
    → read_from d i (length image) ≡ some image
read_from-stored d i [] h = refl
read_from-stored d i (b ∷ image) h =
    let first : d i ≡ some b = ap d (omega arith) ∙ h 0 (omega arith) in
    rw
      (
        first,
        read_from-stored d (suc i) image (λ j small. ap d (omega arith) ∙ h (suc j) (omega arith)),
      )
      refl

memory-IsFlash : IsFlash memory Blank
memory-IsFlash = record {
  unlock_keeps = λ d off bs i h. h;
  erase_keeps =
      λ d off bs i h. if_either (λ (b : Option ℕ). b ≡ none) (leb off i && ltb i (off + bs)) refl h;
  erase_blanks = λ d off bs i ok lo hi. rw (le→leb off i lo, lt→ltb i (off + bs) hi) refl;
  write_reads = λ d image blank ok.
      read_from-stored (memory.write_all d image).1 0 image
        (λ j small. let place : 0 + j ≡ j = omega arith in rw (place, blank j small) refl);
  flush_reads = λ d n. refl;
}

abbrev partition : MtdInfo
partition = record { size = 8; erasesize = 4 }

abbrev used_flash : Flash
used_flash i = some 7

-- The flash after the write.
abbrev flashed : Flash
flashed i =
    stored (if leb 4 i && ltb i 8 then none else if leb 0 i && ltb i 4 then none else some 7)
      (get_elem? (codes "image") i)

write-flashed : write memory used_flash (some (codes "image")) (some partition) ≡ some (0, flashed)
unfolding write erase_range erase_loop range_end write_erased
write-flashed = refl

write-ends_example :
    (c : ℕ × Flash) × (write memory used_flash (some (codes "image")) (some partition) ≡ some c)
write-ends_example = write-ends memory used_flash (codes "image") partition (omega arith)

verify-write_example : verify memory flashed (some (codes "image")) (some partition) ≡ 0
verify-write_example =
    verify-write memory Blank used_flash flashed (codes "image") partition memory-IsFlash
      (omega arith) write-flashed

-- The tests of the source, for both layouts.
generic_numbers :
    memgetinfo generic ∷ memerase generic ∷ memunlock generic ∷ []
    ≡ 0x80204d01 ∷ 0x40084d02 ∷ 0x40084d06 ∷ []
generic_numbers = refl

mips_numbers :
    memgetinfo mips ∷ memerase mips ∷ memunlock mips ∷ []
    ≡ 0x40204d01 ∷ 0x80084d02 ∷ 0x80084d06 ∷ []
mips_numbers = refl

abbrev firmware : Partition
firmware = record {
  dev = codes "mtd5";
  sizes = codes " 00fa0000 00010000 ";
  name = codes "firmware";
}

abbrev all : (ℕ → Bool) → Text → Bool
all p [] = true
all p (c ∷ s) = p c && all p s

abbrev is_field : ℕ → Bool
is_field c = not (c == b'"') && not (c == 10) && not (c == 13)

fields-AreFields : (s : Text) → all is_field s ≡ true → All IsFieldChar s
fields-AreFields [] h = tt
fields-AreFields (c ∷ s) h = (
  record {
    no_quote = ground arith;
    inline = record { no_feed = ground arith; no_return = ground arith };
  },
  fields-AreFields s (ground arith),
)

abbrev is_dev : ℕ → Bool
is_dev c = not (is_whitespace c) && not (c == b':') && not (c == 10) && not (c == 13)

devs-AreDevs : (s : Text) → all is_dev s ≡ true → All IsDevChar s
devs-AreDevs [] h = tt
devs-AreDevs (c ∷ s) h = (
  record {
    solid = ground arith;
    no_colon = ground arith;
    inline = record { no_feed = ground arith; no_return = ground arith };
  },
  devs-AreDevs s (ground arith),
)

firmware-IsPartition : IsPartition firmware
unfolding is_whitespace
firmware-IsPartition = record {
  dev_chars = devs-AreDevs (codes "mtd5") refl;
  size_chars = fields-AreFields (codes " 00fa0000 00010000 ") refl;
  name_chars = fields-AreFields (codes "firmware") refl;
}

no_path : strip_prefix (codes "/dev/") (codes "firmware") ≡ none
unfolding strip_prefix
no_path = refl

no_number : IsName (codes "firmware")
unfolding strip_prefix
no_number = inl refl

resolve-table_example :
    (resolve (codes "/dev/" ++ codes "mtd0") none ≡ some (codes "/dev/" ++ codes "mtd0"))
    × (resolve (codes "mtd" ++ (b'5' ∷ [])) none ≡ some (codes "/dev/mtd" ++ (b'5' ∷ [])))
    × (resolve (codes "firmware") (some (table (firmware ∷ [])))
        ≡ first_device (codes "firmware") (firmware ∷ []))
resolve-table_example =
    resolve-table (codes "firmware") (codes "mtd0") (firmware ∷ []) none b'5' []
      (firmware-IsPartition, tt) ((omega arith, omega arith), tt) no_path no_number
