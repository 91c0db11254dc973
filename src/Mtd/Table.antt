-- ===== src/Mtd/Table.antt =====
-- src/mtd.rs: `resolve` against a table of partitions as the kernel prints /proc/mtd.
use lwrt.Base.{
  ℕ, ◌≤◌, ◌⊎◌, inl, inr, Bool, true, false, List, [], ◌∷◌, ◌++◌, Option, none, some, if◌then◌else◌,
  ◌==◌, ◌≡◌, refl, ap, ◌∙◌, All, All-append, arith,
}
use lwrt.Base.Bytes.{codes}
use lwrt.Text.{
  Text, equal, is_whitespace, split, split_by, split_once, strip_prefix, lines, lines_of,
}
use lwrt.Text.Filtering.{split_by-at, split_by-none}
use lwrt.Text.Lines.{IsInline, All-map, split_once-at, lines-cons}
use lwrt.Text.Trimming.{trim-solid}
use lwrt.Mtd.Naming.{all_digits, named_device, or_later, find_line, resolve}

-- A partition: its device, the sizes behind the colon, and its name.
pub record Partition : Type 0 where
  pub dev : Text
  pub sizes : Text
  pub name : Text

abbrev pub row : Partition → Text
row p = p.dev ++ (b':' ∷ (p.sizes ++ (b'"' ∷ (p.name ++ (b'"' ∷ [])))))

abbrev pub table : List Partition → Text
table [] = []
table (p ∷ ps) = row p ++ (10 ∷ table ps)

-- A character of a device's name, and one of the other fields.
pub record IsDevChar (c : ℕ) : Type 0 where
  pub solid : is_whitespace c ≡ false
  pub no_colon : (c == b':') ≡ false
  pub inline : IsInline c

pub record IsFieldChar (c : ℕ) : Type 0 where
  pub no_quote : (c == b'"') ≡ false
  pub inline : IsInline c

pub record IsPartition (p : Partition) : Type 0 where
  pub dev_chars : All IsDevChar p.dev
  pub size_chars : All IsFieldChar p.sizes
  pub name_chars : All IsFieldChar p.name

-- The device of the first partition with the name.
abbrev pub first_device : Text → List Partition → Option Text
first_device part [] = none
first_device part (p ∷ ps) =
    if equal p.name part then some (codes "/dev/" ++ p.dev) else first_device part ps

-- No shorthand: no number behind the prefix mtd, or no such prefix.
abbrev pub IsName : Text → Type 0
IsName part =
    (strip_prefix (codes "mtd") part ≡ none)
    ⊎ ((n : Text) × (strip_prefix (codes "mtd") part ≡ some n)
        × ((n ≡ []) ⊎ (all_digits n ≡ false)))

quote : IsInline b'"'
quote = record { no_feed = refl; no_return = refl }

row-IsInline : (p : Partition) → IsPartition p → All IsInline (row p)
row-IsInline p h =
    All-append IsInline p.dev _ (All-map IsDevChar IsInline (λ c i. i.inline) p.dev h.dev_chars) (
      record { no_feed = refl; no_return = refl },
      All-append IsInline p.sizes _
          (All-map IsFieldChar IsInline (λ c i. i.inline) p.sizes h.size_chars)
          (
            quote,
            All-append IsInline p.name _
                (All-map IsFieldChar IsInline (λ c i. i.inline) p.name h.name_chars) (quote, tt),
          ),
    )

fields :
    (p : Partition)
    → IsPartition p
    → split b'"' (p.sizes ++ (b'"' ∷ (p.name ++ (b'"' ∷ [])))) ≡ p.sizes ∷ p.name ∷ [] ∷ []
fields p h =
    split_by-at (λ c. c == b'"') p.sizes (p.name ++ (b'"' ∷ [])) b'"'
      (All-map IsFieldChar _ (λ c i. i.no_quote) p.sizes h.size_chars) refl
    ∙ ap (◌∷◌ p.sizes) (
        split_by-at (λ c. c == b'"') p.name [] b'"'
          (All-map IsFieldChar _ (λ c i. i.no_quote) p.name h.name_chars) refl
        ∙ ap (◌∷◌ p.name) (split_by-none (λ c. c == b'"') [] tt))

named_device-row :
    (part : Text) (p : Partition)
    → IsPartition p
    → named_device part (split_once b':' (row p))
      ≡ (if equal p.name part then some (codes "/dev/" ++ p.dev) else none)
named_device-row part p h =
    rw
      (
        split_once-at b':' p.dev (p.sizes ++ (b'"' ∷ (p.name ++ (b'"' ∷ []))))
            (All-map IsDevChar _ (λ c i. i.no_colon) p.dev h.dev_chars) refl,
        fields p h,
        trim-solid p.dev (All-map IsDevChar _ (λ c i. i.solid) p.dev h.dev_chars),
      )
      refl

find_line-table :
    (part : Text) (ps : List Partition)
    → All IsPartition ps
    → find_line part (lines (table ps)) ≡ first_device part ps
unfolding find_line
find_line-table part [] h = unfold lines lines_of split_by in refl
find_line-table part (p ∷ ps) (h, hs) =
    rw
      (
        lines-cons (row p) (table ps) (row-IsInline p h),
        named_device-row part p h,
        find_line-table part ps hs,
      )
      (either (equal p.name part))
  where
    either :
        (b : Bool)
        → or_later (if b then some (codes "/dev/" ++ p.dev) else none) (first_device part ps)
          ≡ (if b then some (codes "/dev/" ++ p.dev) else first_device part ps)
    either true = refl
    either false = refl

abbrev pub IsDigit : ℕ → Type 0
IsDigit c = (b'0' ≤ c) × (c ≤ b'9')

all_digits-All : (n : Text) → All IsDigit n → all_digits n ≡ true
all_digits-All [] h = refl
all_digits-All (c ∷ n) ((lo, hi), hs) = ground (arith, all_digits-All n hs)

resolve-name :
    (part : Text) (ps : List Partition)
    → All IsPartition ps
    → strip_prefix (codes "/dev/") part ≡ none
    → IsName part
    → resolve part (some (table ps)) ≡ first_device part ps
unfolding resolve
resolve-name part ps h e (inl m) = rw (e, m) (find_line-table part ps h)
resolve-name part ps h e (inr (n, m, inl empty)) = rw (e, m, empty) (find_line-table part ps h)
resolve-name part ps h e (inr (n, m, inr letters)) = rw (e, m, letters) (find_line-table part ps h)

resolve-path :
    (file : Text) (proc_mtd : Option Text)
    → resolve (codes "/dev/" ++ file) proc_mtd ≡ some (codes "/dev/" ++ file)
unfolding resolve strip_prefix
resolve-path file proc_mtd = refl

resolve-number :
    (d : ℕ) (n : Text) (proc_mtd : Option Text)
    → All IsDigit (d ∷ n)
    → resolve (codes "mtd" ++ (d ∷ n)) proc_mtd ≡ some (codes "/dev/mtd" ++ (d ∷ n))
unfolding resolve strip_prefix
resolve-number d n proc_mtd ds = rw (all_digits-All (d ∷ n) ds) refl

-- Whatever the table, resolve gives back a path below /dev/, and reads mtd with a number behind it as that
-- device. Of a part that is neither, it gives the device of the first partition with that name in the table
-- that /proc/mtd prints, and nothing where there is none; names have no double quote and no end of a
-- line, and a device no colon and no whitespace.
pub resolve-table :
    (part file : Text) (ps : List Partition) (proc_mtd : Option Text) (d : ℕ) (n : Text)
    → All IsPartition ps
    → All IsDigit (d ∷ n)
    → strip_prefix (codes "/dev/") part ≡ none
    → IsName part
    → (resolve (codes "/dev/" ++ file) proc_mtd ≡ some (codes "/dev/" ++ file))
      × (resolve (codes "mtd" ++ (d ∷ n)) proc_mtd ≡ some (codes "/dev/mtd" ++ (d ∷ n)))
      × (resolve part (some (table ps)) ≡ first_device part ps)
resolve-table part file ps proc_mtd d n h ds e w =
    (resolve-path file proc_mtd, resolve-number d n proc_mtd ds, resolve-name part ps h e w)
