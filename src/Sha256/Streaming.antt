-- ===== src/Sha256/Streaming.antt =====
-- src/sha256.rs: `update`: the state as the message that it has taken so far.
use lwrt.Base.{
  ℕ, ◌+◌, ◌-◌, ◌%◌, ◌≤◌, ◌<◌, List, [], ◌∷◌, ◌++◌, length, take, drop, min, ◌≡◌, ◌⊎◌, refl, sym, ap,
  ◌∙◌, arith, inl, inr, length-append, length-take, take_all, append_assoc, append-nil, ==_true,
  ==_false, lt→ltb, le→not_ltb, take-append-drop,
}
use lwrt.Base.Bytes.{Bytes, copy_at, take-copy_at, length-copy_at}
use lwrt.Sha256.Compress.{compress, h0}
use lwrt.Sha256.Blocks.{blocks, blocks-append, blocks-less, blocks-full, length-blocks}
use lwrt.Sha256.{Sha256, new, absorb, top_up, update, u64_mod}

-- The state after the whole blocks of `m` have gone into `h`, with the bytes behind them kept.
abbrev pub After : List ℕ → Bytes → Sha256 → Type 0
After h m s =
    (s.h ≡ (blocks h m).0)
    × (take s.fill s.block ≡ (blocks h m).1)
    × (s.fill ≡ length (blocks h m).1)
    × (length s.block ≡ 64)

below : (n k : ℕ) → (k < n) ⊎ (n ≤ k)
below n k = omega arith

take_written :
    (buf : Bytes) (off : ℕ) (bytes : Bytes) (k : ℕ)
    → k ≡ off + length bytes
    → k ≤ length buf
    → take k (copy_at buf off bytes) ≡ take off buf ++ bytes
take_written buf off bytes k p q = rw p (take-copy_at buf off bytes (omega arith))

absorb-After : (s : Sha256) (d : Bytes) → length s.block ≡ 64 → After s.h d (absorb s d)
unfolding absorb blocks
absorb-After s d p =
    let rest = (blocks s.h d).1 in
    let small = length-blocks s.h d in
    (
      refl,
      take_written s.block 0 rest (length rest) (omega arith) (omega (arith, small)),
      refl,
      length-copy_at s.block 0 rest (omega (arith, small)) ∙ p,
    )

absorb-len : (s : Sha256) (d : Bytes) → (absorb s d).len ≡ s.len
unfolding absorb
absorb-len s d = refl

-- What the partial block takes of the input, and the block then.
abbrev room : Sha256 → Bytes → ℕ
room s d = min (64 - s.fill) (length d)

abbrev topped : Sha256 → Bytes → Bytes
topped s d = copy_at s.block s.fill (take (room s d) d)

abbrev completed : Sha256 → Bytes → Sha256
completed s d = record s { h = compress s.h (topped s d); block = topped s d; fill = 0 }

top_up-full :
    (s : Sha256) (d : Bytes)
    → s.fill + room s d ≡ 64
    → top_up s d ≡ absorb (completed s d) (drop (room s d) d)
unfolding top_up
top_up-full s d full = rw (==_true (s.fill + room s d) 64 full)

top_up-part :
    (s : Sha256) (d : Bytes)
    → s.fill + room s d < 64
    → top_up s d ≡ record s { block = topped s d; fill = s.fill + room s d }
unfolding top_up
top_up-part s d part = rw (==_false (s.fill + room s d) 64 (omega arith))

take-topped :
    (s : Sha256) (d : Bytes)
    → length s.block ≡ 64
    → s.fill ≤ 64
    → take (s.fill + room s d) (topped s d) ≡ take s.fill s.block ++ take (room s d) d
take-topped s d p q =
    take_written s.block s.fill (take (room s d) d) (s.fill + room s d)
      (omega (arith, length-take (room s d) d)) (omega arith)

length-topped :
    (s : Sha256) (d : Bytes) → length s.block ≡ 64 → s.fill ≤ 64 → length (topped s d) ≡ 64
length-topped s d p q =
    length-copy_at s.block s.fill (take (room s d) d) (omega (arith, length-take (room s d) d)) ∙ p

-- With the block completed: it goes in, and the rest of the input after it.
blocks-topped :
    (s : Sha256) (d : Bytes)
    → length s.block ≡ 64
    → s.fill ≤ 64
    → s.fill + room s d ≡ 64
    → blocks s.h (take s.fill s.block ++ d) ≡ blocks (compress s.h (topped s d)) (drop (room s d) d)
blocks-topped s d p q full =
    let whole : topped s d ≡ take s.fill s.block ++ take (room s d) d =
      sym (take_all 64 (topped s d) (omega (arith, length-topped s d p q)))
      ∙ (ap (λ k. take k (topped s d)) (sym full) ∙ take-topped s d p q) in
    let apart : take s.fill s.block ++ d ≡ topped s d ++ drop (room s d) d = rw (
      whole,
      append_assoc (take s.fill s.block) (take (room s d) d) (drop (room s d) d),
      take-append-drop (room s d) d,
    ) in
    rw apart (blocks-full s.h (topped s d) (drop (room s d) d) (length-topped s d p q))

top_up-len : (s : Sha256) (d : Bytes) → s.fill ≤ 64 → (top_up s d).len ≡ s.len
top_up-len s d q = elim (below 64 (s.fill + room s d)) [
  | inl part ↦ rw (top_up-part s d part)
  | inr full ↦ rw (top_up-full s d (omega arith)) (absorb-len (completed s d) (drop (room s d) d))
]

top_up-After :
    (s : Sha256) (d : Bytes)
    → length s.block ≡ 64
    → s.fill < 64
    → After s.h (take s.fill s.block ++ d) (top_up s d)
top_up-After s d p q = elim (below 64 (s.fill + room s d)) [
  | inl part ↦
      let all = take_all (room s d) d (omega arith) in
      let r = take s.fill s.block in
      let short : length (r ++ d) < 64 =
        omega (arith, length-append r d, length-take s.fill s.block) in
      rw (top_up-part s d part, blocks-less s.h (r ++ d) short)
        (
          refl,
          rw (take-topped s d p (omega arith), all) refl,
          omega (arith, length-append r d, length-take s.fill s.block),
          length-topped s d p (omega arith),
        )
  | inr full ↦
      rw (top_up-full s d (omega arith), blocks-topped s d p (omega arith) (omega arith))
        (absorb-After (completed s d) (drop (room s d) d) (length-topped s d p (omega arith)))
]

update-After :
    (s : Sha256) (d : Bytes)
    → length s.block ≡ 64
    → s.fill < 64
    → After s.h (take s.fill s.block ++ d) (update s d)
unfolding update
update-After s d p q = elim (below s.fill 0) [
  | inl some_kept ↦
      rw (lt→ltb 0 s.fill some_kept)
        (top_up-After (record s { len = (s.len + length d) % u64_mod }) d p q)
  | inr none_kept ↦
      let empty : s.fill ≡ 0 = omega arith in
      rw (le→not_ltb 0 s.fill none_kept, empty)
        (absorb-After (record s { len = (s.len + length d) % u64_mod }) d p)
]

update-len :
    (s : Sha256) (d : Bytes) → s.fill < 64 → (update s d).len ≡ (s.len + length d) % u64_mod
unfolding update
update-len s d q = elim (below s.fill 0) [
  | inl some_kept ↦
      rw (lt→ltb 0 s.fill some_kept)
        (top_up-len (record s { len = (s.len + length d) % u64_mod }) d (omega arith))
  | inr none_kept ↦
      rw (le→not_ltb 0 s.fill none_kept)
        (absorb-len (record s { len = (s.len + length d) % u64_mod }) d)
]

-- The state has taken the message `m`, and nothing else.
unfoldable pub Holds : Bytes → Sha256 → Type 0
Holds m s = After h0 m s × (s.len ≡ length m % u64_mod)

pub new-Holds : Holds [] new
unfolding Holds new
new-Holds = rw (blocks-less h0 [] (omega arith)) ((refl, refl, refl, refl), refl)

pub update-Holds : (m d : Bytes) (s : Sha256) → Holds m s → Holds (m ++ d) (update s d)
unfolding Holds
update-Holds m d s ((hash, kept, fill, size), counted) =
    let few = length-blocks h0 m in
    let after = update-After s d size (omega arith) in
    rw (blocks-append h0 m d, ← hash, ← kept)
      (after, omega (arith, counted, update-len s d (omega arith), length-append m d))

-- A chunk at a time.
unfoldable pub update_all : Sha256 → List Bytes → Sha256
update_all s [] = s
update_all s (c ∷ cs) = update_all (update s c) cs

abbrev pub concat : List Bytes → Bytes
concat [] = []
concat (c ∷ cs) = c ++ concat cs

pub update_all-Holds :
    (cs : List Bytes) (m : Bytes) (s : Sha256)
    → Holds m s
    → Holds (m ++ concat cs) (update_all s cs)
unfolding update_all
update_all-Holds [] m s held = rw (append-nil m) held
update_all-Holds (c ∷ cs) m s held =
    rw (← append_assoc m c (concat cs))
      (update_all-Holds cs (m ++ c) (update s c) (update-Holds m c s held))

pub Holds-fill : (m : Bytes) (s : Sha256) → Holds m s → s.fill ≡ length m % 64
unfolding Holds
Holds-fill m s ((hash, kept, fill, size), counted) = omega (arith, length-blocks h0 m)

pub Holds-len : (m : Bytes) (s : Sha256) → Holds m s → s.len ≡ length m % u64_mod
unfolding Holds
Holds-len m s (after, counted) = counted

pub Holds-hash : (m : Bytes) (s : Sha256) → Holds m s → s.h ≡ (blocks h0 m).0
unfolding Holds
Holds-hash m s ((hash, kept, fill, size), counted) = hash
