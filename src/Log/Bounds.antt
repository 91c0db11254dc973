-- ===== src/Log/Bounds.antt =====
-- src/log.rs: how large the log gets.
use mathlib.Core.List.{reverse, reverse-cons}
use lwrt.Base.{
  ℕ, zero, suc, ◌+◌, ◌*◌, ◌/◌, ◌%◌, ◌≤◌, ◌<◌, Bool, true, ◌||◌, List, [], ◌∷◌, ◌++◌, Option, none,
  some, length, take, ltb, leb, ◌==◌, ◌≡◌, refl, All, arith, inl, inr, Bool-cases, if_either,
  length-append, length-take,
}
use lwrt.Base.Bytes.{Bytes, codes}
use lwrt.Text.{split_once, trim_start_by, trim_end_by, is_empty, before}
use lwrt.Text.Printing.{decimal, digits_onto}
use lwrt.Log.{
  max, Store, Calls, content, rotate, append, stamp, after_semicolon, ingest_userspace,
  ingest_kernel, Event, datagram, kmsg, step, run,
}

-- The longest line: a time, ` kernel: `, and 4096 bytes of which each may become a replacement character.
abbrev pub longest : ℕ
longest = 22 + 9 + 3 * 4096

length-digits_onto : (fuel n : ℕ) (s : Bytes) → length (digits_onto fuel n s) ≤ fuel + length s
unfolding digits_onto
length-digits_onto zero n s = omega arith
length-digits_onto (suc fuel) n s =
    let digit = b'0' + n % 10 in
    elim (Bool-cases (ltb n 10)) [
      | inl e ↦ rw e (omega arith)
      | inr e ↦ rw e (omega (arith, length-digits_onto fuel (n / 10) (digit ∷ s)))
    ]

length-stamp : (secs : ℕ) → length (stamp secs) ≤ 22
unfolding stamp decimal
length-stamp secs =
    omega (arith, length-append (digits_onto 20 secs []) (b']' ∷ []), length-digits_onto 20 secs [])

length-reverse : (s : Bytes) → length (reverse s) ≡ length s
length-reverse [] = refl
length-reverse (c ∷ s) =
    rw (reverse-cons c s, length-append (reverse s) (c ∷ [])) (omega (arith, length-reverse s))

length-trim_start_by : (p : ℕ → Bool) (s : Bytes) → length (trim_start_by p s) ≤ length s
unfolding trim_start_by
length-trim_start_by p [] = omega arith
length-trim_start_by p (c ∷ s) = elim (Bool-cases (p c)) [
  | inl e ↦ rw e (omega (arith, length-trim_start_by p s))
  | inr e ↦ rw e (omega arith)
]

length-trim_end_by : (p : ℕ → Bool) (s : Bytes) → length (trim_end_by p s) ≤ length s
unfolding trim_end_by
length-trim_end_by p s = omega (
  arith,
  length-reverse (trim_start_by p (reverse s)),
  length-trim_start_by p (reverse s),
  length-reverse s,
)

length-after_semicolon :
    (rec_ s : Bytes)
    → length s ≤ length rec_
    → length (after_semicolon rec_ (split_once b';' s)) ≤ length rec_
unfolding split_once
length-after_semicolon rec_ [] h = omega arith
length-after_semicolon rec_ (c ∷ s) h = elim (Bool-cases (c == b';')) [
  | inl e ↦ rw e (omega arith)
  | inr e ↦ rw e (later (split_once b';' s) (length-after_semicolon rec_ s (omega arith)))
]
  where
    later :
        (o : Option (Bytes × Bytes))
        → length (after_semicolon rec_ o) ≤ length rec_
        → length (after_semicolon rec_ (before c o)) ≤ length rec_
    later none h = h
    later (some (k, v)) h = h

-- Both files are below the cap and one line.
abbrev pub IsBounded : Store → Type 0
IsBounded s =
    (length (content s.file) < max + (longest + 1)) × (length (content s.old) < max + (longest + 1))

rotate-IsBounded :
    (calls : Calls) (s : Store)
    → calls.renames ≡ true
    → IsBounded s
    → IsBounded (rotate calls s) × (length (content (rotate calls s).file) < max)
unfolding rotate
rotate-IsBounded calls s r (file, old) = elim (Bool-cases (leb max (length (content s.file)))) [
  | inl e ↦ rw (e, r) ((omega arith, file), omega arith)
  | inr e ↦ rw e ((file, old), ground arith)
]

append-IsBounded :
    (calls : Calls) (line : Bytes) (s : Store)
    → calls.renames ≡ true
    → length line ≤ longest
    → IsBounded s
    → IsBounded (append calls line s)
unfolding append
append-IsBounded calls line s r l h =
    let ((file, old), below) = rotate-IsBounded calls s r h in
    let kept = content (rotate calls s).file in
    elim (Bool-cases calls.writes) [
      | inl e ↦ rw e (
        omega (arith, below, length-append kept (line ++ 10 ∷ []), length-append line (10 ∷ [])),
        old,
      )
      | inr e ↦ rw e (file, old)
    ]

-- Each byte is decoded to a character of its own at most, and a replacement character has three bytes.
abbrev pub IsLossy : (Bytes → Bytes) → Type 0
IsLossy lossy = (bytes : Bytes) → length (lossy bytes) ≤ 3 * length bytes

taken :
    (lossy : Bytes → Bytes) (bytes : Bytes)
    → IsLossy lossy
    → length (lossy (take 4096 bytes)) ≤ 3 * 4096
taken lossy bytes law = omega (arith, law (take 4096 bytes), length-take 4096 bytes)

abbrev pub renamed : Event → Bool
renamed (datagram now calls bytes) = calls.renames
renamed (kmsg now calls bytes) = calls.renames

step-IsBounded :
    (lossy : Bytes → Bytes) (e : Event) (s : Store)
    → IsLossy lossy
    → renamed e ≡ true
    → IsBounded s
    → IsBounded (step lossy e s)
unfolding step ingest_userspace ingest_kernel
step-IsBounded lossy (datagram now calls bytes) s law r h =
    let msg = trim_end_by (λ c. c == 10 || c == 0) (lossy (take 4096 bytes)) in
    if_either IsBounded (is_empty msg) h (
      append-IsBounded calls (stamp now ++ b' ' ∷ msg) s r
        (omega (
          arith,
          length-append (stamp now) (b' ' ∷ msg),
          length-stamp now,
          length-trim_end_by (λ c. c == 10 || c == 0) (lossy (take 4096 bytes)),
          taken lossy bytes law,
        ))
        h)
step-IsBounded lossy (kmsg now calls bytes) s law r h =
    let rec_ = lossy (take 4096 bytes) in
    let found = after_semicolon rec_ (split_once b';' rec_) in
    let body = trim_end_by (λ c. c == 10) found in
    if_either IsBounded (is_empty body) h (
      append-IsBounded calls (stamp now ++ codes " kernel: " ++ body) s r
        (omega (
          arith,
          length-append (stamp now ++ codes " kernel: ") body,
          length-append (stamp now) (codes " kernel: "),
          length-stamp now,
          length-trim_end_by (λ c. c == 10) found,
          length-after_semicolon rec_ rec_ (omega arith),
          taken lossy bytes law,
        ))
        h)

-- However many messages come, each of the two log files stays below the cap of 64 KiB and one line of
-- 12319 bytes with its newline, where renaming the file succeeds and a decoded text has at most three
-- bytes for each byte.
pub run-IsBounded :
    (lossy : Bytes → Bytes) (es : List Event) (s : Store)
    → IsLossy lossy
    → All (λ e. renamed e ≡ true) es
    → IsBounded s
    → IsBounded (run lossy es s)
unfolding run
run-IsBounded lossy [] s law r h = h
run-IsBounded lossy (e ∷ es) s law (r, rs) h =
    run-IsBounded lossy es (step lossy e s) law rs (step-IsBounded lossy e s law r h)
