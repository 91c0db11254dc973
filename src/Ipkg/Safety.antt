-- ===== src/Ipkg/Safety.antt =====
-- src/ipkg.rs: what an installation may write, and when.
use lwrt.Base.{
  ℕ, zero, suc, ◌+◌, ◌-◌, ◌%◌, true, false, List, [], ◌∷◌, ◌++◌, Option, none, some, length, get_or,
  take, drop, min, ltb, ◌==◌, ◌||◌, ◌≡◌, ◌≢◌, refl, inl, inr, All, All-append, if_either,
  Bool-cases, Option-cases,
}
use lwrt.Base.Bytes.{Bytes}
use lwrt.Text.{Text, is_empty}
use lwrt.Ipkg.{Entry, find_entry, is_control, sanitize}
use lwrt.Ipkg.Paths.{IsSafe, sanitize-IsSafe}
use lwrt.Ipkg.Archive.{
  Disk, Effect, make_dir, create, Run, Continue, make_parent, put_file, member, header_name,
  header_size, align512, all_zero, extract_from, extract_ustar, size_matches, digest_matches,
  install_blob, install, located, fetched,
}

-- An extraction makes directories and files, at safe paths.
abbrev pub IsInside : Effect → Type 0
IsInside (make_dir path) = IsSafe path
IsInside (create path file) = IsSafe path
IsInside _ = false ≡ true

-- `Path::parent` leaves out the last component.
abbrev pub KeepsSafe : (Text → Option Text) → Type 0
KeepsSafe parent = (path dir : Text) → IsSafe path → parent path ≡ some dir → IsSafe dir

module _ (usize : ℕ) (lossy : Bytes → Text) (disk : Disk) (keeps : KeepsSafe disk.parent) where
  abbrev AllInside : Run usize lossy disk → Type 0
  AllInside r = All IsInside r.1

  make_parent-IsInside : (path : Text) → IsSafe path → All IsInside (make_parent (disk.parent path))
  make_parent-IsInside path safe = elim (Option-cases (disk.parent path)) [
    | inl e ↦ rw (e, make_parent) tt
    | inr (dir, e) ↦ rw (e, make_parent) (keeps path dir safe e, tt)
  ]

  put_file-IsInside :
      (path : Text) (file : Bytes) (rest : Run usize lossy disk)
      → IsSafe path
      → AllInside rest
      → AllInside (put_file usize lossy disk path file rest)
  unfolding put_file
  put_file-IsInside path file rest safe h =
      All-append IsInside (make_parent (disk.parent path)) _ (make_parent-IsInside path safe) (
        if_either AllInside (disk.opens path)
          (safe, if_either AllInside (disk.stores path file) h tt) tt)

  member-IsInside :
      (name : Text) (typeflag : ℕ) (file : Bytes) (control : Option Bytes) (written : List Text)
      (continue : Continue usize lossy disk)
      → ((c : Option Bytes) (w : List Text) → AllInside (continue c w))
      → AllInside (member usize lossy disk name typeflag file control written continue)
  unfolding member
  member-IsInside name typeflag file control written continue h =
      if_either AllInside (is_empty name) (h control written) (
        if_either AllInside (is_control name) (h (some file) written) (
          if_either AllInside (typeflag == b'5') (sanitize-IsSafe name, h control written)
            (if_either AllInside (typeflag == b'0' || typeflag == 0)
              (put_file-IsInside (sanitize name) file (continue control (written ++ name ∷ []))
                (sanitize-IsSafe name) (h control (written ++ name ∷ [])))
              (h control written))))

  extract_from-IsInside :
      (fuel : ℕ) (data_ : Bytes) (off : ℕ) (control : Option Bytes) (written : List Text)
      → AllInside (extract_from usize lossy disk fuel data_ off control written)
  unfolding extract_from
  extract_from-IsInside zero data_ off control written = tt
  extract_from-IsInside (suc fuel) data_ off control written =
      let start = (off + 512) % usize in
      let hdr = take 512 (drop off data_) in
      let size = header_size usize lossy disk hdr in
      let end = min ((start + size) % usize) (length data_) in
      let next = (start + align512 usize lossy disk size) % usize in
      if_either AllInside (ltb (length data_) start) tt (
        if_either AllInside (ltb start off) tt (
          if_either AllInside (all_zero hdr) tt (
            if_either AllInside (ltb end start) tt (
              member-IsInside (header_name usize lossy disk hdr) (get_or hdr 156 0)
                (take (end - start) (drop start data_)) control written
                (extract_from usize lossy disk fuel data_ next)
                (extract_from-IsInside fuel data_ next)))))

-- Whatever the archive and whichever calls of the file system fail, every directory and file that an
-- extraction makes has an absolute path without a component `..`, where Path::parent leaves none behind.
pub extract_ustar-IsInside :
    (usize : ℕ) (lossy : Bytes → Text) (disk : Disk) (data_ : Bytes)
    → KeepsSafe disk.parent
    → All IsInside (extract_ustar usize lossy disk data_).1
unfolding extract_ustar
extract_ustar-IsInside usize lossy disk data_ keeps =
    extract_from-IsInside usize lossy disk keeps (suc (length data_)) data_ 0 none []

-- What vouches for a package: an entry of the index, and the file that the server has for it, of the
-- size in the entry, where it has one, and with the digest in the entry, which it must have.
abbrev pub Verified : ℕ → (Text → Option Bytes) → Text → Text → Text → Type 0
Verified usize http_get repo index name =
    (entry : Entry) × (blob : Bytes) × (find_entry usize index name ≡ some entry)
    × (http_get (repo ++ b'/' ∷ entry.filename) ≡ some blob)
    × (size_matches entry.size blob ≡ true)
    × (digest_matches entry.sha256 blob ≡ true)

-- An installation that does anything but fail without an effect is of a package that the index and the
-- digest vouch for.
pub install-Verified :
    (usize : ℕ) (lossy : Bytes → Text) (disk : Disk) (http_get : Text → Option Bytes)
    (repo index name : Text)
    → install usize lossy disk http_get repo (some index) name ≢ (1, [])
    → Verified usize http_get repo index name
unfolding install install_blob
install-Verified usize lossy disk http_get repo index name h =
    elim (Option-cases (find_entry usize index name)) [
      | inl e ↦ absurd (h (rw (e, located) refl))
      | inr (entry, e) ↦ elim (Option-cases (http_get (repo ++ b'/' ∷ entry.filename))) [
        | inl f ↦ absurd (h (rw (e, located, f, fetched) refl))
        | inr (blob, f) ↦ elim (Bool-cases (size_matches entry.size blob)) [
          | inr s ↦ absurd (h (rw (e, located, f, fetched, s) refl))
          | inl s ↦ elim (Bool-cases (digest_matches entry.sha256 blob)) [
            | inr d ↦ absurd (h (rw (e, located, f, fetched, s, d) refl))
            | inl d ↦ (entry, blob, e, f, s, d)
          ]
        ]
      ]
    ]
