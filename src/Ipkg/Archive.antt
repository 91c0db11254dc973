-- ===== src/Ipkg/Archive.antt =====
-- src/ipkg.rs: `extract_ustar`, `install`, `remove` and the HTTP request.
use lwrt.Base.{
  ℕ, zero, suc, ◌+◌, ◌-◌, ◌*◌, ◌/◌, ◌%◌, Bool, true, false, ◌||◌, List, [], ◌∷◌, ◌++◌, map, Option,
  none, some, length, get_or, take, drop, min, ltb, ◌==◌, if◌then◌else◌,
}
use lwrt.Base.Bytes.{Bytes, codes}
use lwrt.Text.{Text, equal, lower, is_empty, lines}
use lwrt.Sha256.{digest}
use lwrt.Sha256.Hex.{hex}
use lwrt.Ipkg.{Entry, state, find_entry, is_control, join, sanitize, cstr, octal}

-- Which calls of the file system succeed: `File::create`, and `write_all` to what it opened. `parent` is
-- `Path::parent`.
pub record Disk : Type 0 where
  pub parent : Text → Option Text
  pub opens : Text → Bool
  pub stores : Text → Bytes → Bool

-- `create_dir_all`, `File::create` with the bytes that follow, `fs::write`, `remove_file`.
pub data Effect : Type 0 where
  make_dir : Text → Effect
  create : Text → Bytes → Effect
  write_state : Text → Bytes → Effect
  delete : Text → Effect

pub record Extracted : Type 0 where
  pub control : Option Bytes
  pub files : List Text

-- `panicked`: a slice that ends before it starts. `out_of_fuel` has no counterpart.
pub data Extraction : Type 0 where
  extracted : Extracted → Extraction
  io_failed panicked out_of_fuel : Extraction

unfoldable pub all_zero : Bytes → Bool
all_zero [] = true
all_zero (b ∷ bs) = if b == 0 then all_zero bs else false

abbrev pub make_parent : Option Text → List Effect
make_parent none = []
make_parent (some dir) = make_dir dir ∷ []

-- `eq_ignore_ascii_case`
abbrev pub same_caseless : Text → Text → Bool
same_caseless a b = equal (map lower a) (map lower b)

-- The size, where the index has one, and the digest, which it must have.
unfoldable pub size_matches : Option ℕ → Bytes → Bool
size_matches none blob = true
size_matches (some sz) blob = length blob == sz

unfoldable pub digest_matches : Option Text → Bytes → Bool
digest_matches none blob = false
digest_matches (some want) blob = same_caseless (hex (digest blob)) want

module _ (usize : ℕ) (lossy : Bytes → Text) (disk : Disk) where
  abbrev pub align512 : ℕ → ℕ
  align512 n = (n + 511) % usize / 512 * 512

  abbrev pub Run : Type 0
  Run = Extraction × List Effect

  abbrev pub after_effects : List Effect → Run → Run
  after_effects es (r, more) = (r, es ++ more)

  -- A regular file: what is written of it, and the rest of the run where that succeeds.
  unfoldable pub put_file : Text → Bytes → Run → Run
  put_file path file rest = after_effects (make_parent (disk.parent path)) (
      if disk.opens path
      then after_effects (create path file ∷ [])
          (if disk.stores path file then rest else (io_failed, []))
      else (io_failed, []))

  -- A member, with the rest of the run after it: `note` is told the name of a file that was written.
  abbrev pub Continue : Type 0
  Continue = Option Bytes → List Text → Run

  unfoldable pub member : Text → ℕ → Bytes → Option Bytes → List Text → Continue → Run
  unfolding is_control put_file sanitize
  member name typeflag file control written continue =
      let path = sanitize name in
      if is_empty name
      then continue control written
      else if is_control name
      then continue (some file) written
      else if typeflag == b'5'
      then after_effects (make_dir path ∷ []) (continue control written)
      else if typeflag == b'0' || typeflag == 0
      then put_file path file (continue control (written ++ name ∷ []))
      else continue control written

  abbrev pub header_name : Bytes → Text
  header_name hdr = cstr lossy (take 100 hdr)

  abbrev pub header_size : Bytes → ℕ
  header_size hdr = octal usize lossy (take 12 (drop 124 hdr))

  -- The loop, from `off` on.
  unfoldable pub extract_from : ℕ → Bytes → ℕ → Option Bytes → List Text → Run
  unfolding all_zero member
  extract_from zero data_ off control written = (out_of_fuel, [])
  extract_from (suc fuel) data_ off control written =
      let start = (off + 512) % usize in
      let hdr = take 512 (drop off data_) in
      let size = header_size hdr in
      let end = min ((start + size) % usize) (length data_) in
      let next = (start + align512 size) % usize in
      let rest =
        member (header_name hdr) (get_or hdr 156 0) (take (end - start) (drop start data_)) control
          written (extract_from fuel data_ next) in
      if ltb (length data_) start
      then (extracted record { control = control; files = written }, [])
      else if ltb start off
      then (panicked, [])
      else if all_zero hdr
      then (extracted record { control = control; files = written }, [])
      else if ltb end start
      then (panicked, [])
      else rest

  unfoldable pub extract_ustar : Bytes → Run
  unfolding extract_from
  extract_ustar data_ = extract_from (suc (length data_)) data_ 0 none []

  abbrev pub control_effect : Text → Option Bytes → List Effect
  control_effect name none = []
  control_effect name (some ctrl) =
      write_state (state ++ codes "/installed/" ++ name ++ codes ".control") ctrl ∷ []

  abbrev pub record_installed : Text → Run → ℕ × List Effect
  record_installed name (extracted ex, effects) = (
    0,
    effects
        ++ (write_state (state ++ codes "/installed/" ++ name ++ codes ".list")
              (join (10 ∷ []) ex.files)
            ∷ control_effect name ex.control),
  )
  record_installed name (_, effects) = (1, effects)

  unfoldable pub install_blob : Text → Entry → Bytes → ℕ × List Effect
  unfolding size_matches digest_matches extract_ustar
  install_blob name entry blob =
      if size_matches entry.size blob
      then (if digest_matches entry.sha256 blob
          then record_installed name (extract_ustar blob)
          else (1, []))
      else (1, [])

  -- `http_get` is asked for the file of the entry.
  abbrev pub fetched : Text → Entry → Option Bytes → ℕ × List Effect
  unfolding install_blob
  fetched name entry none = (1, [])
  fetched name entry (some blob) = install_blob name entry blob

  abbrev pub located : (Text → Option Bytes) → Text → Text → Option Entry → ℕ × List Effect
  located http_get repo name none = (1, [])
  located http_get repo name (some entry) =
      fetched name entry (http_get (repo ++ (b'/' ∷ entry.filename)))

  -- The index is the text of the file that `update` wrote, where there is one.
  unfoldable pub install : (Text → Option Bytes) → Text → Option Text → Text → ℕ × List Effect
  unfolding install_blob find_entry
  install http_get repo none name = (1, [])
  install http_get repo (some index) name = located http_get repo name (find_entry usize index name)

-- `remove`, of the text of the list that `install` wrote.
unfoldable pub deletions : List Text → List Effect
deletions [] = []
deletions (f ∷ fs) =
    let rest = deletions fs in
    if is_empty f || equal f (codes "./control") then rest else delete f ∷ rest

unfoldable pub remove : Text → Option Text → ℕ × List Effect
unfolding deletions
remove name none = (1, [])
remove name (some manifest) = (
  0,
  deletions (lines manifest) ++ delete (state ++ codes "/installed/" ++ name ++ codes ".list") ∷ [],
)
