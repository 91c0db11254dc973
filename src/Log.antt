-- ===== src/Log.antt =====
-- src/log.rs: what the log daemon writes. A file is its bytes, or none where it does not exist. A message
-- comes with the time and with which of the calls that it leads to succeed; `lossy` is
-- `String::from_utf8_lossy` as bytes. The sockets and `poll` are not modelled.
pub mod Bounds
mod Tests
use lwrt.Base.{
  ℕ, ◌*◌, Bool, true, false, ◌&&◌, ◌||◌, List, [], ◌∷◌, ◌++◌, Option, none, some, length, take, leb,
  ◌==◌, if◌then◌else◌,
}
use lwrt.Base.Bytes.{Bytes, codes}
use lwrt.Text.{split_once, trim_end_by, is_empty}
use lwrt.Text.Printing.{decimal}

abbrev pub max : ℕ
max = 64 * 1024

pub record Store : Type 0 where
  pub file : Option Bytes
  pub old : Option Bytes

-- Whether `rename` and the opening with its `writeln!` succeed.
pub record Calls : Type 0 where
  pub renames : Bool
  pub writes : Bool

abbrev pub content : Option Bytes → Bytes
content none = []
content (some bytes) = bytes

-- `if metadata(FILE).len() >= MAX { rename(FILE, OLD) }`
unfoldable pub rotate : Calls → Store → Store
rotate calls s =
    if leb max (length (content s.file)) && calls.renames
    then record { file = none; old = s.file }
    else s

unfoldable pub append : Calls → Bytes → Store → Store
unfolding rotate
append calls line s =
    let s' = rotate calls s in
    if calls.writes then record s' { file = some (content s'.file ++ (line ++ 10 ∷ [])) } else s'

unfoldable pub stamp : ℕ → Bytes
stamp secs = b'[' ∷ (decimal secs ++ b']' ∷ [])

unfoldable pub ingest_userspace : (Bytes → Bytes) → ℕ → Calls → Bytes → Store → Store
unfolding append stamp
ingest_userspace lossy now calls bytes s =
    let msg = trim_end_by (λ c. c == 10 || c == 0) (lossy bytes) in
    if is_empty msg then s else append calls (stamp now ++ b' ' ∷ msg) s

abbrev pub after_semicolon : Bytes → Option (Bytes × Bytes) → Bytes
after_semicolon rec_ none = rec_
after_semicolon rec_ (some (_, m)) = m

unfoldable pub ingest_kernel : (Bytes → Bytes) → ℕ → Calls → Bytes → Store → Store
unfolding append stamp
ingest_kernel lossy now calls bytes s =
    let rec_ = lossy bytes in
    let body = trim_end_by (λ c. c == 10) (after_semicolon rec_ (split_once b';' rec_)) in
    if is_empty body then s else append calls (stamp now ++ codes " kernel: " ++ body) s

-- What `poll` reports: a datagram or a record, of which the buffer takes 4096 bytes.
pub data Event : Type 0 where
  datagram : ℕ → Calls → Bytes → Event
  kmsg : ℕ → Calls → Bytes → Event

unfoldable pub step : (Bytes → Bytes) → Event → Store → Store
unfolding ingest_userspace ingest_kernel
step lossy (datagram now calls bytes) s = ingest_userspace lossy now calls (take 4096 bytes) s
step lossy (kmsg now calls bytes) s = ingest_kernel lossy now calls (take 4096 bytes) s

-- The loop of `daemon`.
unfoldable pub run : (Bytes → Bytes) → List Event → Store → Store
unfolding step
run lossy [] s = s
run lossy (e ∷ es) s = run lossy es (step lossy e s)

-- `log read`
unfoldable pub read : Store → Bytes
read s = content s.old ++ content s.file
