-- ===== src/Ntp.antt =====
-- src/ntp.rs: the request, the time in a reply, and the servers one after another. What a server sends
-- back, and whether the clock takes the time, are arguments. Sockets and the clock are not modelled.
pub mod Time
mod Tests
use lwrt.Base.{
  ℕ, ◌+◌, ◌-◌, ◌*◌, ◌/◌, ◌^◌, Bool, true, false, not, ◌||◌, List, [], ◌∷◌, ◌++◌, Option, none, some,
  length, get_or, replicate, ltb, ◌==◌, if◌then◌else◌,
}
use lwrt.Base.Options.{◌>>=◌}
use lwrt.Base.Bytes.{Bytes, codes, of_be32}
use lwrt.Text.{Text, split_by, filter_by, is_empty}
use lwrt.Config.{Config}
use lwrt.Config

abbrev pub ntp_unix_offset : ℕ
ntp_unix_offset = 2208988800

abbrev pub request : Bytes
request = 0x23 ∷ replicate 47 0

abbrev word : Bytes → ℕ → ℕ
word resp i =
    of_be32 (get_or resp i 0) (get_or resp (i + 1) 0) (get_or resp (i + 2) 0)
      (get_or resp (i + 3) 0)

-- The seconds and nanoseconds that `sync_once` hands to the clock.
unfoldable pub time_of : Bytes → Option (ℕ × ℕ)
time_of resp =
    let secs = word resp 40 in
    let nanos = word resp 44 * 1000000000 / 2 ^ 32 in
    if ltb (length resp) 48
    then none
    else if secs == 0
    then none
    else if ltb secs ntp_unix_offset
    then none
    else some (secs - ntp_unix_offset, nanos)

unfoldable pub servers : List Text → Config → List Text
servers (host ∷ rest) cfg = host ∷ []
servers [] cfg =
    filter_by (λ s. not (is_empty s))
      (split_by (λ c. c == b',' || c == b' ')
        (Config.get_or cfg (codes "ntp") (codes "server") (codes "pool.ntp.org")))

module _ (answer : Text → Option Bytes) (takes : ℕ × ℕ → Bool) where
  abbrev set_clock : Option (ℕ × ℕ) → Option (ℕ × ℕ)
  set_clock none = none
  set_clock (some time) = if takes time then some time else none

  unfoldable pub sync_once : Text → Option (ℕ × ℕ)
  unfolding time_of
  sync_once server = set_clock (answer server >>= time_of)

  abbrev or_next : Option (ℕ × ℕ) → ℕ × Option (ℕ × ℕ) → ℕ × Option (ℕ × ℕ)
  or_next none later = later
  or_next (some time) later = (0, some time)

  -- The exit code, and the time that the clock is set to.
  unfoldable pub first_of : List Text → ℕ × Option (ℕ × ℕ)
  unfolding sync_once
  first_of [] = (1, none)
  first_of (server ∷ rest) = or_next (sync_once server) (first_of rest)

  unfoldable pub run : List Text → Config → ℕ × Option (ℕ × ℕ)
  unfolding first_of servers
  run args cfg = first_of (servers args cfg)
