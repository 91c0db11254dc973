-- ===== src/Sysupgrade.antt =====
-- src/sysupgrade.rs: the arguments, the checks, and what is done in which order. What the system says is
-- a parameter (`System`); `write_image` of src/mtd.rs gives its exit code. `sync`, the copy of the
-- configuration, the flashing and the reboot are effects, in order.
pub mod Safety
mod Tests
use lwrt.Base.{
  ℕ, Bool, true, false, not, ◌&&◌, ◌||◌, List, [], ◌∷◌, ◌++◌, Option, none, some, ◌==◌,
  if◌then◌else◌,
}
use lwrt.Base.Bytes.{codes}
use lwrt.Text.{Text, equal}
use lwrt.Mtd.Naming.{resolve}

pub record Opts : Type 0 where
  pub keep_config : Bool
  pub test_only : Bool
  pub part : Text
  pub image : Option Text

abbrev defaults : Opts
defaults = record { keep_config = true; test_only = false; part = codes "firmware"; image = none }

abbrev starts_with_dash : Text → Bool
starts_with_dash [] = false
starts_with_dash (c ∷ s) = c == b'-'

-- `none` is an unknown option, or `-p` without a name. After `-p` the next argument is the name.
unfoldable pub parse_from : Bool → List Text → Opts → Option Opts
parse_from false [] o = some o
parse_from true [] o = none
parse_from true (a ∷ rest) o = parse_from false rest (record o { part = a })
parse_from false (a ∷ rest) o =
    if equal a (codes "-n")
    then parse_from false rest (record o { keep_config = false })
    else if equal a (codes "-T") || equal a (codes "--test")
    then parse_from false rest (record o { test_only = true })
    else if equal a (codes "-p")
    then parse_from true rest o
    else if starts_with_dash a
    then none
    else parse_from false rest (record o { image = some a })

unfoldable pub parse : List Text → Option Opts
unfolding parse_from
parse args = parse_from false args defaults

pub record Metadata : Type 0 where
  pub is_file : Bool
  pub len : ℕ

-- `metadata` of a path, the text of /proc/mtd, whether the configuration exists, and `write_image`.
pub record System : Type 0 where
  pub metadata : Text → Option Metadata
  pub proc_mtd : Option Text
  pub has_config : Bool
  pub write_image : Text → Text → ℕ

abbrev pub resolved : Option Text → ℕ → Option ℕ
resolved none len = none
resolved (some dev) len = some len

abbrev pub sized : Option Metadata → Option Text → Option ℕ
sized none dev = none
sized (some meta) dev =
    if not meta.is_file then none else if meta.len == 0 then none else resolved dev meta.len

abbrev pub named : System → Opts → Option Text → Option ℕ
named sys o none = none
named sys o (some img) = sized (sys.metadata img) (resolve o.part sys.proc_mtd)

-- The size of the image.
unfoldable pub validate : System → Opts → Option ℕ
validate sys o = named sys o o.image

pub data Effect : Type 0 where
  backup_config sync_disks reboot : Effect
  flash : Text → Text → Effect

abbrev pub backup : System → Opts → List Effect
backup sys o = if o.keep_config && sys.has_config then backup_config ∷ [] else []

abbrev pub flashed : System → Opts → Text → ℕ × List Effect
flashed sys o img =
    let rc = sys.write_image img o.part in
    if rc == 0
    then (0, flash img o.part ∷ sync_disks ∷ reboot ∷ [])
    else (rc, flash img o.part ∷ [])

-- `opts.image.as_deref().unwrap()`: the check has passed, so there is one.
abbrev pub upgrade : System → Opts → Option Text → ℕ × List Effect
upgrade sys o none = (1, [])
upgrade sys o (some img) =
    let (rc, effects) = flashed sys o img in (rc, backup sys o ++ sync_disks ∷ effects)

abbrev pub validated : System → Opts → Option ℕ → ℕ × List Effect
validated sys o none = (1, [])
validated sys o (some len) = if o.test_only then (0, []) else upgrade sys o o.image

abbrev pub with_opts : System → Option Opts → ℕ × List Effect
unfolding validate
with_opts sys none = (2, [])
with_opts sys (some o) = validated sys o (validate sys o)

-- The exit code and what was done.
unfoldable pub run : System → List Text → ℕ × List Effect
unfolding parse validate
run sys args = with_opts sys (parse args)
