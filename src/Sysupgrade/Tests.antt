-- ===== src/Sysupgrade/Tests.antt =====
-- src/sysupgrade.rs: the cases of its unit tests, and the theorem at an upgrade.
use lwrt.Base.{true, false, List, [], ◌∷◌, none, some, if◌then◌else◌, ◌≡◌, refl}
use lwrt.Base.Bytes.{codes}
use lwrt.Text.{Text, equal, strip_prefix}
use lwrt.Mtd.Naming.{resolve}
use lwrt.Sysupgrade.{System, parse, run}
use lwrt.Sysupgrade.Safety.{reboots, Granted, run-reboots}

flags_and_partition :
    parse (codes "-n" ∷ codes "-T" ∷ codes "-p" ∷ codes "kernel" ∷ codes "img" ∷ [])
    ≡ some record {
      keep_config = false;
      test_only = true;
      part = codes "kernel";
      image = some (codes "img");
    }
unfolding parse equal
flags_and_partition = refl

missing_partition : parse (codes "-p" ∷ []) ≡ none
unfolding parse equal
missing_partition = refl

abbrev system : System
system = record {
  metadata =
      λ path. if equal path (codes "fw.bin") then some record { is_file = true; len = 9 } else none;
  proc_mtd = none;
  has_config = true;
  write_image = λ img part. 0;
}

abbrev args : List Text
args = codes "-p" ∷ codes "mtd3" ∷ codes "fw.bin" ∷ []

upgraded : reboots (run system args).1 ≡ true
unfolding run equal resolve strip_prefix
upgraded = refl

run-reboots_example : Granted system args
run-reboots_example = run-reboots system args upgraded
