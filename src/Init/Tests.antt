-- ===== src/Init/Tests.antt =====
-- src/init.rs: the network of an empty configuration, and two services that die.
use lwrt.Base.{ℕ, [], ◌∷◌, some, List, Option, ◌≡◌, refl, arith}
use lwrt.Base.Bytes.{codes}
use lwrt.Base.Map.{get}
use lwrt.Text.{equal, split_by}
use lwrt.Text.Numbers.{parse_ipv4, parse_unsigned}
use lwrt.Config.{get_value, get_or}
use lwrt.Init.{up, configure, run_oneshot, boot, supervise}
use lwrt.Init.Supervision.{running, spawned, supervise-runs}

default_network :
    boot []
    ≡ up (codes "lo")
      ∷ configure
          (codes "br-lan")
          record { a = 192; b = 168; c = 1; d = 1 }
          record { a = 255; b = 255; c = 255; d = 0 }
      ∷ run_oneshot (codes "dhcp" ∷ codes "client" ∷ [])
      ∷ run_oneshot (codes "fw" ∷ [])
      ∷ []
unfolding boot get_value get_or get equal split_by parse_ipv4 parse_unsigned
default_network = refl

abbrev exits : List (ℕ × Option ℕ)
exits = (12, some 20) ∷ (99, some 21) ∷ (20, some 22) ∷ []

supervise-runs_example : running 2 (supervise exits (spawned 10 11 12 13 14)) ≡ 1
supervise-runs_example =
    supervise-runs 10 11 12 13 14 exits 2 (refl, (refl, (refl, tt))) (omega arith)
