-- ===== src/Init.antt =====
-- src/init.rs: what PID 1 does at boot, as a list of effects, and the supervision of the services. A
-- process id that `spawn` gives, or that it gives none, is an argument; so is the child that `waitpid`
-- reports.
pub mod Supervision
mod Tests
use lwrt.Base.{
  ℕ, zero, suc, ◌+◌, Bool, true, false, List, [], ◌∷◌, ◌++◌, Option, none, some, ◌==◌,
  if◌then◌else◌,
}
use lwrt.Base.Bytes.{codes}
use lwrt.Text.{Text, equal}
use lwrt.Text.Numbers.{Ipv4Addr, parse_ipv4}
use lwrt.Config.{Config, get_value, get_or}

-- `SERVICES`: the arguments that each is run with.
abbrev pub services : List (List Text)
services =
    (codes "log" ∷ [])
    ∷ (codes "ubus" ∷ [])
    ∷ (codes "dhcp" ∷ codes "server" ∷ [])
    ∷ (codes "dns" ∷ [])
    ∷ (codes "httpd" ∷ [])
    ∷ []

-- The network

pub data Effect : Type 0 where
  up : Text → Effect
  configure : Text → Ipv4Addr → Ipv4Addr → Effect
  default_route : Ipv4Addr → Effect
  run_oneshot : List Text → Effect

abbrev configured : Text → Option Ipv4Addr → Option Ipv4Addr → List Effect
configured ifname (some a) (some m) = configure ifname a m ∷ []
configured ifname _ _ = []

abbrev routed : Option Ipv4Addr → List Effect
routed none = []
routed (some gw) = default_route gw ∷ []

abbrev parsed : Option Text → Option Ipv4Addr
parsed none = none
parsed (some s) = parse_ipv4 s

abbrev lan : Config → List Effect
lan cfg =
    configured (get_or cfg (codes "lan") (codes "ifname") (codes "br-lan"))
      (parse_ipv4 (get_or cfg (codes "lan") (codes "ipaddr") (codes "192.168.1.1")))
      (parse_ipv4 (get_or cfg (codes "lan") (codes "netmask") (codes "255.255.255.0")))

abbrev wan : Config → List Effect
wan cfg =
    let proto = get_or cfg (codes "wan") (codes "proto") (codes "dhcp") in
    if equal proto (codes "dhcp")
    then run_oneshot (codes "dhcp" ∷ codes "client" ∷ []) ∷ []
    else if equal proto (codes "static")
    then configured (get_or cfg (codes "wan") (codes "ifname") (codes "eth0.2"))
        (parsed (get_value cfg (codes "wan") (codes "ipaddr")))
        (parsed (get_value cfg (codes "wan") (codes "netmask")))
      ++ routed (parsed (get_value cfg (codes "wan") (codes "gateway")))
    else []

unfoldable pub bring_up_network : Config → List Effect
bring_up_network cfg = up (codes "lo") ∷ (lan cfg ++ wan cfg)

-- `run`, between the mounts and the supervision.
unfoldable pub boot : Config → List Effect
unfolding bring_up_network
boot cfg =
    bring_up_network cfg
    ++ (run_oneshot (codes "fw" ∷ [])
        ∷ (if equal (get_or cfg (codes "wireguard") (codes "enabled") (codes "0")) (codes "1")
            then run_oneshot (codes "wg" ∷ codes "up" ∷ []) ∷ []
            else []))

-- Supervision

-- Process id and index of the service.
abbrev pub Pids : Type 0
Pids = List (ℕ × ℕ)

abbrev pub pushed : Option ℕ → ℕ → Pids → Pids
pushed none idx pids = pids
pushed (some pid) idx pids = pids ++ (pid, idx) ∷ []

-- The first loop of `supervise`: each service in order, with the ids that `spawn` gives.
unfoldable pub spawn_all : List (Option ℕ) → List (List Text) → ℕ → Pids → Pids
spawn_all spawned [] idx pids = pids
spawn_all [] (svc ∷ rest) idx pids = pids
spawn_all (s ∷ spawned) (svc ∷ rest) idx pids = spawn_all spawned rest (suc idx) (pushed s idx pids)

abbrev past : ℕ × ℕ → Option (ℕ × Pids) → Option (ℕ × Pids)
past entry none = none
past entry (some (idx, rest)) = some (idx, entry ∷ rest)

-- `pids.iter().position(..)` and `pids.remove(slot)`: the service that died, and the others.
unfoldable pub take_pid : ℕ → Pids → Option (ℕ × Pids)
take_pid dead [] = none
take_pid dead ((pid, idx) ∷ pids) =
    let later = past (pid, idx) (take_pid dead pids) in
    if pid == dead then some (idx, pids) else later

abbrev pub respawned : Option ℕ → Pids → Option (ℕ × Pids) → Pids
respawned spawned pids none = pids
respawned spawned pids (some (idx, rest)) = pushed spawned idx rest

-- A round of the loop: a child is reported dead, and `spawn` gives an id where it is called.
unfoldable pub on_exit : ℕ → Option ℕ → Pids → Pids
unfolding take_pid
on_exit dead spawned pids = respawned spawned pids (take_pid dead pids)

unfoldable pub supervise : List (ℕ × Option ℕ) → Pids → Pids
unfolding on_exit
supervise [] pids = pids
supervise ((dead, spawned) ∷ exits) pids = supervise exits (on_exit dead spawned pids)
