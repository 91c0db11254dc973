-- ===== src/Firewall/Tests.antt =====
-- src/fw.rs: the theorems at one ruleset, with the web port of a host on the LAN forwarded.
use lwrt.Base.{ℕ, true, List, [], ◌∷◌, length, some, ◌≡◌, arith}
use lwrt.Base.Bytes.{codes}
use lwrt.Netlink.Messages.{encode_all, read_messages}
use lwrt.Firewall.Forwards.{Forward}
use lwrt.Firewall.Ruleset.{number}
use lwrt.Firewall.Building.{whole_batch, build_ruleset-encode_all}
use lwrt.Firewall.Reading.{read_messages-build_ruleset}
use lwrt.Firewall.{build_ruleset}

abbrev web : Forward
web = record {
  proto = 6;
  dport = 8080;
  dest_ip = record { a = 192; b = 168; c = 1; d = 10 };
  dest_port = 80;
}

abbrev lan : List ℕ
lan = codes "br-lan"

read_messages-build_ruleset_example :
    read_messages (length (build_ruleset lan true (web ∷ []))) (build_ruleset lan true (web ∷ []))
    ≡ some (number 1 (whole_batch lan true (web ∷ [])))
read_messages-build_ruleset_example =
    read_messages-build_ruleset lan true (web ∷ []) (omega arith) (omega arith)

build_ruleset-encode_all_example :
    build_ruleset lan true (web ∷ []) ≡ encode_all (number 1 (whole_batch lan true (web ∷ [])))
build_ruleset-encode_all_example = build_ruleset-encode_all lan true (web ∷ []) (omega arith)
