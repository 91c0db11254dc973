-- ===== src/Firewall/Counting.antt =====
-- src/fw.rs: the walk `count_msgs` of the tests, for every configuration.
use mathlib.Core.Option
use lwrt.Base.{
  ℕ, ◌+◌, ◌*◌, ◌/◌, ◌%◌, ◌^◌, ◌<◌, Bool, not, List, [], ◌∷◌, ◌++◌, map, Option, some, ◌==◌,
  if◌then◌else◌, ◌≡◌, refl, ap, ◌∙◌, arith, length, length-append, length-map,
}
use lwrt.Base.Bytes.{Bytes}
use lwrt.Netlink.Messages.{Message, read_messages}
use lwrt.Firewall.Constants.{
  nfnl_msg_batch_begin, nfnl_subsys_nftables, nft_msg_newtable, nft_msg_newchain, nft_msg_newrule,
  nfnl_msg_batch_end,
}
use lwrt.Firewall.Forwards.{Forward}
use lwrt.Firewall.Ruleset.{
  Rule, rules, base_chains, chain_frame, table_frame, rule_frame, marker_frame, number,
  to_dest_rule, dnat_rule, masquerade_rule,
}
use lwrt.Firewall.Reading.{read_messages-build_ruleset}
use lwrt.Firewall.{build_ruleset}

-- How many tables, chains and rules, by the subsystem and the message type.
pub record Counts : Type 0 where
  pub tables : ℕ
  pub chains : ℕ
  pub rules : ℕ

unfoldable pub tally : List Message → Counts
tally [] = record { tables = 0; chains = 0; rules = 0 }
tally (m ∷ ms) =
    let c = tally ms in
    if not (m.msg_type / 256 == nfnl_subsys_nftables)
    then c
    else if m.msg_type % 256 == nft_msg_newtable
    then record c { tables = c.tables + 1 }
    else if m.msg_type % 256 == nft_msg_newchain
    then record c { chains = c.chains + 1 }
    else if m.msg_type % 256 == nft_msg_newrule
    then record c { rules = c.rules + 1 }
    else c

-- `none` is a failed assertion of the walk.
pub count_msgs : Bytes → Option Counts
count_msgs buf = Option.map tally (read_messages (length buf) buf)

tally_rules :
    (k : ℕ) (rs : List Rule)
    → tally (number k (map rule_frame rs ++ (marker_frame nfnl_msg_batch_end ∷ [])))
      ≡ record { tables = 0; chains = 0; rules = length rs }
unfolding tally
tally_rules k [] = refl
tally_rules k (r ∷ rs) = rw (tally_rules (k + 1) rs) (ground arith)

tally_frames :
    (rs : List Rule)
    → tally (
        number 1 (
          marker_frame nfnl_msg_batch_begin
          ∷ ((table_frame ∷ (map chain_frame base_chains ++ map rule_frame rs))
              ++ (marker_frame nfnl_msg_batch_end ∷ []))))
      ≡ record { tables = 1; chains = 4; rules = length rs }
unfolding tally
tally_frames rs = rw (tally_rules 7 rs)

length-rules :
    (lan : Bytes) (masq : Bool) (forwards : List Forward)
    → length (rules lan masq forwards) ≡ 6 + 2 * length forwards + (if masq then 1 else 0)
length-rules lan masq forwards =
    let masqs : List Rule = if masq then masquerade_rule ∷ [] else [] in
    ground (
      arith,
      length-append (map to_dest_rule forwards) (map dnat_rule forwards ++ masqs),
      length-append (map dnat_rule forwards) masqs,
      length-map forwards to_dest_rule,
      length-map forwards dnat_rule,
    )

-- The walk over the batch by its length fields fails no assertion, and counts one table, four chains,
-- and six rules, two more for each forward, and one more where masquerading is on.
pub count_msgs-build_ruleset :
    (lan : Bytes) (masq : Bool) (forwards : List Forward)
    → length lan < 2 ^ 15
    → length forwards < 2 ^ 30
    → count_msgs (build_ruleset lan masq forwards)
      ≡ some (record {
        tables = 1;
        chains = 4;
        rules = 6 + 2 * length forwards + (if masq then 1 else 0);
      })
unfolding count_msgs
count_msgs-build_ruleset lan masq forwards h k =
    rw (read_messages-build_ruleset lan masq forwards h k) (
      ap some (
        tally_frames (rules lan masq forwards)
        ∙ ap (λ n. record { tables = 1; chains = 4; rules = n }) (length-rules lan masq forwards)))
