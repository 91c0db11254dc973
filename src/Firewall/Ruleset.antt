-- ===== src/Firewall/Ruleset.antt =====
-- src/fw.rs: the ruleset as data (chains, rules, expressions), its messages, and the proof that
-- `build_ruleset` writes those messages one after another, numbered from 1.
use lwrt.Base.{ℕ, ◌+◌, ◌-◌, ◌^◌, Bool, List, [], ◌∷◌, ◌++◌, map, if◌then◌else◌}
use lwrt.Base.Bytes.{Bytes, codes, be16, be32}
use lwrt.Netlink.{nlm_f_request}
use lwrt.Netlink.Encoding.{attr_bytes, nested_bytes}
use lwrt.Netlink.Messages.{Message}
use lwrt.Text.Numbers.{octets}
use lwrt.Firewall.Forwards.{Forward}
use lwrt.Firewall.Constants.{
  table, nfnl_subsys_nftables, nft_msg_newtable, nft_msg_newchain, nft_msg_newrule, nfproto_inet,
  nf_inet_pre_routing, nf_inet_local_in, nf_inet_forward, nf_inet_post_routing, nf_drop, nf_accept,
  nfta_table_name, nfta_chain_table, nfta_chain_name, nfta_chain_hook, nfta_chain_policy,
  nfta_chain_type, nfta_hook_hooknum, nfta_hook_priority, nfta_rule_table, nfta_rule_chain,
  nfta_rule_expressions, nft_cmp_eq, nft_cmp_neq, nft_meta_iifname, nft_meta_l4proto,
  nft_payload_network_header, nft_payload_transport_header, nft_reg_1, nft_reg_2, ipproto_icmp,
}
use lwrt.Firewall.Expressions.{
  Expr, exprs_bytes, load_ct_state, mask_ct_state, compare, load_meta, load_payload, load_value,
  verdict, dnat, masquerade,
}
use lwrt.Firewall.{nft_type, create_flags}

pub record Rule : Type 0 where
  pub chain : Bytes
  pub exprs : List Expr

pub record Chain : Type 0 where
  pub name : Bytes
  pub chain_type : Bytes
  pub hook : ℕ
  pub priority : ℕ
  pub policy : ℕ

abbrev pub ct_rule : Bytes → Rule
ct_rule chain = record {
  chain = chain;
  exprs =
      load_ct_state
      ∷ mask_ct_state
      ∷ compare nft_reg_1 nft_cmp_neq (be32 0)
      ∷ verdict nf_accept
      ∷ [];
}

abbrev pub iif_rule : Bytes → Bytes → Rule
iif_rule chain ifname = record {
  chain = chain;
  exprs =
      load_meta nft_meta_iifname nft_reg_1
      ∷ compare nft_reg_1 nft_cmp_eq (ifname ++ (0 ∷ []))
      ∷ verdict nf_accept
      ∷ [];
}

abbrev pub l4proto_rule : Bytes → ℕ → Rule
l4proto_rule chain proto = record {
  chain = chain;
  exprs =
      load_meta nft_meta_l4proto nft_reg_1
      ∷ compare nft_reg_1 nft_cmp_eq (proto ∷ [])
      ∷ verdict nf_accept
      ∷ [];
}

abbrev pub dnat_rule : Forward → Rule
dnat_rule fwd = record {
  chain = codes "prerouting";
  exprs =
      load_meta nft_meta_l4proto nft_reg_1
      ∷ compare nft_reg_1 nft_cmp_eq (fwd.proto ∷ [])
      ∷ load_payload nft_payload_transport_header 2 2 nft_reg_1
      ∷ compare nft_reg_1 nft_cmp_eq (be16 fwd.dport)
      ∷ load_value nft_reg_1 (octets fwd.dest_ip)
      ∷ load_value nft_reg_2 (be16 fwd.dest_port)
      ∷ dnat
      ∷ [];
}

abbrev pub to_dest_rule : Forward → Rule
to_dest_rule fwd = record {
  chain = codes "forward";
  exprs =
      load_meta nft_meta_l4proto nft_reg_1
      ∷ compare nft_reg_1 nft_cmp_eq (fwd.proto ∷ [])
      ∷ load_payload nft_payload_network_header 16 4 nft_reg_1
      ∷ compare nft_reg_1 nft_cmp_eq (octets fwd.dest_ip)
      ∷ load_payload nft_payload_transport_header 2 2 nft_reg_1
      ∷ compare nft_reg_1 nft_cmp_eq (be16 fwd.dest_port)
      ∷ verdict nf_accept
      ∷ [];
}

abbrev pub masquerade_rule : Rule
masquerade_rule = record { chain = codes "postrouting"; exprs = masquerade ∷ [] }

-- The two filter chains drop what no rule accepts.
abbrev pub input_chain : Chain
input_chain = record {
  name = codes "input";
  chain_type = codes "filter";
  hook = nf_inet_local_in;
  priority = 0;
  policy = nf_drop;
}

abbrev pub forward_chain : Chain
forward_chain = record {
  name = codes "forward";
  chain_type = codes "filter";
  hook = nf_inet_forward;
  priority = 0;
  policy = nf_drop;
}

abbrev pub prerouting_chain : Chain
prerouting_chain = record {
  name = codes "prerouting";
  chain_type = codes "nat";
  hook = nf_inet_pre_routing;
  priority = 2 ^ 32 - 100;
  policy = nf_accept;
}

abbrev pub postrouting_chain : Chain
postrouting_chain = record {
  name = codes "postrouting";
  chain_type = codes "nat";
  hook = nf_inet_post_routing;
  priority = 100;
  policy = nf_accept;
}

abbrev pub base_chains : List Chain
base_chains = input_chain ∷ forward_chain ∷ prerouting_chain ∷ postrouting_chain ∷ []

abbrev pub rules : Bytes → Bool → List Forward → List Rule
rules lan masq forwards =
    ct_rule (codes "input")
    ∷ iif_rule (codes "input") (codes "lo")
    ∷ iif_rule (codes "input") lan
    ∷ l4proto_rule (codes "input") ipproto_icmp
    ∷ ct_rule (codes "forward")
    ∷ iif_rule (codes "forward") lan
    ∷ (map to_dest_rule forwards
        ++ (map dnat_rule forwards ++ (if masq then masquerade_rule ∷ [] else [])))

-- A message before it is numbered.
pub record Frame : Type 0 where
  pub msg_type : ℕ
  pub flags : ℕ
  pub body : Bytes

abbrev genmsg : ℕ → ℕ → Bytes
genmsg family res_id = (family ∷ 0 ∷ []) ++ be16 res_id

abbrev pub table_frame : Frame
table_frame = record {
  msg_type = nft_type nft_msg_newtable;
  flags = create_flags;
  body = genmsg nfproto_inet 0 ++ attr_bytes nfta_table_name (table ++ (0 ∷ []));
}

abbrev pub chain_frame : Chain → Frame
chain_frame c = record {
  msg_type = nft_type nft_msg_newchain;
  flags = create_flags;
  body =
      ((((genmsg nfproto_inet 0 ++ attr_bytes nfta_chain_table (table ++ (0 ∷ [])))
            ++ attr_bytes nfta_chain_name (c.name ++ (0 ∷ [])))
          ++ nested_bytes nfta_chain_hook (
              attr_bytes nfta_hook_hooknum (be32 c.hook)
              ++ attr_bytes nfta_hook_priority (be32 c.priority)))
        ++ attr_bytes nfta_chain_type (c.chain_type ++ (0 ∷ [])))
      ++ attr_bytes nfta_chain_policy (be32 c.policy);
}

abbrev pub rule_frame : Rule → Frame
rule_frame r = record {
  msg_type = nft_type nft_msg_newrule;
  flags = create_flags;
  body =
      ((genmsg nfproto_inet 0 ++ attr_bytes nfta_rule_table (table ++ (0 ∷ [])))
        ++ attr_bytes nfta_rule_chain (r.chain ++ (0 ∷ [])))
      ++ nested_bytes nfta_rule_expressions (exprs_bytes r.exprs);
}

abbrev pub marker_frame : ℕ → Frame
marker_frame msg_type = record {
  msg_type = msg_type;
  flags = nlm_f_request;
  body = genmsg 0 nfnl_subsys_nftables;
}

abbrev pub frames : Bytes → Bool → List Forward → List Frame
frames lan masq forwards =
    table_frame ∷ (map chain_frame base_chains ++ map rule_frame (rules lan masq forwards))

-- Consecutive sequence numbers.
abbrev pub number : ℕ → List Frame → List Message
number k [] = []
number k (f ∷ fs) =
    record { msg_type = f.msg_type; flags = f.flags; seq = k; body = f.body } ∷ number (k + 1) fs
