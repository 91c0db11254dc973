-- ===== src/Firewall.antt =====
-- src/fw.rs: the nf_tables batch that `build_ruleset` writes. A closure over the buffer is a function
-- on buffers, and the pair of `&mut NlBuf` and `&mut seq` is a `Batch`. The sockets of `program` and the
-- writes to /proc of `enable_forwarding` are not modelled.
pub mod Constants
pub mod Forwards
pub mod Expressions
pub mod Ruleset
pub mod Sending
pub mod Building
pub mod Reading
pub mod Counting
mod Tests
use Prim.Native.Nat.{bit_or}
use lwrt.Base.{ℕ, ◌+◌, ◌*◌, ◌-◌, ◌%◌, ◌^◌, Bool, List, [], ◌∷◌, ◌++◌, if◌then◌else◌}
use lwrt.Base.Bytes.{Bytes, codes, be16, be32}
use lwrt.Netlink.{
  NlBuf, ◌⨟◌, new, bytes, attr_u32_be, attr_str, nested, message, nlm_f_request, nlm_f_ack,
  nlm_f_create,
}
use lwrt.Text.Numbers.{octets}
use Forwards.{Forward}
use Constants.{
  table, nfnl_subsys_nftables, nfnl_msg_batch_begin, nfnl_msg_batch_end, nft_msg_newtable,
  nft_msg_newchain, nft_msg_newrule, nfproto_inet, nfproto_ipv4, nf_inet_pre_routing,
  nf_inet_local_in, nf_inet_forward, nf_inet_post_routing, nf_drop, nf_accept, nfta_table_name,
  nfta_chain_table, nfta_chain_name, nfta_chain_hook, nfta_chain_policy, nfta_chain_type,
  nfta_hook_hooknum, nfta_hook_priority, nfta_rule_table, nfta_rule_chain, nfta_rule_expressions,
  nfta_list_elem, nfta_expr_name, nfta_expr_data, nfta_data_value, nfta_data_verdict,
  nfta_verdict_code, nfta_ct_dreg, nfta_ct_key, nft_ct_state, nfta_bitwise_sreg, nfta_bitwise_dreg,
  nfta_bitwise_len, nfta_bitwise_mask, nfta_bitwise_xor, nfta_cmp_sreg, nfta_cmp_op, nfta_cmp_data,
  nft_cmp_eq, nft_cmp_neq, nfta_meta_dreg, nfta_meta_key, nft_meta_iifname, nft_meta_l4proto,
  nfta_payload_dreg, nfta_payload_base, nfta_payload_offset, nfta_payload_len,
  nft_payload_network_header, nft_payload_transport_header, nfta_immediate_dreg,
  nfta_immediate_data, nfta_nat_type, nfta_nat_family, nfta_nat_reg_addr_min,
  nfta_nat_reg_proto_min, nft_nat_dnat, nft_reg_verdict, nft_reg_1, nft_reg_2, ct_established,
  ct_related, ipproto_tcp, ipproto_udp, ipproto_icmp,
}

-- The batch under construction: the buffer and the next sequence number, a `u32`.
pub record Batch : Type 0 where
  pub buf : NlBuf
  pub seq : ℕ

abbrev u32_mod : ℕ
u32_mod = 2 ^ 32

abbrev pub nft_type : ℕ → ℕ
nft_type msg = bit_or (nfnl_subsys_nftables * 2 ^ 8) msg

unfoldable pub nfgenmsg : ℕ → ℕ → NlBuf → NlBuf
nfgenmsg family res_id = bytes (family ∷ 0 ∷ []) ⨟ bytes (be16 res_id)

pub value_data : Bytes → NlBuf → NlBuf
value_data value = nested nfta_data_value (bytes value)

pub expr : Bytes → (NlBuf → NlBuf) → NlBuf → NlBuf
expr name build_data =
    nested nfta_list_elem (attr_str nfta_expr_name name ⨟ nested nfta_expr_data build_data)

pub verdict_expr : ℕ → NlBuf → NlBuf
verdict_expr code = expr (codes "immediate") (
    attr_u32_be nfta_immediate_dreg nft_reg_verdict
    ⨟ nested nfta_immediate_data (nested nfta_data_verdict (attr_u32_be nfta_verdict_code code)))

pub immediate_value : ℕ → Bytes → NlBuf → NlBuf
immediate_value reg value =
    expr (codes "immediate")
      (attr_u32_be nfta_immediate_dreg reg ⨟ nested nfta_immediate_data (value_data value))

pub meta_load : ℕ → ℕ → NlBuf → NlBuf
meta_load key reg =
    expr (codes "meta") (attr_u32_be nfta_meta_key key ⨟ attr_u32_be nfta_meta_dreg reg)

pub payload_load : ℕ → ℕ → ℕ → ℕ → NlBuf → NlBuf
payload_load base offset len reg = expr (codes "payload") (
    attr_u32_be nfta_payload_dreg reg
    ⨟ attr_u32_be nfta_payload_base base
    ⨟ attr_u32_be nfta_payload_offset offset
    ⨟ attr_u32_be nfta_payload_len len)

pub cmp : ℕ → ℕ → Bytes → NlBuf → NlBuf
cmp reg op value = expr (codes "cmp") (
    attr_u32_be nfta_cmp_sreg reg
    ⨟ attr_u32_be nfta_cmp_op op
    ⨟ nested nfta_cmp_data (value_data value))

pub ct_state_match : NlBuf → NlBuf
ct_state_match =
    expr (codes "ct") (attr_u32_be nfta_ct_key nft_ct_state ⨟ attr_u32_be nfta_ct_dreg nft_reg_1)
    ⨟ expr (codes "bitwise") (
        attr_u32_be nfta_bitwise_sreg nft_reg_1
        ⨟ attr_u32_be nfta_bitwise_dreg nft_reg_1
        ⨟ attr_u32_be nfta_bitwise_len 4
        ⨟ nested nfta_bitwise_mask (value_data (be32 (bit_or ct_established ct_related)))
        ⨟ nested nfta_bitwise_xor (value_data (be32 0)))
    ⨟ cmp nft_reg_1 nft_cmp_neq (be32 0)

-- `NLM_F_REQUEST | NLM_F_CREATE | NLM_F_ACK`
abbrev pub create_flags : ℕ
create_flags = bit_or (bit_or nlm_f_request nlm_f_create) nlm_f_ack

-- A message with the next sequence number.
pub send_message : ℕ → ℕ → (NlBuf → NlBuf) → Batch → Batch
send_message msg_type flags body s = record {
  buf = message msg_type flags s.seq body s.buf;
  seq = (s.seq + 1) % u32_mod;
}

pub new_base_chain : Bytes → Bytes → ℕ → ℕ → ℕ → Batch → Batch
new_base_chain name chain_type hook priority policy =
    send_message (nft_type nft_msg_newchain) create_flags (
      nfgenmsg nfproto_inet 0
      ⨟ attr_str nfta_chain_table table
      ⨟ attr_str nfta_chain_name name
      ⨟ nested nfta_chain_hook
          (attr_u32_be nfta_hook_hooknum hook ⨟ attr_u32_be nfta_hook_priority priority)
      ⨟ attr_str nfta_chain_type chain_type
      ⨟ attr_u32_be nfta_chain_policy policy)

pub new_rule : Bytes → (NlBuf → NlBuf) → Batch → Batch
new_rule chain build_exprs = send_message (nft_type nft_msg_newrule) create_flags (
    nfgenmsg nfproto_inet 0
    ⨟ attr_str nfta_rule_table table
    ⨟ attr_str nfta_rule_chain chain
    ⨟ nested nfta_rule_expressions build_exprs)

pub rule_ct_accept : Bytes → Batch → Batch
rule_ct_accept chain = new_rule chain (ct_state_match ⨟ verdict_expr nf_accept)

pub rule_iif_accept : Bytes → Bytes → Batch → Batch
rule_iif_accept chain ifname = new_rule chain (
    meta_load nft_meta_iifname nft_reg_1
    ⨟ cmp nft_reg_1 nft_cmp_eq (ifname ++ (0 ∷ []))
    ⨟ verdict_expr nf_accept)

pub rule_l4proto_accept : Bytes → ℕ → Batch → Batch
rule_l4proto_accept chain proto = new_rule chain (
    meta_load nft_meta_l4proto nft_reg_1
    ⨟ cmp nft_reg_1 nft_cmp_eq (proto ∷ [])
    ⨟ verdict_expr nf_accept)

pub rule_dnat : Forward → Batch → Batch
rule_dnat fwd = new_rule (codes "prerouting") (
    meta_load nft_meta_l4proto nft_reg_1
    ⨟ cmp nft_reg_1 nft_cmp_eq (fwd.proto ∷ [])
    ⨟ payload_load nft_payload_transport_header 2 2 nft_reg_1
    ⨟ cmp nft_reg_1 nft_cmp_eq (be16 fwd.dport)
    ⨟ immediate_value nft_reg_1 (octets fwd.dest_ip)
    ⨟ immediate_value nft_reg_2 (be16 fwd.dest_port)
    ⨟ expr (codes "nat") (
        attr_u32_be nfta_nat_type nft_nat_dnat
        ⨟ attr_u32_be nfta_nat_family nfproto_ipv4
        ⨟ attr_u32_be nfta_nat_reg_addr_min nft_reg_1
        ⨟ attr_u32_be nfta_nat_reg_proto_min nft_reg_2))

pub rule_forward_to_dest : Forward → Batch → Batch
rule_forward_to_dest fwd = new_rule (codes "forward") (
    meta_load nft_meta_l4proto nft_reg_1
    ⨟ cmp nft_reg_1 nft_cmp_eq (fwd.proto ∷ [])
    ⨟ payload_load nft_payload_network_header 16 4 nft_reg_1
    ⨟ cmp nft_reg_1 nft_cmp_eq (octets fwd.dest_ip)
    ⨟ payload_load nft_payload_transport_header 2 2 nft_reg_1
    ⨟ cmp nft_reg_1 nft_cmp_eq (be16 fwd.dest_port)
    ⨟ verdict_expr nf_accept)

-- `for f in forwards { op(f) }`
pub for_each : (Forward → Batch → Batch) → List Forward → Batch → Batch
for_each op [] s = s
for_each op (f ∷ forwards) s = for_each op forwards (op f s)

abbrev nothing : NlBuf → NlBuf
nothing b = b

-- The messages between the two batch markers, in the order of the source: first the table and the
-- base chains, the one of prerouting at priority -100.
pub build_chains : Batch → Batch
build_chains s =
    let s1 =
      send_message (nft_type nft_msg_newtable) create_flags
        (nfgenmsg nfproto_inet 0 ⨟ attr_str nfta_table_name table) s in
    let s2 = new_base_chain (codes "input") (codes "filter") nf_inet_local_in 0 nf_drop s1 in
    let s3 = new_base_chain (codes "forward") (codes "filter") nf_inet_forward 0 nf_drop s2 in
    let s4 =
      new_base_chain (codes "prerouting") (codes "nat") nf_inet_pre_routing (2 ^ 32 - 100) nf_accept
        s3 in
    new_base_chain (codes "postrouting") (codes "nat") nf_inet_post_routing 100 nf_accept s4

-- The rules of the filter chains, and the port forwards.
pub build_filter : Bytes → List Forward → Batch → Batch
build_filter lan forwards s =
    let s1 = rule_ct_accept (codes "input") s in
    let s2 = rule_iif_accept (codes "input") (codes "lo") s1 in
    let s3 = rule_iif_accept (codes "input") lan s2 in
    let s4 = rule_l4proto_accept (codes "input") ipproto_icmp s3 in
    let s5 = rule_ct_accept (codes "forward") s4 in
    let s6 = rule_iif_accept (codes "forward") lan s5 in
    let s7 = for_each rule_forward_to_dest forwards s6 in for_each rule_dnat forwards s7

pub build_tables : Bytes → Bool → List Forward → Batch → Batch
build_tables lan masq forwards s =
    let built = build_filter lan forwards (build_chains s) in
    if masq then new_rule (codes "postrouting") (expr (codes "masq") nothing) built else built

pub build_ruleset : Bytes → Bool → List Forward → NlBuf
build_ruleset lan masq forwards =
    let begun =
      send_message nfnl_msg_batch_begin nlm_f_request (nfgenmsg 0 nfnl_subsys_nftables)
        (record { buf = new; seq = 1 }) in
    let built = build_tables lan masq forwards begun in
    message nfnl_msg_batch_end nlm_f_request built.seq (nfgenmsg 0 nfnl_subsys_nftables) built.buf
