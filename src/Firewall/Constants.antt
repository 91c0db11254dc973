-- ===== src/Firewall/Constants.antt =====
-- src/fw.rs: the netlink, nfnetlink and nf_tables numbers, each under its name in the source.
use lwrt.Base.{ℕ}
use lwrt.Base.Bytes.{Bytes, codes}

abbrev pub nfnl_subsys_nftables : ℕ
nfnl_subsys_nftables = 10

abbrev pub nfnl_msg_batch_begin : ℕ
nfnl_msg_batch_begin = 16

abbrev pub nfnl_msg_batch_end : ℕ
nfnl_msg_batch_end = 17

abbrev pub nft_msg_newtable : ℕ
nft_msg_newtable = 0

abbrev pub nft_msg_newchain : ℕ
nft_msg_newchain = 3

abbrev pub nft_msg_newrule : ℕ
nft_msg_newrule = 6

abbrev pub nfproto_inet : ℕ
nfproto_inet = 1

abbrev pub nfproto_ipv4 : ℕ
nfproto_ipv4 = 2

abbrev pub nf_inet_pre_routing : ℕ
nf_inet_pre_routing = 0

abbrev pub nf_inet_local_in : ℕ
nf_inet_local_in = 1

abbrev pub nf_inet_forward : ℕ
nf_inet_forward = 2

abbrev pub nf_inet_post_routing : ℕ
nf_inet_post_routing = 4

abbrev pub nf_drop : ℕ
nf_drop = 0

abbrev pub nf_accept : ℕ
nf_accept = 1

abbrev pub nfta_table_name : ℕ
nfta_table_name = 1

abbrev pub nfta_chain_table : ℕ
nfta_chain_table = 1

abbrev pub nfta_chain_name : ℕ
nfta_chain_name = 3

abbrev pub nfta_chain_hook : ℕ
nfta_chain_hook = 4

abbrev pub nfta_chain_policy : ℕ
nfta_chain_policy = 5

abbrev pub nfta_chain_type : ℕ
nfta_chain_type = 7

abbrev pub nfta_hook_hooknum : ℕ
nfta_hook_hooknum = 1

abbrev pub nfta_hook_priority : ℕ
nfta_hook_priority = 2

abbrev pub nfta_rule_table : ℕ
nfta_rule_table = 1

abbrev pub nfta_rule_chain : ℕ
nfta_rule_chain = 2

abbrev pub nfta_rule_expressions : ℕ
nfta_rule_expressions = 4

abbrev pub nfta_list_elem : ℕ
nfta_list_elem = 1

abbrev pub nfta_expr_name : ℕ
nfta_expr_name = 1

abbrev pub nfta_expr_data : ℕ
nfta_expr_data = 2

abbrev pub nfta_data_value : ℕ
nfta_data_value = 1

abbrev pub nfta_data_verdict : ℕ
nfta_data_verdict = 2

abbrev pub nfta_verdict_code : ℕ
nfta_verdict_code = 1

abbrev pub nfta_ct_dreg : ℕ
nfta_ct_dreg = 1

abbrev pub nfta_ct_key : ℕ
nfta_ct_key = 2

abbrev pub nft_ct_state : ℕ
nft_ct_state = 0

abbrev pub nfta_bitwise_sreg : ℕ
nfta_bitwise_sreg = 1

abbrev pub nfta_bitwise_dreg : ℕ
nfta_bitwise_dreg = 2

abbrev pub nfta_bitwise_len : ℕ
nfta_bitwise_len = 3

abbrev pub nfta_bitwise_mask : ℕ
nfta_bitwise_mask = 4

abbrev pub nfta_bitwise_xor : ℕ
nfta_bitwise_xor = 5

abbrev pub nfta_cmp_sreg : ℕ
nfta_cmp_sreg = 1

abbrev pub nfta_cmp_op : ℕ
nfta_cmp_op = 2

abbrev pub nfta_cmp_data : ℕ
nfta_cmp_data = 3

abbrev pub nft_cmp_eq : ℕ
nft_cmp_eq = 0

abbrev pub nft_cmp_neq : ℕ
nft_cmp_neq = 1

abbrev pub nfta_meta_dreg : ℕ
nfta_meta_dreg = 1

abbrev pub nfta_meta_key : ℕ
nfta_meta_key = 2

abbrev pub nft_meta_iifname : ℕ
nft_meta_iifname = 11

abbrev pub nft_meta_l4proto : ℕ
nft_meta_l4proto = 16

abbrev pub nfta_payload_dreg : ℕ
nfta_payload_dreg = 2

abbrev pub nfta_payload_base : ℕ
nfta_payload_base = 1

abbrev pub nfta_payload_offset : ℕ
nfta_payload_offset = 3

abbrev pub nfta_payload_len : ℕ
nfta_payload_len = 4

abbrev pub nft_payload_network_header : ℕ
nft_payload_network_header = 1

abbrev pub nft_payload_transport_header : ℕ
nft_payload_transport_header = 2

abbrev pub nfta_immediate_dreg : ℕ
nfta_immediate_dreg = 1

abbrev pub nfta_immediate_data : ℕ
nfta_immediate_data = 2

abbrev pub nfta_nat_type : ℕ
nfta_nat_type = 1

abbrev pub nfta_nat_family : ℕ
nfta_nat_family = 2

abbrev pub nfta_nat_reg_addr_min : ℕ
nfta_nat_reg_addr_min = 3

abbrev pub nfta_nat_reg_proto_min : ℕ
nfta_nat_reg_proto_min = 5

abbrev pub nft_nat_dnat : ℕ
nft_nat_dnat = 1

abbrev pub nft_reg_verdict : ℕ
nft_reg_verdict = 0

abbrev pub nft_reg_1 : ℕ
nft_reg_1 = 1

abbrev pub nft_reg_2 : ℕ
nft_reg_2 = 2

abbrev pub ct_established : ℕ
ct_established = 2

abbrev pub ct_related : ℕ
ct_related = 4

abbrev pub ipproto_tcp : ℕ
ipproto_tcp = 6

abbrev pub ipproto_udp : ℕ
ipproto_udp = 17

abbrev pub ipproto_icmp : ℕ
ipproto_icmp = 1

abbrev pub table : Bytes
table = codes "lwrt"
