-- ===== src/Firewall/Expressions.antt =====
-- src/fw.rs: rule expressions as data with their reference encoding, and the proof that each
-- emitter of the source writes that encoding.
use Prim.Native.Nat.{bit_or}
use lwrt.Base.{ℕ, List, [], ◌∷◌, ◌++◌, refl, sym, append-nil}
use lwrt.Base.Bytes.{Bytes, codes, be32}
use lwrt.Netlink.{NlBuf, ◌⨟◌, attr_u32_be, nla_f_nested}
use lwrt.Netlink.Encoding.{
  attr_bytes, nested_bytes, Emits, Emits-then, Emits-attr_str, Emits-nested, Emits-nested_payload,
  Emits-attr_u32_be,
}
use lwrt.Firewall.Constants.{
  nfproto_ipv4, nfta_list_elem, nfta_expr_name, nfta_expr_data, nfta_data_value, nfta_data_verdict,
  nfta_verdict_code, nfta_ct_dreg, nfta_ct_key, nft_ct_state, nfta_bitwise_sreg, nfta_bitwise_dreg,
  nfta_bitwise_len, nfta_bitwise_mask, nfta_bitwise_xor, nfta_cmp_sreg, nfta_cmp_op, nfta_cmp_data,
  nft_cmp_neq, nfta_meta_dreg, nfta_meta_key, nfta_payload_dreg, nfta_payload_base,
  nfta_payload_offset, nfta_payload_len, nfta_immediate_dreg, nfta_immediate_data, nfta_nat_type,
  nfta_nat_family, nfta_nat_reg_addr_min, nfta_nat_reg_proto_min, nft_nat_dnat, nft_reg_verdict,
  nft_reg_1, nft_reg_2,
}
use lwrt.Firewall.{
  value_data, expr, verdict_expr, immediate_value, meta_load, payload_load, cmp, ct_state_match,
}

pub data Expr : Type 0 where
  load_ct_state : Expr
  mask_ct_state : Expr
  compare : ℕ → ℕ → Bytes → Expr
  load_meta : ℕ → ℕ → Expr
  load_payload : ℕ → ℕ → ℕ → ℕ → Expr
  load_value : ℕ → Bytes → Expr
  verdict : ℕ → Expr
  dnat : Expr
  masquerade : Expr

abbrev u32_attr : ℕ → ℕ → Bytes
u32_attr typ v = attr_bytes typ (be32 v)

-- Raw bytes, marked as nested though they hold no attribute.
abbrev value_bytes : Bytes → Bytes
value_bytes value = attr_bytes (bit_or nfta_data_value nla_f_nested) value

abbrev named : Bytes → Bytes → Bytes
named name out =
    nested_bytes nfta_list_elem
      (attr_bytes nfta_expr_name (name ++ (0 ∷ [])) ++ nested_bytes nfta_expr_data out)

unfoldable pub expr_bytes : Expr → Bytes
expr_bytes load_ct_state =
    named (codes "ct") (u32_attr nfta_ct_key nft_ct_state ++ u32_attr nfta_ct_dreg nft_reg_1)
expr_bytes mask_ct_state = named (codes "bitwise") (
    (((u32_attr nfta_bitwise_sreg nft_reg_1 ++ u32_attr nfta_bitwise_dreg nft_reg_1)
        ++ u32_attr nfta_bitwise_len 4)
      ++ nested_bytes nfta_bitwise_mask (value_bytes (be32 6)))
    ++ nested_bytes nfta_bitwise_xor (value_bytes (be32 0)))
expr_bytes (compare reg op value) = named (codes "cmp") (
    (u32_attr nfta_cmp_sreg reg ++ u32_attr nfta_cmp_op op)
    ++ nested_bytes nfta_cmp_data (value_bytes value))
expr_bytes (load_meta key reg) =
    named (codes "meta") (u32_attr nfta_meta_key key ++ u32_attr nfta_meta_dreg reg)
expr_bytes (load_payload base offset len reg) = named (codes "payload") (
    ((u32_attr nfta_payload_dreg reg ++ u32_attr nfta_payload_base base)
      ++ u32_attr nfta_payload_offset offset)
    ++ u32_attr nfta_payload_len len)
expr_bytes (load_value reg value) =
    named (codes "immediate")
      (u32_attr nfta_immediate_dreg reg ++ nested_bytes nfta_immediate_data (value_bytes value))
expr_bytes (verdict code) = named (codes "immediate") (
    u32_attr nfta_immediate_dreg nft_reg_verdict
    ++ nested_bytes nfta_immediate_data
        (nested_bytes nfta_data_verdict (u32_attr nfta_verdict_code code)))
expr_bytes dnat = named (codes "nat") (
    ((u32_attr nfta_nat_type nft_nat_dnat ++ u32_attr nfta_nat_family nfproto_ipv4)
      ++ u32_attr nfta_nat_reg_addr_min nft_reg_1)
    ++ u32_attr nfta_nat_reg_proto_min nft_reg_2)
expr_bytes masquerade = named (codes "masq") []

abbrev pub exprs_bytes : List Expr → Bytes
exprs_bytes [] = []
exprs_bytes (e ∷ es) = expr_bytes e ++ exprs_bytes es

Emits-value_data : (value : Bytes) → Emits (value_data value) (value_bytes value)
unfolding value_data
Emits-value_data value = Emits-nested_payload nfta_data_value value

Emits-named :
    (name : Bytes) {build : NlBuf → NlBuf} {out : Bytes}
    → Emits build out
    → Emits (expr name build) (named name out)
unfolding expr
Emits-named name e =
    Emits-nested nfta_list_elem
      (Emits-then (Emits-attr_str nfta_expr_name name) (Emits-nested nfta_expr_data e))

abbrev u32 : (typ v : ℕ) → Emits (attr_u32_be typ v) (u32_attr typ v)
u32 = Emits-attr_u32_be

pub Emits-verdict_expr : (code : ℕ) → Emits (verdict_expr code) (expr_bytes (verdict code))
unfolding verdict_expr expr_bytes
Emits-verdict_expr code = Emits-named (codes "immediate") (
    Emits-then (u32 nfta_immediate_dreg nft_reg_verdict) (
      Emits-nested nfta_immediate_data
        (Emits-nested nfta_data_verdict (u32 nfta_verdict_code code))))

pub Emits-immediate_value :
    (reg : ℕ) (value : Bytes)
    → Emits (immediate_value reg value) (expr_bytes (load_value reg value))
unfolding immediate_value expr_bytes
Emits-immediate_value reg value = Emits-named (codes "immediate") (
    Emits-then (u32 nfta_immediate_dreg reg)
      (Emits-nested nfta_immediate_data (Emits-value_data value)))

pub Emits-meta_load : (key reg : ℕ) → Emits (meta_load key reg) (expr_bytes (load_meta key reg))
unfolding meta_load expr_bytes
Emits-meta_load key reg =
    Emits-named (codes "meta") (Emits-then (u32 nfta_meta_key key) (u32 nfta_meta_dreg reg))

pub Emits-payload_load :
    (base offset len reg : ℕ)
    → Emits (payload_load base offset len reg) (expr_bytes (load_payload base offset len reg))
unfolding payload_load expr_bytes
Emits-payload_load base offset len reg = Emits-named (codes "payload") (
    Emits-then
      (Emits-then (Emits-then (u32 nfta_payload_dreg reg) (u32 nfta_payload_base base))
        (u32 nfta_payload_offset offset))
      (u32 nfta_payload_len len))

pub Emits-cmp :
    (reg op : ℕ) (value : Bytes) → Emits (cmp reg op value) (expr_bytes (compare reg op value))
unfolding cmp expr_bytes
Emits-cmp reg op value = Emits-named (codes "cmp") (
    Emits-then (Emits-then (u32 nfta_cmp_sreg reg) (u32 nfta_cmp_op op))
      (Emits-nested nfta_cmp_data (Emits-value_data value)))

pub Emits-dnat :
    Emits
      (expr (codes "nat") (
        attr_u32_be nfta_nat_type nft_nat_dnat
        ⨟ attr_u32_be nfta_nat_family nfproto_ipv4
        ⨟ attr_u32_be nfta_nat_reg_addr_min nft_reg_1
        ⨟ attr_u32_be nfta_nat_reg_proto_min nft_reg_2))
      (expr_bytes dnat)
unfolding expr_bytes
Emits-dnat = Emits-named (codes "nat") (
    Emits-then
      (Emits-then (Emits-then (u32 nfta_nat_type nft_nat_dnat) (u32 nfta_nat_family nfproto_ipv4))
        (u32 nfta_nat_reg_addr_min nft_reg_1))
      (u32 nfta_nat_reg_proto_min nft_reg_2))

pub Emits-masquerade : Emits (expr (codes "masq") (λ b. b)) (expr_bytes masquerade)
unfolding expr_bytes
Emits-masquerade =
    Emits-named (codes "masq") (record { appends = λ b _. sym (append-nil b); aligned = refl })

-- `ct state & (established | related) != 0`
pub Emits-ct_state_match : Emits ct_state_match (
    (expr_bytes load_ct_state ++ expr_bytes mask_ct_state)
    ++ expr_bytes (compare nft_reg_1 nft_cmp_neq (be32 0)))
unfolding ct_state_match expr_bytes
Emits-ct_state_match =
    Emits-then
      (Emits-then
        (Emits-named (codes "ct")
          (Emits-then (u32 nfta_ct_key nft_ct_state) (u32 nfta_ct_dreg nft_reg_1)))
        (Emits-named (codes "bitwise") (
          Emits-then
            (Emits-then
              (Emits-then
                (Emits-then (u32 nfta_bitwise_sreg nft_reg_1) (u32 nfta_bitwise_dreg nft_reg_1))
                (u32 nfta_bitwise_len 4))
              (Emits-nested nfta_bitwise_mask (Emits-value_data (be32 6))))
            (Emits-nested nfta_bitwise_xor (Emits-value_data (be32 0))))))
      (Emits-cmp nft_reg_1 nft_cmp_neq (be32 0))
