-- ===== src/Firewall/Sending.antt =====
-- src/fw.rs: `build_ruleset` writes the messages of `Ruleset`, one after another, numbered from 1.
use lwrt.Base.{
  ℕ, suc, ◌+◌, ◌%◌, ◌^◌, ◌<◌, List, [], ◌∷◌, ◌++◌, map, ◌≡◌, refl, ap, sym, subst, ◌∙◌, arith,
  length, length-append, append_assoc, append-nil,
}
use lwrt.Base.Bytes.{Bytes, be16}
use lwrt.Netlink.{NlBuf, ◌⨟◌, bytes, attr_str}
use lwrt.Netlink.Encoding.{
  message_bytes, Emits, Emits-then, Emits-attr_str, Emits-nested, Emits-attr_u32_be, Emits-message,
}
use lwrt.Netlink.Messages.{Message, encode, encode_all}
use lwrt.Text.Numbers.{octets}
use lwrt.Firewall.Forwards.{Forward}
use lwrt.Firewall.Constants.{
  table, nft_msg_newtable, nft_msg_newchain, nft_msg_newrule, nfproto_inet, nf_accept,
  nfta_table_name, nfta_chain_table, nfta_chain_name, nfta_chain_hook, nfta_chain_policy,
  nfta_chain_type, nfta_hook_hooknum, nfta_hook_priority, nfta_rule_table, nfta_rule_chain,
  nfta_rule_expressions, nft_cmp_eq, nft_meta_iifname, nft_meta_l4proto, nft_payload_network_header,
  nft_payload_transport_header, nft_reg_1, nft_reg_2,
}
use lwrt.Firewall.Ruleset.{
  Rule, Chain, Frame, ct_rule, iif_rule, l4proto_rule, dnat_rule, to_dest_rule, table_frame,
  chain_frame, rule_frame, number,
}
use lwrt.Firewall.Expressions.{
  exprs_bytes, Emits-verdict_expr, Emits-immediate_value, Emits-meta_load, Emits-payload_load,
  Emits-cmp, Emits-dnat, Emits-ct_state_match,
}
use lwrt.Firewall.{
  Batch, nft_type, nfgenmsg, create_flags, send_message, new_base_chain, new_rule, rule_ct_accept,
  rule_iif_accept, rule_l4proto_accept, rule_dnat, rule_forward_to_dest, for_each,
}

pub number-append :
    (k : ℕ) (xs ys : List Frame) → number k (xs ++ ys) ≡ number k xs ++ number (k + length xs) ys
number-append k [] ys = ap (λ n. number n ys) {x = k} {y = k + 0} (omega arith)
number-append k (x ∷ xs) ys =
    ap (◌∷◌ (record { msg_type = x.msg_type; flags = x.flags; seq = k; body = x.body })) (
      number-append (k + 1) xs ys
      ∙ ap (λ n. number (k + 1) xs ++ number n ys) {y = k + suc (length xs)} (omega arith))

pub encode_all-append :
    (xs ys : List Message) → encode_all (xs ++ ys) ≡ encode_all xs ++ encode_all ys
encode_all-append [] ys = refl
encode_all-append (x ∷ xs) ys =
    ap (◌++◌ (encode x)) (encode_all-append xs ys)
    ∙ sym (append_assoc (encode x) (encode_all xs) (encode_all ys))

-- Run on a batch of whole words whose numbers do not run out, `f` appends these messages.
pub record Sends (f : Batch → Batch) (fs : List Frame) : Type 0 where
  pub appends :
      (s : Batch)
      → length s.buf % 4 ≡ 0
      → s.seq + length fs < 2 ^ 32
      → f s ≡ record { buf = s.buf ++ encode_all (number s.seq fs); seq = s.seq + length fs }
  pub aligned : (k : ℕ) → length (encode_all (number k fs)) % 4 ≡ 0

Batch-path :
    {b b' : NlBuf} {n n' : ℕ}
    → b ≡ b'
    → n ≡ n'
    → ◌≡◌ {A = Batch} (record { buf = b; seq = n }) (record { buf = b'; seq = n' })
Batch-path p q = λ i. record { buf = p i; seq = q i }

encode_all-number-append :
    (k : ℕ) (xs ys : List Frame)
    → encode_all (number k xs) ++ encode_all (number (k + length xs) ys)
      ≡ encode_all (number k (xs ++ ys))
encode_all-number-append k xs ys =
    rw (number-append k xs ys) (sym (encode_all-append (number k xs) (number (k + length xs) ys)))

pub Sends-message :
    (msg_type flags : ℕ) {body : NlBuf → NlBuf} {out : Bytes}
    → Emits body out
    → Sends
        (send_message msg_type flags body)
        (record { msg_type = msg_type; flags = flags; body = out } ∷ [])
unfolding send_message
Sends-message msg_type flags {body} {out} e = record {
  appends = λ s h k.
      Batch-path
        ((Emits-message msg_type flags s.seq e).appends s.buf h
          ∙ ap (◌++◌ s.buf) (sym (append-nil _)))
        (omega arith);
  aligned = λ k.
      rw (append-nil (message_bytes msg_type flags k out))
        (Emits-message msg_type flags k e).aligned;
}

pub Sends-then :
    {f g : Batch → Batch} {fs gs : List Frame}
    → Sends f fs
    → Sends g gs
    → Sends (λ s. g (f s)) (fs ++ gs)
Sends-then {f} {g} {fs} {gs} p q = record {
  appends = λ s h k.
      let whole = length-append fs gs in
      let first = encode_all (number s.seq fs) in
      ap g (p.appends s h (omega (arith, whole)))
      ∙ q.appends (record { buf = s.buf ++ first; seq = s.seq + length fs })
          (omega (arith, length-append s.buf first, p.aligned s.seq)) (omega (arith, whole))
      ∙ Batch-path
          (append_assoc s.buf first _ ∙ ap (◌++◌ s.buf) (encode_all-number-append s.seq fs gs))
          (omega (arith, whole));
  aligned = λ k. rw (← encode_all-number-append k fs gs) (
      omega (
        arith,
        length-append (encode_all (number k fs)) (encode_all (number (k + length fs) gs)),
        p.aligned k,
        q.aligned (k + length fs),
      ));
}

pub Sends-for_each :
    (op : Forward → Batch → Batch) (frame : Forward → Frame)
    → ((f : Forward) → Sends (op f) (frame f ∷ []))
    → (forwards : List Forward) → Sends (for_each op forwards) (map frame forwards)
unfolding for_each
Sends-for_each op frame each [] = record {
  appends = λ s h k. Batch-path (sym (append-nil s.buf)) (omega arith);
  aligned = λ k. refl;
}
Sends-for_each op frame each (f ∷ forwards) =
    Sends-then (each f) (Sends-for_each op frame each forwards)

pub Sends-cast : {f : Batch → Batch} {fs gs : List Frame} → fs ≡ gs → Sends f fs → Sends f gs
Sends-cast {f} e p = subst (Sends f) e p

Emits-cast : {f : NlBuf → NlBuf} {out out' : Bytes} → out ≡ out' → Emits f out → Emits f out'
Emits-cast {f} e p = subst (Emits f) e p

pub Emits-nfgenmsg : (family res_id : ℕ) → Emits (nfgenmsg family res_id) (family ∷ 0 ∷ be16 res_id)
unfolding nfgenmsg bytes
Emits-nfgenmsg family res_id = record {
  appends = λ b h. append_assoc b (family ∷ 0 ∷ []) (be16 res_id);
  aligned = refl;
}

pub Sends-table :
    Sends
      (send_message
        (nft_type nft_msg_newtable)
        create_flags
        (nfgenmsg nfproto_inet 0 ⨟ attr_str nfta_table_name table))
      (table_frame ∷ [])
Sends-table =
    Sends-message _ _
      (Emits-then (Emits-nfgenmsg nfproto_inet 0) (Emits-attr_str nfta_table_name table))

pub Sends-new_base_chain :
    (c : Chain)
    → Sends (new_base_chain c.name c.chain_type c.hook c.priority c.policy) (chain_frame c ∷ [])
unfolding new_base_chain
Sends-new_base_chain c = Sends-message (nft_type nft_msg_newchain) create_flags (
    Emits-then
      (Emits-then
        (Emits-then
          (Emits-then
            (Emits-then (Emits-nfgenmsg nfproto_inet 0) (Emits-attr_str nfta_chain_table table))
            (Emits-attr_str nfta_chain_name c.name))
          (Emits-nested nfta_chain_hook (
            Emits-then (Emits-attr_u32_be nfta_hook_hooknum c.hook)
              (Emits-attr_u32_be nfta_hook_priority c.priority))))
        (Emits-attr_str nfta_chain_type c.chain_type))
      (Emits-attr_u32_be nfta_chain_policy c.policy))

pub Sends-new_rule :
    (r : Rule) {build : NlBuf → NlBuf} {out : Bytes}
    → out ≡ exprs_bytes r.exprs
    → Emits build out
    → Sends (new_rule r.chain build) (rule_frame r ∷ [])
unfolding new_rule
Sends-new_rule r e built = Sends-message (nft_type nft_msg_newrule) create_flags (
    Emits-then
      (Emits-then
        (Emits-then (Emits-nfgenmsg nfproto_inet 0) (Emits-attr_str nfta_rule_table table))
        (Emits-attr_str nfta_rule_chain r.chain))
      (Emits-nested nfta_rule_expressions (Emits-cast e built)))

pub Sends-rule_ct_accept :
    (chain : Bytes) → Sends (rule_ct_accept chain) (rule_frame (ct_rule chain) ∷ [])
unfolding rule_ct_accept
Sends-rule_ct_accept chain =
    Sends-new_rule (ct_rule chain) (simp (append_assoc, append-nil))
      (Emits-then Emits-ct_state_match (Emits-verdict_expr nf_accept))

pub Sends-rule_iif_accept :
    (chain ifname : Bytes)
    → Sends (rule_iif_accept chain ifname) (rule_frame (iif_rule chain ifname) ∷ [])
unfolding rule_iif_accept
Sends-rule_iif_accept chain ifname =
    Sends-new_rule (iif_rule chain ifname) (simp (append_assoc, append-nil)) (
      Emits-then
        (Emits-then (Emits-meta_load nft_meta_iifname nft_reg_1)
          (Emits-cmp nft_reg_1 nft_cmp_eq (ifname ++ (0 ∷ []))))
        (Emits-verdict_expr nf_accept))

pub Sends-rule_l4proto_accept :
    (chain : Bytes) (proto : ℕ)
    → Sends (rule_l4proto_accept chain proto) (rule_frame (l4proto_rule chain proto) ∷ [])
unfolding rule_l4proto_accept
Sends-rule_l4proto_accept chain proto =
    Sends-new_rule (l4proto_rule chain proto) (simp (append_assoc, append-nil)) (
      Emits-then
        (Emits-then (Emits-meta_load nft_meta_l4proto nft_reg_1)
          (Emits-cmp nft_reg_1 nft_cmp_eq (proto ∷ [])))
        (Emits-verdict_expr nf_accept))

pub Sends-rule_dnat : (f : Forward) → Sends (rule_dnat f) (rule_frame (dnat_rule f) ∷ [])
unfolding rule_dnat
Sends-rule_dnat f = Sends-new_rule (dnat_rule f) (simp (append_assoc, append-nil)) (
    Emits-then
      (Emits-then
        (Emits-then
          (Emits-then
            (Emits-then
              (Emits-then (Emits-meta_load nft_meta_l4proto nft_reg_1)
                (Emits-cmp nft_reg_1 nft_cmp_eq (f.proto ∷ [])))
              (Emits-payload_load nft_payload_transport_header 2 2 nft_reg_1))
            (Emits-cmp nft_reg_1 nft_cmp_eq (be16 f.dport)))
          (Emits-immediate_value nft_reg_1 (octets f.dest_ip)))
        (Emits-immediate_value nft_reg_2 (be16 f.dest_port)))
      Emits-dnat)

pub Sends-rule_forward_to_dest :
    (f : Forward) → Sends (rule_forward_to_dest f) (rule_frame (to_dest_rule f) ∷ [])
unfolding rule_forward_to_dest
Sends-rule_forward_to_dest f = Sends-new_rule (to_dest_rule f) (simp (append_assoc, append-nil)) (
    Emits-then
      (Emits-then
        (Emits-then
          (Emits-then
            (Emits-then
              (Emits-then (Emits-meta_load nft_meta_l4proto nft_reg_1)
                (Emits-cmp nft_reg_1 nft_cmp_eq (f.proto ∷ [])))
              (Emits-payload_load nft_payload_network_header 16 4 nft_reg_1))
            (Emits-cmp nft_reg_1 nft_cmp_eq (octets f.dest_ip)))
          (Emits-payload_load nft_payload_transport_header 2 2 nft_reg_1))
        (Emits-cmp nft_reg_1 nft_cmp_eq (be16 f.dest_port)))
      (Emits-verdict_expr nf_accept))
