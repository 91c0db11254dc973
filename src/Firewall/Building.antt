-- ===== src/Firewall/Building.antt =====
-- src/fw.rs: the whole of `build_ruleset` against the ruleset as data.
use lwrt.Base.{
  ◌+◌, ◌*◌, ◌^◌, ◌<◌, Bool, true, false, List, [], ◌∷◌, ◌++◌, map, ◌≡◌, refl, ap, sym, ◌∙◌, arith,
  length, length-append, length-map, append_assoc, append-nil, if◌then◌else◌,
}
use lwrt.Base.Bytes.{Bytes, codes}
use lwrt.Netlink.{new, nlm_f_request}
use lwrt.Netlink.Messages.{encode_all}
use lwrt.Firewall.Forwards.{Forward}
use lwrt.Firewall.Constants.{
  nfnl_msg_batch_begin, nfnl_msg_batch_end, nfnl_subsys_nftables, ipproto_icmp,
}
use lwrt.Firewall.Expressions.{Emits-masquerade}
use lwrt.Firewall.Ruleset.{
  Rule, Frame, ct_rule, iif_rule, l4proto_rule, dnat_rule, to_dest_rule, masquerade_rule,
  base_chains, input_chain, forward_chain, prerouting_chain, postrouting_chain, table_frame,
  chain_frame, rule_frame, marker_frame, frames, number,
}
use lwrt.Firewall.Sending.{
  Sends, Sends-message, Sends-then, Sends-for_each, Sends-cast, Sends-table, Sends-new_base_chain,
  Sends-new_rule, Sends-rule_ct_accept, Sends-rule_iif_accept, Sends-rule_l4proto_accept,
  Sends-rule_dnat, Sends-rule_forward_to_dest, Emits-nfgenmsg,
}
use lwrt.Firewall.{
  Batch, send_message, nfgenmsg, build_chains, build_filter, build_tables, build_ruleset,
  rule_forward_to_dest, rule_dnat,
}

-- The rules that do not depend on the forwards.
abbrev fixed_rules : Bytes → List Rule
fixed_rules lan =
    ct_rule (codes "input")
    ∷ iif_rule (codes "input") (codes "lo")
    ∷ iif_rule (codes "input") lan
    ∷ l4proto_rule (codes "input") ipproto_icmp
    ∷ ct_rule (codes "forward")
    ∷ iif_rule (codes "forward") lan
    ∷ []

map_append {ℓ κ} :
    {A : Type ℓ} {B : Type κ} (f : A → B) (xs ys : List A) → map f (xs ++ ys) ≡ map f xs ++ map f ys
map_append f [] ys = refl
map_append f (x ∷ xs) ys = ap (◌∷◌ (f x)) (map_append f xs ys)

map-map {ℓ κ μ} :
    {A : Type ℓ} {B : Type κ} {C : Type μ} (g : B → C) (f : A → B) (xs : List A)
    → map g (map f xs) ≡ map (λ x. g (f x)) xs
map-map g f [] = refl
map-map g f (x ∷ xs) = ap (◌∷◌ (g (f x))) (map-map g f xs)

abbrev masq_frames : Bool → List Frame
masq_frames masq = if masq then rule_frame masquerade_rule ∷ [] else []

regroup :
    (lan : Bytes) (masq : Bool) (forwards : List Forward)
    → ((table_frame ∷ map chain_frame base_chains)
          ++ ((map rule_frame (fixed_rules lan) ++ map (λ f. rule_frame (to_dest_rule f)) forwards)
              ++ map (λ f. rule_frame (dnat_rule f)) forwards))
        ++ masq_frames masq
      ≡ frames lan masq forwards
regroup lan true forwards = simp (map_append, map-map, append_assoc)
regroup lan false forwards = simp (map_append, map-map, append_assoc)

Sends-build_chains : Sends build_chains (table_frame ∷ map chain_frame base_chains)
unfolding build_chains
Sends-build_chains =
    Sends-then
      (Sends-then
        (Sends-then (Sends-then Sends-table (Sends-new_base_chain input_chain))
          (Sends-new_base_chain forward_chain))
        (Sends-new_base_chain prerouting_chain))
      (Sends-new_base_chain postrouting_chain)

Sends-build_filter :
    (lan : Bytes) (forwards : List Forward)
    → Sends (build_filter lan forwards) (
        (map rule_frame (fixed_rules lan) ++ map (λ f. rule_frame (to_dest_rule f)) forwards)
        ++ map (λ f. rule_frame (dnat_rule f)) forwards)
unfolding build_filter
Sends-build_filter lan forwards =
    Sends-then
      (Sends-then
        (Sends-then
          (Sends-then
            (Sends-then
              (Sends-then
                (Sends-then (Sends-rule_ct_accept (codes "input"))
                  (Sends-rule_iif_accept (codes "input") (codes "lo")))
                (Sends-rule_iif_accept (codes "input") lan))
              (Sends-rule_l4proto_accept (codes "input") ipproto_icmp))
            (Sends-rule_ct_accept (codes "forward")))
          (Sends-rule_iif_accept (codes "forward") lan))
        (Sends-for_each rule_forward_to_dest _ Sends-rule_forward_to_dest forwards))
      (Sends-for_each rule_dnat _ Sends-rule_dnat forwards)

Sends-build_tables :
    (lan : Bytes) (masq : Bool) (forwards : List Forward)
    → Sends (build_tables lan masq forwards) (frames lan masq forwards)
unfolding build_tables
Sends-build_tables lan true forwards = Sends-cast (regroup lan true forwards) (
    Sends-then (Sends-then Sends-build_chains (Sends-build_filter lan forwards))
      (Sends-new_rule masquerade_rule (sym (append-nil _)) Emits-masquerade))
Sends-build_tables lan false forwards =
    Sends-cast (sym (append-nil _) ∙ regroup lan false forwards)
      (Sends-then Sends-build_chains (Sends-build_filter lan forwards))

abbrev pub whole_batch : Bytes → Bool → List Forward → List Frame
whole_batch lan masq forwards =
    marker_frame nfnl_msg_batch_begin
    ∷ (frames lan masq forwards ++ (marker_frame nfnl_msg_batch_end ∷ []))

pub length-whole_batch :
    (lan : Bytes) (masq : Bool) (forwards : List Forward)
    → length (whole_batch lan masq forwards) ≡ 13 + 2 * length forwards + (if masq then 1 else 0)
length-whole_batch lan masq forwards =
    let last = marker_frame nfnl_msg_batch_end ∷ [] in
    let masqs : List Rule = if masq then masquerade_rule ∷ [] else [] in
    let dnats = map dnat_rule forwards ++ masqs in
    let later = map to_dest_rule forwards ++ dnats in
    ground (
      arith,
      length-append (map rule_frame later) last,
      length-map later rule_frame,
      length-append (map to_dest_rule forwards) dnats,
      length-append (map dnat_rule forwards) masqs,
      length-map forwards to_dest_rule,
      length-map forwards dnat_rule,
    )

Sends-whole_batch :
    (lan : Bytes) (masq : Bool) (forwards : List Forward)
    → Sends
        (λ s. send_message nfnl_msg_batch_end nlm_f_request (nfgenmsg 0 nfnl_subsys_nftables) (
          build_tables lan masq forwards
            (send_message nfnl_msg_batch_begin nlm_f_request (nfgenmsg 0 nfnl_subsys_nftables) s)))
        (whole_batch lan masq forwards)
Sends-whole_batch lan masq forwards =
    Sends-then
      (Sends-then
        (Sends-message nfnl_msg_batch_begin nlm_f_request (Emits-nfgenmsg 0 nfnl_subsys_nftables))
        (Sends-build_tables lan masq forwards))
      (Sends-message nfnl_msg_batch_end nlm_f_request (Emits-nfgenmsg 0 nfnl_subsys_nftables))

-- The buffer of `build_ruleset`, written in place with its lengths patched afterwards, is the plain
-- concatenation of the messages of the ruleset as data between the two batch markers, numbered from
-- 1; the forwards are few enough that the 32-bit numbers do not run out.
pub build_ruleset-encode_all :
    (lan : Bytes) (masq : Bool) (forwards : List Forward)
    → length forwards < 2 ^ 30
    → build_ruleset lan masq forwards ≡ encode_all (number 1 (whole_batch lan masq forwards))
unfolding build_ruleset send_message
build_ruleset-encode_all lan masq forwards h =
    ap (λ (s : Batch). s.buf)
      ((Sends-whole_batch lan masq forwards).appends (record { buf = new; seq = 1 }) refl
        (ground (arith, length-whole_batch lan masq forwards)))
