-- ===== src/Firewall/Reading.antt =====
-- src/fw.rs: what a reader of the batch finds in it, with the walk of the tests' `count_msgs`.
use lwrt.Base.{
  ℕ, zero, ◌+◌, ◌-◌, ◌%◌, ◌^◌, ◌≤◌, ◌<◌, Bool, true, false, List, [], ◌∷◌, ◌++◌, map, ◌≡◌, arith,
  length, length-append, length-replicate, if◌then◌else◌, All, All-append, some,
}
use lwrt.Base.Bytes.{Bytes, codes}
use lwrt.Netlink.Encoding.{attr_bytes, nested_bytes, length-attr_bytes, length-padding, padding}
use lwrt.Netlink.Messages.{
  IsMessage, encode_all, read_messages, read_messages-encode_all, length-encode_all-ge,
}
use lwrt.Firewall.Forwards.{Forward}
use lwrt.Firewall.Constants.{
  nfta_rule_table, nfta_rule_chain, nfta_rule_expressions, nft_reg_1, nft_cmp_eq, nft_meta_iifname,
  table, nfnl_msg_batch_begin, nfnl_msg_batch_end, nf_accept, ipproto_icmp,
}
use lwrt.Firewall.Expressions.{expr_bytes, compare, load_meta, verdict}
use lwrt.Firewall.Ruleset.{
  Rule, Frame, ct_rule, iif_rule, l4proto_rule, dnat_rule, to_dest_rule, masquerade_rule,
  base_chains, rules, table_frame, chain_frame, rule_frame, marker_frame, number,
}
use lwrt.Firewall.Building.{whole_batch, build_ruleset-encode_all, length-whole_batch}
use lwrt.Firewall.{build_ruleset}

record IsFrame (f : Frame) : Type 0 where
  type_fits : f.msg_type < 2 ^ 16
  flags_fit : f.flags < 2 ^ 16
  body_fits : 16 + length f.body < 2 ^ 32
  words : length f.body % 4 ≡ 0

number-IsMessage :
    (k : ℕ) (fs : List Frame)
    → k + length fs ≤ 2 ^ 32
    → All IsFrame fs
    → All IsMessage (number k fs)
number-IsMessage k [] h w = tt
number-IsMessage k (f ∷ fs) h w = (
  record {
    type_fits = w.0.type_fits;
    flags_fit = w.0.flags_fit;
    seq_fits = omega arith;
    body_fits = w.0.body_fits;
    words = w.0.words;
  },
  number-IsMessage (k + 1) fs (omega arith) w.1,
)

chains-IsFrame : All IsFrame (map chain_frame base_chains)
unfolding attr_bytes nested_bytes
chains-IsFrame = omega arith

to_dest-IsFrame : (f : Forward) → IsFrame (rule_frame (to_dest_rule f))
unfolding attr_bytes nested_bytes expr_bytes
to_dest-IsFrame f = omega arith

dnat-IsFrame : (f : Forward) → IsFrame (rule_frame (dnat_rule f))
unfolding attr_bytes nested_bytes expr_bytes
dnat-IsFrame f = omega arith

ct-IsFrame :
    IsFrame (rule_frame (ct_rule (codes "input")))
    × IsFrame (rule_frame (ct_rule (codes "forward")))
unfolding attr_bytes nested_bytes expr_bytes
ct-IsFrame = omega arith

-- Whole words, `n` bytes at most.
abbrev Small : ℕ → Bytes → Type 0
Small n b = (length b % 4 ≡ 0) × (length b ≤ n)

Small-append : (m n : ℕ) (b c : Bytes) → Small m b → Small n c → Small (m + n) (b ++ c)
Small-append m n b c h k = omega (arith, length-append b c)

Small-attr : (typ : ℕ) (payload : Bytes) → Small (7 + length payload) (attr_bytes typ payload)
Small-attr typ payload = omega (
  arith,
  length-attr_bytes typ payload,
  length-padding (length payload),
  length-replicate ((4 - length payload % 4) % 4) zero,
)

Small-nested : (n typ : ℕ) (body : Bytes) → Small n body → Small (4 + n) (nested_bytes typ body)
unfolding nested_bytes
Small-nested n typ body h = omega arith

-- A comparison with an interface's name, whatever its length.
Small-compare :
    (reg op : ℕ) (value : Bytes) → Small (200 + length value) (expr_bytes (compare reg op value))
unfolding attr_bytes nested_bytes expr_bytes
Small-compare reg op value = omega (
  arith,
  length-append value (padding (length value)),
  length-padding (length value),
  length-replicate ((4 - length value % 4) % 4) zero,
)

Small-load_meta : Small 200 (expr_bytes (load_meta nft_meta_iifname nft_reg_1))
unfolding attr_bytes nested_bytes expr_bytes
Small-load_meta = omega arith

Small-verdict : Small 200 (expr_bytes (verdict nf_accept) ++ [])
unfolding attr_bytes nested_bytes expr_bytes
Small-verdict = omega arith

iif-IsFrame :
    (chain name : Bytes)
    → length chain < 256
    → length name < 2 ^ 15
    → IsFrame (rule_frame (iif_rule chain name))
iif-IsFrame chain name h k =
    let compared = expr_bytes (compare nft_reg_1 nft_cmp_eq (name ++ (0 ∷ []))) in
    let accepted = expr_bytes (verdict nf_accept) ++ [] in
    let exprs =
      Small-append 200 _ (expr_bytes (load_meta nft_meta_iifname nft_reg_1)) (compared ++ accepted)
        Small-load_meta
        (Small-append _ 200 compared accepted (Small-compare _ _ (name ++ (0 ∷ [])))
          Small-verdict) in
    let tabled = Small-attr nfta_rule_table (table ++ (0 ∷ [])) in
    let chained = Small-attr nfta_rule_chain (chain ++ (0 ∷ [])) in
    let listed = Small-nested _ nfta_rule_expressions _ exprs in
    let body =
      Small-append _ _ _ _
        (Small-append _ _ (attr_bytes nfta_rule_table (table ++ (0 ∷ []))) _ tabled chained)
        listed in
    record {
      type_fits = omega arith;
      flags_fit = omega arith;
      body_fits = omega (arith, body, length-append chain (0 ∷ []), length-append name (0 ∷ []));
      words = omega (arith, body);
    }

abbrev tail_rules : Bool → List Forward → List Rule
tail_rules masq forwards =
    map to_dest_rule forwards
    ++ (map dnat_rule forwards ++ (if masq then masquerade_rule ∷ [] else []))

masquerade-IsFrame :
    (masq : Bool) → All IsFrame (map rule_frame (if masq then masquerade_rule ∷ [] else []))
unfolding attr_bytes nested_bytes expr_bytes
masquerade-IsFrame true = omega arith
masquerade-IsFrame false = tt

frames_append :
    (xs ys : List Rule)
    → All IsFrame (map rule_frame xs)
    → All IsFrame (map rule_frame ys)
    → All IsFrame (map rule_frame (xs ++ ys))
frames_append [] ys h k = k
frames_append (x ∷ xs) ys h k = (h.0, frames_append xs ys h.1 k)

each-IsFrame :
    (rule : Forward → Rule)
    → ((f : Forward) → IsFrame (rule_frame (rule f)))
    → (fs : List Forward) → All IsFrame (map rule_frame (map rule fs))
each-IsFrame rule each [] = tt
each-IsFrame rule each (f ∷ fs) = (each f, each-IsFrame rule each fs)

fixed-IsFrame :
    IsFrame (marker_frame nfnl_msg_batch_begin)
    × IsFrame table_frame
    × IsFrame (rule_frame (l4proto_rule (codes "input") ipproto_icmp))
    × IsFrame (marker_frame nfnl_msg_batch_end)
unfolding attr_bytes nested_bytes expr_bytes
fixed-IsFrame = omega arith

rules-IsFrame :
    (lan : Bytes) (masq : Bool) (forwards : List Forward)
    → length lan < 2 ^ 15
    → All IsFrame (map rule_frame (rules lan masq forwards))
rules-IsFrame lan masq forwards h =
    let masqs : List Rule = if masq then masquerade_rule ∷ [] else [] in
    let later =
      frames_append (map to_dest_rule forwards) (map dnat_rule forwards ++ masqs)
        (each-IsFrame _ to_dest-IsFrame forwards)
        (frames_append (map dnat_rule forwards) masqs (each-IsFrame _ dnat-IsFrame forwards)
          (masquerade-IsFrame masq)) in
    let lo = iif-IsFrame (codes "input") (codes "lo") (omega arith) (omega arith) in
    let lan_in = iif-IsFrame (codes "input") lan (omega arith) h in
    let lan_forward = iif-IsFrame (codes "forward") lan (omega arith) h in
    (ct-IsFrame.0, (lo, (lan_in, (fixed-IsFrame.2, (ct-IsFrame.1, (lan_forward, later))))))

whole_batch-IsFrame :
    (lan : Bytes) (masq : Bool) (forwards : List Forward)
    → length lan < 2 ^ 15
    → All IsFrame (whole_batch lan masq forwards)
whole_batch-IsFrame lan masq forwards h =
    let ruled = rules-IsFrame lan masq forwards h in
    let inner =
      All-append IsFrame (map chain_frame base_chains) (map rule_frame (rules lan masq forwards))
        chains-IsFrame ruled in
    let ended =
      All-append IsFrame (map chain_frame base_chains ++ map rule_frame (rules lan masq forwards))
        (marker_frame nfnl_msg_batch_end ∷ []) inner (fixed-IsFrame.3, tt) in
    (fixed-IsFrame.0, (fixed-IsFrame.1, ended))

module _ (lan : Bytes) (masq : Bool) (forwards : List Forward) where
  -- Whoever walks the batch by the length fields finds exactly the messages of the ruleset as data,
  -- between the two markers and numbered from 1, and no byte is left over. The interface's name is
  -- shorter than 2^15 bytes and there are fewer than 2^30 forwards.
  pub read_messages-build_ruleset :
      length lan < 2 ^ 15
      → length forwards < 2 ^ 30
      → let buf = build_ruleset lan masq forwards in
        read_messages (length buf) buf ≡ some (number 1 (whole_batch lan masq forwards))
  read_messages-build_ruleset h k =
      let ms = number 1 (whole_batch lan masq forwards) in
      rw (build_ruleset-encode_all lan masq forwards k) (
        read_messages-encode_all (length (encode_all ms)) ms (length-encode_all-ge ms) (
          number-IsMessage 1 (whole_batch lan masq forwards)
            (ground (arith, length-whole_batch lan masq forwards))
            (whole_batch-IsFrame lan masq forwards h)))
