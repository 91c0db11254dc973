-- ===== src/Dhcp/Server/Requests.antt =====
-- src/dhcp.rs: the address that a packet asks for is one, where the packet's bytes are bytes.
use lwrt.Base.{
  ℕ, zero, suc, ◌<◌, List, [], ◌∷◌, length, take, drop, Option, none, some, ◌||◌, subst, not, ltb,
  ◌==◌, ◌≡◌, All, if_either, if_some,
}
use mathlib.Core.Option
use lwrt.Base.Options.{or_nil}
use lwrt.Base.Bytes.{Bytes}
use lwrt.Base.Map.{bytes_key, same_key}
use lwrt.Dhcp.{
  Packet, parse, parse_option, parse_options, options, options_from, ipv4, header, magic, slice,
  opt_end, opt_msgtype, opt_reqip,
}
use lwrt.Dhcp.Pool.{mac_key}
use lwrt.Dhcp.Leases.{IsRequest}

abbrev pub AreBytes : Bytes → Type 0
AreBytes = All (λ b. b < 256)

AreBytes-take : (n : ℕ) (bs : Bytes) → AreBytes bs → AreBytes (take n bs)
AreBytes-take zero bs h = tt
AreBytes-take (suc n) [] h = tt
AreBytes-take (suc n) (b ∷ bs) h = (h.0, AreBytes-take n bs h.1)

AreBytes-drop : (n : ℕ) (bs : Bytes) → AreBytes bs → AreBytes (drop n bs)
AreBytes-drop zero bs h = h
AreBytes-drop (suc n) [] h = tt
AreBytes-drop (suc n) (b ∷ bs) h = AreBytes-drop n bs h.1

abbrev Values : Option (List (ℕ × Bytes)) → Type 0
Values o = All (λ p. AreBytes p.1) (or_nil o)

map-Values :
    (code : ℕ) (val : Bytes) (o : Option (List (ℕ × Bytes)))
    → AreBytes val
    → Values o
    → Values (Option.map (◌∷◌ (code, val)) o)
map-Values code val none v h = tt
map-Values code val (some os) v h = (v, h)

options_from-AreBytes : (f : ℕ) (buf : Bytes) → AreBytes buf → Values (options_from f buf)
unfolding options_from
options_from-AreBytes zero [] h = tt
options_from-AreBytes (suc f) [] h = tt
options_from-AreBytes zero (code ∷ body) h = tt
options_from-AreBytes (suc f) (code ∷ []) h =
    if_either Values (code == opt_end) tt
      (if_either Values (code == 0) (options_from-AreBytes f [] tt) tt)
options_from-AreBytes (suc f) (code ∷ len ∷ body) h = if_either Values (code == opt_end) tt (
    if_either Values (code == 0) (options_from-AreBytes f (len ∷ body) h.1) (
      map-Values code (take len body) (options_from f (drop len body))
        (AreBytes-take len body h.1.1)
        (options_from-AreBytes f (drop len body) (AreBytes-drop len body h.1.1))))

ipv4-IsRequest : (val : Bytes) → AreBytes val → IsRequest (ipv4 val)
unfolding ipv4
ipv4-IsRequest [] h = tt
ipv4-IsRequest (a ∷ []) h = tt
ipv4-IsRequest (a ∷ b ∷ []) h = tt
ipv4-IsRequest (a ∷ b ∷ c ∷ []) h = tt
ipv4-IsRequest (a ∷ b ∷ c ∷ d ∷ rest) h = record {
  a_fits = h.0;
  b_fits = h.1.0;
  c_fits = h.1.1.0;
  d_fits = h.1.1.1.0;
}

parse_option-IsRequest :
    (p : Packet) (code : ℕ) (val : Bytes)
    → IsRequest p.req_ip
    → AreBytes val
    → IsRequest (parse_option p (code, val)).req_ip
unfolding parse_option
parse_option-IsRequest p code val ok h =
    if_either (λ (q : Packet). IsRequest q.req_ip) (code == opt_msgtype) ok
      (if_either (λ (q : Packet). IsRequest q.req_ip) (code == opt_reqip) (ipv4-IsRequest val h)
        (if_either (λ (q : Packet). IsRequest q.req_ip) (code == 12) ok ok))

parse_options-IsRequest :
    (p : Packet) (os : List (ℕ × Bytes))
    → IsRequest p.req_ip
    → All (λ o. AreBytes o.1) os
    → IsRequest (parse_options p os).req_ip
unfolding parse_options
parse_options-IsRequest p [] ok h = ok
parse_options-IsRequest p ((code, val) ∷ os) ok h =
    parse_options-IsRequest (parse_option p (code, val)) os
      (parse_option-IsRequest p code val ok h.0) h.1

pub parse-IsRequest :
    (buf : Bytes) (req : Packet) → AreBytes buf → parse buf ≡ some req → IsRequest req.req_ip
unfolding parse options
parse-IsRequest buf req h e =
    let ok =
      parse_options-IsRequest (header buf) (options buf) tt
        (options_from-AreBytes (length buf) (drop 240 buf) (AreBytes-drop 240 buf h)) in
    subst (λ q. IsRequest q.req_ip)
      (if_some (ltb (length buf) 240 || not (same_key (slice buf 236 240) magic)) e) ok
