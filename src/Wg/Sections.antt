-- ===== src/Wg/Sections.antt =====
-- src/wg.rs: the sections of a configuration are sent as the peers that they say.
use mathlib.Core.Option
use lwrt.Base.{
  ℕ, ◌+◌, ◌%◌, ◌/◌, ◌^◌, ◌<◌, Bool, true, false, List, [], ◌∷◌, ◌++◌, Option, none, some, length,
  ◌≡◌, refl, ap, ap₂, ◌∙◌, All, ==_true, ==_false,
}
use lwrt.Base.Options.{◌>>=◌}
use lwrt.Base.Bytes.{Bytes, codes, le16, le32}
use lwrt.Base.Map.{get, bytes_key}
use lwrt.Text.{Text, split, strip_prefix}
use lwrt.Text.Numbers.{parse_unsigned}
use lwrt.Config.{Config, Section}
use lwrt.Util.{b64_decode}
use lwrt.Util.Base64.{encode, b64_decode-encode}
use lwrt.Netlink.Encoding.{attr_bytes, nested_bytes, message_bytes}
use lwrt.Wg.{sockaddr_in, public_key, whole_key, is_peer, set_device}
use lwrt.Wg.Encoding.{
  optional_bytes, allowed_bytes, peer_bytes, chosen, onto, peers_of, peers_bytes, list_bytes,
  set_device-bytes,
}
use lwrt.Wg.Device.{
  Address, Number, IsAddress, IsNumber, Allowed, Peer, allowed_text, endpoint_text, Each, IsAllowed,
  IsSectionOf, Reads, allowed_data, endpoint_data, peer_data, peers_data, list_data, finished,
  other, keyless, garbled, wrong_length, peer,
}
use lwrt.Wg.Texts.{sockaddr_in-endpoint, split-allowed_text, allowed_bytes-data}

-- The sections are read as the peers

public_key-encode :
    (sect : Section) (key : Bytes)
    → get (codes "public_key") sect ≡ some (encode key)
    → All (λ b. b < 256) key
    → public_key sect ≡ whole_key (some key)
unfolding public_key
public_key-encode sect key e h =
    ap (λ o. whole_key (o >>= b64_decode)) e ∙ ap whole_key (b64_decode-encode key h)

peer_bytes-data :
    (sect : Section) (p : Peer) → IsSectionOf sect p → peer_bytes sect p.key ≡ peer_data p
unfolding peer_bytes
peer_bytes-data sect p s =
    ap₂ (λ x y. x ++ y)
      (ap₂ (λ x y. (attr_bytes 1 p.key ++ x) ++ y)
        (ap (λ o. optional_bytes (λ ka. attr_bytes 5 (le16 ka)) (o >>= parse_unsigned (2 ^ 16)))
            s.keepalive_text
          ∙ numbers p.keepalive s.keepalive_reads)
        (ap (λ o. optional_bytes (attr_bytes 4) (o >>= sockaddr_in)) s.endpoint_is
          ∙ endpoints p.endpoint s.endpoint_reads))
      (ap (optional_bytes (λ aips. nested_bytes 9 (allowed_bytes 0 (split b',' aips)))) s.allowed_is
        ∙ lists p.allowed s.allowed_reads)
  where
    numbers :
        (o : Option Number)
        → Each (IsNumber (2 ^ 16)) o
        → optional_bytes
            (λ ka. attr_bytes 5 (le16 ka))
            (Option.map (λ (n : Number). n.text) o >>= parse_unsigned (2 ^ 16))
          ≡ optional_bytes
              (λ (n : Number). attr_bytes 5 (n.value % 256 ∷ n.value / 256 % 256 ∷ []))
              o
    numbers none h = refl
    numbers (some n) h = ap (optional_bytes (λ ka. attr_bytes 5 (le16 ka))) h.reads

    endpoints :
        (o : Option (Address × Number))
        → Each (λ e. IsAddress e.0 × IsNumber (2 ^ 16) e.1) o
        → optional_bytes (attr_bytes 4) (Option.map endpoint_text o >>= sockaddr_in)
          ≡ optional_bytes (λ e. attr_bytes 4 (endpoint_data e)) o
    endpoints none h = refl
    endpoints (some e) h = ap (optional_bytes (attr_bytes 4)) (sockaddr_in-endpoint e h)

    lists :
        (o : Option (Allowed × List Allowed))
        → Each (λ a. IsAllowed a.0 × All IsAllowed a.1) o
        → optional_bytes
            (λ aips. nested_bytes 9 (allowed_bytes 0 (split b',' aips)))
            (Option.map (λ a. allowed_text a.0 a.1) o)
          ≡ optional_bytes (λ a. nested_bytes 9 (allowed_data 0 (a.0 ∷ a.1))) o
    lists none h = refl
    lists (some (a, others)) (h, hs) = ap (nested_bytes 9) (
        ap (allowed_bytes 0) (split-allowed_text a others h hs)
        ∙ allowed_bytes-data 0 (a ∷ others) (h, hs))

abbrev Agree : List (Section × Bytes) → List Peer → Type 0
Agree [] [] = Unit
Agree ((sect, key) ∷ rest) (p ∷ ps) = (peer_bytes sect key ≡ peer_data p) × Agree rest ps
Agree _ _ = ⊥

onto-none :
    (name : Text) (sect : Section) (rest : List (Section × Bytes))
    → public_key sect ≡ none
    → onto sect (chosen (is_peer (strip_prefix (codes "peer") name)) (public_key sect)) rest ≡ rest
onto-none name sect rest e = rw e (either (is_peer (strip_prefix (codes "peer") name)))
  where
    either : (b : Bool) → onto sect (chosen b none) rest ≡ rest
    either true = refl
    either false = refl

keyed :
    (sect : Section) (o : Option Text)
    → get (codes "public_key") sect ≡ o
    → public_key sect ≡ whole_key (o >>= b64_decode)
unfolding public_key
keyed sect o e = ap (λ t. whole_key (t >>= b64_decode)) e

strip_prefix-peer :
    (suffix : Text) → strip_prefix (codes "peer") (codes "peer" ++ suffix) ≡ some suffix
unfolding strip_prefix
strip_prefix-peer suffix = refl

Reads-Agree : (cfg : Config) (ps : List Peer) → Reads cfg ps → Agree (peers_of cfg) ps
unfolding peers_of
Reads-Agree _ _ finished = tt
Reads-Agree _ _ (other name sect cfg ps e r) = rw e (Reads-Agree cfg ps r)
Reads-Agree _ _ (keyless name sect cfg ps e r) =
    rw (onto-none name sect (peers_of cfg) (keyed sect none e)) (Reads-Agree cfg ps r)
Reads-Agree _ _ (garbled name text sect cfg ps e d r) =
    rw (onto-none name sect (peers_of cfg) (keyed sect (some text) e ∙ ap whole_key d))
      (Reads-Agree cfg ps r)
Reads-Agree _ _ (wrong_length name key sect cfg ps e h l r) =
    rw
      (onto-none name sect (peers_of cfg)
        (public_key-encode sect key e h ∙ rw (==_false (length key) 32 l) refl))
      (Reads-Agree cfg ps r)
Reads-Agree _ _ (peer suffix sect p cfg ps s r) =
    rw
      (
        strip_prefix-peer suffix,
        public_key-encode sect p.key s.key_text s.key_bytes,
        ==_true (length p.key) 32 s.key_length,
      )
      (peer_bytes-data sect p s, Reads-Agree cfg ps r)

peers_bytes-data :
    (idx : ℕ) (xs : List (Section × Bytes)) (ps : List Peer)
    → Agree xs ps
    → peers_bytes idx xs ≡ peers_data idx ps
unfolding peers_bytes
peers_bytes-data idx [] [] h = refl
peers_bytes-data idx ((sect, key) ∷ xs) (p ∷ ps) (h, hs) =
    ap₂ (λ b more. nested_bytes idx b ++ more) h (peers_bytes-data ((idx + 1) % 2 ^ 16) xs ps hs)
peers_bytes-data idx [] (p ∷ ps) h = absurd h
peers_bytes-data idx (x ∷ xs) [] h = absurd h

list_bytes-data :
    (xs : List (Section × Bytes)) (ps : List Peer) → Agree xs ps → list_bytes xs ≡ list_data ps
list_bytes-data [] [] h = refl
list_bytes-data (x ∷ xs) (p ∷ ps) h = ap (nested_bytes 8) (peers_bytes-data 0 (x ∷ xs) (p ∷ ps) h)
list_bytes-data [] (p ∷ ps) h = absurd h
list_bytes-data (x ∷ xs) [] h = absurd h

-- The buffer of set_device is the message of the header, the name, the flag that replaces the peers, the
-- key, the port and, where there is a peer, the list of the peers that the configuration says, in the
-- order of its sections and numbered from 0: each with its key of 32 bytes, and where the section has
-- them its keepalive, its endpoint as a sockaddr_in and its addresses with their prefix lengths, 32 where
-- there is none. A section with another name, without a key, or with one that is no base64 or of another
-- length, is passed over.
pub set_device-data :
    (family : ℕ) (ifname privk : Bytes) (port : ℕ) (cfg : Config) (ps : List Peer)
    → Reads cfg ps
    → set_device family ifname privk port cfg
      ≡ message_bytes family 5 1 (
          ((((1 ∷ 1 ∷ 0 ∷ 0 ∷ []) ++ attr_bytes 2 (ifname ++ 0 ∷ []))
              ++ attr_bytes 5 (1 ∷ 0 ∷ 0 ∷ 0 ∷ []))
            ++ attr_bytes 3 privk)
          ++ attr_bytes 6 (port % 256 ∷ port / 256 % 256 ∷ [])
          ++ list_data ps)
set_device-data family ifname privk port cfg ps r =
    set_device-bytes family ifname privk port cfg
    ∙ ap
        (λ peers. message_bytes family 5 1 (
          ((((1 ∷ 1 ∷ 0 ∷ 0 ∷ []) ++ attr_bytes 2 (ifname ++ 0 ∷ [])) ++ attr_bytes 5 (le32 1))
            ++ attr_bytes 3 privk)
          ++ attr_bytes 6 (le16 port)
          ++ peers))
        (list_bytes-data (peers_of cfg) ps (Reads-Agree cfg ps r))
