-- ===== src/Dns/Tests.antt =====
-- src/dns.rs: a name that the leases have, the default upstream server, and a run of two queries.
use lwrt.Base.{
  ℕ, true, false, Bool, not, ◌&&◌, All, inr, arith, [], ◌∷◌, ◌++◌, Option, none, some, ◌≡◌, refl,
}
use lwrt.Base.Bytes.{copy_at, Bytes, codes}
use lwrt.Text.{
  Text, strip_prefix, strip_suffix, equal, lines, lines_of, strip_cr, split_by, filter_by,
  is_whitespace, lower,
}
use lwrt.Text.Numbers.{parse_ipv4}
use lwrt.Dns.{
  Query, Cache, local_answer, lookup_lease, lookup_in, upstream, read_name, labels, join,
  trim_end_matches, lease_reply, step, run,
}
use lwrt.Dns.Leases.{Lease, IsField, IsLease, IsHost, file, leased_address}
use lwrt.Dns.Replies.{Header, Question, query, reply, answered_with, local_answer-query}
use lwrt.Dns.Names.{encode_name, read_name-encode_name}
use lwrt.Dns.Answers.{IsAnswer, Among, serve-answers}

-- The ASCII of a text is the text.
abbrev lossy : Bytes → Text
lossy bs = bs

abbrev leases : Text
leases = codes "1700000000 02:00:00:00:00:01 192.168.1.100 Laptop" ++ 10 ∷ []

abbrev header : Bytes
header = 7 ∷ 9 ∷ 1 ∷ 0 ∷ 0 ∷ 1 ∷ 0 ∷ 0 ∷ 0 ∷ 0 ∷ 0 ∷ 0 ∷ []

abbrev question : Bytes
question = 6 ∷ (codes "laptop" ++ (3 ∷ (codes "lan" ++ (0 ∷ 0 ∷ 1 ∷ 0 ∷ 1 ∷ []))))

leased_name :
    local_answer lossy (some leases) (header ++ question)
    ≡ some (
        (7 ∷ 9 ∷ 0x81 ∷ 0x80 ∷ 0 ∷ 1 ∷ 0 ∷ 1 ∷ 0 ∷ 0 ∷ 0 ∷ 0 ∷ [])
        ++ (question
            ++ (0xc0 ∷ 0x0c ∷ 0 ∷ 1 ∷ 0 ∷ 1 ∷ 0 ∷ 0 ∷ 0 ∷ 120 ∷ 0 ∷ 4 ∷ 192 ∷ 168 ∷ 1 ∷ 100 ∷ [])))
unfolding local_answer lookup_lease lookup_in read_name labels join trim_end_matches lease_reply
    strip_prefix strip_suffix equal lines lines_of split_by filter_by is_whitespace lower parse_ipv4
    strip_cr copy_at
leased_name = refl

public_resolver : upstream none ≡ record { a = 1; b = 1; c = 1; d = 1 }
unfolding upstream
public_resolver = refl

abbrev first : Query
first = record {
  bytes = header ++ question;
  leases = none;
  asked_at = 0;
  response = some (7 ∷ 9 ∷ 0x81 ∷ []);
  stored_at = 5;
}

abbrev second : Query
second = record first { asked_at = 9; response = none }

serve-answers_example :
    (cache : Cache) × (run lossy (first ∷ []) [] ≡ some cache)
    × (reply : Option Bytes) × (cache' : Cache) × (step lossy second cache ≡ some (reply, cache'))
    × IsAnswer lossy (Among (first ∷ [])) second reply
serve-answers_example = serve-answers lossy (first ∷ []) second (omega arith, tt) tt

read_name-encode_name_example :
    read_name lossy
      ((1 ∷ 2 ∷ []) ++ (encode_name (codes "laptop" ∷ codes "lan" ∷ []) ++ (9 ∷ [])))
      2
    ≡ some (join (codes "laptop" ∷ codes "lan" ∷ []), 14)
unfolding encode_name
read_name-encode_name_example =
    read_name-encode_name lossy (1 ∷ 2 ∷ []) (9 ∷ []) (codes "laptop" ∷ codes "lan" ∷ [])
      ((omega arith, omega arith), ((omega arith, omega arith), tt))

abbrev laptop : Lease
laptop = record {
  expiry = codes "1700000000";
  mac = codes "02:00:00:00:00:01";
  ip = codes "192.168.1.100";
  name = codes "Laptop";
}

abbrev no_space : Text → Bool
no_space [] = true
no_space (c ∷ s) = not (is_whitespace c) && no_space s

text-IsField : (c : ℕ) (s : Text) → no_space (c ∷ s) ≡ true → IsField (c ∷ s)
text-IsField c s h = record { some_char = refl; solid = chars (c ∷ s) h }
  where
    chars : (s : Text) → no_space s ≡ true → All (λ c. is_whitespace c ≡ false) s
    chars [] h = tt
    chars (c ∷ s) h = (ground arith, chars s (ground arith))

laptop-IsLease : IsLease laptop
unfolding is_whitespace
laptop-IsLease = record {
  expiry_field = text-IsField _ _ refl;
  mac_field = text-IsField _ _ refl;
  ip_field = text-IsField _ _ refl;
  name_field = text-IsField _ _ refl;
}

abbrev asked : Question
asked = record { labels = codes "laptop" ∷ codes "lan" ∷ []; t0 = 0; t1 = 1; c0 = 0; c1 = 1 }

abbrev one_question : Header
one_question = record {
  i0 = 7;
  i1 = 9;
  f0 = 1;
  f1 = 0;
  q0 = 0;
  q1 = 1;
  an0 = 0;
  an1 = 0;
  ns0 = 0;
  ns1 = 0;
  ar0 = 0;
  ar1 = 0;
}

laptop-IsHost : IsHost (join asked.labels) (codes "laptop")
unfolding join strip_suffix strip_prefix
laptop-IsHost = record { bare = refl; named = inr refl }

local_answer-query_example :
    local_answer lossy (some (file (laptop ∷ []))) (query one_question asked [])
    ≡ answered_with (leased_address (codes "laptop") (laptop ∷ [])) (reply one_question asked)
local_answer-query_example =
    local_answer-query lossy one_question asked [] (laptop ∷ []) (codes "laptop")
      ((omega arith, omega arith), ((omega arith, omega arith), tt)) (laptop-IsLease, tt)
      laptop-IsHost
