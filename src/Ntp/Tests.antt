-- ===== src/Ntp/Tests.antt =====
-- src/ntp.rs: the start of 1970, a reply that is too short, and the list of the servers.
use lwrt.Base.{[], ◌∷◌, ◌++◌, some, none, replicate, ◌≡◌, refl}
use lwrt.Base.Bytes.{codes}
use lwrt.Base.Map.{get, compare_bytes}
use lwrt.Text.{split_by, filter_by}
use lwrt.Config.{get_or, get_value}
use lwrt.Ntp.{time_of, servers}

one_and_a_half :
    time_of (replicate 40 0 ++ (0x83 ∷ 0xaa ∷ 0x7e ∷ 0x81 ∷ 0x80 ∷ 0 ∷ 0 ∷ 0 ∷ []))
    ≡ some (1, 500000000)
unfolding time_of
one_and_a_half = refl

short_reply : time_of (replicate 47 1) ≡ none
unfolding time_of
short_reply = refl

two_servers :
    servers [] ((codes "ntp", (codes "server", codes "a.example, b.example") ∷ []) ∷ [])
    ≡ codes "a.example" ∷ codes "b.example" ∷ []
unfolding servers split_by filter_by get_or get_value get compare_bytes
two_servers = refl
