-- ===== src/Httpd/Tests.antt =====
-- src/httpd.rs: the theorems at a device with the password `secret`.
use lwrt.Base.{ℕ, List, arith, All, ◌⊎◌, true, false, [], ◌∷◌, none, some, ◌≡◌, refl}
use lwrt.Base.Bytes.{codes}
use lwrt.Base.Map.{get, compare_bytes}
use lwrt.Text.{Text, equal}
use lwrt.Config.{Config, get_value}
use lwrt.Httpd.{
  Sessions, Request, issue, valid, auth_required, verify_password, is_authed, csrf_ok, login_page,
  logged_in, wrong_password, expired, inside, route,
}
use lwrt.Httpd.Escaping.{IsInert, hesc, hesc-IsInert}
use lwrt.Httpd.Lifetime.{logins, within_hour, valid-logins}
use lwrt.Httpd.Access.{changes, route_refuses, route-changes}

abbrev locked : Config
locked = (codes "admin", (codes "password", codes "secret") ∷ []) ∷ []

abbrev stranger : Request
stranger = record {
  method = codes "POST";
  path = codes "/ui/reboot";
  body = [];
  cookie_token = none;
  csrf = none;
}

abbrev owner : Request
owner = record {
  method = codes "POST";
  path = codes "/ui/settings";
  body = codes "a=b";
  cookie_token = some (codes "t1");
  csrf = some (codes "t1");
}

abbrev sessions : Sessions
sessions = (codes "t1", 100) ∷ []

locked-auth_required : auth_required locked ≡ true
unfolding auth_required get_value get compare_bytes
locked-auth_required = refl

stranger-denied : is_authed 200 stranger locked sessions ≡ false
unfolding is_authed auth_required get_value get compare_bytes
stranger-denied = refl

owner-saved : changes (route 200 owner locked sessions [] (codes "t2")).0 ≡ true
unfolding route inside is_authed csrf_ok valid equal auth_required get_value get compare_bytes
owner-saved = refl

abbrev events : List (ℕ × Text)
events = (200, codes "t2") ∷ (3700, codes "t3") ∷ []

valid-logins_example :
    valid 3900 (logins events []) (codes "t2") ≡ within_hour 3900 (codes "t2") false events
valid-logins_example = valid-logins 3900 (codes "t2") events (omega arith)

route_refuses_example :
    (route 200 stranger locked sessions [] (codes "t2") ≡ (login_page, sessions))
    ⊎ (route 200 stranger locked sessions [] (codes "t2") ≡ (expired, sessions))
    ⊎ (route 200 stranger locked sessions [] (codes "t2") ≡ (wrong_password, sessions))
    ⊎ ((verify_password locked [] ≡ true)
        × (route 200 stranger locked sessions [] (codes "t2")
            ≡ (logged_in (codes "t2"), issue 200 (codes "t2") sessions)))
route_refuses_example =
    route_refuses 200 stranger locked sessions [] (codes "t2") locked-auth_required stranger-denied

route-changes_example : (is_authed 200 owner locked sessions ≡ true) × (csrf_ok owner locked ≡ true)
route-changes_example = route-changes 200 owner locked sessions [] (codes "t2") owner-saved

hesc-IsInert_example : All IsInert (hesc (codes "<script>alert('x')</script>"))
hesc-IsInert_example = hesc-IsInert (codes "<script>alert('x')</script>")
