-- ===== src/Httpd.antt =====
-- src/httpd.rs: sessions, the password, and which page a request gets. Times are in seconds, the clock
-- and the random bytes of a token are arguments. A response is its status and what its body is made of:
-- the HTML and the forms' text are built from files of the system and are not modelled.
pub mod Access
pub mod Lifetime
pub mod Escaping
mod Tests
use lwrt.Base.{
  ℕ, ◌-◌, Bool, true, false, not, ◌&&◌, ◌||◌, List, [], ◌∷◌, Option, none, some, map, ltb,
  if◌then◌else◌,
}
use lwrt.Base.Bytes.{Bytes, codes}
use lwrt.Base.Map.{get, remove, bytes_key}
use lwrt.Text.{Text, equal, lower, trim, split, strip_prefix, filter_map}
use lwrt.Text.Utf8.{as_bytes}
use lwrt.Config.{Config, get_value}
use lwrt.Sha256.{digest}
use lwrt.Sha256.Hex.{hex}

abbrev pub session_ttl : ℕ
session_ttl = 3600

-- Token and issue time. The map is a hash map, so an entry has no place of its own.
abbrev pub Sessions : Type 0
Sessions = List (Text × ℕ)

-- `now.duration_since(t)`, which is zero where `t` is later.
unfoldable pub gc : ℕ → Sessions → Sessions
gc now [] = []
gc now ((token, t) ∷ rest) =
    let kept = gc now rest in if ltb (now - t) session_ttl then (token, t) ∷ kept else kept

abbrev pub put : Text → ℕ → Sessions → Sessions
put token t sessions = (token, t) ∷ remove token sessions

unfoldable pub issue : ℕ → Text → Sessions → Sessions
unfolding gc
issue now token sessions = put token now (gc now sessions)

abbrev pub fresh : ℕ → Option ℕ → Bool
fresh now none = false
fresh now (some t) = ltb (now - t) session_ttl

unfoldable pub valid : ℕ → Sessions → Text → Bool
valid now sessions token = fresh now (get token sessions)

pub record Request : Type 0 where
  pub method : Text
  pub path : Text
  pub body : Bytes
  pub cookie_token : Option Text
  pub csrf : Option Text

abbrev first_of {ℓ} : {A : Type ℓ} → List A → Option A
first_of [] = none
first_of (x ∷ xs) = some x

unfoldable pub cookie_token : Text → Option Text
cookie_token value =
    first_of (filter_map (λ kv. strip_prefix (codes "session=") (trim kv)) (split b';' value))

abbrev is_some {ℓ} : {A : Type ℓ} → Option A → Bool
is_some none = false
is_some (some _) = true

unfoldable pub auth_required : Config → Bool
auth_required cfg =
    is_some (get_value cfg (codes "admin") (codes "password"))
    || is_some (get_value cfg (codes "admin") (codes "password_sha256"))

-- `eq_ignore_ascii_case`
abbrev same_caseless : Text → Text → Bool
same_caseless a b = equal (map lower a) (map lower b)

abbrev verify_plain : Option Text → Text → Bool
verify_plain none supplied = false
verify_plain (some p) supplied = equal p supplied

abbrev verify_hashed : Option Text → Option Text → Text → Bool
verify_hashed (some h) password supplied = same_caseless (hex (digest (as_bytes supplied))) (trim h)
verify_hashed none password supplied = verify_plain password supplied

unfoldable pub verify_password : Config → Text → Bool
verify_password cfg supplied =
    verify_hashed (get_value cfg (codes "admin") (codes "password_sha256"))
      (get_value cfg (codes "admin") (codes "password")) supplied

abbrev valid_cookie : ℕ → Sessions → Option Text → Bool
valid_cookie now sessions none = false
valid_cookie now sessions (some token) = valid now sessions token

unfoldable pub is_authed : ℕ → Request → Config → Sessions → Bool
is_authed now req cfg sessions =
    if not (auth_required cfg) then true else valid_cookie now sessions req.cookie_token

abbrev pub both_equal : Option Text → Option Text → Bool
both_equal (some c) (some h) = equal c h
both_equal _ _ = false

unfoldable pub csrf_ok : Request → Config → Bool
csrf_ok req cfg = if not (auth_required cfg) then true else both_equal req.cookie_token req.csrf

-- What a request leads to. `shell` carries the token that the page hands to its scripts.
pub data Outcome : Type 0 where
  login_page : Outcome
  shell : Option Text → Outcome
  logged_in : Text → Outcome
  wrong_password : Outcome
  expired : Outcome
  status : Outcome
  clients : Outcome
  settings : Outcome
  csrf_failed : Outcome
  saved : Bytes → Outcome
  rebooted : Outcome
  not_found : Outcome

-- The field `password` of the form is an argument, and so is the token that a success makes.
unfoldable pub login : ℕ → Config → Sessions → Text → Text → Outcome × Sessions
login now cfg sessions supplied token =
    if not (auth_required cfg) || verify_password cfg supplied
    then (logged_in token, issue now token sessions)
    else (wrong_password, sessions)

abbrev pub is_request : Request → Text → Text → Bool
is_request req method path = equal req.method method && equal req.path path

abbrev pub home : Bool → Bool → Option Text → Outcome
home required authed cookie =
    if required && not authed then login_page else shell (if required then cookie else none)

-- The match behind the check of the session.
unfoldable pub inside : Request → Config → Outcome
inside req cfg =
    if is_request req (codes "GET") (codes "/ui/status")
    then status
    else if is_request req (codes "GET") (codes "/ui/clients")
    then clients
    else if is_request req (codes "GET") (codes "/ui/settings")
    then settings
    else if is_request req (codes "POST") (codes "/ui/settings")
    then (if csrf_ok req cfg then saved req.body else csrf_failed)
    else if is_request req (codes "POST") (codes "/ui/reboot")
    then (if csrf_ok req cfg then rebooted else csrf_failed)
    else not_found

unfoldable pub route : ℕ → Request → Config → Sessions → Text → Text → Outcome × Sessions
route now req cfg sessions supplied token =
    if is_request req (codes "GET") (codes "/")
    then (home (auth_required cfg) (is_authed now req cfg sessions) req.cookie_token, sessions)
    else if is_request req (codes "POST") (codes "/ui/login")
    then login now cfg sessions supplied token
    else if is_authed now req cfg sessions
    then (inside req cfg, sessions)
    else (expired, sessions)
