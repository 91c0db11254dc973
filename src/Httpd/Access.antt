-- ===== src/Httpd/Access.antt =====
-- src/httpd.rs: what a request without a valid session can reach.
use lwrt.Base.{
  ℕ, ◌⊎◌, inl, inr, Bool, true, false, not, ◌&&◌, ◌||◌, Option, if◌then◌else◌, ◌≡◌, refl,
  Bool-cases, if_either,
}
use lwrt.Base.Bytes.{codes}
use lwrt.Base.Map.{bytes_key}
use lwrt.Text.{Text}
use lwrt.Config.{Config}
use lwrt.Httpd.{
  is_request, home, inside, csrf_ok, saved, rebooted, Sessions, issue, Request, auth_required,
  verify_password, is_authed, Outcome, login_page, logged_in, wrong_password, expired, login, route,
}

-- Where a password is set, a request without a valid session gets the login page, a refusal, or, with
-- the password, a session; in the first three cases the sessions stay as they were.
pub route_refuses :
    (now : ℕ) (req : Request) (cfg : Config) (sessions : Sessions) (supplied token : Text)
    → auth_required cfg ≡ true
    → is_authed now req cfg sessions ≡ false
    → (route now req cfg sessions supplied token ≡ (login_page, sessions))
      ⊎ (route now req cfg sessions supplied token ≡ (expired, sessions))
      ⊎ (route now req cfg sessions supplied token ≡ (wrong_password, sessions))
      ⊎ ((verify_password cfg supplied ≡ true)
          × (route now req cfg sessions supplied token
              ≡ (logged_in token, issue now token sessions)))
unfolding route login
route_refuses now req cfg sessions supplied token required denied =
    let P : Outcome × Sessions → Type 0 = λ r.
      (r ≡ (login_page, sessions))
      ⊎ (r ≡ (expired, sessions))
      ⊎ (r ≡ (wrong_password, sessions))
      ⊎ ((verify_password cfg supplied ≡ true)
          × (r ≡ (logged_in token, issue now token sessions))) in
    rw (required, denied)
      (if_either P (is_request req (codes "GET") (codes "/")) (inl refl) (
        if_either P (is_request req (codes "POST") (codes "/ui/login"))
          (elim (Bool-cases (verify_password cfg supplied)) [
            | inl right ↦ rw right (inr (inr (inr (refl, refl))))
            | inr wrong ↦ rw wrong (inr (inr (inl refl)))
          ])
          (inr (inl refl))))

-- The outcomes that change the device.
abbrev pub changes : Outcome → Bool
changes (saved body) = true
changes rebooted = true
changes _ = false

abbrev Harmless : Outcome × Sessions → Type 0
Harmless r = changes r.0 ≡ false

login-Harmless :
    (now : ℕ) (cfg : Config) (sessions : Sessions) (supplied token : Text)
    → Harmless (login now cfg sessions supplied token)
unfolding login
login-Harmless now cfg sessions supplied token =
    if_either Harmless (not (auth_required cfg) || verify_password cfg supplied) refl refl

home-Harmless :
    (required authed : Bool) (cookie : Option Text) → changes (home required authed cookie) ≡ false
home-Harmless required authed cookie =
    if_either (λ (o : Outcome). changes o ≡ false) (required && not authed) refl refl

inside-Harmless :
    (req : Request) (cfg : Config) → csrf_ok req cfg ≡ false → changes (inside req cfg) ≡ false
unfolding inside
inside-Harmless req cfg bad =
    let P : Outcome → Type 0 = λ o. changes o ≡ false in
    rw bad (
      if_either P (is_request req (codes "GET") (codes "/ui/status")) refl (
        if_either P (is_request req (codes "GET") (codes "/ui/clients")) refl (
          if_either P (is_request req (codes "GET") (codes "/ui/settings")) refl (
            if_either P (is_request req (codes "POST") (codes "/ui/settings")) refl
              (if_either P (is_request req (codes "POST") (codes "/ui/reboot")) refl refl)))))

route-Harmless :
    (now : ℕ) (req : Request) (cfg : Config) (sessions : Sessions) (supplied token : Text)
    (authed : Bool)
    → is_authed now req cfg sessions ≡ authed
    → (authed ≡ true → changes (inside req cfg) ≡ false)
    → Harmless (route now req cfg sessions supplied token)
unfolding route
route-Harmless now req cfg sessions supplied token authed e inner = rw e (
    if_either Harmless (is_request req (codes "GET") (codes "/"))
      (home-Harmless (auth_required cfg) authed req.cookie_token)
      (if_either Harmless (is_request req (codes "POST") (codes "/ui/login"))
        (login-Harmless now cfg sessions supplied token) (go authed inner)))
  where
    go :
        (b : Bool)
        → (b ≡ true → changes (inside req cfg) ≡ false)
        → Harmless (if b then (inside req cfg, sessions) else (expired, sessions))
    go true h = h refl
    go false h = refl

-- Settings are saved, and the device is rebooted, only for a request that is authenticated and whose
-- CSRF token is right.
pub route-changes :
    (now : ℕ) (req : Request) (cfg : Config) (sessions : Sessions) (supplied token : Text)
    → changes (route now req cfg sessions supplied token).0 ≡ true
    → (is_authed now req cfg sessions ≡ true) × (csrf_ok req cfg ≡ true)
route-changes now req cfg sessions supplied token changed =
    elim (Bool-cases (is_authed now req cfg sessions)) [
      | inr denied ↦
          let harmless =
            route-Harmless now req cfg sessions supplied token false denied (λ h. absurd cc) in
          absurd cc
      | inl authed ↦ elim (Bool-cases (csrf_ok req cfg)) [
        | inl right ↦ (authed, right)
        | inr wrong ↦
            let harmless =
              route-Harmless now req cfg sessions supplied token true authed
                (λ _. inside-Harmless req cfg wrong) in
            absurd cc
      ]
    ]
