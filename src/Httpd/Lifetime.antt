-- ===== src/Httpd/Lifetime.antt =====
-- src/httpd.rs: how long a session lasts, through the logins that follow.
use lwrt.Base.{
  ℕ, ◌-◌, ◌≤◌, Bool, true, false, List, [], ◌∷◌, none, some, ltb, if◌then◌else◌, ◌≡◌, refl, sym, ap,
  ◌∙◌, All, arith, Bool-cases, inl, inr, le→not_ltb, not_ltb→le,
}
use lwrt.Base.Map.{get, remove, get-remove, bytes_key, same_key, same_key_iff}
use lwrt.Text.{Text}
use lwrt.Httpd.{Sessions, session_ttl, gc, issue, fresh, valid}

-- No token has two entries.
abbrev IsDistinct : Sessions → Type 0
IsDistinct [] = Unit
IsDistinct ((token, t) ∷ rest) = (get token rest ≡ none) × IsDistinct rest

get-gc-none :
    (now : ℕ) (token : Text) (s : Sessions) → get token s ≡ none → get token (gc now s) ≡ none
unfolding get gc
get-gc-none now token [] h = refl
get-gc-none now token ((k, t) ∷ rest) h = elim (Bool-cases (same_key k token)) [
  | inl same ↦ absurd (some_none (rw same at h))
  | inr differ ↦
      let later = get-gc-none now token rest (rw differ at h) in
      elim (Bool-cases (ltb (now - t) session_ttl)) [
        | inl kept ↦ rw (kept, differ) later
        | inr dropped ↦ rw dropped later
      ]
]
  where
    some_none : {t : ℕ} → ¬ (some t ≡ none)
    some_none e = cc

gc-IsDistinct : (now : ℕ) (s : Sessions) → IsDistinct s → IsDistinct (gc now s)
unfolding gc
gc-IsDistinct now [] h = tt
gc-IsDistinct now ((k, t) ∷ rest) (h, hs) = elim (Bool-cases (ltb (now - t) session_ttl)) [
  | inl kept ↦ rw kept (get-gc-none now k rest h, gc-IsDistinct now rest hs)
  | inr dropped ↦ rw dropped (gc-IsDistinct now rest hs)
]

get-remove-none : (token k : Text) (s : Sessions) → get k s ≡ none → get k (remove token s) ≡ none
get-remove-none token k s h = get-remove token k s ∙ either (same_key token k)
  where
    either : (b : Bool) → (if b then none else get k s) ≡ none
    either true = refl
    either false = h

remove-IsDistinct : (token : Text) (s : Sessions) → IsDistinct s → IsDistinct (remove token s)
unfolding remove
remove-IsDistinct token [] h = tt
remove-IsDistinct token ((k, t) ∷ rest) (h, hs) = elim (Bool-cases (same_key k token)) [
  | inl same ↦ rw same (remove-IsDistinct token rest hs)
  | inr differ ↦ rw differ (get-remove-none token k rest h, remove-IsDistinct token rest hs)
]

issue-IsDistinct :
    (now : ℕ) (token : Text) (s : Sessions) → IsDistinct s → IsDistinct (issue now token s)
unfolding issue
issue-IsDistinct now token s h = (
  get-remove token token (gc now s) ∙ rw ((same_key_iff token token).1 refl) refl,
  remove-IsDistinct token (gc now s) (gc-IsDistinct now s h),
)

-- What gc drops has ended for good.
valid-gc :
    (now later : ℕ) (token : Text) (s : Sessions)
    → now ≤ later
    → IsDistinct s
    → fresh later (get token (gc now s)) ≡ fresh later (get token s)
unfolding gc get
valid-gc now later token [] l h = refl
valid-gc now later token ((k, t) ∷ rest) l (h, hs) = elim (Bool-cases (same_key k token)) [
  | inr differ ↦ elim (Bool-cases (ltb (now - t) session_ttl)) [
    | inl kept ↦ rw (kept, differ) (valid-gc now later token rest l hs)
    | inr dropped ↦ rw (dropped, differ) (valid-gc now later token rest l hs)
  ]
  | inl same ↦ elim (Bool-cases (ltb (now - t) session_ttl)) [
    | inl kept ↦ rw (kept, same) refl
    | inr dropped ↦
        let other = ap (λ x. get x rest) (sym ((same_key_iff k token).0 same)) ∙ h in
        let old = not_ltb→le (now - t) session_ttl dropped in
        rw (dropped, same)
          (ap (fresh later) (get-gc-none now token rest other)
            ∙ sym (le→not_ltb (later - t) session_ttl (omega (arith, old))))
  ]
]

valid-issue :
    (now later : ℕ) (token other : Text) (s : Sessions)
    → now ≤ later
    → IsDistinct s
    → valid later (issue now token s) other
      ≡ (if same_key token other then ltb (later - now) session_ttl else valid later s other)
unfolding valid issue get
valid-issue now later token other s l h = elim (Bool-cases (same_key token other)) [
  | inl same ↦ rw same refl
  | inr differ ↦
      rw (differ, get-remove token other (gc now s), differ) (valid-gc now later other s l h)
]

-- The logins that succeed, with their times and tokens.
abbrev pub logins : List (ℕ × Text) → Sessions → Sessions
logins [] s = s
logins ((now, token) ∷ rest) s = logins rest (issue now token s)

-- Whether the last login with the token is less than an hour before.
abbrev pub within_hour : ℕ → Text → Bool → List (ℕ × Text) → Bool
within_hour later other found [] = found
within_hour later other found ((now, token) ∷ rest) =
    within_hour later other (if same_key token other then ltb (later - now) 3600 else found) rest

valid-logins_from :
    (later : ℕ) (other : Text) (events : List (ℕ × Text)) (s : Sessions)
    → All (λ e. e.0 ≤ later) events
    → IsDistinct s
    → valid later (logins events s) other ≡ within_hour later other (valid later s other) events
valid-logins_from later other [] s h d = refl
valid-logins_from later other ((now, token) ∷ rest) s (h, hs) d =
    valid-logins_from later other rest (issue now token s) hs (issue-IsDistinct now token s d)
    ∙ ap (λ b. within_hour later other b rest) (valid-issue now later token other s h d)

-- After any logins up to some time, in any order and with the collection of old sessions that each
-- brings, a token is valid at that time exactly where the last login that was given it is less than an
-- hour before; a token that no login was given is not.
pub valid-logins :
    (later : ℕ) (token : Text) (events : List (ℕ × Text))
    → All (λ e. e.0 ≤ later) events
    → valid later (logins events []) token ≡ within_hour later token false events
valid-logins later token events h =
    valid-logins_from later token events [] h tt
    ∙ ap (λ b. within_hour later token b events) (unfold valid get in refl)
