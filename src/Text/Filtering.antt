-- ===== src/Text/Filtering.antt =====
-- `filter` and `split` of lists and texts: what holds of what is kept, and of the parts.
use lwrt.Base.{
  ℕ, Bool, true, false, not, List, [], ◌∷◌, ◌++◌, ◌≡◌, refl, inl, inr, All, Bool-cases, if_either,
}
use lwrt.Text.{Text, onto_first, filter_by, split_by}

pub filter_by-All {ℓ κ} :
    {A : Type ℓ} (q : A → Bool) (P : A → Type κ) (xs : List A) → All P xs → All P (filter_by q xs)
unfolding filter_by
filter_by-All q P [] h = tt
filter_by-All q P (x ∷ xs) (h, hs) =
    let rest = filter_by-All q P xs hs in if_either (All P) (q x) (h, rest) rest

pub kept {ℓ} : {A : Type ℓ} (q : A → Bool) (xs : List A) → All (λ x. q x ≡ true) (filter_by q xs)
unfolding filter_by
kept q [] = tt
kept q (x ∷ xs) = elim (Bool-cases (q x)) [ inl e ↦ rw e (e, kept q xs) | inr e ↦ rw e (kept q xs) ]

pub not-true : (b : Bool) → not b ≡ true → b ≡ false
not-true true h = cc
not-true false h = refl

pub both {ℓ κ μ ν} :
    {A : Type ℓ} (P : A → Type κ) (Q : A → Type μ) (R : A → Type ν)
    → ((x : A) → P x → Q x → R x)
    → (xs : List A) → All P xs
    → All Q xs
    → All R xs
both P Q R f [] h k = tt
both P Q R f (x ∷ xs) (h, hs) (k, ks) = (f x h k, both P Q R f xs hs ks)

pub split_by-none : (p : ℕ → Bool) (s : Text) → All (λ c. p c ≡ false) s → split_by p s ≡ s ∷ []
unfolding split_by
split_by-none p [] h = refl
split_by-none p (c ∷ s) h = rw (h.0, split_by-none p s h.1) refl

pub split_by-at :
    (p : ℕ → Bool) (s t : Text) (c : ℕ)
    → All (λ c. p c ≡ false) s
    → p c ≡ true
    → split_by p (s ++ (c ∷ t)) ≡ s ∷ split_by p t
unfolding split_by
split_by-at p [] t c h e = rw e refl
split_by-at p (d ∷ s) t c h e = rw (h.0, split_by-at p s t c h.1 e) refl

pub split_by-All :
    (p : ℕ → Bool) (s : Text) → All (λ part. All (λ c. p c ≡ false) part) (split_by p s)
unfolding split_by
split_by-All p [] = (tt, tt)
split_by-All p (c ∷ s) = elim (Bool-cases (p c)) [
  | inl e ↦ rw e (tt, split_by-All p s)
  | inr e ↦ rw e (first_grows c (split_by p s) e (split_by-All p s))
]
  where
    first_grows :
        (c : ℕ) (parts : List Text)
        → p c ≡ false
        → All (λ part. All (λ c. p c ≡ false) part) parts
        → All (λ part. All (λ c. p c ≡ false) part) (onto_first c parts)
    first_grows c [] e h = ((e, tt), tt)
    first_grows c (part ∷ parts) e (h, hs) = ((e, h), hs)
