-- ===== src/Text/Lines.antt =====
-- Lines of a text that is put together from them, and the first separator of a text.
use lwrt.Base.{
  ℕ, Bool, true, false, List, [], ◌∷◌, ◌++◌, some, ◌==◌, ◌≡◌, refl, ap, All, Bool-cases, inl, inr,
}
use lwrt.Text.{Text, split_once, split_by, strip_cr, lines_of, lines}
use lwrt.Text.Filtering.{split_by-at}

-- No end of a line.
pub record IsInline (c : ℕ) : Type 0 where
  pub no_feed : (c == 10) ≡ false
  pub no_return : (c == 13) ≡ false

pub All-map {ℓ κ μ} :
    {A : Type ℓ} (P : A → Type κ) (Q : A → Type μ)
    → ((a : A) → P a → Q a)
    → (xs : List A) → All P xs
    → All Q xs
All-map P Q f [] h = tt
All-map P Q f (x ∷ xs) h = (f x h.0, All-map P Q f xs h.1)

pub split_once-at :
    (sep : ℕ) (k v : Text)
    → All (λ c. (c == sep) ≡ false) k
    → (sep == sep) ≡ true
    → split_once sep (k ++ (sep ∷ v)) ≡ some (k, v)
unfolding split_once
split_once-at sep [] v h e = rw e refl
split_once-at sep (c ∷ k) v h e = rw (h.0, split_once-at sep k v h.1 e) refl

pub strip_cr-none : (s : Text) → All (λ c. (c == 13) ≡ false) s → strip_cr s ≡ s
unfolding strip_cr
strip_cr-none [] h = refl
strip_cr-none (c ∷ []) h = rw h.0 refl
strip_cr-none (c ∷ d ∷ s) h = ap (◌∷◌ c) (strip_cr-none (d ∷ s) h.1)

split_by-cons :
    (p : ℕ → Bool) (s : Text) → (first : Text) × (rest : List Text) × (split_by p s ≡ first ∷ rest)
unfolding split_by
split_by-cons p [] = ([], [], refl)
split_by-cons p (c ∷ s) =
    let (first, rest, e) = split_by-cons p s in
    elim (Bool-cases (p c)) [
      | inl at ↦ ([], split_by p s, rw at refl)
      | inr off ↦ (c ∷ first, rest, rw (off, e) refl)
    ]

lines_of-cons :
    (x first : Text) (rest : List Text)
    → lines_of (x ∷ first ∷ rest) ≡ strip_cr x ∷ lines_of (first ∷ rest)
unfolding lines_of
lines_of-cons [] first rest = refl
lines_of-cons (c ∷ x) first rest = refl

pub lines-cons : (x rest : Text) → All IsInline x → lines (x ++ (10 ∷ rest)) ≡ x ∷ lines rest
unfolding lines
lines-cons x rest h =
    let (first, parts, e) = split_by-cons (λ c. c == 10) rest in
    rw
      (
        split_by-at (λ c. c == 10) x rest 10 (All-map IsInline _ (λ c i. i.no_feed) x h) refl,
        e,
        lines_of-cons x first parts,
        strip_cr-none x (All-map IsInline _ (λ c i. i.no_return) x h),
      )
      refl
