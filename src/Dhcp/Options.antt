-- ===== src/Dhcp/Options.antt =====
-- src/dhcp.rs: the walk over the options that `options` makes.
use lwrt.Base.{
  ℕ, zero, suc, ◌≤◌, ◌<◌, ◌≢◌, List, [], ◌∷◌, ◌++◌, length, drop, replicate, ◌≡◌, refl, sym, ap,
  ◌∙◌, some, if_either, ◌==◌, take, arith, All, ==_false, append_assoc, length-append, length-drop,
  take_prefix, drop_prefix,
}
use mathlib.Core.Option
use lwrt.Base.Options.{or_nil, Ends, map-Ends, Ends-or_nil}
use lwrt.Base.Bytes.{Bytes}
use lwrt.Dhcp.{options_from, options, opt_end}

options_from-nil : (f : ℕ) → options_from f [] ≡ some []
unfolding options_from
options_from-nil zero = refl
options_from-nil (suc f) = refl

options_from-Ends : (f : ℕ) (buf : Bytes) → length buf ≤ f → Ends (options_from f buf)
unfolding options_from
options_from-Ends f [] p = ([], options_from-nil f)
options_from-Ends zero (code ∷ body) p = absurd (omega arith)
options_from-Ends (suc f) (code ∷ []) p =
    if_either Ends (code == opt_end) ([], refl)
      (if_either Ends (code == 0) ([], options_from-nil f) ([], refl))
options_from-Ends (suc f) (code ∷ len ∷ body) p =
    if_either Ends (code == opt_end) ([], refl)
      (if_either Ends (code == 0) (options_from-Ends f (len ∷ body) (omega arith)) (
        map-Ends (◌∷◌ (code, take len body)) (options_from f (drop len body))
          (options_from-Ends f (drop len body) (omega (arith, length-drop len body)))))

options_from-fuel :
    (f g : ℕ) (buf : Bytes)
    → length buf ≤ f
    → length buf ≤ g
    → options_from f buf ≡ options_from g buf
unfolding options_from
options_from-fuel f g [] p q = options_from-nil f ∙ sym (options_from-nil g)
options_from-fuel zero g (x ∷ buf) p q = absurd (omega arith)
options_from-fuel (suc f) zero (x ∷ buf) p q = absurd (omega arith)
options_from-fuel (suc f) (suc g) (code ∷ []) p q = rw (options_from-nil f, options_from-nil g) refl
options_from-fuel (suc f) (suc g) (code ∷ len ∷ body) p q =
    rw
      (
        options_from-fuel f g (len ∷ body) (omega arith) (omega arith),
        options_from-fuel f g (drop len body) (omega (arith, length-drop len body))
            (omega (arith, length-drop len body)),
      )
      refl

-- Whatever the bytes, the walk over the options ends by its own tests: on any fuel of at least the
-- buffer's length it does not run out, and gives what options gives.
pub options_from-ends :
    (f : ℕ) (buf : Bytes) → length buf ≤ f → options_from f (drop 240 buf) ≡ some (options buf)
unfolding options
options_from-ends f buf p =
    let body = drop 240 buf in
    let enough : length body ≤ length buf = omega (arith, length-drop 240 buf) in
    options_from-fuel f (length buf) body (omega (arith, enough)) enough
    ∙ Ends-or_nil (options_from (length buf) body) (options_from-Ends (length buf) body enough)

-- An option that can be written: a code of its own, and a length that fits its byte.
abbrev pub IsOption : ℕ × Bytes → Type 0
IsOption (code, val) = (code ≢ 0) × (code ≢ opt_end) × (length val < 256)

-- Options as they lie in a packet, with some pad bytes before each.
abbrev pub write_options : List (ℕ × (ℕ × Bytes)) → Bytes
write_options [] = []
write_options ((pads, (code, val)) ∷ os) =
    replicate pads 0 ++ (code ∷ length val ∷ (val ++ write_options os))

abbrev pub values : List (ℕ × (ℕ × Bytes)) → List (ℕ × Bytes)
values [] = []
values ((pads, o) ∷ os) = o ∷ values os

pad_step : (f : ℕ) (buf : Bytes) → options_from (suc f) (0 ∷ buf) ≡ options_from f buf
unfolding options_from
pad_step f [] = refl
pad_step f (b ∷ buf) = refl

option_step :
    (f code : ℕ) (val rest : Bytes)
    → IsOption (code, val)
    → options_from (suc f) (code ∷ length val ∷ (val ++ rest))
      ≡ Option.map (◌∷◌ (code, val)) (options_from f rest)
unfolding options_from
option_step f code val rest (not_pad, not_end, short) =
    rw
      (
        ==_false code opt_end not_end,
        ==_false code 0 not_pad,
        take_prefix (length val) val rest refl,
        drop_prefix (length val) val rest refl,
      )
      refl

-- The walk over written options, up to the end mark and whatever follows it, gives the options.
options_from-write_options :
    (os : List (ℕ × (ℕ × Bytes))) (f : ℕ) (junk : Bytes)
    → All IsOption (values os)
    → length (write_options os) < f
    → options_from f (write_options os ++ (opt_end ∷ junk)) ≡ some (values os)
unfolding options_from
options_from-write_options [] zero junk ok p = elim p [ ]
options_from-write_options [] (suc f) [] ok p = refl
options_from-write_options [] (suc f) (j ∷ junk) ok p = refl
options_from-write_options (o ∷ os) zero junk ok p = absurd (omega arith)
options_from-write_options ((zero, (code, val)) ∷ os) (suc f) junk (fine, ok) p =
    rw
      (
        append_assoc val (write_options os) (opt_end ∷ junk),
        option_step f code val (write_options os ++ (opt_end ∷ junk)) fine,
      )
      (ap (Option.map (◌∷◌ (code, val))) (
        options_from-write_options os f junk ok
          (omega (arith, length-append val (write_options os)))))
options_from-write_options ((suc pads, o) ∷ os) (suc f) junk (fine, ok) p =
    rw (pad_step f (write_options ((pads, o) ∷ os) ++ (opt_end ∷ junk)))
      (options_from-write_options ((pads, o) ∷ os) f junk (fine, ok) (omega arith))

-- In a packet of a 240-byte header, options with codes other than 0 and 255 and values below 256 bytes,
-- with any pads between them, then the end mark and anything at all, the walk finds those options.
pub options-write_options :
    (head : Bytes) (os : List (ℕ × (ℕ × Bytes))) (junk : Bytes)
    → length head ≡ 240
    → All IsOption (values os)
    → options (head ++ (write_options os ++ (opt_end ∷ junk))) ≡ values os
unfolding options
options-write_options head os junk p ok =
    rw (drop_prefix 240 head (write_options os ++ (opt_end ∷ junk)) p) (
      ap or_nil (
        options_from-write_options os (length (head ++ (write_options os ++ (opt_end ∷ junk)))) junk
          ok
          (omega (
            arith,
            length-append head (write_options os ++ (opt_end ∷ junk)),
            length-append (write_options os) (opt_end ∷ junk),
          ))))
