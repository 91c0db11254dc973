-- ===== src/Sysupgrade/Safety.antt =====
-- src/sysupgrade.rs: when the device is flashed, and when it is rebooted.
use lwrt.Base.{
  ℕ, ◌<◌, Bool, true, false, ◌&&◌, List, [], ◌∷◌, ◌++◌, Option, none, some, ◌==◌, ◌≡◌, refl, arith,
  inl, inr, Bool-cases, Option-cases, ==_iff,
}
use lwrt.Text.{Text}
use lwrt.Mtd.Naming.{resolve}
use lwrt.Sysupgrade.{
  Opts, Metadata, System, Effect, sync_disks, reboot, flash, parse, validate, sized, resolved,
  named, backup, flashed, upgrade, validated, with_opts, run,
}

abbrev pub reboots : List Effect → Bool
reboots [] = false
reboots (reboot ∷ es) = true
reboots (_ ∷ es) = reboots es

-- The image is a regular file that is not empty, and the partition resolves.
abbrev pub IsReady : System → Opts → Text → Type 0
IsReady sys o img =
    (meta : Metadata) × (dev : Text) × (o.image ≡ some img)
    × (sys.metadata img ≡ some meta)
    × (meta.is_file ≡ true)
    × (0 < meta.len)
    × (resolve o.part sys.proc_mtd ≡ some dev)

abbrev pub Granted : System → List Text → Type 0
Granted sys args =
    (o : Opts) × (img : Text) × (parse args ≡ some o)
    × (o.test_only ≡ false)
    × IsReady sys o img
    × (sys.write_image img o.part ≡ 0)

nothing {ℓ} : {A : Type ℓ} {a : A} → ¬ (none ≡ some a)
nothing e = cc

untrue : ¬ (false ≡ true)
untrue e = cc

sized-some :
    (m : Option Metadata) (dev : Option Text) {len : ℕ}
    → sized m dev ≡ some len
    → (meta : Metadata) × (d : Text) × (m ≡ some meta)
      × (meta.is_file ≡ true)
      × (0 < meta.len)
      × (dev ≡ some d)
sized-some none dev h = absurd (nothing h)
sized-some (some meta) dev h = elim (Bool-cases meta.is_file) [
  | inr k ↦ absurd (nothing (rw (k, sized) at h))
  | inl k ↦ elim (Bool-cases (meta.len == 0)) [
    | inl z ↦ absurd (nothing (rw (k, z, sized) at h))
    | inr z ↦ elim (Option-cases dev) [
      | inl e ↦ absurd (nothing (rw (k, z, e, sized, resolved) at h))
      | inr (d, e) ↦ (meta, d, refl, k, ground arith, e)
    ]
  ]
]

validate-IsReady :
    (sys : System) (o : Opts) (img : Text) {len : ℕ}
    → o.image ≡ some img
    → validate sys o ≡ some len
    → IsReady sys o img
unfolding validate
validate-IsReady sys o img e h =
    let (meta, dev, known, file, full, found) =
      sized-some (sys.metadata img) (resolve o.part sys.proc_mtd) (rw (e, named) at h) in
    (meta, dev, e, known, file, full, found)

reboots-backup :
    (sys : System) (o : Opts) (es : List Effect) → reboots (backup sys o ++ es) ≡ reboots es
reboots-backup sys o es = elim (Bool-cases (o.keep_config && sys.has_config)) [
  | inl e ↦ rw e refl
  | inr e ↦ rw e refl
]

validated-reboots :
    (sys : System) (o : Opts) (r : Option ℕ)
    → validate sys o ≡ r
    → reboots (validated sys o r).1 ≡ true
    → (img : Text) × (o.test_only ≡ false) × IsReady sys o img × (sys.write_image img o.part ≡ 0)
validated-reboots sys o none v h = absurd (untrue h)
validated-reboots sys o (some len) v h = elim (Bool-cases o.test_only) [
  | inl t ↦ absurd (untrue (rw (t, validated) at h))
  | inr t ↦ elim (Option-cases o.image) [
    | inl e ↦ absurd (untrue (rw (t, e, validated, upgrade) at h))
    | inr (img, e) ↦ elim (Bool-cases (sys.write_image img o.part == 0)) [
      | inl w ↦
          (img, t, validate-IsReady sys o img e v, (==_iff (sys.write_image img o.part) 0).0 w)
      | inr w ↦ absurd (
          untrue (
            rw
              (
                t,
                e,
                w,
                validated,
                upgrade,
                flashed,
                reboots-backup sys o (sync_disks ∷ flash img o.part ∷ []),
              )
              at h))
    ]
  ]
]

-- The device is rebooted only where the arguments ask for more than a test, the image is a regular file
-- that is not empty, the partition resolves, and the image was written to it with exit code 0.
pub run-reboots :
    (sys : System) (args : List Text) → reboots (run sys args).1 ≡ true → Granted sys args
unfolding run
run-reboots sys args h = elim (Option-cases (parse args)) [
  | inl e ↦ absurd (untrue (rw (e, with_opts) at h))
  | inr (o, e) ↦
      let (img, test, ready, written) =
        validated-reboots sys o (validate sys o) refl (rw (e, with_opts) at h) in
      (o, img, e, test, ready, written)
]
