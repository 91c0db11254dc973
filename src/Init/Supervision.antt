-- ===== src/Init/Supervision.antt =====
-- src/init.rs: the services that run.
use lwrt.Base.{
  ℕ, ◌+◌, ◌<◌, Bool, true, false, List, [], ◌∷◌, ◌++◌, Option, none, some, ◌==◌, if◌then◌else◌, ◌≡◌,
  refl, All, subst, ◌∙◌, below, done, ◌▸◌, arith, inl, inr, Bool-cases, Option-cases,
}
use lwrt.Init.{Pids, services, pushed, spawn_all, take_pid, past, respawned, on_exit, supervise}

-- How many processes run service `k`.
unfoldable pub running : ℕ → Pids → ℕ
running k [] = 0
running k ((pid, idx) ∷ pids) = (if idx == k then 1 else 0) + running k pids

running-append : (k : ℕ) (xs ys : Pids) → running k (xs ++ ys) ≡ running k xs + running k ys
unfolding running
running-append k [] ys = omega arith
running-append k ((pid, idx) ∷ xs) ys = omega (arith, running-append k xs ys)

abbrev one : ℕ → ℕ → ℕ
one idx k = if idx == k then 1 else 0

running-pushed :
    (k pid idx : ℕ) (pids : Pids)
    → running k (pushed (some pid) idx pids) ≡ running k pids + one idx k
unfolding running
running-pushed k pid idx pids = omega (arith, running-append k pids ((pid, idx) ∷ []))

running-take_pid :
    (k dead idx : ℕ) (pids rest : Pids)
    → take_pid dead pids ≡ some (idx, rest)
    → running k pids ≡ running k rest + one idx k
unfolding take_pid running
running-take_pid k dead idx [] rest e = cc
running-take_pid k dead idx ((pid, i) ∷ pids) rest e = elim (Bool-cases (pid == dead)) [
  | inl q ↦
      let (service, others) = same (rw q at e) in
      subst (λ r. one i k + running k pids ≡ running k r + one idx k) others
        (subst (λ j. one i k + running k pids ≡ running k pids + one j k) service (omega arith))
  | inr q ↦ elim (Option-cases (take_pid dead pids)) [
    | inl none_left ↦ absurd (nothing (rw (q, none_left, past) at e))
    | inr ((j, r), found) ↦
        let (service, others) = same (rw (q, found, past) at e) in
        subst (λ r. one i k + running k pids ≡ running k r + one idx k) others
          (subst (λ j. one i k + running k pids ≡ running k ((pid, i) ∷ r) + one j k) service
            (omega (arith, running-take_pid k dead j pids r found)))
  ]
]
  where
    same :
        {i j : ℕ} {x y : Pids}
        → ◌≡◌ {A = Option (ℕ × Pids)} (some (i, x)) (some (j, y))
        → (i ≡ j) × (x ≡ y)
    same e = (cc, cc)

    nothing : {x : ℕ × Pids} → ¬ (none ≡ some x)
    nothing e = cc

abbrev pub is_some : Option ℕ → Bool
is_some none = false
is_some (some _) = true

running-respawned :
    (k pid dead : ℕ) (pids : Pids) (o : Option (ℕ × Pids))
    → take_pid dead pids ≡ o
    → running k (respawned (some pid) pids o) ≡ running k pids
running-respawned k pid dead pids none e = refl
running-respawned k pid dead pids (some (idx, rest)) e =
    omega (arith, running-pushed k pid idx rest, running-take_pid k dead idx pids rest e)

running-supervise :
    (k : ℕ) (exits : List (ℕ × Option ℕ)) (pids : Pids)
    → All (λ x. is_some x.1 ≡ true) exits
    → running k (supervise exits pids) ≡ running k pids
unfolding supervise on_exit
running-supervise k [] pids h = refl
running-supervise k ((dead, none) ∷ exits) pids (h, hs) = absurd (untrue h)
  where
    untrue : ¬ (false ≡ true)
    untrue e = cc
running-supervise k ((dead, some pid) ∷ exits) pids (h, hs) =
    running-supervise k exits (on_exit dead (some pid) pids) hs
    ∙ running-respawned k pid dead pids (take_pid dead pids) refl

-- The services as they are first spawned.
abbrev pub spawned : ℕ → ℕ → ℕ → ℕ → ℕ → Pids
spawned a b c d e = spawn_all (some a ∷ some b ∷ some c ∷ some d ∷ some e ∷ []) services 0 []

-- Where every spawn gives a process, the supervisor has exactly one process for each of the five
-- services, whatever children die, in whatever order, services or others.
pub supervise-runs :
    (a b c d e : ℕ) (exits : List (ℕ × Option ℕ)) (k : ℕ)
    → All (λ x. is_some x.1 ≡ true) exits
    → k < 5
    → running k (supervise exits (spawned a b c d e)) ≡ 1
unfolding spawn_all running
supervise-runs a b c d e exits k h l =
    running-supervise k exits (spawned a b c d e) h
    ∙ below (λ k. running k (spawned a b c d e) ≡ 1) (refl ▸ refl ▸ refl ▸ refl ▸ refl ▸ done) k l
