-- ===== src/Letsencrypt/Exits.antt =====
-- The status of the check.
use front_basicrum_go.Base.{
  ℕ, zero, suc, ◌+◌, ◌-◌, ◌≤◌, ◌<◌, ◌==◌, Bytes, [], ◌∷◌, ◌++◌, Bool, true, false, Option, some,
  ◌≡◌, ◌≢◌, ◌↔◌, ◌∙◌, ◌⊎◌, refl, ap, arith, inl, inr, Bool-cases, Option-cases, is_empty,
  is_empty_of_ne, codes, if◌then◌else◌, ==_iff,
}
use front_basicrum_go.Letsencrypt.{
  Checked, value, fatal, Disk, os_getenv_required, domain, domain_ip, append_to_file,
  prepare_domain_ip, tries, main,
}

missed :
    (answer : ℕ → Option ℕ) (left i : ℕ)
    → ((answer i ≡ some 200) × (tries answer (suc left) i ≡ (true, 1)))
      ⊎ ((answer i ≢ some 200)
          × (tries answer (suc left) i
              ≡ ((tries answer left (i + 1)).0, (tries answer left (i + 1)).1 + 1)))
unfolding tries
missed answer left i = elim (Option-cases (answer i)) [
  | inl e ↦ inr (λ h. cc, rw (e, tries) refl)
  | inr (status, e) ↦ elim (Bool-cases (status == 200)) [
    | inl ok ↦ inl (ground (arith, ==_iff status 200), rw (e, tries) (rw ok refl))
    | inr other ↦ inr (λ h. ground (arith, ==_iff status 200), rw (e, tries) (rw other refl))
  ]
]

-- The try at which the loop stops, and the tries before it.
Stops : (ℕ → Option ℕ) → ℕ → ℕ → Type 0
Stops answer left i =
    (k : ℕ) × (k < left) × (answer (i + k) ≡ some 200) × (tries answer left i ≡ (true, k + 1))

GivesUp : (ℕ → Option ℕ) → ℕ → ℕ → Type 0
GivesUp answer left i =
    (tries answer left i ≡ (false, left)) × ((j : ℕ) → j < left → answer (i + j) ≢ some 200)

misses :
    (answer : ℕ → Option ℕ) (left i : ℕ)
    → answer i ≢ some 200
    → ((j : ℕ) → j < left → answer (i + 1 + j) ≢ some 200)
    → (j : ℕ) → j < suc left
    → answer (i + j) ≢ some 200
misses answer left i miss later zero h = λ e. miss (ap answer (omega arith) ∙ e)
misses answer left i miss later (suc j) h = λ e. later j (omega arith) (ap answer (omega arith) ∙ e)

tries_cases : (answer : ℕ → Option ℕ) (left i : ℕ) → Stops answer left i ⊎ GivesUp answer left i
unfolding tries Stops GivesUp
tries_cases answer zero i = inr (refl, λ j h. absurd (omega arith))
tries_cases answer (suc left) i = elim (missed answer left i) [
  | inl (hit, stop) ↦ inl (0, omega arith, ap answer (omega arith) ∙ hit, stop)
  | inr (miss, go) ↦ elim (tries_cases answer left (i + 1)) [
    | inl (k, below, hit, stop) ↦ inl (
      k + 1,
      omega arith,
      ap answer (omega arith) ∙ hit,
      go ∙ ap (λ (r : Bool × ℕ). (r.0, r.1 + 1)) stop,
    )
    | inr (stop, none_hit) ↦ inr (
      go ∙ ap (λ (r : Bool × ℕ). (r.0, r.1 + 1)) stop ∙ ap (λ n. (false, n)) (omega arith),
      misses answer left i miss none_hit,
    )
  ]
]

-- The file can be changed: it opens, it is not closed before the write, and the write is fine.
abbrev pub IsWritable : Disk → Type 0
IsWritable disk =
    (disk.open_fails ≡ false) × (disk.closed_first ≡ false) × (disk.write_fails ≡ false)

module _ (env : Bytes → Bytes) (disk : Disk) (answer : ℕ → Option ℕ) (hosts : Bytes) where
  prepared :
      (changed : Bytes)
      → prepare_domain_ip env disk hosts ≡ value changed
      → (env (codes "DOMAIN_IP") ≢ []) × (env (codes "DOMAIN") ≢ []) × IsWritable disk
  unfolding prepare_domain_ip domain domain_ip os_getenv_required append_to_file
  prepared changed h = (
    λ e. ground (arith, ap is_empty e),
    λ e. ground (arith, ap is_empty e),
    (ground arith, ground arith, ground arith),
  )

  ready :
      env (codes "DOMAIN_IP") ≢ []
      → env (codes "DOMAIN") ≢ []
      → IsWritable disk
      → prepare_domain_ip env disk hosts
        ≡ value (hosts ++ (env (codes "DOMAIN_IP") ++ b' ' ∷ (env (codes "DOMAIN") ++ 10 ∷ [])))
  unfolding prepare_domain_ip domain domain_ip os_getenv_required append_to_file
  ready ip name w = ground (
    arith,
    is_empty_of_ne (env (codes "DOMAIN_IP")) ip,
    is_empty_of_ne (env (codes "DOMAIN")) name,
  )

  fails :
      prepare_domain_ip env disk hosts ≡ fatal
      → ((main env disk answer hosts).status ≡ 1) × ((main env disk answer hosts).tried ≡ 0)
  unfolding main
  fails h = (ground arith, ground arith)

  goes_on :
      (changed : Bytes)
      → prepare_domain_ip env disk hosts ≡ value changed
      → env (codes "DOMAIN") ≢ []
      → ((main env disk answer hosts).status ≡ (if (tries answer 3 1).0 then 0 else 1))
        × ((main env disk answer hosts).tried ≡ (tries answer 3 1).1)
  unfolding main domain os_getenv_required
  goes_on changed h name =
      let n = is_empty_of_ne (env (codes "DOMAIN")) name in (ground arith, ground arith)

  Checked-cases : (c : Checked Bytes) → (c ≡ fatal) ⊎ ((s : Bytes) × (c ≡ value s))
  Checked-cases fatal = inl refl
  Checked-cases (value s) = inr (s, refl)

  -- The process ends with status 0 exactly when both variables are set, the line can be written to the
  -- file before the goroutine closes it, and one of the tries 1 to 3 is answered with status 200. It
  -- never makes more than three tries.
  pub main-status :
      ((main env disk answer hosts).status ≡ 0
        ↔ (env (codes "DOMAIN_IP") ≢ [])
          × (env (codes "DOMAIN") ≢ [])
          × IsWritable disk
          × ((k : ℕ) × (1 ≤ k) × (k ≤ 3) × (answer k ≡ some 200)))
      × ((main env disk answer hosts).tried ≤ 3)
  unfolding Stops GivesUp
  main-status = elim (Checked-cases (prepare_domain_ip env disk hosts)) [
    | inl bad ↦
        let (status, tried) = fails bad in
        (
          (λ h. absurd (ground arith), λ (ip, name, w, _). let p = ready ip name w in cc),
          ground arith,
        )
    | inr (changed, good) ↦
        let (ip, name, w) = prepared changed good in
        let (status, tried) = goes_on changed good name in
        elim (tries_cases answer 3 1) [
          | inl (k, below, hit, stop) ↦ (
            (λ h. (ip, name, w, (1 + k, omega arith, omega arith, hit)), λ h. ground arith),
            ground arith,
          )
          | inr (stop, never) ↦ (
            (
              λ h. absurd (ground arith),
              λ (_, _, _, (k, low, high, hit)).
                  absurd (never (k - 1) (omega arith) (ap answer (omega arith) ∙ hit)),
            ),
            ground arith,
          )
        ]
  ]
