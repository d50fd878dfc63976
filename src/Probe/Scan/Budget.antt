-- ===== src/Probe/Scan/Budget.antt =====
-- The time and the priorities of `Scanner.scan` of regcheck.py.
use matrix_federation_scanne.Prelude.{
  ℕ, ◌+◌, ◌-◌, ◌≤◌, ◌<◌, ◌≡◌, ◌⊎◌, refl, sym, Bool, true, false, none, some, String, arith,
  Bool-cases, inl, inr, ltb, leb,
}
use mathlib.Core.Path.{subst}
use matrix_federation_scanne.Probe.Version.{FederationVersion, no_signal}
use matrix_federation_scanne.Probe.Support.{SupportInfo, no_support}
use matrix_federation_scanne.Probe.Scan.{
  Outcome, done, timed_out, crashed, Run, wait_for, ScanResult, Scanned, follow_up, follow_ups,
  after_classified, scan,
}

wait_for_within : {A : Type 0} (budget : ℕ) (run : Run A) → (wait_for budget run).took ≤ budget
wait_for_within budget run = elim (Bool-cases (ltb budget run.took)) [
  | inl late ↦ rw late (omega arith)
  | inr early ↦ rw early (ground (arith, early))
]

follow_up_within :
    {A : Type 0} (default : A) (remaining : ℕ) (run : Run A)
    → (follow_up default remaining run).1 ≤ remaining
unfolding follow_up
follow_up_within default remaining run = elim (Bool-cases (leb remaining 0)) [
  | inl out ↦ rw out (omega arith)
  | inr left ↦ rw left (wait_for_within remaining run)
]

follow_ups_within :
    (timeout : ℕ) (fetch_support : Bool) (result : ScanResult) (spent : ℕ)
    (probing : Run FederationVersion) (fetching : Run SupportInfo)
    → spent ≤ timeout
    → ((follow_ups timeout fetch_support result spent probing fetching).took ≤ timeout)
      × ((follow_ups timeout fetch_support result spent probing fetching).result ≡ result)
unfolding follow_ups
follow_ups_within timeout fetch_support result spent probing fetching early =
    let probed = follow_up_within no_signal (timeout - spent) probing in
    let fetched =
      follow_up_within no_support
        (timeout - (spent + (follow_up no_signal (timeout - spent) probing).1)) fetching in
    elim (Bool-cases fetch_support) [
      | inl on ↦ rw on (omega (arith, early, probed, fetched), refl)
      | inr off ↦ rw off (omega (arith, early, probed), refl)
    ]

-- A result whose classification did not come out: nothing else was probed.
abbrev pub Silent : Scanned → Type 0
Silent s = (s.version ≡ no_signal) × (s.support ≡ no_support)

-- What the classification decides alone: the three cases exclude each other.
pub record Bounded (timeout : ℕ) (classifying : Run String) (s : Scanned) : Type 0 where
  pub within : s.took ≤ timeout
  pub decided :
      ((status : String) × (classifying.outcome ≡ done status)
        × (classifying.took ≤ timeout)
        × (s.result ≡ record { ok = true; status = some status }))
      ⊎ (((timeout < classifying.took) ⊎ (classifying.outcome ≡ timed_out))
          × (s.result ≡ record { ok = true; status = some "unknown" })
          × Silent s)
      ⊎ ((classifying.outcome ≡ crashed)
          × (classifying.took ≤ timeout)
          × (s.result ≡ record { ok = false; status = none })
          × Silent s)

after-Bounded :
    (timeout : ℕ) (fetch_support : Bool) (probing : Run FederationVersion)
    (fetching : Run SupportInfo) (took : ℕ) (outcome : Outcome String)
    → took ≤ timeout
    → Bounded timeout
        (record { took = took; outcome = outcome })
        (after_classified timeout fetch_support probing fetching
          (record { took = took; outcome = outcome }))
unfolding after_classified
after-Bounded timeout fetch_support probing fetching took (done status) early =
    let parts =
      follow_ups_within timeout fetch_support (record { ok = true; status = some status }) took
        probing fetching early in
    record { within = parts.0; decided = inl (status, refl, early, parts.1) }
after-Bounded timeout fetch_support probing fetching took timed_out early = record {
  within = early;
  decided = inr (inl (inr refl, refl, (refl, refl)));
}
after-Bounded timeout fetch_support probing fetching took crashed early = record {
  within = early;
  decided = inr (inr (refl, early, refl, (refl, refl)));
}

late-Bounded :
    (timeout : ℕ) (fetch_support : Bool) (probing : Run FederationVersion)
    (fetching : Run SupportInfo) (classifying : Run String)
    → timeout < classifying.took
    → Bounded timeout classifying (
        after_classified timeout fetch_support probing fetching
          (record { took = timeout; outcome = timed_out }))
unfolding after_classified
late-Bounded timeout fetch_support probing fetching classifying late = record {
  within = omega arith;
  decided = inr (inl (inl late, refl, (refl, refl)));
}

-- The scan stays within its budget. A classification that comes out within the budget decides the
-- result. The result is the success `unknown` only where the classification takes longer than the
-- budget, times out by itself or comes out so, and a failure only where it raises within the
-- budget; behind a timeout and behind a failure neither the version nor the support document is
-- probed.
pub scan-Bounded :
    (timeout : ℕ) (fetch_support : Bool) (classifying : Run String)
    (probing : Run FederationVersion) (fetching : Run SupportInfo)
    → Bounded timeout classifying (scan timeout fetch_support classifying probing fetching)
unfolding scan
scan-Bounded timeout fetch_support classifying probing fetching =
    let result = after_classified timeout fetch_support probing fetching in
    elim (Bool-cases (ltb timeout classifying.took)) [
      | inl late ↦
          let cut : wait_for timeout classifying ≡ record { took = timeout; outcome = timed_out } =
            rw late refl in
          subst (λ run. Bounded timeout classifying (result run)) (sym cut)
            (late-Bounded timeout fetch_support probing fetching classifying (ground (arith, late)))
      | inr early ↦
          let whole : wait_for timeout classifying ≡ classifying = rw early refl in
          subst (λ run. Bounded timeout classifying (result run)) (sym whole)
            (after-Bounded timeout fetch_support probing fetching classifying.took
              classifying.outcome (ground (arith, early)))
    ]
