-- ===== src/Probe/Scan.antt =====
-- `Scanner.scan` of bot/csreg_scanner/regcheck.py: three phases under one budget of time.
pub mod Budget
-- A phase is given by what it would do undisturbed: how long it takes and what comes of it. Times
-- are numbers of one unit; `wait_for` cancels a phase at its limit, at once.
use matrix_federation_scanne.Prelude.{
  ℕ, ◌+◌, ◌-◌, Bool, true, false, Option, none, some, String, ltb, leb, if◌then◌else◌,
}
use matrix_federation_scanne.Probe.Version.{FederationVersion, no_signal}
use matrix_federation_scanne.Probe.Support.{SupportInfo, no_support}

-- What comes of a phase: a value, its own TimeoutError, or another exception.
pub data Outcome (A : Type 0) : Type 0 where
  done : A → Outcome A
  timed_out : Outcome A
  crashed : Outcome A

pub record Run (A : Type 0) : Type 0 where
  pub took : ℕ
  pub outcome : Outcome A

-- `wait_for(phase, timeout=budget)`.
abbrev pub wait_for : {A : Type 0} → ℕ → Run A → Run A
wait_for budget run =
    if ltb budget run.took then record { took = budget; outcome = timed_out } else run

-- ScanResult.
pub record ScanResult : Type 0 where
  pub ok : Bool
  pub status : Option String

-- What `scan` returns, and how long it took.
pub record Scanned : Type 0 where
  pub result : ScanResult
  pub version : FederationVersion
  pub support : SupportInfo
  pub took : ℕ

abbrev pub value_or : {A : Type 0} → A → Outcome A → A
value_or default (done a) = a
value_or default timed_out = default
value_or default crashed = default

-- A follow-up: it runs if some of the budget is left, and its failures are the default.
unfoldable pub follow_up : {A : Type 0} → A → ℕ → Run A → A × ℕ
follow_up default remaining run =
    let waited = wait_for remaining run in
    if leb remaining 0 then (default, 0) else (value_or default waited.outcome, waited.took)

-- Behind a classification that came out.
unfoldable pub follow_ups :
    ℕ → Bool → ScanResult → ℕ → Run FederationVersion → Run SupportInfo → Scanned
unfolding follow_up
follow_ups timeout fetch_support result spent probing fetching =
    let (version, probed) = follow_up no_signal (timeout - spent) probing in
    let (support, fetched) = follow_up no_support (timeout - (spent + probed)) fetching in
    if fetch_support
    then record {
      result = result;
      version = version;
      support = support;
      took = spent + probed + fetched;
    }
    else record { result = result; version = version; support = no_support; took = spent + probed }

-- Behind the wait for the classification.
unfoldable pub after_classified :
    ℕ → Bool → Run FederationVersion → Run SupportInfo → Run String → Scanned
unfolding follow_ups
after_classified timeout fetch_support probing fetching classified = elim classified.outcome [
  | done status ↦
      follow_ups timeout fetch_support (record { ok = true; status = some status }) classified.took
        probing fetching
  | timed_out ↦ record {
    result = record { ok = true; status = some "unknown" };
    version = no_signal;
    support = no_support;
    took = classified.took;
  }
  | crashed ↦ record {
    result = record { ok = false; status = none };
    version = no_signal;
    support = no_support;
    took = classified.took;
  }
]

-- `scan`.
unfoldable pub scan : ℕ → Bool → Run String → Run FederationVersion → Run SupportInfo → Scanned
unfolding after_classified
scan timeout fetch_support classifying probing fetching =
    after_classified timeout fetch_support probing fetching (wait_for timeout classifying)
