-- ===== src/Bot/Launch.antt =====
-- The ticks of `_scan_loop` and `_rescan_loop`, `_launch_scan` and `_scan_done` of bot.py.
pub mod Ceiling
-- A tick awaits the database once, between its admission test and its launches; there the other
-- tick and the ends of scans may run. The credit counts parts of a scan, `unit` of them in one, as
-- an exact number where the source has a float.
use matrix_federation_scanne.Prelude.{
  ℕ, zero, suc, ◌+◌, ◌-◌, ◌*◌, ◌/◌, ◌≤◌, ◌≡◌, refl, Bool, true, false, Option, none, some, List, [],
  ◌∷◌, min, leb, ltb, if◌then◌else◌, length,
}
use matrix_federation_scanne.Prelude.Text.{Text, contains, same}
use matrix_federation_scanne.Store.{Store}
use matrix_federation_scanne.Store.Queue.{pending}
use matrix_federation_scanne.Store.Overdue.{Overdue, overdue}

-- `_max_inflight`.
unfoldable pub max_inflight : ℕ → ℕ → ℕ
max_inflight scan_limit rescan_limit =
    if leb 1 (scan_limit + rescan_limit) then scan_limit + rescan_limit else 1

-- `_launch_scan` on the keys of `_inflight`, and its answer.
unfoldable pub launch_scan : Text → List Text → List Text × Bool
unfolding contains
launch_scan target inflight =
    if contains inflight target then (inflight, false) else (target ∷ inflight, true)

-- `_inflight.pop(scan_target, None)`.
unfoldable pub scan_done : Text → List Text → List Text
unfolding same
scan_done target [] = []
scan_done target (t ∷ rest) =
    let later = scan_done target rest in if same t target then rest else t ∷ later

-- The launches of a scan tick.
unfoldable pub launch_all : List Text → List Text → List Text
unfolding launch_scan
launch_all [] inflight = inflight
launch_all (t ∷ ts) inflight = launch_all ts (launch_scan t inflight).0

-- The launches of a rescan tick, which ends when `take` were launched; how many were.
unfoldable pub launch_due : ℕ → List Text → List Text → List Text × ℕ
unfolding launch_scan
launch_due zero due inflight = (inflight, 0)
launch_due (suc take) [] inflight = (inflight, 0)
launch_due (suc take) (t ∷ ts) inflight =
    let skipped = launch_due (suc take) ts inflight in
    let launched = launch_due take ts (launch_scan t inflight).0 in
    if (launch_scan t inflight).1 then (launched.0, suc launched.1) else skipped

-- `min(float(limit), credit + required * interval)`.
unfoldable pub accrue : ℕ → ℕ → ℕ → ℕ → ℕ
accrue unit limit required_interval credit = min (limit * unit) (credit + required_interval)

-- `min(int(credit), limit)`, and `take`.
unfoldable pub wanted : ℕ → ℕ → ℕ → ℕ
wanted unit limit credit = min (credit / unit) limit

unfoldable pub rescan_take : ℕ → ℕ → ℕ → ℕ → ℕ
unfolding wanted
rescan_take unit limit slots credit = min (wanted unit limit credit) slots

-- What the two loops share, with the rows that a scan tick has asked for and the number that a
-- rescan tick has settled on, while they await the database.
pub record Loops : Type 0 where
  pub inflight : List Text
  pub claiming : Option ℕ
  pub taking : Option ℕ
  pub credit : ℕ

module _ (scan_limit rescan_limit unit : ℕ) where
  -- `self._max_inflight - len(self._inflight)`, 0 where the source has a negative number.
  abbrev pub slots : Loops → ℕ
  slots s = max_inflight scan_limit rescan_limit - length s.inflight

  -- The scan tick up to its await: `none` where it is deferred.
  unfoldable pub claim : Loops → Option Loops
  unfolding max_inflight
  claim s =
      if leb (slots s) 0
      then none
      else some (record s { claiming = some (min scan_limit (slots s)) })

  -- Behind the await.
  unfoldable pub launch_claimed : List Text → Loops → Loops
  unfolding launch_all
  launch_claimed targets s = record s { inflight = launch_all targets s.inflight; claiming = none }

  -- The rescan tick up to its await: with the credit alone where nothing is to be taken.
  unfoldable pub settle : ℕ → Loops → Loops
  unfolding accrue rescan_take max_inflight
  settle required_interval s =
      let credit = accrue unit rescan_limit required_interval s.credit in
      let take = rescan_take unit rescan_limit (slots s) credit in
      record s { credit = credit; taking = if leb 1 take then some take else none }

  -- Behind the await. The database's error leaves the credit.
  unfoldable pub launch_overdue : ℕ → Overdue → Loops → Loops
  unfolding launch_due
  launch_overdue take (overdue due) s =
      let (inflight, launched) = launch_due take due s.inflight in
      record s { inflight = inflight; taking = none; credit = s.credit - launched * unit }
  launch_overdue take (Overdue.overdue_error e) s = record s { taking = none }

  -- The loops and the ends of scans. A scan tick's claim answers what `pending` does.
  pub data Tick : Loops → Loops → Type 0 where
    scan_begins : (s t : Loops) → s.claiming ≡ none → claim s ≡ some t → Tick s t
    scan_launches :
        (s : Loops) (limit : ℕ) (precedes : Text → Text → Bool) (sqlite : Bool)
        (ts lease_seconds : ℕ) (store : Store)
        → s.claiming ≡ some limit
        → Tick s (launch_claimed (pending precedes sqlite ts limit lease_seconds store).1 s)
    scan_fails : (s : Loops) → Tick s (record s { claiming = none })
    rescan_begins :
        (s : Loops) (required_interval : ℕ) → s.taking ≡ none → Tick s (settle required_interval s)
    rescan_launches :
        (s : Loops) (take : ℕ) (answer : Overdue)
        → s.taking ≡ some take
        → Tick s (launch_overdue take answer s)
    ends :
        (s : Loops) (target : Text) → Tick s (record s { inflight = scan_done target s.inflight })

  pub data Ticks : Loops → Loops → Type 0 where
    start : (s : Loops) → Ticks s s
    next : (s t u : Loops) → Tick s t → Ticks t u → Ticks s u

-- `start()`.
abbrev pub started : Loops
started = record { inflight = []; claiming = none; taking = none; credit = 0 }
