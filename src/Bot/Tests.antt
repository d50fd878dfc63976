-- ===== src/Bot/Tests.antt =====
-- The loops of bot.py at small limits.
use matrix_federation_scanne.Prelude.{
  ℕ, ◌≡◌, refl, Bool, true, not, ◌&&◌, ◌||◌, Option, none, some, List, [], ◌∷◌, arith, leb, length,
  any,
}
use matrix_federation_scanne.Prelude.Text.{Text, codes}
use matrix_federation_scanne.Json.{Json, Fields, str, int, float, arr, nil, cons, pos, end, field}
use matrix_federation_scanne.Policy.State.{decide}
use matrix_federation_scanne.Policy.Tests.{sample, world}
use matrix_federation_scanne.Store.{Store, empty, is_queued, is_scanned}
use matrix_federation_scanne.Store.Queue.{pending}
use matrix_federation_scanne.Store.Overdue.{overdue}
use matrix_federation_scanne.Store.Invariant.{Reaches, created, waited}
use matrix_federation_scanne.Probe.Version.{no_signal}
use matrix_federation_scanne.Probe.Support.{no_support}
use matrix_federation_scanne.Bot.Launch.{
  Loops, Ticks, start, next, scan_begins, scan_launches, rescan_begins, rescan_launches, started,
  max_inflight, claim, launch_claimed, settle, launch_overdue,
}
use matrix_federation_scanne.Bot.Launch.Ceiling.{Distinct, Orderly, Ticks-Orderly}
use matrix_federation_scanne.Bot.Staleness.{Whole, whole, refused, overflowed, sanitize_staleness}
use matrix_federation_scanne.Bot.Ingest.{clean, ingest, webhook_ingest}
use matrix_federation_scanne.Bot.Ingest.Cleaned.{names, ingest_lem}
use matrix_federation_scanne.Bot.Ingest.Authorized.{Handled, webhook_ingest-Authorized}
use matrix_federation_scanne.Bot.Scan.{scan_one}
use matrix_federation_scanne.Bot.Scan.Effects.{succeeded, Banning, scan_one-Banning}

abbrev precedes : Text → Text → Bool
precedes s t = true

abbrev holding : Text → Store
holding t = record {
  queue = record { scan_target = t; leased_until = none } ∷ [];
  scanned = [];
  support = [];
  psl_cache = none;
}

-- One scan and one rescan at a time, and a credit in whole scans.
abbrev claiming_one : Loops
claiming_one = record { inflight = []; claiming = some 1; taking = none; credit = 0 }

abbrev one_runs : Loops
one_runs = record { inflight = codes "a" ∷ []; claiming = none; taking = none; credit = 0 }

abbrev claiming_two : Loops
claiming_two = record { inflight = codes "a" ∷ []; claiming = some 1; taking = none; credit = 0 }

abbrev both_wait : Loops
both_wait = record { inflight = codes "a" ∷ []; claiming = some 1; taking = some 1; credit = 1 }

abbrev two_run : Loops
two_run = record {
  inflight = codes "b" ∷ codes "a" ∷ [];
  claiming = none;
  taking = some 1;
  credit = 1;
}

abbrev three_run : Loops
three_run = record {
  inflight = codes "c" ∷ codes "b" ∷ codes "a" ∷ [];
  claiming = none;
  taking = none;
  credit = 0;
}

overlapping : Ticks 1 1 1 started three_run
unfolding claim launch_claimed settle launch_overdue pending
overlapping = next started claiming_one three_run (scan_begins started claiming_one refl refl) (
    next claiming_one one_runs three_run
      (scan_launches claiming_one 1 precedes true 0 60 (holding (codes "a")) refl)
      (next one_runs claiming_two three_run (scan_begins one_runs claiming_two refl refl) (
        next claiming_two both_wait three_run (rescan_begins claiming_two 1 refl) (
          next both_wait two_run three_run
            (scan_launches both_wait 1 precedes true 0 60 (holding (codes "b")) refl)
            (next two_run three_run three_run
              (rescan_launches two_run 1 (overdue (codes "c" ∷ [])) refl) (start three_run))))))

-- Three scans are in flight under a ceiling of two.
above_ceiling : (length three_run.inflight ≡ 3) × (max_inflight 1 1 ≡ 2)
unfolding max_inflight
above_ceiling = (refl, refl)

Ticks-Orderly_example : Orderly 1 1 1 1 three_run
Ticks-Orderly_example = Ticks-Orderly 1 1 1 1 (omega arith) (omega arith) three_run overlapping

abbrev is_letter : ℕ → Bool
is_letter c = leb 97 c && leb c 122

abbrev to_int : Json → Whole
to_int (int n) = whole n
to_int float = overflowed
to_int _ = refused

abbrev raw_periods : Fields
raw_periods = field "open" (int (pos 3600)) (
    field "opne" (int (pos 60))
      (field "closed" (int (pos 0)) (field "unknown" (int (pos 600)) end)))

periods_kept :
    sanitize_staleness to_int raw_periods ≡ some (("open", pos 3600) ∷ ("unknown", pos 600) ∷ [])
unfolding sanitize_staleness
periods_kept = refl

-- `.inf` under a known status.
infinity_raises : sanitize_staleness to_int (field "open" float end) ≡ none
unfolding sanitize_staleness
infinity_raises = refl

abbrev batch : List Json
batch = str (codes " a.org ") ∷ str (codes "a.org") ∷ int (pos 1) ∷ str (codes "not a name") ∷ []

ingest_lem_example :
    Distinct (clean batch)
    × (is_queued (codes "a.org") (ingest true batch empty).queue ≡ (
        is_queued (codes "a.org") []
        || (any (names (codes "a.org")) batch && not (is_scanned (codes "a.org") []))))
ingest_lem_example = ingest_lem true batch empty (codes "a.org")

abbrev bytes : Text → List ℕ
bytes t = t

abbrev loads_list : Text → Option Json
loads_list t = some (arr (cons (str t) nil))

webhook_ingest-Authorized_example :
    Handled bytes bytes loads_list true true true
      (codes "s3cret")
      (codes "Bearer s3cret")
      (codes "a.org")
      empty
      (webhook_ingest bytes bytes loads_list true true true
        (codes "s3cret")
        (codes "Bearer s3cret")
        (codes "a.org")
        empty)
webhook_ingest-Authorized_example =
    webhook_ingest-Authorized bytes bytes loads_list true true true (codes "s3cret")
      (codes "Bearer s3cret") (codes "a.org") empty

reached : Reaches 100 empty
reached = waited 0 100 empty (omega arith) created

scan_one-Banning_example : Banning world world 100 101 200 (codes "spam.example.org:8448") sample (
    scan_one world world 100 101 200
      (codes "spam.example.org:8448")
      (succeeded "open" no_signal no_support 3)
      empty
      sample)
unfolding decide
scan_one-Banning_example =
    scan_one-Banning world world 100 101 200 (codes "spam.example.org:8448") "open" no_signal
      no_support 3 empty sample reached (omega arith) refl
