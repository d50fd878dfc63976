-- ===== src/Bot/Launch/Ceiling.antt =====
-- The scans in flight under any interleaving of the ticks of bot.py.
use matrix_federation_scanne.Prelude.{
  ℕ, zero, suc, ◌+◌, ◌*◌, ◌/◌, ◌≤◌, ◌<◌, ◌≡◌, refl, Bool, false, Option, none, some, List, [], ◌∷◌,
  min, leb, arith, Bool-cases, inl, inr, if◌then◌else◌, length,
}
use mathlib.Core.Path.{subst}
use native.Mathlib.Nat.{min-le_left, min-le_right, le_trans, mul-le-mul_right, div-mul-le_self}
use matrix_federation_scanne.Prelude.Text.{Text, contains, same}
use matrix_federation_scanne.Store.{Store}
use matrix_federation_scanne.Store.Queue.{pending}
use matrix_federation_scanne.Store.Queue.Claims.{pending_size}
use matrix_federation_scanne.Store.Overdue.{Overdue, overdue, overdue_error}
use matrix_federation_scanne.Bot.Launch.{
  max_inflight, launch_scan, scan_done, launch_all, launch_due, accrue, wanted, rescan_take, Loops,
  slots, claim, launch_claimed, settle, launch_overdue, Tick, scan_begins, scan_launches,
  scan_fails, rescan_begins, rescan_launches, ends, Ticks, start, next, started,
}

-- No target stands twice.
abbrev pub Distinct : List Text → Type 0
Distinct [] = Unit
Distinct (t ∷ rest) = (contains rest t ≡ false) × Distinct rest

launch_scan-Distinct : (t : Text) (l : List Text) → Distinct l → Distinct (launch_scan t l).0
unfolding launch_scan
launch_scan-Distinct t l d = elim (Bool-cases (contains l t)) [
  | inl running ↦ rw running d
  | inr new ↦ rw new (new, d)
]

launch_all-Distinct : (ts l : List Text) → Distinct l → Distinct (launch_all ts l)
unfolding launch_all
launch_all-Distinct [] l d = d
launch_all-Distinct (t ∷ ts) l d =
    launch_all-Distinct ts (launch_scan t l).0 (launch_scan-Distinct t l d)

launch_due-Distinct :
    (take : ℕ) (due l : List Text) → Distinct l → Distinct (launch_due take due l).0
unfolding launch_due launch_scan
launch_due-Distinct zero due l d = d
launch_due-Distinct (suc take) [] l d = d
launch_due-Distinct (suc take) (t ∷ ts) l d = elim (Bool-cases (contains l t)) [
  | inl running ↦ rw running (launch_due-Distinct (suc take) ts l d)
  | inr new ↦ rw new (launch_due-Distinct take ts (t ∷ l) (new, d))
]

contains-scan_done :
    (t u : Text) (l : List Text) → contains l u ≡ false → contains (scan_done t l) u ≡ false
unfolding scan_done contains
contains-scan_done t u [] h = refl
contains-scan_done t u (x ∷ rest) h = ground (arith, h, contains-scan_done t u rest)

scan_done-Distinct : (t : Text) (l : List Text) → Distinct l → Distinct (scan_done t l)
unfolding scan_done
scan_done-Distinct t [] d = tt
scan_done-Distinct t (x ∷ rest) d = elim (Bool-cases (same x t)) [
  | inl here ↦ rw here d.1
  | inr other ↦ rw other (contains-scan_done t x rest d.0, scan_done-Distinct t rest d.1)
]

length-launch_all : (ts l : List Text) → length (launch_all ts l) ≤ length ts + length l
unfolding launch_all launch_scan
length-launch_all [] l = omega arith
length-launch_all (t ∷ ts) l = elim (Bool-cases (contains l t)) [
  | inl running ↦ rw running (omega (arith, length-launch_all ts l))
  | inr new ↦ rw new (omega (arith, length-launch_all ts (t ∷ l)))
]

-- A rescan tick launches at most what it took, and counts what it launches.
pub launch_due_counts :
    (take : ℕ) (due l : List Text)
    → ((launch_due take due l).1 ≤ take)
      × (length (launch_due take due l).0 ≡ (launch_due take due l).1 + length l)
unfolding launch_due launch_scan
launch_due_counts zero due l = (omega arith, omega arith)
launch_due_counts (suc take) [] l = (omega arith, omega arith)
launch_due_counts (suc take) (t ∷ ts) l = elim (Bool-cases (contains l t)) [
  | inl running ↦ rw running (launch_due_counts (suc take) ts l)
  | inr new ↦
      let rest = launch_due_counts take ts (t ∷ l) in
      rw new (omega (arith, rest.0), omega (arith, rest.1))
]

length-scan_done : (t : Text) (l : List Text) → length (scan_done t l) ≤ length l
unfolding scan_done
length-scan_done t [] = omega arith
length-scan_done t (x ∷ rest) = ground (arith, length-scan_done t rest)

-- What a tick still has to launch.
abbrev pub waiting : Option ℕ → ℕ
waiting none = 0
waiting (some n) = n

module _ (scan_limit rescan_limit unit over : ℕ) where
  pub record Orderly (s : Loops) : Type 0 where
    pub distinct : Distinct s.inflight
    pub ceiling :
        length s.inflight + waiting s.claiming + waiting s.taking
        ≤ max_inflight scan_limit rescan_limit + over
    pub claims : waiting s.claiming ≤ scan_limit
    pub takes : waiting s.taking ≤ rescan_limit
    pub paid : waiting s.taking * unit ≤ s.credit
    pub burst : s.credit ≤ rescan_limit * unit

  module _ (scan_over : scan_limit ≤ over) (rescan_over : rescan_limit ≤ over) where
    claim-Orderly :
        (s t : Loops)
        → s.claiming ≡ none
        → claim scan_limit rescan_limit unit s ≡ some t
        → Orderly s
        → Orderly t
    unfolding claim
    claim-Orderly s t idle claimed ok =
        elim (Bool-cases (leb (slots scan_limit rescan_limit unit s) 0)) [
          | inl full ↦ cc (rw full at claimed)
          | inr room ↦
              let free : 0 < slots scan_limit rescan_limit unit s = ground (arith, room) in
              let e : record s {
                claiming = some (min scan_limit (slots scan_limit rescan_limit unit s));
              }
                  ≡ t =
                cc (rw room at claimed) in
              subst Orderly e (record {
                distinct = ok.distinct;
                ceiling = omega (
                  arith,
                  ok.takes,
                  rescan_over,
                  free,
                  min-le_right scan_limit (slots scan_limit rescan_limit unit s),
                );
                claims = min-le_left scan_limit (slots scan_limit rescan_limit unit s);
                takes = ok.takes;
                paid = ok.paid;
                burst = ok.burst;
              })
        ]

    pending_size_le :
        (precedes : Text → Text → Bool) (sqlite : Bool) (ts limit lease_seconds : ℕ) (store : Store)
        → length (pending precedes sqlite ts limit lease_seconds store).1 ≤ limit
    pending_size_le precedes sqlite ts limit lease_seconds store =
        ground (arith, pending_size precedes sqlite ts limit lease_seconds store)

    -- The state behind the admission test of a rescan tick.
    taken-Orderly :
        (s : Loops) (credit take : ℕ)
        → take ≤ slots scan_limit rescan_limit unit s
        → take ≤ rescan_limit
        → take * unit ≤ credit
        → credit ≤ rescan_limit * unit
        → Orderly s
        → Orderly (record s { credit = credit; taking = if leb 1 take then some take else none })
    taken-Orderly s credit take room within paid burst ok = elim (Bool-cases (leb 1 take)) [
      | inr nothing ↦ rw nothing (record {
        distinct = ok.distinct;
        ceiling = omega (arith, ok.ceiling);
        claims = ok.claims;
        takes = omega arith;
        paid = omega arith;
        burst = burst;
      })
      | inl some_taken ↦
          let one : 1 ≤ take = ground (arith, some_taken) in
          rw some_taken (record {
            distinct = ok.distinct;
            ceiling = omega (arith, ok.claims, scan_over, one, room);
            claims = ok.claims;
            takes = within;
            paid = paid;
            burst = burst;
          })
    ]

    settle-Orderly :
        (s : Loops) (n : ℕ)
        → s.taking ≡ none
        → Orderly s
        → Orderly (settle scan_limit rescan_limit unit n s)
    unfolding settle accrue rescan_take wanted
    settle-Orderly s n idle ok =
        let credit = min (rescan_limit * unit) (s.credit + n) in
        let room = slots scan_limit rescan_limit unit s in
        let want = min (credit / unit) rescan_limit in
        let by_credit : min want room ≤ credit / unit =
          omega (arith, min-le_left want room, min-le_left (credit / unit) rescan_limit) in
        taken-Orderly s credit (min want room) (min-le_right want room)
          (omega (arith, min-le_left want room, min-le_right (credit / unit) rescan_limit))
          (le_trans (mul-le-mul_right unit by_credit) (div-mul-le_self credit unit))
          (min-le_left (rescan_limit * unit) (s.credit + n)) ok

    launch_overdue-Orderly :
        (s : Loops) (take : ℕ) (answer : Overdue)
        → s.taking ≡ some take
        → Orderly s
        → Orderly (launch_overdue scan_limit rescan_limit unit take answer s)
    unfolding launch_overdue
    launch_overdue-Orderly s take (overdue due) taking ok =
        let counts = launch_due_counts take due s.inflight in
        record {
          distinct = launch_due-Distinct take due s.inflight ok.distinct;
          ceiling = omega (arith, rw taking at ok.ceiling, counts.0, counts.1);
          claims = ok.claims;
          takes = omega arith;
          paid = omega arith;
          burst = omega (arith, ok.burst);
        }
    launch_overdue-Orderly s take (overdue_error e) taking ok = record {
      distinct = ok.distinct;
      ceiling = omega (arith, ok.ceiling);
      claims = ok.claims;
      takes = omega arith;
      paid = omega arith;
      burst = ok.burst;
    }

    Tick-Orderly : (s t : Loops) → Tick scan_limit rescan_limit unit s t → Orderly s → Orderly t
    unfolding launch_claimed
    Tick-Orderly s t (scan_begins _ _ idle claimed) ok = claim-Orderly s t idle claimed ok
    Tick-Orderly s _ (scan_launches _ limit precedes sqlite ts lease_seconds store claiming) ok =
        let targets = (pending precedes sqlite ts limit lease_seconds store).1 in
        record {
          distinct = launch_all-Distinct targets s.inflight ok.distinct;
          ceiling = omega (
            arith,
            rw claiming at ok.ceiling,
            length-launch_all targets s.inflight,
            pending_size_le precedes sqlite ts limit lease_seconds store,
          );
          claims = omega arith;
          takes = ok.takes;
          paid = ok.paid;
          burst = ok.burst;
        }
    Tick-Orderly s _ (scan_fails _) ok = record {
      distinct = ok.distinct;
      ceiling = omega (arith, ok.ceiling);
      claims = omega arith;
      takes = ok.takes;
      paid = ok.paid;
      burst = ok.burst;
    }
    Tick-Orderly s _ (rescan_begins _ n idle) ok = settle-Orderly s n idle ok
    Tick-Orderly s _ (rescan_launches _ take answer taking) ok =
        launch_overdue-Orderly s take answer taking ok
    Tick-Orderly s _ (ends _ target) ok = record {
      distinct = scan_done-Distinct target s.inflight ok.distinct;
      ceiling = omega (arith, ok.ceiling, length-scan_done target s.inflight);
      claims = ok.claims;
      takes = ok.takes;
      paid = ok.paid;
      burst = ok.burst;
    }

    Ticks-keep : (s t : Loops) → Ticks scan_limit rescan_limit unit s t → Orderly s → Orderly t
    Ticks-keep s _ (start _) ok = ok
    Ticks-keep s t (next _ middle _ step rest) ok =
        Ticks-keep middle t rest (Tick-Orderly s middle step ok)

    -- In every interleaving of the two loops and the ends of scans, from the start, no target is
    -- in flight twice, the scans in flight pass `_max_inflight` by no more than the larger of the
    -- two batch limits, with the launches still to come counted in, a rescan tick takes no more
    -- than its credit pays for, and the credit stays within one batch.
    pub Ticks-Orderly : (s : Loops) → Ticks scan_limit rescan_limit unit started s → Orderly s
    Ticks-Orderly s run = Ticks-keep started s run (record {
      distinct = tt;
      ceiling = omega arith;
      claims = omega arith;
      takes = omega arith;
      paid = omega arith;
      burst = omega arith;
    })
