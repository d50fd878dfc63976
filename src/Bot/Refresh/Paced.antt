-- ===== src/Bot/Refresh/Paced.antt =====
-- The waits of `_psl_refresh_loop`.
use matrix_federation_scanne.Prelude.{
  ℕ, zero, suc, ◌*◌, ◌^◌, ◌≤◌, ◌≡◌, refl, inl, inr, Bool, true, false, not, ◌&&◌, ◌||◌, List, [],
  ◌∷◌, ◌++◌, min, leb, all, arith, Bool-cases,
}
use matrix_federation_scanne.Bot.Refresh.{
  Pass, next_interval, after_sleep, pass_interval, pass_backoff, intervals, backoff_after,
  degraded_retry_seconds, refresh_seconds,
}

abbrev pub InRange : ℕ → Type 0
InRange n = (degraded_retry_seconds ≤ n) × (n ≤ refresh_seconds)

abbrev pub in_range : ℕ → Bool
in_range n = leb degraded_retry_seconds n && leb n refresh_seconds

pass_interval-InRange : (p : Pass) (b : ℕ) → InRange b → in_range (pass_interval p b) ≡ true
unfolding pass_interval next_interval
pass_interval-InRange p b h = ground arith

pass_backoff-InRange : (p : Pass) (b : ℕ) → InRange b → InRange (pass_backoff p b)
unfolding pass_backoff next_interval after_sleep
pass_backoff-InRange p b h = ground arith

intervals-InRange : (ps : List Pass) (b : ℕ) → InRange b → all in_range (intervals ps b) ≡ true
unfolding intervals
intervals-InRange [] b h = refl
intervals-InRange (p ∷ ps) b h =
    rw
      (
        pass_interval-InRange p b h,
        intervals-InRange ps (pass_backoff p b) (pass_backoff-InRange p b h),
      )
      refl

-- A pass that ends a sequence of failures: the list is healthy, or the floor has changed.
abbrev pub restarts : Pass → Bool
restarts p = p.woken || not p.degraded

restarted : (p : Pass) (b : ℕ) → restarts p ≡ true → pass_backoff p b ≡ degraded_retry_seconds
unfolding pass_backoff next_interval after_sleep
restarted p b h = ground arith

-- A pass that finds the list degraded, adopts nothing and sleeps for the whole of its interval.
abbrev pub idle : Pass
idle = record { degraded = true; adopted = false; woken = false }

abbrev pub idles : ℕ → List Pass
idles zero = []
idles (suc k) = idle ∷ idles k

mul-le : (a m : ℕ) → 1 ≤ m → a ≤ a * m
mul-le a zero h = omega arith
mul-le a (suc m) h = omega arith

capped : (a c m : ℕ) → 1 ≤ m → min (min a c * m) c ≡ min (a * m) c
capped a c m h =
    let below = mul-le a m h in
    let above = mul-le c m h in
    elim (Bool-cases (leb a c)) [
      | inl low ↦ let e : min a c ≡ a = ground arith in rw e refl
      | inr high ↦ let e : min a c ≡ c = ground arith in rw e (ground arith)
    ]

pow_positive : (k : ℕ) → 1 ≤ 2 ^ k
pow_positive zero = omega arith
pow_positive (suc k) = let h = pow_positive k in omega arith

pow_suc : (b k : ℕ) → (b * 2) * 2 ^ k ≡ b * 2 ^ (suc k)
pow_suc b k = grind arith

idles-backoff :
    (k b : ℕ) → b ≤ refresh_seconds → backoff_after (idles k) b ≡ min (b * 2 ^ k) refresh_seconds
unfolding backoff_after pass_backoff next_interval after_sleep
idles-backoff zero b h = omega arith
idles-backoff (suc k) b h =
    rw
      (
        idles-backoff k (min (b * 2) refresh_seconds) (omega arith),
        capped (b * 2) refresh_seconds (2 ^ k) (pow_positive k),
        pow_suc b k,
      )
      refl

ladder :
    (before : List Pass) (p : Pass) (k b : ℕ)
    → restarts p ≡ true
    → backoff_after (before ++ p ∷ idles k) b ≡ min (degraded_retry_seconds * 2 ^ k) refresh_seconds
unfolding backoff_after
ladder [] p k b h =
    rw (backoff_after, restarted p b h) (idles-backoff k degraded_retry_seconds (omega arith))
ladder (q ∷ before) p k b h = ladder before p k (pass_backoff q b) h

-- From the start of the loop, whatever its passes find, each interval is from ten minutes to one
-- day; and once a pass has found the list healthy or was woken by the floor, the interval of the
-- pass behind `k` passes that find the list degraded, adopt nothing and are not woken is ten
-- minutes times `2 ^ k`, or a day where that is less.
pub intervals-Paced :
    (before : List Pass) (p : Pass) (k : ℕ)
    → restarts p ≡ true
    → (all in_range (intervals (before ++ p ∷ idles (suc k)) degraded_retry_seconds) ≡ true)
      × (pass_interval idle (backoff_after (before ++ p ∷ idles k) degraded_retry_seconds)
          ≡ min (degraded_retry_seconds * 2 ^ k) refresh_seconds)
unfolding pass_interval next_interval
intervals-Paced before p k h = (
  intervals-InRange (before ++ p ∷ idles (suc k)) degraded_retry_seconds (omega arith, omega arith),
  ladder before p k degraded_retry_seconds h,
)
