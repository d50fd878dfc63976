-- ===== src/Policy/Write/Laws.antt =====
-- `_write`: its requests, its clock and what it does to the fold.
use matrix_federation_scanne.Prelude.{
  ℕ, zero, suc, ◌+◌, ◌-◌, ◌≤◌, ◌<◌, ◌≡◌, refl, Bool, true, false, Option, none, some, List, [], ◌∷◌,
  arith, leb, if◌then◌else◌, length, Bool-cases, Option-cases, inl, inr,
}
use matrix_federation_scanne.Prelude.Text.{Text}
use matrix_federation_scanne.Json.{Json, Fields}
use matrix_federation_scanne.Policy.State.{Policy}
use matrix_federation_scanne.Policy.Fold.{put_rule}
use matrix_federation_scanne.Policy.Write.{
  Attempt, Reply, accepted, limited, refused, broken, LoopEnd, Written, retry_after, hinted_delay,
  attempts, throttled, finish, write, rl_max_retries, rl_max_backoff,
}

module _ (loads : Text → Option Json) where
  pub retry_after-le :
      (text : Text) (n wait : ℕ) → retry_after loads text n ≡ some wait → wait ≤ rl_max_backoff
  unfolding retry_after hinted_delay
  retry_after-le text n wait e = ground arith

-- Every time of a log lies between two times.
abbrev pub Within : ℕ → ℕ → List ℕ → Type 0
Within lo hi [] = Unit
Within lo hi (t ∷ log) = ((lo ≤ t) × (t ≤ hi)) × Within lo hi log

Within-later : (lo hi hi' : ℕ) (log : List ℕ) → hi ≤ hi' → Within lo hi log → Within lo hi' log
Within-later lo hi hi' [] le w = tt
Within-later lo hi hi' (t ∷ log) le w = ((w.0.0, omega arith), Within-later lo hi hi' log le w.1)

abbrev pub is_accepted : Reply → Bool
is_accepted accepted = true
is_accepted _ = false

abbrev pub is_limited : Reply → Bool
is_limited (limited text) = true
is_limited _ = false

-- How the loop ends: after between `n + 1` and six requests, the last of which decides whether the
-- event was sent, at times between `lo` and its end.
pub record LoopSpec (server : ℕ → Attempt) (n lo : ℕ) (e : LoopEnd) : Type 0 where
  pub made : n < length e.requests
  pub bounded : length e.requests ≤ 6
  pub timed : Within lo e.time e.requests
  pub decided : e.sent ≡ is_accepted (server (length e.requests - 1)).reply

module _ (loads : Text → Option Json) (server : ℕ → Attempt) (lo : ℕ) where
  abbrev Returns : ℕ → ℕ → Option LoopEnd → Type 0
  Returns n time r = (e : LoopEnd) × (r ≡ some e) × LoopSpec server n lo e

  abbrev ended : ℕ → ℕ → List ℕ → Bool → Bool → LoopEnd
  ended after time log sent raised = record {
    sent = sent;
    raised = raised;
    time = after;
    requests = time ∷ log;
  }

  ended-LoopSpec :
      (n time took : ℕ) (log : List ℕ) (r : Reply) (sent raised : Bool)
      → length log ≡ n
      → n < 6
      → lo ≤ time
      → Within lo time log
      → (server n).reply ≡ r
      → sent ≡ is_accepted r
      → LoopSpec server n lo (ended (time + took) time log sent raised)
  ended-LoopSpec n time took log r sent raised l lt le w e s = record {
    made = omega arith;
    bounded = omega arith;
    timed = ((le, omega arith), Within-later lo time (time + took) log (omega arith) w);
    decided = rw ((let eq : suc (length log) - 1 ≡ n = omega arith in eq), e) s;
  }

  attempts_total :
      (fuel n time : ℕ) (log : List ℕ)
      → length log ≡ n
      → n + fuel ≡ 6
      → 0 < fuel
      → lo ≤ time
      → Within lo time log
      → Returns n time (attempts loads fuel server n time log)
  unfolding attempts
  attempts_total zero n time log l f pos le w = absurd (omega arith)
  attempts_total (suc fuel) n time log l f pos le w =
      from (attempts_total fuel) (server n).reply refl
    where
      took : ℕ
      took = (server n).took

      stops :
          (r : Reply) (sent raised : Bool)
          → (server n).reply ≡ r
          → sent ≡ is_accepted r
          → LoopSpec server n lo (ended (time + took) time log sent raised)
      stops r sent raised e s =
          ended-LoopSpec n time took log r sent raised l (omega arith) le w e s

      Rest : Type 0
      Rest =
          (n time : ℕ) (log : List ℕ)
          → length log ≡ n
          → n + fuel ≡ 6
          → 0 < fuel
          → lo ≤ time
          → Within lo time log
          → Returns n time (attempts loads fuel server n time log)

      spent :
          (text : Text)
          → (server n).reply ≡ limited text
          → leb rl_max_retries n ≡ true
          → Returns n time (attempts loads (suc fuel) server n time log)
      spent text e last = (
        ended (time + took) time log false false,
        rw (e, last, attempts),
        stops (limited text) false false e refl,
      )

      gives_up :
          (text : Text)
          → (server n).reply ≡ limited text
          → leb rl_max_retries n ≡ false
          → retry_after loads text n ≡ none
          → Returns n time (attempts loads (suc fuel) server n time log)
      gives_up text e more escaped = (
        ended (time + took) time log false true,
        rw (e, more, escaped, attempts),
        stops (limited text) false true e refl,
      )

      retried :
          Rest
          → (text : Text) (wait : ℕ) → (server n).reply ≡ limited text
          → leb rl_max_retries n ≡ false
          → retry_after loads text n ≡ some wait
          → Returns n time (attempts loads (suc fuel) server n time log)
      retried rest text wait e more delayed =
          let (end, eq, spec) =
            rest (n + 1) (time + took + wait) (time ∷ log) (omega (arith, l)) (omega arith)
              (ground arith) (omega arith)
              ((le, omega arith), Within-later lo time (time + took + wait) log (omega arith) w) in
          (
            end,
            rw (e, more, delayed, attempts) eq,
            record {
              made = omega (arith, spec.made);
              bounded = spec.bounded;
              timed = spec.timed;
              decided = spec.decided;
            },
          )

      from :
          Rest
          → (r : Reply) → (server n).reply ≡ r
          → Returns n time (attempts loads (suc fuel) server n time log)
      from rest accepted e = (
        ended (time + took) time log true false,
        rw (e, attempts),
        stops accepted true false e refl,
      )
      from rest refused e = (
        ended (time + took) time log false false,
        rw (e, attempts),
        stops refused false false e refl,
      )
      from rest broken e = (
        ended (time + took) time log false true,
        rw (e, attempts),
        stops broken false true e refl,
      )
      from rest (limited text) e = elim (Bool-cases (leb rl_max_retries n)) [
        | inl last ↦ spent text e last
        | inr more ↦ elim (Option-cases (retry_after loads text n)) [
          | inl escaped ↦ gives_up text e more escaped
          | inr (wait, delayed) ↦ retried rest text wait e more delayed
        ]
      ]

-- What one call of `_write` does.
pub record WriteSpec (server : ℕ → Attempt) (key : Text) (content : Fields) (p : Policy)
    (w : Written) : Type 0 where
  pub made : 0 < length w.outcome.requests
  pub bounded : length w.outcome.requests ≤ 6
  -- Each request is made `min_interval` after the clock of the write before, and not after the
  -- clock that this write leaves.
  pub spaced : Within (p.last_write + p.min_interval) w.policy.last_write w.outcome.requests
  pub decided : w.outcome.sent ≡ is_accepted (server (length w.outcome.requests - 1)).reply
  -- Nothing but the throttle's clock and, where the event was sent, the fold.
  pub effect : w.policy ≡ record p {
    rules = if w.outcome.sent then put_rule key content p.rules else p.rules;
    last_write = w.outcome.time;
  }

throttled-le :
    (p : Policy) (time : ℕ) → p.last_write ≤ time → p.last_write + p.min_interval ≤ throttled p time
unfolding throttled
throttled-le p time h = ground arith

finish_lem :
    (key : Text) (content : Fields) (p : Policy) (e : LoopEnd)
    → finish key content p e ≡ record p {
      rules = if e.sent then put_rule key content p.rules else p.rules;
      last_write = e.time;
    }
unfolding finish
finish_lem key content p e = ground arith

-- `_write`, at a clock not before the last write, returns after at least one and at most six
-- requests. Each comes at least `min_interval` after the clock that the previous write left,
-- whether or not that write succeeded. The last request decides whether the event counts as sent,
-- the fold changes exactly where it was, and nothing else changes but the clock.
pub write_total :
    (loads : Text → Option Json) (server : ℕ → Attempt) (time : ℕ) (key : Text) (content : Fields)
    (p : Policy)
    → p.last_write ≤ time
    → (w : Written) × (write loads server time key content p ≡ some w)
      × WriteSpec server key content p w
unfolding write
write_total loads server time key content p h =
    let (e, eq, spec) =
      attempts_total loads server (p.last_write + p.min_interval) 6 0 (throttled p time) [] refl
        (omega arith) (omega arith) (throttled-le p time h) tt in
    (
      record { policy = finish key content p e; outcome = e },
      rw (eq, write),
      record {
        made = spec.made;
        bounded = spec.bounded;
        spaced = rw finish_lem spec.timed;
        decided = spec.decided;
        effect = finish_lem key content p e;
      },
    )

-- `_write` returns at any clock.
pub write_returns :
    (loads : Text → Option Json) (server : ℕ → Attempt) (time : ℕ) (key : Text) (content : Fields)
    (p : Policy)
    → (w : Written) × (write loads server time key content p ≡ some w)
unfolding write
write_returns loads server time key content p =
    let (e, eq, _) =
      attempts_total loads server 0 6 0 (throttled p time) [] refl (omega arith) (omega arith)
        (omega arith) tt in
    (record { policy = finish key content p e; outcome = e }, rw (eq, write))
