-- ===== src/Policy/Reconcile/Concurrent.antt =====
-- Several calls of `reconcile` in flight: each is decided in one step, without an await, and its
-- write comes in a later one, behind the lock and the throttle of `_write`.
use matrix_federation_scanne.Prelude.{
  ℕ, suc, ◌+◌, ◌≤◌, ◌<◌, ◌≡◌, refl, sym, ap, ◌∙◌, true, some, String, List, [], ◌∷◌, ◌++◌, arith,
  Bool-cases, inl, inr, length, if◌then◌else◌,
}
use matrix_federation_scanne.Prelude.Text.{Text}
use matrix_federation_scanne.Json.{Fields}
use matrix_federation_scanne.Util.{strip_port}
use matrix_federation_scanne.Psl.Rules.{PublicSuffixList}
use matrix_federation_scanne.Policy.State.{Policy, active_psl}
use matrix_federation_scanne.Policy.Fold.{count_bans, in_bucket, put_rule}
use matrix_federation_scanne.Policy.Fold.Laws.{count_bans-put_rule, in_bucket-end, one_if}
use matrix_federation_scanne.Policy.Write.{Written}
use matrix_federation_scanne.Policy.Reconcile.Sent.{IsWrite-WriteSpec}
use matrix_federation_scanne.Policy.Reconcile.{Env, wrote, reconcile, ban_content}
use matrix_federation_scanne.Policy.Reconcile.Guards.{IsWrite, Reconciled, reconcile-WroteOnly}
use matrix_federation_scanne.Policy.Reconcile.Cap.{WithinCap, allowed_ban-below}

-- The state that the calls share, and the writes that were decided and are still to come.
pub record System : Type 0 where
  pub policy : Policy
  pub pending : List (Text × Fields)

-- A call of `reconcile` decides to write; or a write that was decided takes place, on the state
-- as it then is. The database and the homeserver may answer anything. `slots` bounds the
-- writes that wait at one time: the scans in flight, whose number Bot.Launch.Ceiling bounds.
pub data Step (slots : ℕ) : System → System → Type 0 where
  begin :
      (s : System) (env : Env) (scan_target : Text) (status : String) (key : Text)
      (content : Fields) (w : Written)
      → length s.pending < slots
      → reconcile env scan_target status s.policy ≡ wrote key content w
      → Step slots s (record { policy = s.policy; pending = (key, content) ∷ s.pending })
  commit :
      (s : System) (env : Env) (before after : List (Text × Fields)) (key : Text) (content : Fields)
      (w : Written)
      → s.pending ≡ before ++ (key, content) ∷ after
      → s.policy.last_write ≤ env.time
      → IsWrite env s.policy key content w
      → Step slots s (record { policy = w.policy; pending = before ++ after })

pub data Steps (slots : ℕ) : System → System → Type 0 where
  start : (s : System) → Steps slots s s
  next : (s t u : System) → Step slots s t → Steps slots t u → Steps slots s u

-- The pending bans of a bucket.
unfoldable pub pending_bans : PublicSuffixList → Text → Text → List (Text × Fields) → ℕ
unfolding in_bucket
pending_bans psl r t [] = 0
pending_bans psl r t ((key, content) ∷ rest) =
    one_if (in_bucket psl r t content) + pending_bans psl r t rest

module _ (psl : PublicSuffixList) (r t : Text) where
  pending_bans-le : (l : List (Text × Fields)) → pending_bans psl r t l ≤ length l
  unfolding pending_bans
  pending_bans-le [] = omega arith
  pending_bans-le ((key, content) ∷ rest) = elim (Bool-cases (in_bucket psl r t content)) [
    | inl counted ↦ rw counted (omega (arith, pending_bans-le rest))
    | inr other ↦ rw other (omega (arith, pending_bans-le rest))
  ]

  pending_bans-append :
      (key : Text) (content : Fields) (before after : List (Text × Fields))
      → pending_bans psl r t (before ++ (key, content) ∷ after)
        ≡ pending_bans psl r t (before ++ after) + one_if (in_bucket psl r t content)
  unfolding pending_bans
  pending_bans-append key content [] after = omega arith
  pending_bans-append key content ((k, c) ∷ before) after =
      omega (arith, pending_bans-append key content before after)

length-remove :
    (x : Text × Fields) (before after : List (Text × Fields))
    → length (before ++ x ∷ after) ≡ suc (length (before ++ after))
length-remove x [] after = refl
length-remove x (y ∷ before) after = omega (arith, length-remove x before after)

-- The bans of a bucket, written and pending, with the calls in flight within their limit, and what
-- the calls take from the policy as it was.
pub record Bounded (slots cap : ℕ) (psl : PublicSuffixList) (r : Text) (s : System) : Type 0 where
  pub capped : s.policy.max_bans_per_etld1 ≡ some cap
  pub list : active_psl s.policy ≡ some psl
  pub tag : s.policy.recommendation ≡ r
  pub inflight : length s.pending ≤ slots
  pub bans :
      (t : Text) → count_bans psl r t s.policy.rules + pending_bans psl r t s.pending < cap + slots

module _ (slots cap : ℕ) (psl : PublicSuffixList) (r : Text) where
  -- A call that was let through left its bucket below the cap.
  decided-bound :
      (env : Env) (scan_target : Text) (status : String) (p : Policy) (key : Text)
      (content : Fields) (w : Written)
      → p.max_bans_per_etld1 ≡ some cap
      → active_psl p ≡ some psl
      → p.recommendation ≡ r
      → Reconciled env scan_target status p key content w
      → (t : Text) → in_bucket psl r t content ≡ true
      → count_bans psl r t p.rules < cap
  decided-bound env scan_target status p key content w capped list tag decided t counts =
      elim decided.3 [
        | inl (allowed, is_ban) ↦
            let counts_ban : in_bucket psl p.recommendation t
                  (ban_content p (strip_port scan_target))
                ≡ true =
              rw (is_ban, sym tag) at counts in
            let below =
              allowed_ban-below cap psl p (strip_port scan_target) capped list t allowed.below_cap
                counts_ban in
            rw tag at below
        | inr (allowed, is_removal) ↦ cc (rw is_removal at counts, in_bucket-end psl r t)
      ]

  begin-Bounded :
      (s : System) (key : Text) (content : Fields)
      → length s.pending < slots
      → ((t : Text) → in_bucket psl r t content ≡ true → count_bans psl r t s.policy.rules < cap)
      → Bounded slots cap psl r s
      → Bounded slots cap psl r (record { policy = s.policy; pending = (key, content) ∷ s.pending })
  unfolding pending_bans
  begin-Bounded s key content room below b = record {
    capped = b.capped;
    list = b.list;
    tag = b.tag;
    inflight = omega (arith, room);
    bans = λ t. elim (Bool-cases (in_bucket psl r t content)) [
      | inl counts ↦
          omega (arith, ap one_if counts, below t counts, pending_bans-le psl r t s.pending, room)
      | inr other ↦ omega (arith, ap one_if other, b.bans t)
    ];
  }

  commit-Bounded :
      (s : System) (env : Env) (before after : List (Text × Fields)) (key : Text) (content : Fields)
      (w : Written)
      → s.pending ≡ before ++ (key, content) ∷ after
      → s.policy.last_write ≤ env.time
      → IsWrite env s.policy key content w
      → Bounded slots cap psl r s
      → Bounded slots cap psl r (record { policy = w.policy; pending = before ++ after })
  unfolding active_psl
  commit-Bounded s env before after key content w e clock is_write b =
      let effect = (IsWrite-WriteSpec env s.policy key content w clock is_write).effect in
      record {
        capped = ap (λ q. Policy.max_bans_per_etld1 q) effect ∙ b.capped;
        list = ap active_psl effect ∙ b.list;
        tag = ap (λ q. Policy.recommendation q) effect ∙ b.tag;
        inflight =
            omega (arith, b.inflight, ap length e, length-remove (key, content) before after);
        bans = λ t. omega (
          arith,
          b.bans t,
          ap (pending_bans psl r t) e,
          pending_bans-append psl r t key content before after,
          count_bans-write t (ap (λ q. Policy.rules q) effect),
        );
      }
    where
      count_bans-write :
          (t : Text)
          → w.policy.rules
            ≡ (if w.outcome.sent then put_rule key content s.policy.rules else s.policy.rules)
          → count_bans psl r t w.policy.rules
            ≤ count_bans psl r t s.policy.rules + one_if (in_bucket psl r t content)
      count_bans-write t e = elim (Bool-cases w.outcome.sent) [
        | inr unsent ↦ omega (arith, ap (count_bans psl r t) (rw unsent at e))
        | inl sent ↦ omega (
          arith,
          ap (count_bans psl r t) (rw sent at e),
          count_bans-put_rule psl r t key content s.policy.rules,
        )
      ]

  Step-Bounded :
      (s u : System) → Step slots s u → Bounded slots cap psl r s → Bounded slots cap psl r u
  Step-Bounded s _ (begin _ env scan_target status key content w room decides) b =
      let only = reconcile-WroteOnly env scan_target status s.policy in
      begin-Bounded s key content room
        (decided-bound env scan_target status s.policy key content w b.capped b.list b.tag
          (rw decides at only))
        b
  Step-Bounded s _ (commit _ env before after key content w e clock is_write) b =
      commit-Bounded s env before after key content w e clock is_write b

  Steps-Bounded :
      (s u : System) → Steps slots s u → Bounded slots cap psl r s → Bounded slots cap psl r u
  Steps-Bounded s _ (start _) b = b
  Steps-Bounded s u (next _ t _ one more) b = Steps-Bounded t u more (Step-Bounded s t one b)

-- With calls of `reconcile` interleaved in any way, at most `slots` of them in flight, the bans of
-- a bucket stay below the sum of the cap and `slots`, where no bucket held more than the cap at the
-- start and nothing was pending then, a suffix list is active, `slots` is not zero, the clock is
-- not before the last write, and nothing else changes the configuration, the list or the rules.
pub concurrent-bound :
    (slots cap : ℕ) (psl : PublicSuffixList) (s u : System)
    → 0 < slots
    → s.policy.max_bans_per_etld1 ≡ some cap
    → active_psl s.policy ≡ some psl
    → s.pending ≡ []
    → WithinCap cap psl s.policy.recommendation s.policy.rules
    → Steps slots s u
    → (t : Text) → count_bans psl s.policy.recommendation t u.policy.rules < cap + slots
unfolding pending_bans
concurrent-bound slots cap psl s u some_slot capped list idle within steps t =
    let b = Steps-Bounded slots cap psl s.policy.recommendation s u steps (record {
      capped = capped;
      list = list;
      tag = refl;
      inflight = omega (arith, ap length idle);
      bans = λ t.
          omega (arith, within t, ap (pending_bans psl s.policy.recommendation t) idle, some_slot);
    }) in
    omega (arith, b.bans t)
