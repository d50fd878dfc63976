-- ===== src/Policy/Write.antt =====
-- `_write` and `_retry_after_seconds` of policy.py: the throttled write with its retries.
pub mod Laws
-- Times are whole milliseconds. The homeserver is a parameter: what it answers to each attempt, and
-- how long that takes. A sleep takes exactly as long as it asks for.
use matrix_federation_scanne.Prelude.{
  ℕ, zero, suc, ◌+◌, ◌-◌, ◌*◌, ◌^◌, min, ◌≤◌, ◌<◌, ◌≡◌, refl, Bool, true, false, ◌&&◌, ◌||◌, Option,
  none, some, List, [], ◌∷◌, ◌++◌, ltb, leb, ◌==◌, if◌then◌else◌, drop, is_empty,
}
use matrix_federation_scanne.Prelude.Text.{Text, codes, starts_with, is_space}
use matrix_federation_scanne.Json.{Json, Fields, int, bool, obj, pos, negsuc, ℤ, find}
use matrix_federation_scanne.Policy.BotVersion.{digit_value}
use matrix_federation_scanne.Policy.State.{Policy}
use matrix_federation_scanne.Policy.Fold.{put_rule}

abbrev pub rl_max_retries : ℕ
rl_max_retries = 5

abbrev pub rl_base_backoff : ℕ
rl_base_backoff = 1000

abbrev pub rl_max_backoff : ℕ
rl_max_backoff = 30000

-- What `send_state_event` does: it returns, it raises MLimitExceeded with a message, it raises
-- another MatrixRequestError, or it raises something else.
pub data Reply : Type 0 where
  accepted : Reply
  limited : Text → Reply
  refused : Reply
  broken : Reply

pub record Attempt : Type 0 where
  pub reply : Reply
  pub took : ℕ

digits_from : ℕ → Text → ℕ
unfolding digit_value
digits_from n [] = n
digits_from n (c ∷ s) =
    let rest = λ (d : ℕ). digits_from (n * 10 + d) s in
    elim (digit_value c) [ none ↦ n | some d ↦ rest d ]

-- The hint of a message: there is none, a number of milliseconds, or an exception that is not
-- caught (the ValueError of `int` above 4300 digits, the OverflowError of a float division).
pub data Hint : Type 0 where
  no_hint : Hint
  hint : ℕ → Hint
  escapes : Hint

-- How many digits a text begins with.
digit_run : Text → ℕ
unfolding digit_value
digit_run [] = 0
digit_run (c ∷ s) = let rest = digit_run s in elim (digit_value c) [ none ↦ 0 | some d ↦ suc rest ]

-- `int(m.group(1))` for `(\d+)`.
read_digits : Text → Hint
unfolding digits_from digit_run
read_digits s =
    if digit_run s == 0
    then no_hint
    else if ltb 4300 (digit_run s)
    then escapes
    else hint (digits_from 0 s)

-- `\s*`. (`\s` and `str.isspace` agree.)
skip_spaces : Text → Text
unfolding is_space
skip_spaces [] = []
skip_spaces (c ∷ s) = if is_space c then skip_spaces s else c ∷ s

abbrev skip_quote : Text → Text
skip_quote [] = []
skip_quote (c ∷ s) = if (c == 34) || (c == 39) then s else c ∷ s

after_sign : Text → Hint
unfolding skip_spaces read_digits
after_sign [] = no_hint
after_sign (c ∷ s) = if (c == b':') || (c == b'=') then read_digits (skip_spaces s) else no_hint

-- `_RETRY_AFTER_RE` at one position.
hint_here : Text → Hint
unfolding after_sign starts_with
hint_here s =
    if starts_with s (codes "retry_after_ms")
    then after_sign (skip_spaces (skip_quote (drop 14 s)))
    else no_hint

-- `_RETRY_AFTER_RE.search(text)`: the leftmost match.
unfoldable pub search_hint : Text → Hint
unfolding hint_here
search_hint [] = no_hint
search_hint (c ∷ s) =
    let rest = search_hint s in
    elim (hint_here (c ∷ s)) [ hint n ↦ hint n | escapes ↦ escapes | no_hint ↦ rest ]

-- The least integer that does not convert to a float.
unfoldable pub float_limit : ℕ
float_limit = 2 ^ 1024 - 2 ^ 970

-- A number of milliseconds from a decoded value; a negative one counts as no wait. `True` and
-- `False` are instances of `int`.
abbrev json_hint : Option Json → Hint
json_hint (some (int (pos n))) = hint n
json_hint (some (int (negsuc n))) = if leb float_limit (suc n) then escapes else hint 0
json_hint (some (bool true)) = hint 1
json_hint (some (bool false)) = hint 0
json_hint _ = no_hint

-- The hint of a body that decodes to an object.
unfoldable pub body_hint : Option Json → Hint
unfolding find float_limit
body_hint (some (obj d)) = json_hint (find "retry_after_ms" d)
body_hint _ = no_hint

-- `min(hint_ms / 1000.0, _RL_MAX_BACKOFF)`, in milliseconds; `none` is the OverflowError.
unfoldable pub hinted_delay : ℕ → Option ℕ
unfolding float_limit
hinted_delay n = if leb float_limit n then none else some (min n rl_max_backoff)

-- What the loop leaves: whether the event was sent, whether an exception goes on, the time, and
-- the times at which requests were made, the last one first.
pub record LoopEnd : Type 0 where
  pub sent : Bool
  pub raised : Bool
  pub time : ℕ
  pub requests : List ℕ

-- The throttle: the time at which the first request is made.
unfoldable pub throttled : Policy → ℕ → ℕ
throttled p time =
    if p.min_interval == 0 then time else time + (p.min_interval - (time - p.last_write))

-- The end of `_write`: the clock of the throttle, then the fold.
unfoldable pub finish : Text → Fields → Policy → LoopEnd → Policy
unfolding put_rule
finish key content p e =
    let q : Policy = record p { last_write = e.time } in
    if e.sent then record q { rules = put_rule key content q.rules } else q

pub record Written : Type 0 where
  pub policy : Policy
  pub outcome : LoopEnd

-- `json.loads` is a parameter, with `none` for the ValueError.
module _ (loads : Text → Option Json) where
  -- `_retry_after_seconds`, in milliseconds; `none` where an exception escapes.
  unfoldable pub retry_after : Text → ℕ → Option ℕ
  unfolding search_hint body_hint hinted_delay
  retry_after text attempt = elim (search_hint text) [
    | hint n ↦ hinted_delay n
    | escapes ↦ none
    | no_hint ↦ elim (body_hint (loads text)) [
      | hint n ↦ hinted_delay n
      | escapes ↦ none
      | no_hint ↦ some (min (rl_base_backoff * 2 ^ attempt) rl_max_backoff)
    ]
  ]

  -- `while True:` of `_write`. `none` means that the fuel of the model ran out.
  unfoldable pub attempts : ℕ → (ℕ → Attempt) → ℕ → ℕ → List ℕ → Option LoopEnd
  unfolding retry_after
  attempts zero server attempt time log = none
  attempts (suc fuel) server attempt time log =
      let a = server attempt in
      let after = time + a.took in
      let requests = time ∷ log in
      let retry = λ (wait : ℕ). attempts fuel server (attempt + 1) (after + wait) requests in
      elim a.reply [
        | accepted ↦
            some (record { sent = true; raised = false; time = after; requests = requests })
        | refused ↦
            some (record { sent = false; raised = false; time = after; requests = requests })
        | broken ↦ some (record { sent = false; raised = true; time = after; requests = requests })
        | limited text ↦
            if leb rl_max_retries attempt
            then some (record { sent = false; raised = false; time = after; requests = requests })
            else elim (retry_after text attempt) [
              | none ↦
                  some (record { sent = false; raised = true; time = after; requests = requests })
              | some wait ↦ retry wait
            ]
      ]

  -- `_write(key, content)`, begun at a time; the lock lets one write run at a time.
  unfoldable pub write : (ℕ → Attempt) → ℕ → Text → Fields → Policy → Option Written
  write server time key content p = elim (attempts 6 server 0 (throttled p time) []) [
    | none ↦ none
    | some e ↦ some (record { policy = finish key content p e; outcome = e })
  ]
