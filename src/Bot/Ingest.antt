-- ===== src/Bot/Ingest.antt =====
-- `_clean`, `_ingest` and `webhook_ingest` of bot.py.
pub mod Cleaned
pub mod Authorized
use matrix_federation_scanne.Prelude.{
  ℕ, ◌≡◌, Bool, true, false, not, ◌&&◌, ◌||◌, Option, none, some, String, List, [], ◌∷◌, ◌++◌,
  if◌then◌else◌, ◌==◌, is_empty, length,
}
use matrix_federation_scanne.Prelude.Text.{Text, codes, contains, same, strip, is_space, cons_head}
use matrix_federation_scanne.Json.{
  Json, null, bool, int, float, str, arr, obj, Items, nil, cons, Fields, end, field, get_or,
  to_list, pos, ℤ,
}
use matrix_federation_scanne.Util.{validate_server_name}
use matrix_federation_scanne.Store.{Store}
use matrix_federation_scanne.Store.Queue.{enqueue}

-- The test of a stripped name.
unfoldable pub is_target : Text → Bool
unfolding validate_server_name
is_target name = not (is_empty name) && validate_server_name name

-- The loop of `_clean`: `seen` holds what the output holds.
unfoldable pub clean_from : List Text → List Json → List Text
unfolding is_target contains strip
clean_from seen [] = []
clean_from seen (str text ∷ rest) =
    let kept = strip text ∷ clean_from (strip text ∷ seen) rest in
    let skipped = clean_from seen rest in
    if not (is_target (strip text))
    then skipped
    else if contains seen (strip text)
    then skipped
    else kept
clean_from seen (null ∷ rest) = clean_from seen rest
clean_from seen (bool b ∷ rest) = clean_from seen rest
clean_from seen (int n ∷ rest) = clean_from seen rest
clean_from seen (float ∷ rest) = clean_from seen rest
clean_from seen (arr items ∷ rest) = clean_from seen rest
clean_from seen (obj fields ∷ rest) = clean_from seen rest

-- `_clean`.
unfoldable pub clean : List Json → List Text
unfolding clean_from
clean raw = clean_from [] raw

-- `_ingest` on what a source fetched.
unfoldable pub ingest : Bool → List Json → Store → Store
unfolding clean enqueue
ingest sqlite raw s = enqueue sqlite (clean raw) s

-- The words of `body.split()`: a word ends at a space, and empty ones are dropped.
unfoldable pub words_from : Text → List Text
unfolding is_space
words_from [] = [] ∷ []
words_from (c ∷ s) = let rest = words_from s in if is_space c then [] ∷ rest else cons_head c rest

abbrev pub drop_empty : List Text → List Json
drop_empty [] = []
drop_empty (w ∷ ws) = if is_empty w then drop_empty ws else str w ∷ drop_empty ws

unfoldable pub split_words : Text → List Json
unfolding words_from
split_words body = drop_empty (words_from body)

abbrev pub characters : Text → List Json
characters [] = []
characters (c ∷ s) = str (c ∷ []) ∷ characters s

abbrev pub keys : Fields → List Json
keys end = []
keys (field k v rest) = str (codes k) ∷ keys rest

-- What a loop over a value sees; `none` is the TypeError. `float_true` is whether a float that
-- stands for the value is not 0.0: `or []` comes first.
abbrev pub iterated : Bool → Json → Option (List Json)
iterated float_true null = some []
iterated float_true (bool b) = if b then none else some []
iterated float_true (int n) = elim n [
  | pos k ↦ if k == 0 then some [] else none
  | ℤ.negsuc k ↦ none
]
iterated float_true float = if float_true then none else some []
iterated float_true (str s) = some (characters s)
iterated float_true (arr items) = some (to_list items)
iterated float_true (obj fields) = some (keys fields)

-- The names of a request's body, by what `json.loads` made of it.
unfoldable pub names_of : Bool → Option Json → Text → Option (List Json)
unfolding split_words get_or
names_of float_true none body = some (split_words body)
names_of float_true (some (obj d)) body = iterated float_true (get_or "servers" (arr nil) d)
names_of float_true (some (arr items)) body = some (to_list items)
names_of float_true (some null) body = some []
names_of float_true (some (bool b)) body = some []
names_of float_true (some (int n)) body = some []
names_of float_true (some float) body = some []
names_of float_true (some (str s)) body = some []

pub data Answer : Type 0 where
  not_found unauthorized raised : Answer
  accepted : ℕ → Answer

-- `webhook_ingest`. Parameters: the bytes of the two texts that are compared, in UTF-8 and with
-- `surrogateescape`, and `json.loads`.
module _ (encode escaped : Text → List ℕ) where
  -- `secret` is there, and the header is the bearer token with it.
  unfoldable pub is_authorized : Text → Text → Bool
  unfolding same
  is_authorized secret auth =
      not (is_empty secret) && same (escaped auth) (encode (codes "Bearer " ++ secret))

  module _ (loads : Text → Option Json) (float_true : Bool) where
    unfoldable pub webhook_ingest : Bool → Bool → Text → Text → Text → Store → Answer × Store
    unfolding is_authorized names_of clean enqueue
    webhook_ingest sqlite enabled secret auth body s =
        if not enabled
        then (not_found, s)
        else if not (is_authorized secret auth)
        then (unauthorized, s)
        else (elim (names_of float_true (loads body) body) [
          | none ↦ (raised, s)
          | some names ↦ (accepted (length (clean names)), enqueue sqlite (clean names) s)
        ])
