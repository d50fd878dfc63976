-- ===== src/Bot/Ingest/Cleaned.antt =====
-- What `_clean` and `_ingest` of bot.py let in.
use matrix_federation_scanne.Prelude.{
  ◌≡◌, refl, ◌∙◌, Bool, true, false, not, ◌&&◌, ◌||◌, List, [], ◌∷◌, arith, Bool-cases, inl, inr,
  any,
}
use matrix_federation_scanne.Prelude.Text.{Text, contains, same, strip}
use matrix_federation_scanne.Prelude.Text.Same.{same_refl, same→eq, same_comm, contains_nil}
use matrix_federation_scanne.Json.{Json, null, bool, int, float, str, arr, obj}
use matrix_federation_scanne.Store.{Store, is_queued, is_scanned}
use matrix_federation_scanne.Store.Queue.Added.{is_queued-enqueue}
use matrix_federation_scanne.Bot.Launch.Ceiling.{Distinct}
use matrix_federation_scanne.Bot.Ingest.{is_target, clean_from, clean, ingest}

-- An entry of a batch that stands for a target.
abbrev pub names : Text → Json → Bool
names u (str text) = same (strip text) u && is_target u
names u null = false
names u (bool b) = false
names u (int n) = false
names u float = false
names u (arr items) = false
names u (obj fields) = false

target_name : (v u : Text) → (same v u && is_target u) ≡ (same v u && is_target v)
target_name v u = elim (Bool-cases (same v u)) [
  | inr other ↦ rw other refl
  | inl here ↦ let e = same→eq v u here in rw (here, e) refl
]

seen_name :
    (seen : List Text) (v u : Text) → (same v u && contains seen u) ≡ (same v u && contains seen v)
seen_name seen v u = elim (Bool-cases (same v u)) [
  | inr other ↦ rw other refl
  | inl here ↦ let e = same→eq v u here in rw (here, e) refl
]

-- A name of the output is in the input, and an entry of the input is in the output or was seen.
contains-clean_from :
    (u : Text) (seen : List Text) (raw : List Json)
    → (contains (clean_from seen raw) u || contains seen u) ≡ (any (names u) raw || contains seen u)
unfolding clean_from contains
contains-clean_from u seen [] = refl
contains-clean_from u seen (null ∷ rest) = contains-clean_from u seen rest
contains-clean_from u seen (bool b ∷ rest) = contains-clean_from u seen rest
contains-clean_from u seen (int n ∷ rest) = contains-clean_from u seen rest
contains-clean_from u seen (float ∷ rest) = contains-clean_from u seen rest
contains-clean_from u seen (arr items ∷ rest) = contains-clean_from u seen rest
contains-clean_from u seen (obj fields ∷ rest) = contains-clean_from u seen rest
contains-clean_from u seen (str text ∷ rest) = elim (Bool-cases (is_target (strip text))) [
  | inr refused ↦
      rw refused
        (contains-clean_from u seen rest ∙ ground (arith, target_name (strip text) u, refused))
  | inl valid ↦ elim (Bool-cases (contains seen (strip text))) [
    | inl old ↦
        rw (valid, old)
          (contains-clean_from u seen rest
            ∙ ground (arith, target_name (strip text) u, valid, seen_name seen (strip text) u, old))
    | inr new ↦
        rw (valid, new)
          (ground (
            arith,
            contains-clean_from u (strip text ∷ seen) rest,
            target_name (strip text) u,
            valid,
            same_comm (strip text) u,
          ))
  ]
]

contains_head : (t : Text) (seen : List Text) → contains (t ∷ seen) t ≡ true
unfolding contains
contains_head t seen = rw (same_refl t) refl

-- No name that was seen is put out again.
fresh-clean_from :
    (u : Text) (seen : List Text) (raw : List Json)
    → contains seen u ≡ true
    → contains (clean_from seen raw) u ≡ false
unfolding clean_from contains
fresh-clean_from u seen [] old = refl
fresh-clean_from u seen (null ∷ rest) old = fresh-clean_from u seen rest old
fresh-clean_from u seen (bool b ∷ rest) old = fresh-clean_from u seen rest old
fresh-clean_from u seen (int n ∷ rest) old = fresh-clean_from u seen rest old
fresh-clean_from u seen (float ∷ rest) old = fresh-clean_from u seen rest old
fresh-clean_from u seen (arr items ∷ rest) old = fresh-clean_from u seen rest old
fresh-clean_from u seen (obj fields ∷ rest) old = fresh-clean_from u seen rest old
fresh-clean_from u seen (str text ∷ rest) old = elim (Bool-cases (is_target (strip text))) [
  | inr refused ↦ rw refused (fresh-clean_from u seen rest old)
  | inl valid ↦ elim (Bool-cases (contains seen (strip text))) [
    | inl known ↦ rw (valid, known) (fresh-clean_from u seen rest old)
    | inr new ↦
        rw (valid, new)
          (ground (
            arith,
            old,
            new,
            seen_name seen (strip text) u,
            same_comm (strip text) u,
            fresh-clean_from u (strip text ∷ seen) rest,
          ))
  ]
]

clean_from-Distinct : (seen : List Text) (raw : List Json) → Distinct (clean_from seen raw)
unfolding clean_from
clean_from-Distinct seen [] = tt
clean_from-Distinct seen (null ∷ rest) = clean_from-Distinct seen rest
clean_from-Distinct seen (bool b ∷ rest) = clean_from-Distinct seen rest
clean_from-Distinct seen (int n ∷ rest) = clean_from-Distinct seen rest
clean_from-Distinct seen (float ∷ rest) = clean_from-Distinct seen rest
clean_from-Distinct seen (arr items ∷ rest) = clean_from-Distinct seen rest
clean_from-Distinct seen (obj fields ∷ rest) = clean_from-Distinct seen rest
clean_from-Distinct seen (str text ∷ rest) = elim (Bool-cases (is_target (strip text))) [
  | inr refused ↦ rw refused (clean_from-Distinct seen rest)
  | inl valid ↦ elim (Bool-cases (contains seen (strip text))) [
    | inl known ↦ rw (valid, known) (clean_from-Distinct seen rest)
    | inr new ↦
        rw (valid, new)
          (
            fresh-clean_from (strip text) (strip text ∷ seen) rest
                (contains_head (strip text) seen),
            clean_from-Distinct (strip text ∷ seen) rest,
          )
  ]
]

contains-clean : (u : Text) (raw : List Json) → contains (clean raw) u ≡ any (names u) raw
unfolding clean
contains-clean u raw = ground (arith, contains-clean_from u [] raw, contains_nil u)

-- `_clean` puts out no name twice. Behind `_ingest`, a target is queued exactly if it was queued
-- before, or some entry of the batch is a text that is the target once it is stripped, the target
-- is a valid server name, and it has no row in `scanned`.
pub ingest_lem :
    (sqlite : Bool) (raw : List Json) (s : Store) (u : Text)
    → Distinct (clean raw)
      × (is_queued u (ingest sqlite raw s).queue
          ≡ (is_queued u s.queue || (any (names u) raw && not (is_scanned u s.scanned))))
unfolding clean ingest
ingest_lem sqlite raw s u = (
  clean_from-Distinct [] raw,
  is_queued-enqueue sqlite (clean raw) s u ∙ rw (contains-clean u raw) refl,
)
