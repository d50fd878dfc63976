-- ===== src/Bot/Staleness/Entries.antt =====
-- What `_sanitize_staleness` of bot.py keeps of the entries of the configuration.
use matrix_federation_scanne.Prelude.{
  ◌≡◌, ◌⊎◌, ◌↔◌, refl, sym, true, false, Option, none, some, String, str_eq, List, [], ◌∷◌, any,
  Bool-cases, inl, inr,
}
use matrix_federation_scanne.Json.{Json, Fields, end, field, ℤ}
use matrix_federation_scanne.Store.Overdue.{is_positive}
use matrix_federation_scanne.Bot.Staleness.{
  known_statuses, Whole, whole, refused, overflowed, clean_entry, sanitize_staleness,
}

-- The configuration gives a value to a status.
abbrev pub Configured : String → Json → Fields → Type 0
Configured status secs end = ⊥
Configured status secs (field k v rest) = ((k ≡ status) × (v ≡ secs)) ⊎ Configured status secs rest

-- A map gives a period to a status.
abbrev pub Gives : String → ℤ → List (String × ℤ) → Type 0
Gives status n [] = ⊥
Gives status n ((k, t) ∷ rest) = ((k ≡ status) × (t ≡ n)) ⊎ Gives status n rest

abbrev pub Known : String → Type 0
Known status = any (str_eq status) known_statuses ≡ true

module _ (to_int : Json → Whole) where
  -- A known status has an infinity.
  abbrev pub Overflows : Fields → Type 0
  Overflows raw =
      (status : String) × (secs : Json) × Configured status secs raw
      × Known status
      × (to_int secs ≡ overflowed)

  -- A known status has a positive number of seconds.
  abbrev pub Wanted : String → ℤ → Fields → Type 0
  Wanted status n raw =
      (secs : Json) × Configured status secs raw
      × Known status
      × (to_int secs ≡ whole n)
      × (is_positive n ≡ true)

  -- What becomes of one entry.
  data Entry (status : String) (secs : Json) : Type 0 where
    overflows :
        Known status
        → to_int secs ≡ overflowed
        → clean_entry to_int status secs ≡ none
        → Entry status secs
    drops :
        ((n : ℤ) → Known status → to_int secs ≡ whole n → is_positive n ≡ false)
        → (Known status → to_int secs ≡ overflowed → ⊥)
        → clean_entry to_int status secs ≡ some []
        → Entry status secs
    keeps :
        (n : ℤ)
        → Known status
        → to_int secs ≡ whole n
        → is_positive n ≡ true
        → clean_entry to_int status secs ≡ some ((status, n) ∷ [])
        → Entry status secs

  entry : (status : String) (secs : Json) → Entry status secs
  unfolding clean_entry
  entry status secs = elim (Bool-cases (any (str_eq status) known_statuses)) [
    | inr unlisted ↦ drops (λ n k. cc (k, unlisted)) (λ k. cc (k, unlisted)) (rw unlisted refl)
    | inl listed ↦ read (to_int secs) refl listed
  ]
    where
      read : (w : Whole) → to_int secs ≡ w → Known status → Entry status secs
      read overflowed e listed = overflows listed e (rw (listed, e) refl)
      read refused e listed = drops (λ n k f. cc (e, f)) (λ k f. cc (e, f)) (rw (listed, e) refl)
      read (whole n) e listed = elim (Bool-cases (is_positive n)) [
        | inl positive ↦ keeps n listed e positive (rw (listed, e, positive) refl)
        | inr low ↦
            drops (λ m k f. let same : n ≡ m = cc (e, f) in rw same at low) (λ k f. cc (e, f))
              (rw (listed, e, low) refl)
      ]

  Wanted-later :
      (k : String) (v : Json) (rest : Fields) (status : String) (n : ℤ)
      → Wanted status n rest
      → Wanted status n (field k v rest)
  Wanted-later k v rest status n (secs, c, a, b, d) = (secs, inr c, a, b, d)

  Overflows-later :
      (k : String) (v : Json) (rest : Fields) → Overflows rest → Overflows (field k v rest)
  Overflows-later k v rest (status, secs, c, a, b) = (status, secs, inr c, a, b)

  -- The two ways that `_sanitize_staleness` ends: an infinity at a known status raises, and without
  -- one the map gives exactly the periods that are wanted.
  pub data Sanitized (raw : Fields) (result : Option (List (String × ℤ))) : Type 0 where
    escapes : Overflows raw → result ≡ none → Sanitized raw result
    cleaned :
        (m : List (String × ℤ))
        → ¬ Overflows raw
        → result ≡ some m
        → ((status : String) (n : ℤ) → Gives status n m ↔ Wanted status n raw)
        → Sanitized raw result

  module _ (k : String) (v : Json) (rest : Fields) where
    drop_entry :
        ((n : ℤ) → Known k → to_int v ≡ whole n → is_positive n ≡ false)
        → (Known k → to_int v ≡ overflowed → ⊥)
        → clean_entry to_int k v ≡ some []
        → Sanitized rest (sanitize_staleness to_int rest)
        → Sanitized (field k v rest) (sanitize_staleness to_int (field k v rest))
    unfolding sanitize_staleness
    drop_entry low finite e (escapes o r) =
        escapes (Overflows-later k v rest o) (rw (sanitize_staleness, e, r) refl)
    drop_entry low finite e (cleaned m none_here r iff) =
        cleaned m still (rw (sanitize_staleness, e, r) refl)
          (λ status n. (λ g. Wanted-later k v rest status n ((iff status n).0 g), back status n))
      where
        still : ¬ Overflows (field k v rest)
        still (status, secs, inr c, known, f) = none_here (status, secs, c, known, f)
        still (status, secs, inl (a, b), known, f) = finite (rw a known) (cc (b, f))

        back : (status : String) (n : ℤ) → Wanted status n (field k v rest) → Gives status n m
        back status n (secs, inr c, known, f, positive) =
            (iff status n).1 (secs, c, known, f, positive)
        back status n (secs, inl (a, b), known, f, positive) =
            absurd (cc (low n (rw a known) (cc (b, f)), positive))

    keep_entry :
        (t : ℤ)
        → Known k
        → to_int v ≡ whole t
        → is_positive t ≡ true
        → clean_entry to_int k v ≡ some ((k, t) ∷ [])
        → Sanitized rest (sanitize_staleness to_int rest)
        → Sanitized (field k v rest) (sanitize_staleness to_int (field k v rest))
    unfolding sanitize_staleness
    keep_entry t known_here read positive_here e (escapes o r) =
        escapes (Overflows-later k v rest o) (rw (sanitize_staleness, e, r) refl)
    keep_entry t known_here read positive_here e (cleaned m none_here r iff) =
        cleaned ((k, t) ∷ m) still (rw (sanitize_staleness, e, r) refl)
          (λ status n. (forth status n, back status n))
      where
        still : ¬ Overflows (field k v rest)
        still (status, secs, inr c, known, f) = none_here (status, secs, c, known, f)
        still (status, secs, inl (a, b), known, f) = cc (b, f, read)

        forth :
            (status : String) (n : ℤ)
            → Gives status n ((k, t) ∷ m)
            → Wanted status n (field k v rest)
        forth status n (inr g) = Wanted-later k v rest status n ((iff status n).0 g)
        forth status n (inl (a, b)) =
            (v, inl (a, refl), rw (sym a) known_here, cc (read, b), rw (sym b) positive_here)

        back :
            (status : String) (n : ℤ)
            → Wanted status n (field k v rest)
            → Gives status n ((k, t) ∷ m)
        back status n (secs, inr c, known, f, positive) =
            inr ((iff status n).1 (secs, c, known, f, positive))
        back status n (secs, inl (a, b), known, f, positive) =
            let same : t ≡ n = cc (read, b, f) in inl (a, same)

  pub sanitize-Sanitized : (raw : Fields) → Sanitized raw (sanitize_staleness to_int raw)
  unfolding sanitize_staleness
  sanitize-Sanitized end =
      cleaned [] (λ (x : Overflows end). x.2) refl
        (λ status n. (λ h. absurd h, λ (w : Wanted status n end). absurd w.1))
  sanitize-Sanitized (field k v rest) = elim (entry k v) [
    | drops low finite e ↦ drop_entry k v rest low finite e (sanitize-Sanitized rest)
    | keeps t known read positive e ↦
        keep_entry k v rest t known read positive e (sanitize-Sanitized rest)
    | overflows known f e ↦
        escapes (k, v, inl (refl, refl), known, f) (rw (sanitize_staleness, e) refl)
  ]
