-- ===== src/Policy/Glob/Matches.antt =====
-- What a glob of policy.py covers.
use matrix_federation_scanne.Prelude.{
  ℕ, ◌≡◌, ◌≢◌, refl, inl, inr, ◌↔◌, true, List, [], ◌∷◌, ◌++◌, arith, ==_iff, Bool-cases, all,
  and_true,
}
use matrix_federation_scanne.Prelude.Text.{Text}
use matrix_federation_scanne.Policy.Glob.{
  Item, item_of, any_run, any_one, literal, glob_to_regex, at_end, is_any, regex_match, glob_covers,
}

-- A compiled pattern matches a text.
data Matches : List Item → Text → Type 0 where
  done : Matches [] []
  newline : Matches [] (10 ∷ [])
  same_char : {p : List Item} {s : Text} (c : ℕ) → Matches p s → Matches (literal c ∷ p) (c ∷ s)
  one_char :
      {p : List Item} {s : Text} (c : ℕ)
      → is_any c ≡ true
      → Matches p s
      → Matches (any_one ∷ p) (c ∷ s)
  run :
      {p : List Item} {s : Text} (w : Text)
      → all is_any w ≡ true
      → Matches p s
      → Matches (any_run ∷ p) (w ++ s)

Matches-end : (s : Text) → at_end s ≡ true → Matches [] s
Matches-end [] h = done
Matches-end (c ∷ []) h = let e : c ≡ 10 = (==_iff c 10).0 h in rw e newline
Matches-end (c ∷ d ∷ s) h = cc h

-- A run may begin one character earlier.
longer :
    (p : List Item) (c : ℕ) (s : Text)
    → is_any c ≡ true
    → Matches (any_run ∷ p) s
    → Matches (any_run ∷ p) (c ∷ s)
longer p c s h (run w all_any m) = run (c ∷ w) (ground (arith, h, all_any)) m

regex_match→Matches : (p : List Item) (s : Text) → regex_match p s ≡ true → Matches p s
unfolding regex_match
regex_match→Matches [] s h = Matches-end s h
regex_match→Matches (literal x ∷ p) [] h = cc h
regex_match→Matches (literal x ∷ p) (c ∷ s) h =
    let (e, rest) : (x ≡ c) × (regex_match p s ≡ true) = ground (arith, h) in
    rw e (same_char c (regex_match→Matches p s rest))
regex_match→Matches (any_one ∷ p) [] h = cc h
regex_match→Matches (any_one ∷ p) (c ∷ s) h =
    let (e, rest) : (is_any c ≡ true) × (regex_match p s ≡ true) = ground (arith, h) in
    one_char c e (regex_match→Matches p s rest)
regex_match→Matches (any_run ∷ p) [] h = run [] refl (regex_match→Matches p [] h)
regex_match→Matches (any_run ∷ p) (c ∷ s) h = elim (Bool-cases (regex_match p (c ∷ s))) [
  | inl here ↦ run [] refl (regex_match→Matches p (c ∷ s) here)
  | inr later ↦
      let (e, rest) : (is_any c ≡ true) × (regex_match (any_run ∷ p) s ≡ true) =
        ground (arith, h, later) in
      longer p c s e (regex_match→Matches (any_run ∷ p) s rest)
]

run-regex_match :
    (p : List Item) (w s : Text)
    → all is_any w ≡ true
    → regex_match p s ≡ true
    → regex_match (any_run ∷ p) (w ++ s) ≡ true
unfolding regex_match
run-regex_match p [] [] h m = m
run-regex_match p [] (c ∷ s) h m = ground (arith, m)
run-regex_match p (c ∷ w) s h m = ground (arith, h, run-regex_match p w s)

Matches→regex_match : (p : List Item) (s : Text) → Matches p s → regex_match p s ≡ true
unfolding regex_match
Matches→regex_match [] _ done = refl
Matches→regex_match [] _ newline = refl
Matches→regex_match (literal _ ∷ p) _ (same_char {s = s} c m) =
    ground (arith, Matches→regex_match p s m)
Matches→regex_match (any_one ∷ p) _ (one_char {s = s} c h m) =
    ground (arith, h, Matches→regex_match p s m)
Matches→regex_match (any_run ∷ p) _ (run {s = s} w h m) =
    run-regex_match p w s h (Matches→regex_match p s m)

-- A glob covers a text: a `*` stands for any characters and a `?` for one, neither of them a
-- newline, and every other character for itself; a newline may follow at the end.
pub data Covers : Text → Text → Type 0 where
  ends : Covers [] []
  ends_line : Covers [] (b'\n' ∷ [])
  itself : {p s : Text} (c : ℕ) → c ≢ b'*' → c ≢ b'?' → Covers p s → Covers (c ∷ p) (c ∷ s)
  question : {p s : Text} (c : ℕ) → c ≢ b'\n' → Covers p s → Covers (b'?' ∷ p) (c ∷ s)
  star_empty : {p s : Text} → Covers p s → Covers (b'*' ∷ p) s
  star_longer : {p s : Text} (c : ℕ) → c ≢ b'\n' → Covers (b'*' ∷ p) s → Covers (b'*' ∷ p) (c ∷ s)

is_any_iff : (c : ℕ) → (is_any c ≡ true) ↔ (c ≢ b'\n')
is_any_iff c = ground arith

star_run : (p w s : Text) → all is_any w ≡ true → Covers p s → Covers (b'*' ∷ p) (w ++ s)
star_run p [] s h m = star_empty m
star_run p (c ∷ w) s h m =
    let (first, rest) = and_true (is_any c) (all is_any w) h in
    star_longer c ((is_any_iff c).0 first) (star_run p w s rest m)

item_of-run : (c : ℕ) → item_of c ≡ any_run → c ≡ b'*'
item_of-run c e = ground (arith, e)

item_of-one : (c : ℕ) → item_of c ≡ any_one → c ≡ b'?'
item_of-one c e = ground (arith, e)

item_of-literal : (c x : ℕ) → item_of c ≡ literal x → (x ≡ c) × (c ≢ b'*') × (c ≢ b'?')
item_of-literal c x e = ground (arith, e)

item_of-itself : (c : ℕ) → c ≢ b'*' → c ≢ b'?' → item_of c ≡ literal c
item_of-itself c n q = ground (arith, n, q)

-- One character of the pattern, where the rest of it is treated.
first_item :
    (c : ℕ) (p : Text) (i : Item) (s : Text)
    → item_of c ≡ i
    → ((t : Text) → Matches (glob_to_regex p) t → Covers p t)
    → Matches (i ∷ glob_to_regex p) s
    → Covers (c ∷ p) s
first_item c p any_run _ e rest (run {s = s} w h m) =
    rw (item_of-run c e) (star_run p w s h (rest s m))
first_item c p any_one _ e rest (one_char {s = s} x h m) =
    rw (item_of-one c e) (question x ((is_any_iff x).0 h) (rest s m))
first_item c p (literal _) _ e rest (same_char {s = s} x m) =
    let (same, n, q) = item_of-literal c x e in rw same (itself c n q (rest s m))

Matches→Covers : (p s : Text) → Matches (glob_to_regex p) s → Covers p s
unfolding glob_to_regex
Matches→Covers [] _ done = ends
Matches→Covers [] _ newline = ends_line
Matches→Covers (c ∷ p) s m = first_item c p (item_of c) s refl (Matches→Covers p) m

Covers→Matches : (p s : Text) → Covers p s → Matches (glob_to_regex p) s
unfolding glob_to_regex
Covers→Matches [] _ ends = done
Covers→Matches [] _ ends_line = newline
Covers→Matches (_ ∷ p) _ (itself {s = s} c n q m) =
    rw (item_of-itself c n q) (same_char c (Covers→Matches p s m))
Covers→Matches (_ ∷ p) _ (question {s = s} c n m) =
    one_char c ((is_any_iff c).1 n) (Covers→Matches p s m)
Covers→Matches (_ ∷ p) s (star_empty m) = run [] refl (Covers→Matches p s m)
Covers→Matches (_ ∷ p) _ (star_longer {s = s} c n m) =
    longer (glob_to_regex p) c s ((is_any_iff c).1 n) (Covers→Matches (b'*' ∷ p) s m)

-- The match of `_covering_glob` succeeds exactly where the pattern covers the entity as a glob: a
-- `*` stands for any characters and a `?` for one, neither of them a newline, and every other
-- character for itself; one newline may follow.
pub glob_covers_iff :
    (pattern entity : Text) → (glob_covers pattern entity ≡ true) ↔ Covers pattern entity
unfolding glob_covers
glob_covers_iff pattern entity = (
  λ h. Matches→Covers pattern entity (regex_match→Matches (glob_to_regex pattern) entity h),
  λ c. Matches→regex_match (glob_to_regex pattern) entity (Covers→Matches pattern entity c),
)
