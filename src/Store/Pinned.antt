-- ===== src/Store/Pinned.antt =====
-- `record_scan` and `statuses_for_domain` of db.py together with `reconcile` of policy.py, which asks
-- the second for the siblings of an entity before it removes a rule.
use matrix_federation_scanne.Prelude.{
  ℕ, ◌≡◌, sym, ap, ◌∙◌, true, some, String, List, [], ◌∷◌, Bool-cases, inl, inr,
}
use matrix_federation_scanne.Prelude.Text.{Text, same}
use matrix_federation_scanne.Prelude.Text.Same.{same_refl}
use matrix_federation_scanne.Json.{Fields}
use matrix_federation_scanne.Util.{strip_port}
use matrix_federation_scanne.Policy.State.{Policy, ban, decide}
use matrix_federation_scanne.Policy.Write.{Written}
use matrix_federation_scanne.Policy.Reconcile.{
  Env, Report, skipped, wrote, out_of_fuel, reconcile, ban_content,
}
use matrix_federation_scanne.Policy.Reconcile.Guards.{
  NoBan, WroteOnly, Reconciled, reconcile-WroteOnly,
}
use matrix_federation_scanne.Store.{ScannedRow, Store}
use matrix_federation_scanne.Store.Record.{
  Scan, find_scanned, or_unknown, record_scan, statuses_for_domain,
}
use matrix_federation_scanne.Store.Record.Outcome.{record_scan-Recorded}
use matrix_federation_scanne.Store.Invariant.{Reaches, recorded}
use matrix_federation_scanne.Store.Invariant.Scans.{find-RowOk}
use matrix_federation_scanne.Store.Invariant.Reached.{Reaches-WellFormed}

-- A row with a status that maps to a ban is among the siblings of its domain.
sibling_ban :
    (p : Policy) (t : Text) (row : ScannedRow) (rows : List ScannedRow)
    → find_scanned t rows ≡ some row
    → decide p row.reg_status ≡ ban
    → NoBan p (statuses_for_domain row.domain rows)
    → ⊥
unfolding find_scanned statuses_for_domain
sibling_ban p t row [] found banned none_banned = cc found
sibling_ban p t row (r ∷ rest) found banned none_banned = elim (Bool-cases (same r.scan_target t)) [
  | inl here ↦
      let e : row ≡ r = cc (rw here at found) in
      (rw (ap (λ (x : ScannedRow). x.domain) e, same_refl r.domain) at none_banned).0
        (rw e at banned)
  | inr other ↦ elim (Bool-cases (same r.domain row.domain)) [
    | inl sibling ↦
        sibling_ban p t row rest (rw other at found) banned (rw sibling at none_banned).1
    | inr apart ↦ sibling_ban p t row rest (rw other at found) banned (rw apart at none_banned)
  ]
]

pub only_map :
    (P Q : Text → Fields → Written → Type 0) (p : Policy) (report : Report)
    → ((key : Text) (content : Fields) (w : Written) → P key content w → Q key content w)
    → WroteOnly P p report
    → WroteOnly Q p report
only_map P Q p (skipped why q) f h = h
only_map P Q p (wrote key content w) f h = f key content w h
only_map P Q p out_of_fuel f h = h

-- Behind a successful scan whose status maps to a ban, the domain has a target with a ban.
pub still_banned :
    (clock : ℕ) (s : Store) (t : Text) (scan : Scan) (domain : Text) (p : Policy)
    → Reaches clock s
    → scan.ok ≡ true
    → decide p (or_unknown scan.status) ≡ ban
    → domain ≡ strip_port t
    → NoBan p (statuses_for_domain domain (record_scan clock t scan s).0.scanned)
    → ⊥
still_banned clock s t scan domain p reached ok banned same_domain none_banned =
    let after = (record_scan clock t scan s).0 in
    let left = record_scan-Recorded clock t scan s in
    let formed = Reaches-WellFormed clock after (recorded clock s t scan reached) in
    let row = find-RowOk clock t left.row after.scanned formed.rows left.found in
    let e : domain ≡ left.row.domain =
      same_domain ∙ sym (ap strip_port row.1) ∙ sym row.0.derived in
    let bans : decide p left.row.reg_status ≡ ban = rw (left.status, ok) banned in
    sibling_ban p t left.row after.scanned left.found bans (rw e at none_banned)

-- On the tables as the methods reach them: behind a successful scan whose status maps to a ban,
-- `reconcile` of any target of the same domain, with any status, writes nothing but a ban. It does
-- not remove the domain's rule.
pub ban_pins_domain :
    (clock : ℕ) (s : Store) (t u : Text) (scan : Scan) (env : Env) (status : String) (p : Policy)
    → Reaches clock s
    → scan.ok ≡ true
    → decide p (or_unknown scan.status) ≡ ban
    → strip_port u ≡ strip_port t
    → env.domain_statuses (strip_port u)
      ≡ statuses_for_domain (strip_port u) (record_scan clock t scan s).0.scanned
    → WroteOnly
        (λ key content w. content ≡ ban_content p (strip_port u))
        p
        (reconcile env u status p)
ban_pins_domain clock s t u scan env status p reached ok banned siblings statuses =
    only_map (Reconciled env u status p) (λ key content w. content ≡ ban_content p (strip_port u)) p
      (reconcile env u status p)
      (λ key content w decided. elim decided.3 [
        | inl (allowed, is_ban) ↦ is_ban
        | inr (allowed, is_removal) ↦ absurd (
            still_banned clock s t scan (strip_port u) p reached ok banned siblings
              (rw statuses at allowed.unpinned))
      ])
      (reconcile-WroteOnly env u status p)
