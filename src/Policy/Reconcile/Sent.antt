-- ===== src/Policy/Reconcile/Sent.antt =====
-- The specification of `_write`, for a write that a report names.
use matrix_federation_scanne.Prelude.{◌≤◌, ◌≡◌, sym, ◌∙◌, some, arith}
use matrix_federation_scanne.Prelude.Text.{Text}
use matrix_federation_scanne.Json.{Fields}
use matrix_federation_scanne.Policy.State.{Policy}
use matrix_federation_scanne.Policy.Write.{Written}
use matrix_federation_scanne.Policy.Write.Laws.{WriteSpec, write_total}
use matrix_federation_scanne.Policy.Reconcile.{Env}
use matrix_federation_scanne.Policy.Reconcile.Guards.{IsWrite}

some_inj : {A : Type 0} (a b : A) → some a ≡ some b → a ≡ b
some_inj a b h = ground arith

pub IsWrite-WriteSpec :
    (env : Env) (p : Policy) (key : Text) (content : Fields) (w : Written)
    → p.last_write ≤ env.time
    → IsWrite env p key content w
    → WriteSpec env.server key content p w
IsWrite-WriteSpec env p key content w clock is_write =
    let (w', eq, spec) = write_total env.loads env.server env.time key content p clock in
    let same_write : w' ≡ w = some_inj w' w (sym eq ∙ is_write) in rw same_write at spec
