-- ===== src/Policy/ConcurrentTests.antt =====
-- Two calls of `reconcile` in flight, for two domains of one bucket, under a cap of one.
use matrix_federation_scanne.Prelude.{◌+◌, ◌<◌, ◌≡◌, refl, true, false, [], ◌∷◌, arith}
use matrix_federation_scanne.Prelude.Text.{Text, codes, contains}
use matrix_federation_scanne.Json.{Fields}
use matrix_federation_scanne.Util.{strip_port, is_ip_literal}
use matrix_federation_scanne.Policy.State.{active_psl, decide, halted}
use matrix_federation_scanne.Policy.Fold.{
  count_bans, is_banned, covering_glob, put_rule, etld1_ban_count, in_bucket, counted_entity,
  entity_of, is_glob, recommends,
}
use matrix_federation_scanne.Psl.Suffix.{etld1}
use matrix_federation_scanne.Policy.Write.{Written, write, attempts, finish, throttled}
use matrix_federation_scanne.Policy.Reconcile.{
  Env, reconcile, wrote, ban_content, cap_refuses, send, reconcile_entity, reconcile_ban, state_key,
}
use matrix_federation_scanne.Policy.Reconcile.Concurrent.{
  System, Steps, begin, commit, start, next, concurrent-bound,
}
use matrix_federation_scanne.Policy.Tests.{
  sample, suffixes, world, target, spam_key, spam_rule, spam_banned, bans_spam, no_ban_yet,
}

abbrev eggs_key : Text
eggs_key = codes "eggs.example.orgm.ban"

abbrev eggs_rule : Fields
eggs_rule = ban_content sample (codes "eggs.example.org")

abbrev eggs_banned : Written
eggs_banned = record spam_banned {
  policy = record sample { last_write = 2250; rules = put_rule eggs_key eggs_rule [] };
}

bans_eggs :
    reconcile world (codes "eggs.example.org") "open" sample ≡ wrote eggs_key eggs_rule eggs_banned
unfolding reconcile halted strip_port decide is_ip_literal is_banned covering_glob cap_refuses send
    write contains reconcile_entity reconcile_ban active_psl etld1_ban_count count_bans attempts
    state_key finish throttled
bans_eggs = refl

-- The second write, after the first.
abbrev later : Env
later = record world { time = 3000 }

abbrev both_banned : Written
both_banned = record {
  policy = record sample {
    last_write = 3750;
    rules = put_rule eggs_key eggs_rule (put_rule spam_key spam_rule []);
  };
  outcome = record { sent = true; raised = false; time = 3750; requests = 3720 ∷ 3000 ∷ [] };
}

abbrev idle : System
idle = record { policy = sample; pending = [] }

abbrev one_pending : System
one_pending = record { policy = sample; pending = (spam_key, spam_rule) ∷ [] }

abbrev two_pending : System
two_pending = record {
  policy = sample;
  pending = (eggs_key, eggs_rule) ∷ (spam_key, spam_rule) ∷ [];
}

abbrev one_written : System
one_written = record { policy = spam_banned.policy; pending = (eggs_key, eggs_rule) ∷ [] }

abbrev two_written : System
two_written = record { policy = both_banned.policy; pending = [] }

race : Steps 2 idle two_written
unfolding write attempts throttled finish
race =
    next idle one_pending two_written
      (begin idle world target "open" spam_key spam_rule spam_banned (omega arith) bans_spam)
      (next one_pending two_pending two_written
        (begin one_pending world (codes "eggs.example.org") "open" eggs_key eggs_rule eggs_banned
          (omega arith) bans_eggs)
        (next two_pending one_written two_written
          (commit two_pending world ((eggs_key, eggs_rule) ∷ []) [] spam_key spam_rule spam_banned
            refl (omega arith) refl)
          (next one_written two_written two_written
            (commit one_written later [] [] eggs_key eggs_rule both_banned refl (omega arith) refl)
            (start two_written))))

-- The two bans stand in one bucket, one more than the cap.
overshoot : count_bans suffixes (codes "m.ban") (codes "example.org") two_written.policy.rules ≡ 2
unfolding count_bans put_rule in_bucket counted_entity entity_of is_glob recommends is_ip_literal
    etld1
overshoot = refl

concurrent-bound_example :
    count_bans suffixes (codes "m.ban") (codes "example.org") two_written.policy.rules < 1 + 2
unfolding active_psl
concurrent-bound_example =
    concurrent-bound 2 1 suffixes idle two_written (omega arith) refl refl refl no_ban_yet race
      (codes "example.org")
