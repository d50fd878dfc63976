-- ===== src/Policy/Tests.antt =====
-- The policy layer at a concrete room, configuration and homeserver.
use matrix_federation_scanne.Prelude.{
  ℕ, zero, suc, ◌≡◌, refl, inr, ◌↔◌, true, false, none, some, [], ◌∷◌, arith,
}
use matrix_federation_scanne.Prelude.Text.{Text, codes}
use matrix_federation_scanne.Json.{Fields}
use matrix_federation_scanne.Psl.Rules.{PublicSuffixList}
use matrix_federation_scanne.Policy.State.{
  Policy, ban, unban, initial, halted, running, active_psl, decide,
}
use matrix_federation_scanne.Util.{strip_port, is_ip_literal}
use matrix_federation_scanne.Prelude.Text.{contains}
use matrix_federation_scanne.Policy.Fold.{
  count_bans, is_banned, covering_glob, put_rule, etld1_ban_count,
}
use matrix_federation_scanne.Policy.Fold.{scannable_entities}
use matrix_federation_scanne.Policy.Fold.Scannable.{Fresh, Listed, Among, scannable_entities-Fresh}
use matrix_federation_scanne.Policy.Glob.{glob_covers}
use matrix_federation_scanne.Policy.Glob.Matches.{Covers, glob_covers_iff}
use matrix_federation_scanne.Policy.Write.{
  attempts, finish, throttled, Attempt, accepted, limited, Written, write,
}
use matrix_federation_scanne.Policy.Write.Laws.{WriteSpec, write_total}
use matrix_federation_scanne.Policy.Reconcile.{
  Env, reconcile, consider_stale_cleanup, state_key, ban_content, wrote, policy_after, cap_refuses,
  Skip, skipped, send, reconcile_entity, reconcile_ban,
}
use matrix_federation_scanne.Policy.Reconcile.Guards.{
  WroteOnly, Reconciled, BanAllowed, reconcile-WroteOnly,
}
use matrix_federation_scanne.Policy.Reconcile.Cleanup.{Cleaned, cleanup-WroteOnly}
use matrix_federation_scanne.Policy.Reconcile.Cap.{WithinCap, reconcile-WithinCap}
use matrix_federation_scanne.Policy.Reconcile.Repeat.{reconcile_settles}

abbrev pub suffixes : PublicSuffixList
suffixes = record {
  source = codes "vendored";
  raw_text = [];
  version_raw = some (codes "2024-01-01_00-00-00_UTC");
  version = some 20;
  commit = none;
  normal = codes "org" ∷ [];
  wildcard = [];
  exception = [];
  tlds = codes "org" ∷ [];
}

abbrev pub sample : Policy
sample =
    record (initial (some (codes "1.2.0")) (codes "@scanner:example.org") ("open" ∷ "unknown" ∷ [])
      (some (record { current = some suffixes })) 500) {
        config_halted = false;
        config_halt_reason = running;
        rules_loaded = true;
        recommendation = codes "m.ban";
        decision_map = ("open", ban) ∷ ("closed", unban) ∷ [];
        stale_max_age_seconds = some 3600;
        cleanup_bot_ids = codes "@scanner:example.org" ∷ [];
        max_bans_per_etld1 = some 1;
        last_write = 1000;
      }

-- The homeserver limits the first attempt and accepts the next one.
abbrev server : ℕ → Attempt
server zero = record { reply = limited (codes "retry_after_ms: 700"); took = 20 }
server (suc n) = record { reply = accepted; took = 30 }

abbrev pub world : Env
world = record {
  key_of = λ t. t;
  domain_statuses = λ t. (t, "unknown") ∷ [];
  loads = λ t. none;
  server = server;
  time = 1200;
}

abbrev pub target : Text
target = codes "spam.example.org:8448"

reconcile-WroteOnly_example :
    WroteOnly (Reconciled world target "open" sample) sample (reconcile world target "open" sample)
reconcile-WroteOnly_example = reconcile-WroteOnly world target "open" sample

cleanup-WroteOnly_example :
    WroteOnly
      (λ key content w. Cleaned world 9000 target "unknown" (some 10) sample key content)
      sample
      (consider_stale_cleanup world 9000 target "unknown" (some 10) sample)
cleanup-WroteOnly_example = cleanup-WroteOnly world 9000 target "unknown" (some 10) sample

pub no_ban_yet : WithinCap 1 suffixes (codes "m.ban") []
unfolding count_bans
no_ban_yet t = omega arith

reconcile-WithinCap_example :
    WithinCap 1 suffixes
      (codes "m.ban")
      (policy_after sample (reconcile world target "open" sample)).rules
unfolding active_psl
reconcile-WithinCap_example =
    reconcile-WithinCap 1 suffixes world target "open" sample refl refl (omega arith) no_ban_yet

write_total_example :
    (w : Written) × (write
        (λ t. none)
        server
        1200
        (codes "key")
        (ban_content sample (codes "spam.example.org"))
        sample
      ≡ some w)
    × WriteSpec server (codes "key") (ban_content sample (codes "spam.example.org")) sample w
write_total_example =
    write_total (λ t. none) server 1200 (codes "key")
      (ban_content sample (codes "spam.example.org")) sample (omega arith)

ban_allowed : BanAllowed world (codes "spam.example.org") "open" sample
unfolding decide is_ip_literal is_banned covering_glob cap_refuses active_psl etld1_ban_count
    count_bans
ban_allowed = record {
  decided = refl;
  literals = inr refl;
  absent = refl;
  uncovered = refl;
  below_cap = refl;
}

abbrev pub spam_key : Text
spam_key = codes "spam.example.orgm.ban"

abbrev pub spam_rule : Fields
spam_rule = ban_content sample (codes "spam.example.org")

abbrev pub spam_banned : Written
spam_banned = record {
  policy = record sample { last_write = 2250; rules = put_rule spam_key spam_rule [] };
  outcome = record { sent = true; raised = false; time = 2250; requests = 2220 ∷ 1500 ∷ [] };
}

pub bans_spam : reconcile world target "open" sample ≡ wrote spam_key spam_rule spam_banned
unfolding reconcile halted strip_port decide is_ip_literal is_banned covering_glob cap_refuses send
    write contains reconcile_entity reconcile_ban active_psl etld1_ban_count count_bans attempts
    state_key finish throttled
bans_spam = refl

reconcile_settles_example :
    (why : Skip) × (reconcile world target "open" spam_banned.policy
      ≡ skipped why spam_banned.policy)
reconcile_settles_example =
    reconcile_settles world target "open" sample spam_key spam_rule spam_banned (omega arith)
      bans_spam refl

glob_covers_iff_example :
    (glob_covers (codes "*.example.org") (codes "spam.example.org") ≡ true)
    ↔ Covers (codes "*.example.org") (codes "spam.example.org")
glob_covers_iff_example = glob_covers_iff (codes "*.example.org") (codes "spam.example.org")

abbrev one_rule : Policy
one_rule = record sample { rules = (spam_key, spam_rule) ∷ [] }

scannable_entities-Fresh_example :
    Fresh [] (scannable_entities one_rule)
    × Listed (contains (scannable_entities one_rule)) one_rule.rules
    × Among one_rule.rules (scannable_entities one_rule)
scannable_entities-Fresh_example = scannable_entities-Fresh one_rule
