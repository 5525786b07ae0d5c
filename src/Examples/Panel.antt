-- ===== src/Examples/Panel.antt =====
-- The guards of the panel on sample requests.
use voxera_os.Base.{
  ℕ, String, true, false, Option, none, some, List, [], ◌∷◌, ◌≡◌, refl, ◌↔◌, ◌==◌, ◌+◌, arith,
  length, if◌then◌else◌,
}
use voxera_os.Base.Text.{lower, strip}
use voxera_os.Base.Assoc.{lookup, drop_bad}
use voxera_os.Panel.AuthStore.{
  Payload, row, ip_key, apply_panel_auth_state_update, apply_panel_auth_state_prune,
  active_lockout_until_ms, auth_of, prune_panel_auth_maps, prune_failures, prune_lockouts,
  stale_lockout, evict_oldest,
}
use voxera_os.Panel.AuthStore.Bounds.{IsBounded, HasUniqueKeys, failures_of, update-IsBounded}
use voxera_os.Panel.AuthStore.Failure.{lockout_after, IsFresh}
use voxera_os.Panel.AuthStore.Lockout.{fail_at, last_of, InWindow, ten_failures_lock}
use voxera_os.Panel.AuthStore.Success.{success_keeps_lockout}
use voxera_os.Panel.Guard.{
  Request, Settings, passed, client_ip, partition, is_ascii, compare_digest, before_comma,
  same_credentials, require_operator_basic_auth, require_mutation_guard,
}
use voxera_os.Panel.Guard.Csrf.{HasToken, mutation_guard_passed}
use voxera_os.Panel.Guard.Laws.{IsAuthorized, pruned, guard_passed_iff}

abbrev no_entries : Payload
no_entries = record { panel_auth = none; updated_at_ms = 0 }

abbrev one_lockout : Payload
one_lockout = record {
  panel_auth = some (record {
    failures_by_ip = none;
    lockouts_by_ip = some (
        (
          "10.0.0.1",
          row (record { until_ts_ms = some 9000; count = some 1; last_event_ts_ms = some 1000 }),
        )
        ∷ []);
  });
  updated_at_ms = 1000;
}

abbrev ten_times : List ℕ
ten_times = 1001 ∷ 1002 ∷ 1003 ∷ 1004 ∷ 1005 ∷ 1006 ∷ 1007 ∷ 1008 ∷ 1009 ∷ []

-- Decodes one token.
abbrev decode_sample : String → Option String
decode_sample t = if t == "dG9rZW4=" then some "admin:pass:word" else none

abbrev sample_settings : Settings
sample_settings = record {
  trust_proxy = " On";
  operator_user = "admin";
  operator_password = "pass:word";
  csrf_enabled = true;
}

abbrev sample_request : Request
sample_request = record {
  authorization = some "BASIC dG9rZW4=";
  forwarded_for = some " 10.0.0.1 , 10.0.0.9";
  client_host = none;
  csrf_cookie = "cookie";
  csrf_header = some "  ";
  form_token = " cookie";
}

proxied_ip : client_ip sample_settings sample_request ≡ "10.0.0.1"
unfolding client_ip before_comma strip lower
proxied_ip = refl

no_entries-HasUniqueKeys : HasUniqueKeys no_entries
no_entries-HasUniqueKeys = record { failures = tt; lockouts = tt }

update-IsBounded_example :
    IsBounded (apply_panel_auth_state_update "10.0.0.1" 5000 false no_entries)
update-IsBounded_example =
    update-IsBounded "10.0.0.1" 5000 false no_entries no_entries-HasUniqueKeys

no_entries-IsFresh : IsFresh (ip_key " 10.0.0.1") no_entries
unfolding lookup
no_entries-IsFresh = record {
  no_failure = refl;
  no_lockout = refl;
  few_failures = ground arith;
  few_lockouts = ground arith;
}

in_window : InWindow 1000 ten_times
in_window = ground arith

ten_failures_lock_example :
    active_lockout_until_ms " 10.0.0.1"
      (last_of 1000 ten_times)
      (auth_of (fail_at " 10.0.0.1" (1000 ∷ ten_times) no_entries))
    ≡ lockout_after (1 + length ten_times) (last_of 1000 ten_times)
ten_failures_lock_example =
    ten_failures_lock " 10.0.0.1" 1000 ten_times no_entries no_entries-IsFresh (ground arith)
      in_window

locked_sample : active_lockout_until_ms "10.0.0.1" 5000 (auth_of one_lockout) ≡ some 9000
unfolding active_lockout_until_ms lookup strip
locked_sample = refl

success_keeps_lockout_example :
    (active_lockout_until_ms "10.0.0.1" 5000
        (auth_of (apply_panel_auth_state_update "10.0.0.1" 5000 true one_lockout))
      ≡ some 9000)
    × (lookup
          (ip_key "10.0.0.1")
          (failures_of (apply_panel_auth_state_update "10.0.0.1" 5000 true one_lockout))
        ≡ none)
success_keeps_lockout_example =
    success_keeps_lockout "10.0.0.1" 5000 9000 one_lockout (ground arith) locked_sample

guard_passed_iff_example :
    (require_operator_basic_auth decode_sample sample_settings 5000 sample_request
        no_entries).answer
      ≡ passed
    ↔ IsAuthorized decode_sample sample_settings 5000 sample_request no_entries
guard_passed_iff_example =
    guard_passed_iff decode_sample sample_settings 5000 sample_request no_entries

sample_passes :
    (require_mutation_guard decode_sample sample_settings 5000 sample_request no_entries).answer
    ≡ passed
unfolding require_mutation_guard require_operator_basic_auth client_ip before_comma strip lower
    partition compare_digest is_ascii apply_panel_auth_state_prune prune_panel_auth_maps
    prune_failures prune_lockouts active_lockout_until_ms evict_oldest lookup drop_bad
    same_credentials
sample_passes = refl

locked_request :
    active_lockout_until_ms
      (client_ip sample_settings sample_request)
      5000
      (auth_of (pruned 5000 one_lockout))
    ≡ some 9000
unfolding client_ip before_comma strip lower apply_panel_auth_state_prune prune_panel_auth_maps
    prune_lockouts stale_lockout evict_oldest active_lockout_until_ms lookup drop_bad
locked_request = refl

mutation_guard_passed_example :
    IsAuthorized decode_sample sample_settings 5000 sample_request no_entries
    × HasToken sample_request
mutation_guard_passed_example =
    mutation_guard_passed decode_sample sample_settings 5000 sample_request no_entries refl
      sample_passes
