-- ===== src/Automation/Trigger/Laws.antt =====
-- What a validated trigger guarantees to the runner
-- (src/voxera/automation/models.py and runner.py).
use voxera_os.Base.{
  ℕ, Bool, true, false, Option, none, some, ◌≡◌, refl, String, List, [], ◌∷◌, arith, inl, inr,
  Option-cases, eq_refl,
}
use voxera_os.Base.Int.{pos}
use voxera_os.Py.{Value, int, Fields, end, field}
use voxera_os.Py.Dict.{get, find}
use voxera_os.Automation.{value, AutomationDefinition, is_supported}
use voxera_os.Automation.Trigger.{
  positive, reject_unknown_keys, positive_config, validate_trigger_config, compute_due_anchor_ms,
}

abbrev is_some : Option ℕ → Bool
is_some none = false
is_some (some n) = true

positive-found : (v : Value) (n : ℕ) → positive v ≡ some n → positive (int (pos n)) ≡ some n
positive-found v n h = ground arith

positive_single :
    (key : String) (n : ℕ)
    → positive (int (pos n)) ≡ some n
    → is_some (positive (get key (field key (int (pos n)) end))) ≡ true
unfolding get find
positive_single key n h = rw (positive, eq_refl key) (rw h refl)

positive_config-anchor :
    (key message : String) (config c : Fields) (o : Option ℕ)
    → positive (get key config) ≡ o
    → positive_config key message config ≡ value c
    → is_some (positive (get key c)) ≡ true
unfolding positive_config
positive_config-anchor key message config c none e h = ground arith
positive_config-anchor key message config c (some n) e h =
    ground (arith, positive_single key n (positive-found (get key config) n e))

-- The checked entry of a validated trigger is there and positive.
checked_anchor :
    (kind : String) (keys : List String) (key message : String) (config c : Fields)
    → reject_unknown_keys kind keys config (positive_config key message config) ≡ value c
    → is_some (positive (get key c)) ≡ true
unfolding reject_unknown_keys
checked_anchor kind keys key message config c h =
    positive_config-anchor key message config c (positive (get key config)) refl (ground arith)

-- Every definition of a kind that the runner supports, with a trigger that the model validated, has
-- a time at which it is due.
pub validated_has_anchor :
    (d : AutomationDefinition) (config : Fields)
    → is_supported d.trigger_kind ≡ true
    → validate_trigger_config d.trigger_kind config ≡ value d.trigger_config
    → (n : ℕ) × (compute_due_anchor_ms d ≡ some n)
unfolding compute_due_anchor_ms validate_trigger_config
validated_has_anchor d config supported h = elim (Option-cases (compute_due_anchor_ms d)) [
  | inr found ↦ found
  | inl missing ↦ absurd (
      ground (
        arith,
        checked_anchor "once_at" ("run_at_ms" ∷ []) "run_at_ms"
            "trigger_config.run_at_ms must be a positive int epoch-ms" config d.trigger_config,
        checked_anchor "delay" ("delay_ms" ∷ []) "delay_ms"
            "trigger_config.delay_ms must be a positive int millisecond value" config
            d.trigger_config,
        checked_anchor "recurring_interval" ("interval_ms" ∷ []) "interval_ms"
            "trigger_config.interval_ms must be a positive int millisecond value" config
            d.trigger_config,
      ))
]
