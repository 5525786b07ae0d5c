-- ===== src/Panel/Guard.antt =====
-- src/voxera/panel/auth_enforcement.py: the Basic-auth guard of the operator and the CSRF guard of
-- mutations. The guards read and write the auth state, bump counters and log events. `decode_basic`
-- stands for `base64.b64decode(token).decode("utf-8")`, and `form_token` for what
-- `request_value` finds in the query or the body.
pub mod Laws
pub mod Csrf
use Prim.Native.Char.{Char, code}
use voxera_os.Base.{
  ℕ, suc, ◌+◌, String, Bool, true, false, Option, none, some, List, [], ◌∷◌, ◌++◌, ◌&&◌, ◌||◌, not,
  ◌==◌, ltb, nat_eq, contains, if◌then◌else◌,
}
use voxera_os.Base.Text.{◌+s◌, strip, lower, is_empty}
use voxera_os.Panel.AuthStore.{
  PanelAuth, Payload, auth_of, apply_panel_auth_state_prune, apply_panel_auth_state_update,
  active_lockout_until_ms, auth_failure_snapshot,
}

pub record Request : Type 0 where
  pub authorization : Option String
  pub forwarded_for : Option String
  pub client_host : Option String
  pub csrf_cookie : String
  pub csrf_header : Option String
  pub form_token : String

pub record Settings : Type 0 where
  pub trust_proxy : String
  pub operator_user : String
  pub operator_password : String
  pub csrf_enabled : Bool

-- What a guard does besides its answer: a counter with the error it notes, a logged event with its
-- reason and its status code, and the event of a lockout with the address and its attempts.
pub data Note : Type 0 where
  counter : String → Option String → Note
  event : String → String → ℕ → Note
  lockout : String → ℕ → Note

-- The guard passes, raises an `HTTPException`, or raises a `TypeError`.
pub data Answer : Type 0 where
  passed : Answer
  refused : ℕ → String → Answer
  crashed : Answer

pub record Guarded : Type 0 where
  pub answer : Answer
  pub payload : Payload
  pub notes : List Note

-- `text.split(",", 1)[0]`
unfoldable pub before_comma : String → String
before_comma String.[] = ""
before_comma (String.◌∷◌ c s) =
    let rest = before_comma s in if nat_eq (code c) 44 then "" else String.◌∷◌ c rest

-- `text.partition(sep)`, without the separator
unfoldable pub partition : ℕ → String → String × String
partition sep String.[] = ("", "")
partition sep (String.◌∷◌ c s) =
    let (head, tail) = partition sep s in
    if nat_eq (code c) sep then ("", s) else (String.◌∷◌ c head, tail)

unfoldable pub is_ascii : String → Bool
is_ascii String.[] = true
is_ascii (String.◌∷◌ c s) = ltb (code c) 128 && is_ascii s

-- `secrets.compare_digest` of two texts, which raises a `TypeError` outside ASCII
unfoldable pub compare_digest : String → String → Option Bool
unfolding is_ascii
compare_digest s t = if is_ascii s && is_ascii t then some (s == t) else none

abbrev text_or : Option String → String → String
text_or none d = d
text_or (some s) d = s

unfoldable pub client_ip : Settings → Request → String
unfolding before_comma
client_ip settings request =
    let first = strip (before_comma (text_or request.forwarded_for "")) in
    if contains (lower (strip settings.trust_proxy)) ("1" ∷ "true" ∷ "yes" ∷ "on" ∷ [])
      && not (is_empty first)
    then first
    else text_or request.client_host "unknown"

abbrev pub denied : ℕ → String → Payload → List Note → Guarded
denied status detail p notes = record { answer = refused status detail; payload = p; notes = notes }

-- A failed attempt with no lockout: the state is updated, then the counters and the event.
abbrev unauthorized : String → String → List Note → String → ℕ → Payload → Guarded
unauthorized detail reason counters ip now p =
    denied 401 detail (apply_panel_auth_state_update ip now false p) (
      counters
      ++ event
          (if reason == "missing_authorization" then "panel_auth_missing" else "panel_auth_invalid")
          reason 401
        ∷ [])

invalid_counters : String → List Note
invalid_counters e = counter "panel_auth_invalid" (some e) ∷ counter "panel_401_count" none ∷ []

-- The credentials did not match: an attempt that locks the address out is answered by 429.
wrong_credentials : String → ℕ → Payload → Guarded
unfolding invalid_counters
wrong_credentials ip now p =
    let p' = apply_panel_auth_state_update ip now false p in
    let (attempts, until) = auth_failure_snapshot ip (auth_of p') in
    if ltb now until
    then denied 429 "too many authentication attempts" p'
        (counter "panel_429_count" none ∷ lockout ip attempts ∷ [])
    else denied 401 "invalid operator credentials" p' (
        invalid_counters "invalid operator credentials"
        ++ event "panel_auth_invalid" "invalid_credentials" 401 ∷ [])

abbrev accepted : String → ℕ → Payload → Guarded
accepted ip now p = record {
  answer = passed;
  payload = apply_panel_auth_state_update ip now true p;
  notes = [];
}

abbrev crash : Payload → Guarded
crash p = record { answer = crashed; payload = p; notes = [] }

-- `compare_digest(user) and compare_digest(password)`, from the left
unfoldable pub same_credentials : Settings → String → String → Option Bool
unfolding compare_digest
same_credentials settings user password = elim (compare_digest user settings.operator_user) [
  | none ↦ none
  | some false ↦ some false
  | some true ↦ compare_digest password settings.operator_password
]

check_credentials : Settings → String → ℕ → Payload → String → Guarded
unfolding wrong_credentials
check_credentials settings ip now p decoded =
    let (user, password) = partition 58 decoded in
    elim (same_credentials settings user password) [
      | none ↦ crash p
      | some true ↦ accepted ip now p
      | some false ↦ wrong_credentials ip now p
    ]

check_token : (String → Option String) → Settings → String → ℕ → Payload → String → Guarded
unfolding check_credentials invalid_counters
check_token decode_basic settings ip now p authorization =
    let (scheme, token) = partition 32 authorization in
    if not (lower scheme == "basic") || is_empty token
    then unauthorized "invalid authentication scheme" "invalid_scheme"
        (invalid_counters "invalid authentication scheme") ip now p
    else elim (decode_basic token) [
      | none ↦
          unauthorized "invalid authorization header" "invalid_header"
            (invalid_counters "invalid authorization header") ip now p
      | some decoded ↦ check_credentials settings ip now p decoded
    ]

-- After the lockout check; a header that is missing or empty is no authorization.
check_header : (String → Option String) → Settings → String → ℕ → Payload → Option String → Guarded
unfolding check_token
check_header decode_basic settings ip now p authorization =
    let header = text_or authorization "" in
    if is_empty header
    then unauthorized "operator authentication required" "missing_authorization"
        (counter "panel_401_count" (some "missing authorization") ∷ []) ip now p
    else check_token decode_basic settings ip now p header

unfoldable pub require_operator_basic_auth :
    (String → Option String) → Settings → ℕ → Request → Payload → Guarded
unfolding check_header
require_operator_basic_auth decode_basic settings now request p =
    if is_empty settings.operator_password
    then denied 503 "VOXERA_PANEL_OPERATOR_PASSWORD must be set" p (
        counter "panel_401_count" (some "operator password missing")
        ∷ event "panel_operator_config_error" "operator_password_missing" 503
        ∷ [])
    else let ip = client_ip settings request in
      let p' = apply_panel_auth_state_prune now p in
      elim (active_lockout_until_ms ip now (auth_of p')) [
        | some until ↦
            denied 429 "too many authentication attempts" p' (counter "panel_429_count" none ∷ [])
        | none ↦ check_header decode_basic settings ip now p' request.authorization
      ]

-- The header's token if it is not blank, and the form's otherwise.
abbrev request_token : Request → String
request_token request =
    let header = strip (text_or request.csrf_header "") in
    if is_empty header then strip request.form_token else header

abbrev with_notes : Guarded → List Note → Guarded
with_notes g notes = record g { notes = g.notes ++ notes }

abbrev forbidden : Guarded → List Note → Guarded
forbidden g notes = record g {
  answer = refused 403 "csrf validation failed";
  notes = g.notes ++ notes;
}

check_csrf : Settings → Request → Guarded → Guarded
check_csrf settings request g =
    let token = request_token request in
    if not settings.csrf_enabled
    then with_notes g (
        counter "panel_mutation_allowed" none
        ∷ event "panel_mutation_allowed" "auth_valid_csrf_disabled" 200
        ∷ [])
    else if is_empty request.csrf_cookie || is_empty token
    then forbidden g (
        counter "panel_403_count" (some "csrf token missing")
        ∷ counter "panel_csrf_missing" none
        ∷ event "panel_csrf_missing" "csrf_token_missing" 403
        ∷ [])
    else elim (compare_digest request.csrf_cookie token) [
      | none ↦ record g { answer = crashed }
      | some false ↦ forbidden g (
          counter "panel_403_count" (some "csrf token mismatch")
          ∷ counter "panel_csrf_invalid" none
          ∷ event "panel_csrf_invalid" "csrf_token_mismatch" 403
          ∷ [])
      | some true ↦ with_notes g (
          counter "panel_mutation_allowed" none
          ∷ event "panel_mutation_allowed" "auth_and_csrf_valid" 200
          ∷ [])
    ]

-- The CSRF check runs if the auth guard has not raised.
after_auth : Settings → Request → Guarded → Answer → Guarded
unfolding check_csrf
after_auth settings request g passed = check_csrf settings request g
after_auth settings request g (refused status detail) = g
after_auth settings request g crashed = g

unfoldable pub require_mutation_guard :
    (String → Option String) → Settings → ℕ → Request → Payload → Guarded
unfolding after_auth
require_mutation_guard decode_basic settings now request p =
    let g = require_operator_basic_auth decode_basic settings now request p in
    after_auth settings request g g.answer
