-- ===== src/Panel/Guard/Laws.antt =====
-- What a request that passes the guards has shown
-- (src/voxera/panel/auth_enforcement.py).
use voxera_os.Base.{
  ℕ, String, true, false, Option, none, some, [], ◌≡◌, refl, ◌≢◌, ◌↔◌, ap, arith, eq_iff, eq_refl,
  Option-cases, inl, inr,
}
use voxera_os.Base.Text.{lower, is_empty}
use voxera_os.Panel.AuthStore.{
  Payload, auth_of, apply_panel_auth_state_prune, apply_panel_auth_state_update,
  active_lockout_until_ms,
}
use voxera_os.Panel.Guard.{
  Request, Settings, passed, Guarded, client_ip, partition, is_ascii, compare_digest,
  same_credentials, check_credentials, wrong_credentials, check_token, check_header,
  require_operator_basic_auth, text_or,
}

-- The state that the guard's lockout test reads.
abbrev pub pruned : ℕ → Payload → Payload
pruned now p = apply_panel_auth_state_prune now p

-- The header's scheme and token, and the decoded user and password.
abbrev pub header_of : Request → String × String
header_of request = partition 32 (text_or request.authorization "")

-- Some decoded text carries the operator's credentials.
pub record IsOperator (settings : Settings) (decoded : Option String) : Type 0 where
  pub text : String
  pub decodes : decoded ≡ some text
  pub user : (partition 58 text).0 ≡ settings.operator_user
  pub password : (partition 58 text).1 ≡ settings.operator_password
  pub ascii_user : is_ascii settings.operator_user ≡ true
  pub ascii_password : is_ascii settings.operator_password ≡ true

pub record IsAuthorized (decode_basic : String → Option String) (settings : Settings) (now : ℕ)
    (request : Request) (p : Payload) : Type 0 where
  pub configured : is_empty settings.operator_password ≡ false
  pub unlocked :
      active_lockout_until_ms (client_ip settings request) now (auth_of (pruned now p)) ≡ none
  pub present : is_empty (text_or request.authorization "") ≡ false
  pub scheme : lower (header_of request).0 ≡ "basic"
  pub token : is_empty (header_of request).1 ≡ false
  pub operator : IsOperator settings (decode_basic (header_of request).1)

compare_digest-agrees :
    (s t : String) → compare_digest s t ≡ some true → (s ≡ t) × (is_ascii t ≡ true)
unfolding compare_digest
compare_digest-agrees s t h = ground (arith, eq_iff s t)

compare_digest_refl : (s : String) → is_ascii s ≡ true → compare_digest s s ≡ some true
unfolding compare_digest
compare_digest_refl s h = ground (arith, eq_refl s)

check_credentials-passed :
    (settings : Settings) (ip : String) (now : ℕ) (p : Payload) (decoded : String)
    → (check_credentials settings ip now p decoded).answer ≡ passed
    → same_credentials settings (partition 58 decoded).0 (partition 58 decoded).1 ≡ some true
unfolding check_credentials wrong_credentials
check_credentials-passed settings ip now p decoded h = ground arith

same_credentials-agrees :
    (settings : Settings) (user password : String)
    → same_credentials settings user password ≡ some true
    → (user ≡ settings.operator_user)
      × (is_ascii settings.operator_user ≡ true)
      × (password ≡ settings.operator_password)
      × (is_ascii settings.operator_password ≡ true)
unfolding same_credentials
same_credentials-agrees settings user password h = ground (
  arith,
  compare_digest-agrees user settings.operator_user,
  compare_digest-agrees password settings.operator_password,
)

IsOperator-decoded :
    (settings : Settings) (decoded : Option String) (text : String)
    → decoded ≡ some text
    → same_credentials settings (partition 58 text).0 (partition 58 text).1 ≡ some true
    → IsOperator settings decoded
IsOperator-decoded settings decoded text e h =
    let (user, ascii_user, password, ascii_password) =
      same_credentials-agrees settings (partition 58 text).0 (partition 58 text).1 h in
    record {
      text = text;
      decodes = e;
      user = user;
      password = password;
      ascii_user = ascii_user;
      ascii_password = ascii_password;
    }

check_token-undecoded :
    (decode_basic : String → Option String) (settings : Settings) (ip : String) (now : ℕ)
    (p : Payload) (header : String)
    → decode_basic (partition 32 header).1 ≡ none
    → (check_token decode_basic settings ip now p header).answer ≢ passed
unfolding check_token
check_token-undecoded decode_basic settings ip now p header e h = ground arith

check_token-decoded :
    (decode_basic : String → Option String) (settings : Settings) (ip : String) (now : ℕ)
    (p : Payload) (header text : String)
    → decode_basic (partition 32 header).1 ≡ some text
    → (check_token decode_basic settings ip now p header).answer ≡ passed
    → (lower (partition 32 header).0 ≡ "basic")
      × (is_empty (partition 32 header).1 ≡ false)
      × ((check_credentials settings ip now p text).answer ≡ passed)
unfolding check_token
check_token-decoded decode_basic settings ip now p header text e h =
    ground (arith, eq_iff (lower (partition 32 header).0) "basic")

check_token-passed :
    (decode_basic : String → Option String) (settings : Settings) (ip : String) (now : ℕ)
    (p : Payload) (header : String)
    → (check_token decode_basic settings ip now p header).answer ≡ passed
    → (lower (partition 32 header).0 ≡ "basic")
      × (is_empty (partition 32 header).1 ≡ false)
      × IsOperator settings (decode_basic (partition 32 header).1)
unfolding check_token
check_token-passed decode_basic settings ip now p header h =
    elim (Option-cases (decode_basic (partition 32 header).1)) [
      | inl e ↦ absurd (check_token-undecoded decode_basic settings ip now p header e h)
      | inr (text, e) ↦
          let (scheme, token, answer) =
            check_token-decoded decode_basic settings ip now p header text e h in
          (
            scheme,
            token,
            IsOperator-decoded settings (decode_basic (partition 32 header).1) text e
                (check_credentials-passed settings ip now p text answer),
          )
    ]

guard_steps :
    (decode_basic : String → Option String) (settings : Settings) (now : ℕ) (request : Request)
    (p : Payload)
    → (require_operator_basic_auth decode_basic settings now request p).answer ≡ passed
    → (is_empty settings.operator_password ≡ false)
      × (active_lockout_until_ms (client_ip settings request) now (auth_of (pruned now p)) ≡ none)
      × (is_empty (text_or request.authorization "") ≡ false)
      × ((check_token decode_basic settings
            (client_ip settings request)
            now
            (pruned now p)
            (text_or request.authorization "")).answer
          ≡ passed)
unfolding require_operator_basic_auth check_header
guard_steps decode_basic settings now request p h = ground arith

pub after_pass :
    (decode_basic : String → Option String) (settings : Settings) (now : ℕ) (request : Request)
    (p : Payload)
    → (require_operator_basic_auth decode_basic settings now request p).answer ≡ passed
    → IsAuthorized decode_basic settings now request p
after_pass decode_basic settings now request p h =
    let (configured, unlocked, present, answer) =
      guard_steps decode_basic settings now request p h in
    let (scheme, token, operator) =
      check_token-passed decode_basic settings (client_ip settings request) now (pruned now p)
        (text_or request.authorization "") answer in
    record {
      configured = configured;
      unlocked = unlocked;
      present = present;
      scheme = scheme;
      token = token;
      operator = operator;
    }

same_credentials-operator :
    (settings : Settings) (decoded : Option String) (h : IsOperator settings decoded)
    → same_credentials settings (partition 58 h.text).0 (partition 58 h.text).1 ≡ some true
unfolding same_credentials
same_credentials-operator settings decoded h =
    rw
      (
        h.user,
        same_credentials,
        compare_digest_refl settings.operator_user h.ascii_user,
        h.password,
        compare_digest_refl settings.operator_password h.ascii_password,
      )
      refl

accept : String → ℕ → Payload → Guarded
accept ip now p = record {
  answer = passed;
  payload = apply_panel_auth_state_update ip now true p;
  notes = [];
}

check_token-operator :
    (decode_basic : String → Option String) (settings : Settings) (ip : String) (now : ℕ)
    (p : Payload) (header : String)
    → lower (partition 32 header).0 ≡ "basic"
    → is_empty (partition 32 header).1 ≡ false
    → IsOperator settings (decode_basic (partition 32 header).1)
    → check_token decode_basic settings ip now p header ≡ accept ip now p
unfolding check_token check_credentials accept
check_token-operator decode_basic settings ip now p header scheme token h =
    rw
      (
        scheme,
        token,
        h.decodes,
        check_credentials,
        same_credentials-operator settings (decode_basic (partition 32 header).1) h,
      )
      refl

before_pass :
    (decode_basic : String → Option String) (settings : Settings) (now : ℕ) (request : Request)
    (p : Payload)
    → IsAuthorized decode_basic settings now request p
    → require_operator_basic_auth decode_basic settings now request p
      ≡ accept (client_ip settings request) now (pruned now p)
unfolding require_operator_basic_auth check_header
before_pass decode_basic settings now request p h =
    rw
      (
        h.configured,
        h.unlocked,
        h.present,
        check_token-operator decode_basic settings (client_ip settings request) now (pruned now p)
            (text_or request.authorization "") h.scheme h.token h.operator,
      )
      refl

-- The operator guard passes exactly if a password is configured, the address is not locked out once
-- old entries are pruned, and the header's scheme is Basic with a token that decodes to the
-- operator's user and password, both within ASCII.
pub guard_passed_iff :
    (decode_basic : String → Option String) (settings : Settings) (now : ℕ) (request : Request)
    (p : Payload)
    → (require_operator_basic_auth decode_basic settings now request p).answer ≡ passed
      ↔ IsAuthorized decode_basic settings now request p
unfolding accept
guard_passed_iff decode_basic settings now request p = (
  after_pass decode_basic settings now request p,
  λ h. ap (λ (g : Guarded). g.answer) (before_pass decode_basic settings now request p h),
)
