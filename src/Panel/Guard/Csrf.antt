-- ===== src/Panel/Guard/Csrf.antt =====
-- What a mutation that passes its guard has shown
-- (src/voxera/panel/auth_enforcement.py).
use voxera_os.Base.{ℕ, String, true, false, Option, ◌≡◌, refl, arith, eq_iff}
use voxera_os.Base.Text.{is_empty}
use voxera_os.Panel.AuthStore.{Payload}
use voxera_os.Panel.Guard.{
  Request, Settings, Answer, passed, refused, crashed, Guarded, compare_digest,
  require_operator_basic_auth, require_mutation_guard, after_auth, check_csrf, request_token,
}
use voxera_os.Panel.Guard.Laws.{IsAuthorized, after_pass}

-- Both tokens are there and equal.
pub record HasToken (request : Request) : Type 0 where
  pub cookie : is_empty request.csrf_cookie ≡ false
  pub token : is_empty (request_token request) ≡ false
  pub same : request.csrf_cookie ≡ request_token request

check_csrf-passed :
    (settings : Settings) (request : Request) (g : Guarded)
    → settings.csrf_enabled ≡ true
    → (check_csrf settings request g).answer ≡ passed
    → HasToken request
unfolding check_csrf compare_digest
check_csrf-passed settings request g on h = record {
  cookie = ground arith;
  token = ground arith;
  same = ground (arith, eq_iff request.csrf_cookie (request_token request));
}

after_auth-passed :
    (settings : Settings) (request : Request) (g : Guarded) (a : Answer)
    → settings.csrf_enabled ≡ true
    → g.answer ≡ a
    → (after_auth settings request g a).answer ≡ passed
    → (g.answer ≡ passed) × HasToken request
unfolding after_auth
after_auth-passed settings request g passed on e h = (e, check_csrf-passed settings request g on h)
after_auth-passed settings request g (refused status detail) on e h = ground arith
after_auth-passed settings request g crashed on e h = ground arith

-- With the CSRF check enabled, as it is by default, a mutation that passes its guard came with the
-- operator's credentials and with a cookie and a request token that are not empty and are equal.
pub mutation_guard_passed :
    (decode_basic : String → Option String) (settings : Settings) (now : ℕ) (request : Request)
    (p : Payload)
    → settings.csrf_enabled ≡ true
    → (require_mutation_guard decode_basic settings now request p).answer ≡ passed
    → IsAuthorized decode_basic settings now request p × HasToken request
unfolding require_mutation_guard
mutation_guard_passed decode_basic settings now request p on h =
    let g = require_operator_basic_auth decode_basic settings now request p in
    let (authorized, token) = after_auth-passed settings request g g.answer on refl h in
    (after_pass decode_basic settings now request p authorized, token)
