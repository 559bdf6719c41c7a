-- ===== src/Auth/Handlers.antt =====
-- internal/auth/manager.go: the handlers. A status is an HTTP status code; the calls of a handler
-- follow one another as one step.
use faro.Prelude.{
  string_eq, nat_eq, ℕ, Bool, true, false, not, ◌&&◌, ◌||◌, List, [], ◌∷◌, Option, none, some,
  String, is_some, leb, if◌then◌else◌, ◌==◌, length,
}
use faro.Strings.{Bytes, bytes_eq, codes, trim_space, to_lower, has_prefix}
use faro.Auth.Failures.{Throttle, blocked, record_failure, clear_failures}
use faro.Auth.Sessions.{
  Crypto, User, Session, Manager, Method, post, options, delete_method, Request, Steps, failure_key,
  authenticate, create_session, drop_session,
}

pub record Credentials : Type 0 where
  pub username : Bytes
  pub password : Bytes

-- The status, the session cookie that is set, and the Retry-After.
pub record Reply : Type 0 where
  pub status : ℕ
  pub cookie : Option Bytes
  pub retry_after : Option ℕ

abbrev pub plain : ℕ → Reply
plain status = record { status = status; cookie = none; retry_after = none }

abbrev pub is_post : Method → Bool
is_post post = true
is_post _ = false

-- `usernamePattern`.
unfoldable pub is_name_byte : ℕ → Bool
is_name_byte c =
    (leb b'A' c && leb c b'Z')
    || (leb b'a' c && leb c b'z')
    || (leb b'0' c && leb c b'9')
    || c == b'.'
    || c == b'_'
    || c == b'-'

unfoldable pub all_name_bytes : Bytes → Bool
unfolding is_name_byte
all_name_bytes [] = true
all_name_bytes (c ∷ s) = is_name_byte c && all_name_bytes s

unfoldable pub validate_password : Bytes → Bool
validate_password s = leb 8 (length s) && leb (length s) 72

unfoldable pub validate_credentials : Credentials → Bool
unfolding all_name_bytes validate_password
validate_credentials c =
    let name = trim_space c.username in
    leb 3 (length name)
    && leb (length name) 64
    && all_name_bytes name
    && validate_password c.password

-- The end of `Setup` and of `Login`: a session or status 500.
unfoldable pub with_session : ℕ → Manager × Option Bytes → Manager × Reply
with_session status (m, none) = (m, plain 500)
with_session status (m, some token) =
    (m, record { status = status; cookie = some token; retry_after = none })

unfoldable pub store_user :
    Crypto → Steps → ℕ → Credentials → Manager → Option Bytes → Manager × Reply
unfolding create_session with_session
store_user x io new_id c m none = (m, plain 500)
store_user x io new_id c m (some hash) =
    if is_some m.user || not io.write_ok
    then (m, plain 409)
    else with_session 201 (
        create_session x io new_id (record m {
          user =
              some (record { id = new_id; username = trim_space c.username; password_hash = hash });
        }))

-- `Setup`; `is_replica` is `none` where the role cannot be read, and `input` where the body is not
-- JSON.
unfoldable pub setup :
    Crypto → Steps → Option Bool → ℕ → Request → Option Credentials → Manager → Manager × Reply
unfolding validate_credentials store_user
setup x io is_replica new_id r input m =
    if not (is_post r.method) then (m, plain 405) else elim is_replica [
      | none ↦ (m, plain 500)
      | some true ↦ (m, plain 409)
      | some false ↦
          if not io.read_ok
          then (m, plain 500)
          else if is_some m.user
          then (m, plain 409)
          else elim input [
            | none ↦ (m, plain 400)
            | some c ↦
                if not (validate_credentials c)
                then (m, plain 400)
                else store_user x io new_id c m (x.generate_from_password c.password)
          ]
    ]

-- The account of a name, without regard to letter case.
unfoldable pub find_user : Bool → Bytes → Option User → Option User
find_user read_ok name none = none
find_user read_ok name (some u) =
    if read_ok && to_lower (trim_space name) == to_lower u.username then some u else none

unfoldable pub hash_to_check : Crypto → Option User → Bytes
hash_to_check x none = x.dummy_hash
hash_to_check x (some u) = u.password_hash

unfoldable pub check_login :
    Crypto → Steps → String → Credentials → Manager → Option User → Manager × Reply
unfolding hash_to_check create_session with_session
check_login x io key c m found =
    let matches = x.compare_hash_and_password (hash_to_check x found) c.password in
    elim found [
      | none ↦ (record m { throttle = record_failure io.now key m.throttle }, plain 401)
      | some u ↦
          if not matches
          then (record m { throttle = record_failure io.now key m.throttle }, plain 401)
          else with_session 200
              (create_session x io u.id (record m { throttle = clear_failures key m.throttle }))
    ]

unfoldable pub after_block :
    Crypto → Steps → String → Credentials → Manager → Throttle × Option ℕ → Manager × Reply
unfolding find_user check_login
after_block x io key c m (t, some retry) =
    (record m { throttle = t }, record { status = 429; cookie = none; retry_after = some retry })
after_block x io key c m (t, none) =
    check_login x io key c (record m { throttle = t }) (find_user io.read_ok c.username m.user)

unfoldable pub login : Crypto → Steps → Request → Option Credentials → Manager → Manager × Reply
unfolding failure_key after_block
login x io r input m = if not (is_post r.method) then (m, plain 405) else elim input [
  | none ↦ (m, plain 400)
  | some c ↦
      after_block x io (failure_key x m r c.username) c m
        (blocked io.now (failure_key x m r c.username) m.throttle)
]

unfoldable pub logout_token : Crypto → Steps → Option Bytes → Manager → Manager
unfolding drop_session
logout_token x io none m = m
logout_token x io (some token) m =
    if length token == 0 then m else drop_session io.write_ok (x.token_hash token) m

unfoldable pub logout : Crypto → Steps → Request → Manager → Manager × Reply
unfolding logout_token
logout x io r m = if not (is_post r.method) then (m, plain 405) else (
  logout_token x io r.cookie m,
  record { status = 200; cookie = some []; retry_after = none },
)

pub record PasswordChange : Type 0 where
  pub current_password : Bytes
  pub new_password : Bytes

-- `DELETE FROM auth_sessions WHERE user_id = ? AND token_hash <> ?`.
unfoldable pub keep_session : ℕ → String → List (String × Session) → List (String × Session)
keep_session user_id h [] = []
keep_session user_id h ((j, s) ∷ l) =
    if s.user_id == user_id && not (j == h)
    then keep_session user_id h l
    else (j, s) ∷ keep_session user_id h l

-- The transaction of `ChangePassword`.
unfoldable pub store_password :
    Crypto → Steps → String → User → Option Bytes → Manager → Option Bytes → Manager × Reply
unfolding keep_session
store_password x io key u cookie m none = (m, plain 500)
store_password x io key u none m (some hash) = (m, plain 401)
store_password x io key u (some token) m (some hash) =
    if length token == 0 then (m, plain 401) else if not io.write_ok then (m, plain 500) else (
      record m {
        user = some (record u { password_hash = hash });
        sessions = keep_session u.id (x.token_hash token) m.sessions;
        throttle = clear_failures key m.throttle;
      },
      plain 200,
    )

unfoldable pub check_current :
    Crypto
    → Steps
    → String
    → Option Bytes
    → User
    → PasswordChange
    → Throttle × Option ℕ
    → Manager
    → Manager × Reply
unfolding store_password
check_current x io key cookie u c (t, some retry) m =
    (record m { throttle = t }, record { status = 429; cookie = none; retry_after = some retry })
check_current x io key cookie u c (t, none) m =
    if not (x.compare_hash_and_password u.password_hash c.current_password)
    then (record m { throttle = record_failure io.now key t }, plain 403)
    else store_password x io key u cookie (record m { throttle = t })
        (x.generate_from_password c.new_password)

unfoldable pub change_checked :
    Crypto → Steps → Request → Option PasswordChange → Manager × Option User → Manager × Reply
unfolding validate_password failure_key check_current
change_checked x io r input (m, none) = (m, plain 401)
change_checked x io r none (m, some u) = (m, plain 400)
change_checked x io r (some c) (m, some u) =
    if not (validate_password c.new_password)
    then (m, plain 400)
    else if c.current_password == c.new_password
    then (m, plain 400)
    else check_current x io (failure_key x m r u.username) r.cookie u c
        (blocked io.now (failure_key x m r u.username) m.throttle) m

unfoldable pub change_password :
    Crypto → Steps → Request → Option PasswordChange → Manager → Manager × Reply
unfolding authenticate change_checked
change_password x io r input m =
    if not (is_post r.method)
    then (m, plain 405)
    else change_checked x io r input (authenticate x io r m)

-- The paths that `Require` lets through.
unfoldable pub is_public : Request → Bool
unfolding has_prefix
is_public r =
    elim r.method [ options ↦ true | _ ↦ false ]
    || r.path == codes "/healthz"
    || r.path == codes "/metrics"
    || r.path == codes "/api/version"
    || r.path == codes "/api/version/check"
    || r.path == codes "/api/upgrade"
    || has_prefix (codes "/api/auth/") r.path
    || r.path == codes "/api/redundancy/public"
    || r.path == codes "/api/redundancy/join"
    || r.path == codes "/api/redundancy/pair"
    || r.path == codes "/api/redundancy/replica/snapshot"
    || r.path == codes "/api/redundancy/replica/ack"

abbrev pub is_leave : Request → Bool
is_leave r = elim r.method [ delete_method ↦ r.path == codes "/api/redundancy" | _ ↦ false ]

-- What `Require` does: serve the request, for a user or for nobody, or answer with a status.
pub data Access : Type 0 where
  serve : Option User → Access
  deny : ℕ → Access

abbrev pub as_access : Option User → Access
as_access none = deny 401
as_access (some u) = serve (some u)

unfoldable pub require : Crypto → Steps → Request → Manager → Manager × Access
unfolding is_public authenticate
require x io r m =
    let (n, found) = authenticate x io r m in
    if is_public r
    then (m, serve none)
    else if is_leave r && not io.read_ok
    then (m, deny 500)
    else if is_leave r && not (is_some m.user)
    then (m, serve none)
    else (n, as_access found)
