-- ===== src/Auth/Sessions.antt =====
-- internal/auth/manager.go: accounts, sessions and cookies. The table of users holds one row at most.
-- SHA-256 in hexadecimal and bcrypt are parameters. A time in a column is a number of whole seconds.
use faro.Prelude.{
  string_eq, nat_eq, ℕ, ◌+◌, ◌-◌, ◌*◌, ◌/◌, Bool, not, ◌&&◌, ◌||◌, List, ◌∷◌, ◌++◌, Option, none,
  some, String, is_some, ltb, leb, if◌then◌else◌, ◌==◌, length,
}
use faro.Prelude.Maps.{lookup, insert, delete, retain}
use faro.Strings.{Bytes, bytes_eq, trim_space, to_lower}
use faro.Auth.Failures.{Throttle, second, minute}

pub record Crypto : Type 0 where
  pub token_hash : Bytes → String
  pub compare_hash_and_password : Bytes → Bytes → Bool
  pub generate_from_password : Bytes → Option Bytes
  pub dummy_hash : Bytes

pub record User : Type 0 where
  pub id : ℕ
  pub username : Bytes
  pub password_hash : Bytes

-- A row of `auth_sessions`, behind its token hash.
pub record Session : Type 0 where
  pub user_id : ℕ
  pub expires_at : ℕ
  pub last_seen_at : ℕ

pub record Manager : Type 0 where
  pub user : Option User
  pub sessions : List (String × Session)
  pub throttle : Throttle
  pub trust_proxy : Bool

pub data Method : Type 0 where
  get post options delete_method other_method : Method

-- What the manager reads of a request: `cookie` is `none` without the cookie, `host` is the peer's
-- host, and `real_ip` the address of the header X-Real-IP if it holds one, as `net.IP` prints it.
pub record Request : Type 0 where
  pub method : Method
  pub path : Bytes
  pub cookie : Option Bytes
  pub host : Bytes
  pub real_ip : Option Bytes

-- What a call meets: the time, whether statements that read and write succeed, and random bytes.
pub record Steps : Type 0 where
  pub now : ℕ
  pub read_ok : Bool
  pub write_ok : Bool
  pub touch_ok : Bool
  pub random_token : Option Bytes

abbrev pub session_lifetime : ℕ
session_lifetime = 604800 * second

unfoldable pub failure_key : Crypto → Manager → Request → Bytes → String
failure_key x m r name =
    let direct = to_lower (trim_space name) ++ b'|' ∷ r.host in
    let forwarded = λ (host : Bytes). to_lower (trim_space name) ++ b'|' ∷ host in
    if m.trust_proxy
    then elim r.real_ip [ none ↦ x.token_hash direct | some ip ↦ x.token_hash (forwarded ip) ]
    else x.token_hash direct

-- The row that the query of `authenticate` finds: of the token, of a user that exists, not expired.
unfoldable pub valid_session : ℕ → Option User → Option Session → Option (User × Session)
valid_session now (some u) (some s) =
    if s.user_id == u.id && ltb (now / second) s.expires_at then some (u, s) else none
valid_session now _ _ = none

abbrev pub touch : ℕ → Session → Session
touch now s = record s { last_seen_at = now / second }

unfoldable pub touch_session : Steps → String → Session → Manager → Manager
touch_session io h s m =
    if leb minute (io.now - s.last_seen_at * second) && io.touch_ok
    then record m { sessions = insert h (touch io.now s) m.sessions }
    else m

unfoldable pub drop_session : Bool → String → Manager → Manager
drop_session write_ok h m = if write_ok then record m { sessions = delete h m.sessions } else m

unfoldable pub after_query :
    Steps → String → Manager → Option (User × Session) → Manager × Option User
unfolding touch_session drop_session
after_query io h m none = (drop_session io.touch_ok h m, none)
after_query io h m (some (u, s)) = (touch_session io h s m, some u)

unfoldable pub authenticate_token : Crypto → Steps → Bytes → Manager → Manager × Option User
unfolding after_query valid_session
authenticate_token x io token m =
    if length token == 0 || not io.read_ok
    then (m, none)
    else after_query io (x.token_hash token) m
        (valid_session io.now m.user (lookup (x.token_hash token) m.sessions))

unfoldable pub authenticate_cookie : Crypto → Steps → Option Bytes → Manager → Manager × Option User
unfolding authenticate_token
authenticate_cookie x io none m = (m, none)
authenticate_cookie x io (some token) m = authenticate_token x io token m

unfoldable pub authenticate : Crypto → Steps → Request → Manager → Manager × Option User
unfolding authenticate_cookie
authenticate x io r m = authenticate_cookie x io r.cookie m

unfoldable pub remove_expired : ℕ → Manager → Manager
remove_expired now m = record m {
  sessions = retain (λ s. ltb (now / second) s.expires_at) m.sessions;
}

-- The new session's token, `none` on an error: a failure of the random source, of the statement, or
-- a token hash that is in the table.
unfoldable pub create_session : Crypto → Steps → ℕ → Manager → Manager × Option Bytes
unfolding remove_expired
create_session x io user_id m = elim io.random_token [
  | none ↦ (m, none)
  | some token ↦
      let p = if io.touch_ok then remove_expired io.now m else m in
      if not io.write_ok || is_some (lookup (x.token_hash token) p.sessions) then (p, none) else (
        record p {
          sessions =
              insert (x.token_hash token)
                (record {
                  user_id = user_id;
                  expires_at = (io.now + session_lifetime) / second;
                  last_seen_at = io.now / second;
                })
                p.sessions;
        },
        some token,
      )
]
