-- ===== src/Auth/Access.antt =====
-- internal/auth/manager.go: who gets a session, and who is served.
use faro.Prelude.{
  string_eq, str_iff, nat_eq, ℕ, ◌+◌, ◌/◌, ◌<◌, ◌≡◌, refl, ap, Bool, true, Option, none, some,
  String, arith, inl, inr, Option-cases,
}
use faro.Prelude.Maps.{lookup}
use faro.Strings.{Bytes, bytes_eq, bytes_iff, trim_space, to_lower}
use faro.Auth.Failures.{second, blocked, clear_failures}
use faro.Auth.Sessions.{
  Crypto, User, Session, Manager, Request, Steps, session_lifetime, failure_key, valid_session,
  after_query, authenticate_token, authenticate_cookie, authenticate, create_session,
  remove_expired,
}
use faro.Auth.Handlers.{
  Credentials, Reply, with_session, find_user, hash_to_check, check_login, after_block, login,
}

-- A request whose cookie is the token of a session of the user that has not expired.
pub record IsAuthentic (x : Crypto) (now : ℕ) (r : Request) (m : Manager) (u : User) : Type 0 where
  pub token : Bytes
  pub session : Session
  pub has_cookie : r.cookie ≡ some token
  pub is_user : m.user ≡ some u
  pub has_session : lookup (x.token_hash token) m.sessions ≡ some session
  pub same_user : session.user_id ≡ u.id
  pub is_live : now / second < session.expires_at

valid_session-some :
    (now : ℕ) (o : Option User) (s : Option Session) (u : User) (t : Session)
    → valid_session now o s ≡ some (u, t)
    → (o ≡ some u) × (s ≡ some t) × (t.user_id ≡ u.id) × (now / second < t.expires_at)
unfolding valid_session
valid_session-some now none s u t h = absurd (ground arith)
valid_session-some now (some v) none u t h = absurd (ground arith)
valid_session-some now (some v) (some w) u t h =
    (ground arith, ground arith, ground arith, ground arith)

authenticate_token-some :
    (x : Crypto) (io : Steps) (token : Bytes) (m n : Manager) (u : User)
    → authenticate_token x io token m ≡ (n, some u)
    → (s : Session) × (m.user ≡ some u)
      × (lookup (x.token_hash token) m.sessions ≡ some s)
      × (s.user_id ≡ u.id)
      × (io.now / second < s.expires_at)
unfolding authenticate_token after_query
authenticate_token-some x io token m n u h =
    elim (Option-cases (valid_session io.now m.user (lookup (x.token_hash token) m.sessions))) [
      | inl e ↦ absurd (ground arith)
      | inr (p, e) ↦
          let (a, b, c, d) =
            valid_session-some io.now m.user (lookup (x.token_hash token) m.sessions) p.0 p.1 e in
          (p.1, ground arith, ground arith, ground arith, ground arith)
    ]

-- A request is authenticated only as the user of a session that is in the table and has not expired.
pub authenticate_sound :
    (x : Crypto) (io : Steps) (r : Request) (m n : Manager) (u : User)
    → authenticate x io r m ≡ (n, some u)
    → IsAuthentic x io.now r m u
unfolding authenticate authenticate_cookie
authenticate_sound x io r m n u h = elim (Option-cases r.cookie) [
  | inl e ↦ absurd (ground arith)
  | inr (token, e) ↦
      let (s, a, b, c, d) = authenticate_token-some x io token m n u (ground arith) in
      record {
        token = token;
        session = s;
        has_cookie = e;
        is_user = a;
        has_session = b;
        same_user = c;
        is_live = d;
      }
]

create_session-some :
    (x : Crypto) (io : Steps) (id : ℕ) (m n : Manager) (token : Bytes)
    → create_session x io id m ≡ (n, some token)
    → (io.random_token ≡ some token)
      × (lookup (x.token_hash token) n.sessions
          ≡ some (record {
            user_id = id;
            expires_at = (io.now + session_lifetime) / second;
            last_seen_at = io.now / second;
          }))
      × (n.user ≡ m.user)
      × (n.throttle ≡ m.throttle)
unfolding create_session remove_expired
create_session-some x io id m n token h = elim (Option-cases io.random_token) [
  | inl e ↦ absurd (ground arith)
  | inr (t, e) ↦ (
    ground arith,
    ground (arith, str_iff (x.token_hash token) (x.token_hash token)),
    ground arith,
    ground arith,
  )
]

-- A session that a login gave: the attempt was not turned away, the name is the account's, the
-- password matches, and the session is in the table for seven days.
pub record IsLogin (x : Crypto) (io : Steps) (r : Request) (c : Credentials) (m n : Manager)
    (token : Bytes) : Type 0 where
  pub user : User
  pub not_blocked : (blocked io.now (failure_key x m r c.username) m.throttle).1 ≡ none
  pub is_user : m.user ≡ some user
  pub same_name : to_lower (trim_space c.username) ≡ to_lower user.username
  pub matches : x.compare_hash_and_password user.password_hash c.password ≡ true
  pub has_session :
      lookup (x.token_hash token) n.sessions
      ≡ some (record {
        user_id = user.id;
        expires_at = (io.now + session_lifetime) / second;
        last_seen_at = io.now / second;
      })

find_user-some :
    (b : Bool) (name : Bytes) (o : Option User) (u : User)
    → find_user b name o ≡ some u
    → (o ≡ some u) × (to_lower (trim_space name) ≡ to_lower u.username)
unfolding find_user
find_user-some b name none u h = absurd (ground arith)
find_user-some b name (some v) u h =
    (ground arith, ground (arith, bytes_iff (to_lower (trim_space name)) (to_lower v.username)))

check_login-some :
    (x : Crypto) (io : Steps) (key : String) (c : Credentials) (m n : Manager) (o : Option User)
    (p : Reply) (token : Bytes)
    → check_login x io key c m o ≡ (n, p)
    → p.cookie ≡ some token
    → (u : User) × (o ≡ some u)
      × (x.compare_hash_and_password u.password_hash c.password ≡ true)
      × (lookup (x.token_hash token) n.sessions
          ≡ some (record {
            user_id = u.id;
            expires_at = (io.now + session_lifetime) / second;
            last_seen_at = io.now / second;
          }))
unfolding check_login with_session hash_to_check
check_login-some x io key c m n none p token h cookie = absurd (ground arith)
check_login-some x io key c m n (some u) p token h cookie =
    elim (Option-cases
      (create_session x io u.id (record m { throttle = clear_failures key m.throttle })).1) [
        | inl e ↦ absurd (ground arith)
        | inr (t, e) ↦ (
          u,
          refl,
          ground arith,
          ground (
            arith,
            create_session-some x io u.id (record m { throttle = clear_failures key m.throttle })
                (create_session x io u.id (record m { throttle = clear_failures key m.throttle })).0
                t
                (ap
                  (λ v. (
                    (create_session x io u.id
                        (record m { throttle = clear_failures key m.throttle })).0,
                    v,
                  ))
                  e),
          ),
        )
      ]

-- A login that sets a session cookie passed every check.
pub login_sound :
    (x : Crypto) (io : Steps) (r : Request) (c : Credentials) (m n : Manager) (p : Reply)
    (token : Bytes)
    → login x io r (some c) m ≡ (n, p)
    → p.cookie ≡ some token
    → IsLogin x io r c m n token
unfolding login after_block
login_sound x io r c m n p token h cookie =
    elim (Option-cases (blocked io.now (failure_key x m r c.username) m.throttle).1) [
      | inr (retry, e) ↦ absurd (ground arith)
      | inl e ↦
          let (u, found, matches, session) =
            check_login-some x io (failure_key x m r c.username) c
              (record m { throttle = (blocked io.now (failure_key x m r c.username) m.throttle).0 })
              n (find_user io.read_ok c.username m.user) p token (ground arith) cookie in
          let (user, name) = find_user-some io.read_ok c.username m.user u found in
          record {
            user = u;
            not_blocked = e;
            is_user = user;
            same_name = name;
            matches = matches;
            has_session = session;
          }
    ]
