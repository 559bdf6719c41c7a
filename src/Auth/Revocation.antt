-- ===== src/Auth/Revocation.antt =====
-- internal/auth/manager.go: what ends a session.
use faro.Prelude.{
  string_eq, str_iff, nat_eq, ℕ, ◌≡◌, ◌≢◌, sym, ap, ◌∙◌, true, false, not, ◌&&◌, List, [], ◌∷◌,
  none, some, String, ◌==◌, length, arith, ◌⊎◌, inl, inr, Bool-cases, Option-cases,
}
use faro.Prelude.Maps.{lookup, lookup-delete}
use faro.Strings.{Bytes, bytes_eq}
use faro.Auth.Failures.{blocked}
use faro.Auth.Sessions.{
  Crypto, User, Session, Manager, Request, Steps, failure_key, drop_session, authenticate,
}
use faro.Auth.Handlers.{
  Reply, is_post, logout_token, logout, PasswordChange, keep_session, store_password, check_current,
  change_checked, change_password,
}
use faro.Auth.Access.{authenticate_sound}

no_session :
    (x : Crypto) (jo : Steps) (q : Request) (token : Bytes) (m : Manager)
    → q.cookie ≡ some token
    → ((u : User) (s : Session)
        → m.user ≡ some u
        → lookup (x.token_hash token) m.sessions ≡ some s
        → s.user_id ≢ u.id)
    → (authenticate x jo q m).1 ≡ none
no_session x jo q token m cookie none_of = elim (Option-cases (authenticate x jo q m).1) [
  | inl e ↦ e
  | inr (u, e) ↦
      let a =
        authenticate_sound x jo q m (authenticate x jo q m).0 u
          (ap (λ v. ((authenticate x jo q m).0, v)) e) in
      let same : a.token ≡ token = ground (arith, a.has_cookie) in
      absurd (
        none_of u a.session a.is_user
          (ap (λ t. lookup (x.token_hash t) m.sessions) (sym same) ∙ a.has_session) a.same_user)
]

logout-sessions :
    (x : Crypto) (io : Steps) (r : Request) (token : Bytes) (m : Manager)
    → is_post r.method ≡ true
    → io.write_ok ≡ true
    → r.cookie ≡ some token
    → (length token == 0) ≡ false
    → lookup (x.token_hash token) (logout x io r m).0.sessions ≡ none
unfolding logout logout_token drop_session
logout-sessions x io r token m method ok cookie long = ground (
  arith,
  lookup-delete (x.token_hash token) (x.token_hash token) m.sessions,
  str_iff (x.token_hash token) (x.token_hash token),
)

-- After a logout no request with the session's token is authenticated, whatever its other contents
-- and the time, if the statement that deletes the session succeeds.
pub logout_revokes :
    (x : Crypto) (io : Steps) (r : Request) (token : Bytes) (m : Manager)
    → is_post r.method ≡ true
    → io.write_ok ≡ true
    → r.cookie ≡ some token
    → (length token == 0) ≡ false
    → (jo : Steps) (q : Request) → q.cookie ≡ some token
    → (authenticate x jo q (logout x io r m).0).1 ≡ none
logout_revokes x io r token m method ok cookie long jo q same =
    no_session x jo q token (logout x io r m).0 same (λ u s user found.
      absurd (ground (arith, logout-sessions x io r token m method ok cookie long)))

lookup-keep_session :
    (id : ℕ) (h j : String) (l : List (String × Session)) (s : Session)
    → lookup j (keep_session id h l) ≡ some s
    → (s.user_id ≢ id) ⊎ (j ≡ h)
unfolding keep_session
lookup-keep_session id h j [] s e = absurd (ground arith)
lookup-keep_session id h j ((k, t) ∷ l) s e = elim (Bool-cases (t.user_id == id && not (k == h))) [
  | inl a ↦ lookup-keep_session id h j l s (ground arith)
  | inr a ↦ elim (Bool-cases (k == j)) [
    | inl b ↦ ground (arith, str_iff k j, str_iff k h)
    | inr b ↦ lookup-keep_session id h j l s (ground arith)
  ]
]

-- What a change of the password left: the session that made it, and no other of the account.
pub record IsChanged (x : Crypto) (io : Steps) (r : Request) (c : PasswordChange) (m n : Manager)
    : Type 0 where
  pub user : User
  pub token : Bytes
  pub hash : Bytes
  pub authentic : (authenticate x io r m).1 ≡ some user
  pub has_cookie : r.cookie ≡ some token
  pub knew : x.compare_hash_and_password user.password_hash c.current_password ≡ true
  pub generated : x.generate_from_password c.new_password ≡ some hash
  pub stored : n.user ≡ some (record user { password_hash = hash })
  pub kept :
      n.sessions ≡ keep_session user.id (x.token_hash token) (authenticate x io r m).0.sessions

pub change_password_sound :
    (x : Crypto) (io : Steps) (r : Request) (c : PasswordChange) (m n : Manager) (p : Reply)
    → change_password x io r (some c) m ≡ (n, p)
    → p.status ≡ 200
    → IsChanged x io r c m n
unfolding change_password change_checked check_current store_password
change_password_sound x io r c m n p h status = elim (Option-cases (authenticate x io r m).1) [
  | inl e ↦ absurd (ground arith)
  | inr (u, e) ↦
      elim (Option-cases
        (blocked io.now (failure_key x (authenticate x io r m).0 r u.username)
          (authenticate x io r m).0.throttle).1) [
            | inr (retry, b) ↦ absurd (ground arith)
            | inl b ↦ elim (Option-cases (x.generate_from_password c.new_password)) [
              | inl g ↦ absurd (ground arith)
              | inr (hash, g) ↦ elim (Option-cases r.cookie) [
                | inl k ↦ absurd (ground arith)
                | inr (token, k) ↦ record {
                  user = u;
                  token = token;
                  hash = hash;
                  authentic = e;
                  has_cookie = k;
                  knew = ground arith;
                  generated = g;
                  stored = ground arith;
                  kept = ground arith;
                }
              ]
            ]
          ]
]

-- After a change of the password, which only a session that knows the current one can make, no other
-- token is authenticated: only tokens with the hash of the session that made the change are.
pub change_password_revokes :
    (x : Crypto) (io : Steps) (r : Request) (c : PasswordChange) (m n : Manager) (p : Reply)
    (token : Bytes)
    → change_password x io r (some c) m ≡ (n, p)
    → p.status ≡ 200
    → r.cookie ≡ some token
    → (jo : Steps) (q : Request) (other : Bytes) → q.cookie ≡ some other
    → x.token_hash other ≢ x.token_hash token
    → (authenticate x jo q n).1 ≡ none
change_password_revokes x io r c m n p token h status cookie jo q other same differs =
    let a = change_password_sound x io r c m n p h status in
    no_session x jo q other n same (λ u s user found.
      elim (lookup-keep_session a.user.id (x.token_hash a.token) (x.token_hash other)
        (authenticate x io r m).0.sessions s
        (ap (lookup (x.token_hash other)) (sym a.kept) ∙ found)) [
          | inl e ↦ ground (arith, a.stored)
          | inr e ↦ absurd (ground (arith, a.has_cookie))
        ])
