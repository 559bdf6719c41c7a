-- ===== src/Auth/Runs.antt =====
-- Concrete runs of the account handlers.
use faro.Prelude.{
  string_eq, str_iff, ◌≢◌, nat_eq, ◌≡◌, refl, true, false, [], none, some, if◌then◌else◌, ◌==◌,
  length, ◌*◌, arith,
}
use faro.Strings.{bytes_eq, bytes_beq, codes, to_lower, trim_space}
use faro.Auth.Failures.{new_throttle, second, blocked, clear_failures}
use faro.Auth.Sessions.{Crypto, User, Manager, post, Request, Steps, authenticate}
use faro.Auth.Handlers.{Credentials, Reply, login, logout, PasswordChange, change_password}
use faro.Auth.Access.{IsLogin, login_sound}
use faro.Auth.Revocation.{logout_revokes, change_password_revokes}

abbrev x0 : Crypto
x0 = record {
  token_hash = λ t. if length t == 1 then "one" else "other";
  compare_hash_and_password = λ h p. h == p;
  generate_from_password = λ p. some p;
  dummy_hash = [];
}

abbrev user0 : User
user0 = record { id = 1; username = codes "Admin"; password_hash = codes "password" }

abbrev m0 : Manager
m0 = record { user = some user0; sessions = []; throttle = new_throttle; trust_proxy = false }

abbrev io0 : Steps
io0 = record {
  now = 1000 * second;
  read_ok = true;
  write_ok = true;
  touch_ok = true;
  random_token = some (codes "t");
}

abbrev r0 : Request
r0 = record {
  method = post;
  path = codes "/api/records";
  cookie = some (codes "t");
  host = codes "10.0.0.9";
  real_ip = none;
}

abbrev c0 : Credentials
c0 = record { username = codes "admin"; password = codes "password" }

abbrev in0 : Manager
in0 = (login x0 io0 r0 (some c0) m0).0

abbrev p0 : Reply
p0 = record { status = 200; cookie = some (codes "t"); retry_after = none }

login0 : login x0 io0 r0 (some c0) m0 ≡ (in0, p0)
unfolding login blocked bytes_beq to_lower trim_space
login0 = refl

login_sound_example : IsLogin x0 io0 r0 c0 m0 in0 (codes "t")
login_sound_example = login_sound x0 io0 r0 c0 m0 in0 p0 (codes "t") login0 refl

logout_revokes_example : (authenticate x0 io0 r0 (logout x0 io0 r0 in0).0).1 ≡ none
logout_revokes_example = logout_revokes x0 io0 r0 (codes "t") in0 refl refl refl refl io0 r0 refl

abbrev change0 : PasswordChange
change0 = record { current_password = codes "password"; new_password = codes "new password" }

abbrev changed0 : Manager
changed0 = (change_password x0 io0 r0 (some change0) in0).0

change0_ok :
    change_password x0 io0 r0 (some change0) in0
    ≡ (changed0, (change_password x0 io0 r0 (some change0) in0).1)
change0_ok = refl

status0 : (change_password x0 io0 r0 (some change0) in0).1.status ≡ 200
unfolding change_password login blocked bytes_beq to_lower trim_space clear_failures
status0 = refl

abbrev stranger0 : Request
stranger0 = record r0 { cookie = some (codes "other") }

tokens_differ : x0.token_hash (codes "other") ≢ x0.token_hash (codes "t")
tokens_differ e = ground (arith, str_iff "other" "one")

change_password_revokes_example : (authenticate x0 io0 stranger0 changed0).1 ≡ none
change_password_revokes_example =
    change_password_revokes x0 io0 r0 change0 in0 changed0
      (change_password x0 io0 r0 (some change0) in0).1 (codes "t") change0_ok status0 refl io0
      stranger0 (codes "other") refl tokens_differ
