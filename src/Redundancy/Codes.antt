-- ===== src/Redundancy/Codes.antt =====
-- internal/redundancy/protocol.go: a pairing code admits one replica.
use faro.Prelude.{
  nat_eq, ℕ, ◌<◌, ◌≡◌, refl, sym, ap, ◌∙◌, true, [], none, some, length, arith, ◌⊎◌, inl, inr,
  Option-cases, Result-cases, ok, err,
}
use faro.Prelude.Maps.{lookup, delete}
use faro.Strings.{Bytes, bytes_eq, bytes_iff, trim_space}
use faro.Encoding.{base64_decode}
use faro.Redundancy.Types.{
  is_controller, LocalState, PairingSession, Manager, RedundancyError, invalid_key, PairRequest,
  EncryptedEnvelope, to_seconds,
}
use faro.Redundancy.Roles.{
  Steps, Outcome, snapshot_of, build_snapshot, commit_snapshot, capture_snapshot,
}
use faro.Redundancy.Crypto.{Primitives, decode_32, pairing_proof}
use faro.Redundancy.Pairing.{
  PairSteps, read_state, repair_snapshot, normalize_pair_request, live_session, pairing_session,
  verify_pairing_proof, check_pair, store_paired_node, consume_pairing, pair_response, pair_node,
  accept_pair,
}

outcome_cases :
    {A : Type 0} (r : Outcome A)
    → ((m : Manager) × (a : A) × (r ≡ (m, ok a)))
      ⊎ ((m : Manager) × (e : RedundancyError) × (r ≡ (m, err e)))
outcome_cases (m, ok a) = inl (m, a, refl)
outcome_cases (m, err e) = inr (m, e, refl)

normalize_ok :
    (io : PairSteps) (r input : PairRequest)
    → normalize_pair_request io r ≡ ok input
    → (input.pairing_id ≡ r.pairing_id)
      × (input.node_id ≡ trim_space r.node_id)
      × (input.proof ≡ r.proof)
      × (length input.node_id ≡ 32)
unfolding normalize_pair_request
normalize_ok io r input h = elim (Option-cases (io.parse_ip (trim_space r.lan_address))) [
  | inl e ↦ absurd (ground arith)
  | inr (a, e) ↦ ground arith
]

session_ok :
    (now : ℕ) (id : Bytes) (m : Manager) (s : PairingSession)
    → pairing_session now id m ≡ ok s
    → (lookup id m.pairings ≡ some s) × (now < s.expires_at)
unfolding pairing_session live_session
session_ok now id m s h = elim (Option-cases (lookup id m.pairings)) [
  | inl e ↦ absurd (ground arith)
  | inr (t, e) ↦ (ground arith, ground arith)
]

proof_ok :
    (x : Primitives) (s : PairingSession) (r : PairRequest)
    → verify_pairing_proof x s r ≡ ok tt
    → base64_decode r.proof ≡ some (pairing_proof x s.token r)
unfolding verify_pairing_proof
proof_ok x s r h = elim (Option-cases (base64_decode r.proof)) [
  | inl e ↦ absurd (ground arith)
  | inr (p, e) ↦ ground (arith, bytes_iff p (pairing_proof x s.token r))
]

check_pair_ok :
    (x : Primitives) (io : PairSteps) (r input : PairRequest) (m : Manager) (s : PairingSession)
    (key : Bytes)
    → check_pair x io r m ≡ ok (input, s, key)
    → (normalize_pair_request io r ≡ ok input)
      × (pairing_session io.steps.now input.pairing_id m ≡ ok s)
      × (verify_pairing_proof x s input ≡ ok tt)
unfolding check_pair
check_pair_ok x io r input m s key h = elim (Result-cases (normalize_pair_request io r)) [
  | inr (f, e) ↦ absurd (ground arith)
  | inl (i, e1) ↦ elim (Result-cases (pairing_session io.steps.now i.pairing_id m)) [
    | inr (f, e) ↦ absurd (ground arith)
    | inl (t, e2) ↦ elim (Result-cases (decode_32 invalid_key i.public_key)) [
      | inr (f, e) ↦ absurd (ground arith)
      | inl (k, e3) ↦ elim (Result-cases (verify_pairing_proof x t i)) [
        | inr (f, e) ↦ absurd (ground arith)
        | inl (u, e4) ↦ ground arith
      ]
    ]
  ]
]

pair_node_ok :
    (x : Primitives) (io : PairSteps) (t : LocalState) (m n : Manager) (input : PairRequest)
    (s : PairingSession) (key : Bytes) (envelope : EncryptedEnvelope)
    → pair_node x io t m input s key ≡ (n, ok envelope)
    → (text : Bytes) × (n
        ≡ consume_pairing input.pairing_id (store_paired_node io.steps.now input text m))
unfolding pair_node
pair_node_ok x io t m n input s key envelope h = elim (Option-cases io.random_token) [
  | inl e ↦ absurd (ground arith)
  | inr (secret, e1) ↦ elim (Option-cases (io.encrypt secret)) [
    | inl e ↦ absurd (ground arith)
    | inr (text, e2) ↦ elim (Result-cases (pair_response x io t s key secret)) [
      | inr (f, e) ↦ absurd (ground arith)
      | inl (v, e3) ↦ (text, ground arith)
    ]
  ]
]

capture-pairings :
    (io : Steps) (s : LocalState) (m : Manager) → (capture_snapshot io s m).0.pairings ≡ m.pairings
unfolding capture_snapshot build_snapshot snapshot_of commit_snapshot
capture-pairings io s m = elim (Option-cases io.generated) [
  | inl e ↦ rw e refl
  | inr (g, e) ↦ rw e (ground arith)
]

repair-pairings :
    (io : Steps) (s : LocalState) (m : Manager) → (repair_snapshot io s m).0.pairings ≡ m.pairings
unfolding repair_snapshot read_state
repair-pairings io s m = elim (outcome_cases (capture_snapshot io s m)) [
  | inl (n, u, e) ↦ ground (arith, capture-pairings io s m)
  | inr (n, f, e) ↦ ground (arith, capture-pairings io s m)
]

accept_unfold :
    (x : Primitives) (io : PairSteps) (r : PairRequest) (m n : Manager)
    (envelope : EncryptedEnvelope)
    → accept_pair x io r m ≡ (n, ok envelope)
    → (p : Manager) × (t : LocalState) × (input : PairRequest) × (s : PairingSession)
      × (key : Bytes) × (is_controller m.state.role ≡ true)
      × (repair_snapshot io.steps m.state m ≡ (p, ok t))
      × (check_pair x io r p ≡ ok (input, s, key))
      × (pair_node x io t p input s key ≡ (n, ok envelope))
unfolding accept_pair read_state
accept_unfold x io r m n envelope h = elim (outcome_cases (repair_snapshot io.steps m.state m)) [
  | inr (p, f, e) ↦ absurd (ground arith)
  | inl (p, t, e) ↦ elim (Result-cases (check_pair x io r p)) [
    | inr (f, c) ↦ absurd (ground arith)
    | inl (q, c) ↦ (p, t, q.0, q.1, q.2, ground arith, e, ground arith, ground arith)
  ]
]

-- What a replica got that presented a pairing code: the session of the code, the request as it was
-- checked, and the ciphertext of its secret.
pub record Admitted (x : Primitives) (io : PairSteps) (r : PairRequest) (m n : Manager)
    : Type 0 where
  pub session : PairingSession
  pub input : PairRequest
  pub ciphertext : Bytes
  pub was_controller : is_controller m.state.role ≡ true
  pub has_session : lookup r.pairing_id m.pairings ≡ some session
  pub is_live : io.steps.now < session.expires_at
  pub same_node : input.node_id ≡ trim_space r.node_id
  pub proved : base64_decode r.proof ≡ some (pairing_proof x session.token input)
  pub consumed : n.pairings ≡ delete r.pairing_id m.pairings
  pub stored :
      lookup input.node_id n.nodes
      ≡ some (record {
        name = input.node_name;
        lan_address = input.lan_address;
        secret_ciphertext = ciphertext;
        config_revision = 0;
        last_seen_at = some (to_seconds io.steps.now);
        last_sync_at = none;
        last_error = [];
      })

-- A replica is admitted only by a controller, with a code of a session that has not expired and a
-- proof made with that session's token. Its row is stored under its identity, and the code is taken
-- back.
pub accept_pair_success :
    (x : Primitives) (io : PairSteps) (r : PairRequest) (m n : Manager)
    (envelope : EncryptedEnvelope)
    → accept_pair x io r m ≡ (n, ok envelope)
    → Admitted x io r m n
unfolding store_paired_node consume_pairing
accept_pair_success x io r m n envelope h =
    let (p, t, input, s, key, role, repaired, checked, paired) =
      accept_unfold x io r m n envelope h in
    let (normal, found, proof) = check_pair_ok x io r input p s key checked in
    let (id, node, kept, long) = normalize_ok io r input normal in
    let (known, live) = session_ok io.steps.now input.pairing_id p s found in
    let (text, result) = pair_node_ok x io t p n input s key envelope paired in
    let same = sym (ap (λ q. q.0.pairings) repaired) ∙ repair-pairings io.steps m.state m in
    record {
      session = s;
      input = input;
      ciphertext = text;
      was_controller = role;
      has_session =
          ap (λ l. lookup r.pairing_id l) (sym same)
          ∙ (ap (λ k. lookup k p.pairings) (sym id) ∙ known);
      is_live = live;
      same_node = node;
      proved = ap base64_decode (sym kept) ∙ proof_ok x s input proof;
      consumed =
          ap (λ q. q.pairings) result
          ∙ (ap (λ k. delete k p.pairings) id ∙ ap (delete r.pairing_id) same);
      stored =
          ap (λ q. lookup input.node_id q.nodes) result
          ∙ ground (arith, bytes_iff input.node_id input.node_id);
    }
