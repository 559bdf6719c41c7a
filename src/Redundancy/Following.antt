-- ===== src/Redundancy/Following.antt =====
-- internal/redundancy: a replica follows its controller.
use faro.Prelude.{
  nat_eq, ◌<◌, ◌≡◌, refl, sym, ap, subst, ◌∙◌, true, ◌&&◌, Option, none, some, ltb, arith, ◌⊎◌, inl,
  inr, Bool-cases, Option-cases, Result-cases, Result, ok, err,
}
use faro.Strings.{Bytes, bytes_eq, bytes_iff, codes}
use faro.Redundancy.Types.{
  is_replica, LocalState, ConfigSnapshot, Manager, RedundancyError, EncryptedEnvelope,
}
use faro.Redundancy.Crypto.{Primitives, open_envelope}
use faro.Redundancy.Pairing.{read_state}
use faro.Redundancy.Snapshot.{Codec, decode_snapshot, max_uncompressed_bytes}
use faro.Redundancy.Sync.{
  SyncSteps, Response, no_content, refused, body, check_identity, decode_replica_snapshot,
  apply_replica_snapshot, install_snapshot, on_response, sync_replica, mark_replica_synchronized,
  total_size,
}

-- The answer that moved a replica: it came from the controller that shares the secret, was decoded,
-- belongs to the home, is newer, fits, and was applied to the DNS engine.
pub record Moved (x : Primitives) (c : Codec) (io : SyncSteps) (m n : Manager) : Type 0 where
  pub secret : Bytes
  pub reply : EncryptedEnvelope
  pub plaintext : Bytes
  pub snapshot : ConfigSnapshot
  pub has_secret : io.decrypt m.state.secret_ciphertext ≡ some secret
  pub has_reply : io.response ≡ some (body (some reply))
  pub authentic :
      open_envelope x secret reply (codes "faro-configuration-snapshot-v1") ≡ ok plaintext
  pub decoded : decode_snapshot c plaintext ≡ ok snapshot
  pub same_home : snapshot.home_id ≡ m.state.home_id
  pub newer : m.state.config_revision < snapshot.revision
  pub applied : io.apply_replica snapshot.files snapshot.runtime_settings ≡ none
  pub moved : n.state.config_revision ≡ snapshot.revision

decode_ok :
    (x : Primitives) (c : Codec) (reply : Option EncryptedEnvelope) (secret : Bytes)
    (t : LocalState) (s : ConfigSnapshot)
    → decode_replica_snapshot x c reply secret t ≡ ok s
    → (e : EncryptedEnvelope) × (plaintext : Bytes) × (reply ≡ some e)
      × (open_envelope x secret e (codes "faro-configuration-snapshot-v1") ≡ ok plaintext)
      × (decode_snapshot c plaintext ≡ ok s)
      × (s.home_id ≡ t.home_id)
      × (t.config_revision < s.revision)
unfolding decode_replica_snapshot check_identity
decode_ok x c none secret t s h = absurd (ground arith)
decode_ok x c (some e) secret t s h =
    elim (Result-cases (open_envelope x secret e (codes "faro-configuration-snapshot-v1"))) [
      | inr (f, e1) ↦ absurd (ground arith)
      | inl (p, e1) ↦ elim (Result-cases (decode_snapshot c p)) [
        | inr (f, e2) ↦ absurd (ground arith)
        | inl (q, e2) ↦ (
          e,
          p,
          refl,
          e1,
          ground arith,
          ground (arith, bytes_iff q.home_id t.home_id),
          ground arith,
        )
      ]
    ]

abbrev pub Kept : Manager → Manager → Type 0
Kept m n =
    (n.state.role ≡ m.state.role)
    × (n.state.home_id ≡ m.state.home_id)
    × (n.nodes ≡ m.nodes)
    × (n.snapshots ≡ m.snapshots)

install_cases :
    (io : SyncSteps) (m : Manager) (r : Result RedundancyError ConfigSnapshot)
    → is_replica m.state.role ≡ true
    → Kept m (install_snapshot io m r).0
      × (((install_snapshot io m r).0.state.config_revision ≡ m.state.config_revision)
          ⊎ ((s : ConfigSnapshot) × (r ≡ ok s)
              × (io.apply_replica s.files s.runtime_settings ≡ none)
              × ((install_snapshot io m r).0.state.config_revision ≡ s.revision)))
unfolding install_snapshot apply_replica_snapshot
install_cases io m (err e) h = ((refl, refl, refl, refl), inl refl)
install_cases io m (ok s) h = elim (Option-cases (io.apply_replica s.files s.runtime_settings)) [
  | inl e ↦ elim (Bool-cases io.write_ok) [
    | inl w ↦ elim (Bool-cases (ltb max_uncompressed_bytes (total_size s.files))) [
      | inl l ↦ (ground arith, inl (ground arith))
      | inr l ↦ (ground arith, inr (s, refl, e, ground arith))
    ]
    | inr w ↦ (ground arith, inl (ground arith))
  ]
  | inr (f, e) ↦ (ground arith, inl (ground arith))
]

mark-Kept :
    (io : SyncSteps) (m : Manager)
    → Kept m (mark_replica_synchronized io m).0
      × ((mark_replica_synchronized io m).0.state.config_revision ≡ m.state.config_revision)
unfolding mark_replica_synchronized
mark-Kept io m = ground arith

on_response_cases :
    (x : Primitives) (c : Codec) (io : SyncSteps) (secret : Bytes) (m : Manager) (r : Response)
    → is_replica m.state.role ≡ true
    → io.decrypt m.state.secret_ciphertext ≡ some secret
    → io.response ≡ some r
    → Kept m (on_response x c io secret m r).0
      × (((on_response x c io secret m r).0.state.config_revision ≡ m.state.config_revision)
          ⊎ Moved x c io m (on_response x c io secret m r).0)
unfolding on_response
on_response_cases x c io secret m no_content h a b = ((mark-Kept io m).0, inl (mark-Kept io m).1)
on_response_cases x c io secret m refused h a b = ((refl, refl, refl, refl), inl refl)
on_response_cases x c io secret m (body reply) h a b =
    let (kept, cases) = install_cases io m (decode_replica_snapshot x c reply secret m.state) h in
    (
      kept,
      elim cases [
        | inl e ↦ inl e
        | inr (s, d, applied, moved) ↦
            let (e, p, some_reply, opened, decoded, home, newer) =
              decode_ok x c reply secret m.state s d in
            inr (record {
              secret = secret;
              reply = e;
              plaintext = p;
              snapshot = s;
              has_secret = a;
              has_reply = b ∙ ap (λ t. some (body t)) some_reply;
              authentic = opened;
              decoded = decoded;
              same_home = home;
              newer = newer;
              applied = applied;
              moved = moved;
            })
      ],
    )

abbrev pub Follows : Primitives → Codec → SyncSteps → Manager → Manager → Type 0
Follows x c io m n =
    Kept m n × ((n.state.config_revision ≡ m.state.config_revision) ⊎ Moved x c io m n)

pub sync_unfold :
    (x : Primitives) (c : Codec) (io : SyncSteps) (m : Manager)
    → ((sync_replica x c io m).0 ≡ m)
      ⊎ ((secret : Bytes) × (r : Response) × (is_replica m.state.role ≡ true)
          × (io.decrypt m.state.secret_ciphertext ≡ some secret)
          × (io.response ≡ some r)
          × ((sync_replica x c io m).0 ≡ (on_response x c io secret m r).0))
unfolding sync_replica read_state
sync_unfold x c io m = elim (Bool-cases (io.read_ok && is_replica m.state.role)) [
  | inr e ↦ inl (ground arith)
  | inl e ↦ elim (Option-cases (io.decrypt m.state.secret_ciphertext)) [
    | inl d ↦ inl (ground arith)
    | inr (secret, d) ↦ elim (Option-cases io.response) [
      | inl a ↦ inl (ground arith)
      | inr (r, a) ↦ inr (secret, r, ground arith, d, a, ground arith)
    ]
  ]
]

-- Each synchronization keeps the role, the home and the tables of the nodes and snapshots. It keeps
-- the revision too, or moves the replica to a newer revision: that of a snapshot that was opened with
-- the secret shared with the controller, names the replica's own home, and was applied to the DNS
-- engine.
pub sync_replica_cases :
    (x : Primitives) (c : Codec) (io : SyncSteps) (m : Manager)
    → Follows x c io m (sync_replica x c io m).0
sync_replica_cases x c io m = elim (sync_unfold x c io m) [
  | inl e ↦ subst (Follows x c io m) (sym e) ((refl, refl, refl, refl), inl refl)
  | inr (secret, r, role, d, a, e) ↦
      subst (Follows x c io m) (sym e) (on_response_cases x c io secret m r role d a)
]
