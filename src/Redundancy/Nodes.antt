-- ===== src/Redundancy/Nodes.antt =====
-- internal/redundancy/protocol.go and manager.go: what the controller does for its replicas.
use faro.Prelude.{
  nat_eq, ℕ, ◌+◌, ◌-◌, ◌*◌, ◌^◌, Bool, true, false, not, ◌&&◌, ◌||◌, List, [], ◌∷◌, Option, none,
  some, if◌then◌else◌, ltb, leb, ◌==◌, length, is_some, Result, ok, err, ◌>>=◌, ◌>>◌, guard,
}
use faro.Prelude.Maps.{lookup, insert, delete, retain}
use faro.Strings.{Bytes, bytes_eq, codes, trim_space}
use faro.Encoding.{Int64, parse_int, base64_decode}
use faro.Redundancy.Types.{
  is_controller, NodeRow, ConfigSnapshot, Manager, RedundancyError, database_error, not_controller,
  invalid_request, invalid_timestamp, invalid_nonce, not_paired, authentication_failed, replayed,
  secret_failed, invalid_acknowledgement, no_such_node, snapshot_unavailable, EncryptedEnvelope,
  SyncAck, second, minute, to_seconds,
}
use faro.Redundancy.Roles.{Outcome}
use faro.Redundancy.Crypto.{
  Primitives, NodeRequest, or_error, request_signature, decode_signature, seal_envelope,
}

-- The second 0 of Unix time, in seconds since Go's zero time.
abbrev pub unix_epoch : ℕ
unix_epoch = 62135596800

-- `time.Unix(n, 0)`, whose seconds wrap at 2 ^ 63; `none` is a time before Go's zero time.
unfoldable pub unix_time : Int64 → Option ℕ
unix_time (false, n) =
    if ltb (n + unix_epoch) (2 ^ 63) then some ((n + unix_epoch) * second) else none
unix_time (true, n) = if leb n unix_epoch then some ((unix_epoch - n) * second) else none

-- `absDuration(now.Sub(t)) <= 2*time.Minute`. `Sub` stops at the least duration, -2 ^ 63 nanoseconds,
-- whose negation is itself: it is below two minutes. A time before Go's zero time is far from a clock.
unfoldable pub is_timely : ℕ → Option ℕ → Bool
is_timely now none = false
is_timely now (some t) =
    if leb t now
    then leb (now - t) (2 * minute)
    else leb (t - now) (2 * minute) || leb (2 ^ 63) (t - now)

unfoldable pub check_timestamp : ℕ → Bytes → Bool
unfolding is_timely unix_time
check_timestamp now text = elim (parse_int text) [
  | none ↦ false
  | some n ↦ is_timely now (unix_time n)
]

-- What a request meets: the database, the master key's decryption, the clock when the timestamp is
-- checked and when the nonce is recorded.
pub record NodeSteps : Type 0 where
  pub read_ok : Bool
  pub write_ok : Bool
  pub decrypt : Bytes → Option Bytes
  pub now : ℕ
  pub seen_at : ℕ

unfoldable pub node_secret : NodeSteps → Option NodeRow → Result RedundancyError Bytes
node_secret io none = err not_paired
node_secret io (some row) = or_error secret_failed (io.decrypt row.secret_ciphertext)

-- The checks before the nonce is claimed: the node and its secret.
unfoldable pub check_request :
    Primitives → NodeSteps → NodeRequest → Manager → Result RedundancyError (Bytes × Bytes)
unfolding decode_signature node_secret
check_request x io r m = do
  guard io.read_ok database_error
  guard (is_controller m.state.role) not_controller
  let node = trim_space r.node
  signature ← decode_signature r.signature
  guard (length node == 32 && not (length r.nonce == 0)) invalid_request
  guard (check_timestamp io.now r.timestamp) invalid_timestamp
  nonce ← or_error invalid_nonce (base64_decode r.nonce)
  guard (length nonce == 16) invalid_nonce
  secret ← node_secret io (lookup node m.nodes)
  guard (signature == request_signature x secret r) authentication_failed
  ok (node, secret)

abbrev pub nonces_of : Option (List (Bytes × ℕ)) → List (Bytes × ℕ)
nonces_of none = []
nonces_of (some nonces) = nonces

unfoldable pub is_replayed : Bytes → Bytes → Manager → Bool
is_replayed node nonce m = is_some (lookup nonce (nonces_of (lookup node m.replays)))

unfoldable pub record_nonce : Bytes → Bytes → ℕ → Manager → Manager
record_nonce node nonce seen m = record m {
  replays = insert node (insert nonce seen (nonces_of (lookup node m.replays))) m.replays;
}

abbrev pub update_row :
    (NodeRow → NodeRow) → Bytes → List (Bytes × NodeRow) → List (Bytes × NodeRow)
update_row f node [] = []
update_row f node ((j, row) ∷ l) = (j, (if j == node then f row else row)) ∷ update_row f node l

unfoldable pub touch_node : NodeSteps → Bytes → Manager → Manager
touch_node io node m =
    if io.write_ok
    then record m {
      nodes =
          update_row (λ row. record row { last_seen_at = some (to_seconds io.seen_at) }) node
            m.nodes;
    }
    else m

unfoldable pub claim_nonce : NodeSteps → Bytes → Bytes → Bytes → Manager → Outcome (Bytes × Bytes)
unfolding is_replayed record_nonce touch_node
claim_nonce io node secret nonce m =
    if is_replayed node nonce m
    then (m, err replayed)
    else (touch_node io node (record_nonce node nonce io.seen_at m), ok (node, secret))

unfoldable pub after_check :
    NodeSteps → Bytes → Manager → Result RedundancyError (Bytes × Bytes) → Outcome (Bytes × Bytes)
unfolding claim_nonce
after_check io nonce m (err e) = (m, err e)
after_check io nonce m (ok (node, secret)) = claim_nonce io node secret nonce m

unfoldable pub authenticate_node_request :
    Primitives → NodeSteps → NodeRequest → Manager → Outcome (Bytes × Bytes)
unfolding check_request after_check
authenticate_node_request x io r m = after_check io r.nonce m (check_request x io r m)

abbrev pub replay_memory : ℕ
replay_memory = 5 * minute

abbrev pub drop_empty_nodes : List (Bytes × List (Bytes × ℕ)) → List (Bytes × List (Bytes × ℕ))
drop_empty_nodes [] = []
drop_empty_nodes ((node, []) ∷ l) = drop_empty_nodes l
drop_empty_nodes ((node, n ∷ ns) ∷ l) = (node, n ∷ ns) ∷ drop_empty_nodes l

abbrev pub expire_nonces : ℕ → List (Bytes × List (Bytes × ℕ)) → List (Bytes × List (Bytes × ℕ))
expire_nonces now [] = []
expire_nonces now ((node, nonces) ∷ l) =
    (node, retain (λ seen. leb (now - seen) replay_memory) nonces) ∷ expire_nonces now l

unfoldable pub expire_pairings : ℕ → Manager → Manager
expire_pairings now m = record m {
  pairings = retain (λ s. ltb now s.expires_at) m.pairings;
  replays = drop_empty_nodes (expire_nonces now m.replays);
}

unfoldable pub at_least : Int64 → ℕ → Bool
at_least (false, n) revision = leb revision n
at_least (true, n) revision = n == 0 && revision == 0

unfoldable pub snapshot_envelope :
    Primitives
    → Bool
    → (ConfigSnapshot → Bytes)
    → Option Bytes
    → Int64
    → Bytes
    → Manager
    → Result RedundancyError (Option EncryptedEnvelope × ℕ)
unfolding at_least seal_envelope
snapshot_envelope x read_ok encode nonce since secret m = do
  guard read_ok database_error
  if at_least since m.state.config_revision then ok (none, m.state.config_revision) else (do
    payload ← or_error snapshot_unavailable (lookup m.state.config_revision m.snapshots)
    envelope ←
        seal_envelope x secret nonce (encode payload) (codes "faro-configuration-snapshot-v1")
    ok (some envelope, m.state.config_revision))

unfoldable pub acknowledged_row : ℕ → SyncAck → NodeRow → NodeRow
acknowledged_row now ack row =
    let seen = record row { last_error = ack.error; last_seen_at = some (to_seconds now) } in
    if length ack.error == 0
    then record seen { config_revision = ack.revision.1; last_sync_at = some (to_seconds now) }
    else seen

unfoldable pub record_acknowledgement : NodeSteps → Bytes → SyncAck → Manager → Outcome (Unit {0})
unfolding acknowledged_row
record_acknowledgement io node ack m =
    if (ack.revision.0 && not (ack.revision.1 == 0)) || ltb 500 (length ack.error)
    then (m, err invalid_acknowledgement)
    else if io.write_ok
    then (record m { nodes = update_row (acknowledged_row io.now ack) node m.nodes }, ok tt)
    else (m, err database_error)

unfoldable pub remove_node : NodeSteps → Bytes → Manager → Outcome (Unit {0})
remove_node io node m =
    if not io.read_ok
    then (m, err database_error)
    else if not (is_controller m.state.role)
    then (m, err not_controller)
    else if not io.write_ok
    then (m, err database_error)
    else if is_some (lookup (trim_space node) m.nodes)
    then (record m { nodes = delete (trim_space node) m.nodes }, ok tt)
    else (m, err no_such_node)

-- `recentlySeen`; a column holds whole seconds.
unfoldable pub recently_seen : Option ℕ → ℕ → ℕ → Bool
recently_seen none now maximum_age = false
recently_seen (some seen) now maximum_age = leb (now - seen * second) maximum_age

-- Three times the interval of the synchronization, and five seconds.
abbrev pub online_age : ℕ
online_age = 3 * (5 * second) + 5 * second

unfoldable pub node_is_healthy : ℕ → ℕ → NodeRow → Bool
unfolding recently_seen
node_is_healthy now revision row =
    recently_seen row.last_seen_at now online_age
    && row.config_revision == revision
    && length row.last_error == 0

abbrev pub all_healthy : ℕ → ℕ → List (Bytes × NodeRow) → Bool
all_healthy now revision [] = true
all_healthy now revision ((j, row) ∷ l) =
    node_is_healthy now revision row && all_healthy now revision l

-- `Healthy` of `controllerStatus`: there is a replica, and no replica is behind.
unfoldable pub controller_healthy : ℕ → Manager → Bool
unfolding node_is_healthy
controller_healthy now m =
    ltb 1 (length m.nodes + 1) && all_healthy now m.state.config_revision m.nodes
