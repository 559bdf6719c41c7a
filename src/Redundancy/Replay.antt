-- ===== src/Redundancy/Replay.antt =====
-- internal/redundancy/protocol.go: an authenticated request is accepted once.
use faro.Prelude.{
  nat_eq, ℕ, ◌-◌, ◌^◌, ◌≤◌, ◌≡◌, Bool, false, List, [], ◌∷◌, Option, none, some, leb, arith,
}
use faro.Prelude.Maps.{lookup}
use faro.Strings.{Bytes, bytes_eq}
use faro.Encoding.{parse_int}
use faro.Redundancy.Types.{Manager, SyncAck}
use faro.Redundancy.Roles.{Steps, configuration_applied}
use faro.Redundancy.Crypto.{Primitives, NodeRequest}
use faro.Redundancy.Nodes.{
  NodeSteps, unix_time, nonces_of, authenticate_node_request, expire_pairings,
  record_acknowledgement, remove_node,
}

-- The nonce of a node is remembered since a time.
abbrev pub Remembers : Bytes → Bytes → ℕ → Manager → Type 0
Remembers node nonce seen m = lookup nonce (nonces_of (lookup node m.replays)) ≡ some seen

lookup_nil : (k : Bytes) (v : ℕ) (l : List (Bytes × ℕ)) → lookup k l ≡ some v → l ≡ [] → ⊥
lookup_nil k v [] h e = ground arith
lookup_nil k v (x ∷ l) h e = ground arith

-- What the controller may do between two requests; `Leave` ends its role.
pub data Call : Type 0 where
  admit : Primitives → NodeSteps → NodeRequest → Call
  expire : ℕ → Call
  acknowledge : NodeSteps → Bytes → SyncAck → Call
  remove : NodeSteps → Bytes → Call
  publish : Steps → Call

unfoldable pub step : Call → Manager → Manager
step (admit x io r) m = (authenticate_node_request x io r m).0
step (expire now) m = expire_pairings now m
step (acknowledge io node ack) m = (record_acknowledgement io node ack m).0
step (remove io node) m = (remove_node io node m).0
step (publish io) m = configuration_applied io m

unfoldable pub run : List Call → Manager → Manager
unfolding step
run [] m = m
run (c ∷ cs) m = run cs (step c m)

abbrev pub IsBefore : ℕ → List Call → Type 0
IsBefore t [] = Unit
IsBefore t (expire now ∷ cs) = (now ≤ t) × IsBefore t cs
IsBefore t (admit x io r ∷ cs) = IsBefore t cs
IsBefore t (acknowledge io node ack ∷ cs) = IsBefore t cs
IsBefore t (remove io node ∷ cs) = IsBefore t cs
IsBefore t (publish io ∷ cs) = IsBefore t cs

-- The timestamp lies 2 ^ 63 nanoseconds or more ahead of the clock.
unfoldable pub far_ahead : ℕ → Option ℕ → Bool
far_ahead now none = false
far_ahead now (some t) = leb (2 ^ 63) (t - now)

unfoldable pub is_far_ahead : ℕ → Bytes → Bool
unfolding far_ahead
is_far_ahead now text = elim (parse_int text) [
  | none ↦ false
  | some n ↦ far_ahead now (unix_time n)
]
