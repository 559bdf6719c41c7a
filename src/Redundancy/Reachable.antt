-- ===== src/Redundancy/Reachable.antt =====
-- internal/redundancy: every history of operations keeps what the tables hold in each role.
use faro.Prelude.{ℕ, ◌≡◌, Bool, List, [], ◌∷◌}
use faro.Strings.{Bytes}
use faro.Redundancy.Types.{standalone, Manager, PairRequest, SyncAck}
use faro.Redundancy.Roles.{Steps, configuration_applied, LeaveSteps, leave}
use faro.Redundancy.Crypto.{Primitives}
use faro.Redundancy.Pairing.{PairSteps, start_pairing, accept_pair}
use faro.Redundancy.Nodes.{NodeSteps, record_acknowledgement, remove_node, expire_pairings}
use faro.Redundancy.Snapshot.{Codec}
use faro.Redundancy.Sync.{SyncSteps, sync_turn, JoinInput, JoinSteps, join_controller}
use faro.Redundancy.Membership.{IsWellFormed}

-- A server outside any setup, well-formed.
abbrev pub IsAlone : Manager → Type 0
IsAlone m = (m.state.role ≡ standalone) × IsWellFormed m

-- The operations of the manager, each with what it meets.
pub data Operation : Type 0 where
  start : PairSteps → Bytes → Operation
  accept : Primitives → PairSteps → PairRequest → Operation
  publish : Steps → Operation
  acknowledge : NodeSteps → Bytes → SyncAck → Operation
  remove : NodeSteps → Bytes → Operation
  join : Primitives → JoinSteps → JoinInput → Operation
  sync : Primitives → Codec → SyncSteps → Bool → Bytes → Operation
  quit : LeaveSteps → Operation
  sweep : ℕ → Operation

unfoldable pub perform : Operation → Manager → Manager
perform (start io name) m = (start_pairing io name m).0
perform (accept x io r) m = (accept_pair x io r m).0
perform (publish io) m = configuration_applied io m
perform (acknowledge io node ack) m = (record_acknowledgement io node ack m).0
perform (remove io node) m = (remove_node io node m).0
perform (join x io input) m = (join_controller x io input m).0
perform (sync x c io b message) m = sync_turn x c io b message m
perform (quit io) m = (leave io m).0
perform (sweep now) m = expire_pairings now m

unfoldable pub history : List Operation → Manager → Manager
unfolding perform
history [] m = m
history (o ∷ os) m = history os (perform o m)
