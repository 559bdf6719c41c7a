-- ===== src/Redundancy/Leaving.antt =====
-- internal/redundancy: leaving a setup, and following a controller.
use faro.Prelude.{
  nat_eq, ◌≡◌, refl, sym, subst, true, List, [], ◌∷◌, arith, ◌⊎◌, inl, inr, Bool-cases,
}
use faro.Prelude.Maps.{delete}
use faro.Strings.{Bytes, bytes_eq, trim_space}
use faro.Redundancy.Types.{
  Role, standalone, controller, replica, is_replica, NodeRow, Manager, SyncAck,
}
use faro.Redundancy.Roles.{standalone_row, set_standalone, LeaveSteps, leave}
use faro.Redundancy.Nodes.{
  NodeSteps, record_acknowledgement, remove_node, acknowledged_row, update_row,
}
use faro.Redundancy.Membership.{Holds, IsWellFormed}
use faro.Redundancy.Handlers.{tables-IsWellFormed}

pub replica_role : (r : Role) → is_replica r ≡ true → r ≡ replica
replica_role standalone h = absurd (ground arith)
replica_role controller h = absurd (ground arith)
replica_role replica h = refl

-- A manager whose tables are empty is itself when its row is written back.
restored :
    (m : Manager)
    → m.nodes ≡ []
    → m.snapshots ≡ []
    → record (set_standalone m) { state = m.state } ≡ m
unfolding set_standalone
restored m a b = ground arith

restored_replica :
    (m : Manager)
    → is_replica m.state.role ≡ true
    → IsWellFormed m
    → record (set_standalone m) { state = m.state } ≡ m
restored_replica m e h =
    let t = subst (λ r. Holds r m) (replica_role m.state.role e) h in restored m t.0 t.1

leave_cases :
    (io : LeaveSteps) (m : Manager)
    → IsWellFormed m
    → ((leave io m).0 ≡ m)
      ⊎ (((leave io m).0.state.role ≡ standalone)
          × ((leave io m).0.nodes ≡ [])
          × ((leave io m).0.snapshots ≡ []))
unfolding leave set_standalone standalone_row
leave_cases io m h = elim (Bool-cases (is_replica m.state.role)) [
  | inl r ↦ ground (arith, restored_replica m r h)
  | inr r ↦ ground arith
]

pub leave-IsWellFormed :
    (io : LeaveSteps) (m : Manager) → IsWellFormed m → IsWellFormed (leave io m).0
leave-IsWellFormed io m h = elim (leave_cases io m h) [
  | inl e ↦ subst IsWellFormed (sym e) h
  | inr (r, a, b) ↦ subst (λ k. Holds k (leave io m).0) (sym r) (a, b)
]

update_row-nil :
    (f : NodeRow → NodeRow) (k : Bytes) (l : List (Bytes × NodeRow))
    → l ≡ []
    → update_row f k l ≡ []
update_row-nil f k [] h = refl
update_row-nil f k (x ∷ l) h = absurd (ground arith)

pub record_acknowledgement-IsWellFormed :
    (io : NodeSteps) (k : Bytes) (ack : SyncAck) (m : Manager)
    → IsWellFormed m
    → IsWellFormed (record_acknowledgement io k ack m).0
unfolding record_acknowledgement
record_acknowledgement-IsWellFormed io k ack m h =
    tables-IsWellFormed m (record_acknowledgement io k ack m).0 (ground arith) (ground arith)
      (ground arith) (ground arith)
      (ground (arith, update_row-nil (acknowledged_row io.now ack) k m.nodes)) h

delete-nil : (k : Bytes) (l : List (Bytes × NodeRow)) → l ≡ [] → delete k l ≡ []
delete-nil k [] h = refl
delete-nil k (x ∷ l) h = absurd (ground arith)

pub remove_node-IsWellFormed :
    (io : NodeSteps) (k : Bytes) (m : Manager)
    → IsWellFormed m
    → IsWellFormed (remove_node io k m).0
unfolding remove_node
remove_node-IsWellFormed io k m h =
    tables-IsWellFormed m (remove_node io k m).0 (ground arith) (ground arith) (ground arith)
      (ground arith) (ground (arith, delete-nil (trim_space k) m.nodes)) h
