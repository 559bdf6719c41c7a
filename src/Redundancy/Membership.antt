-- ===== src/Redundancy/Membership.antt =====
-- internal/redundancy: what the tables hold in each role, kept by every operation; leaving.
use faro.Prelude.{
  nat_eq, ◌+◌, ◌≡◌, refl, sym, subst, true, not, ◌&&◌, ◌||◌, [], ◌∷◌, some, ◌==◌, arith, ◌⊎◌, inl,
  inr, Bool-cases, Option-cases, ok, err,
}
use faro.Strings.{Bytes, bytes_eq}
use faro.Redundancy.Types.{
  Role, standalone, controller, replica, is_standalone, is_controller, LocalState, ConfigSnapshot,
  Manager,
}
use faro.Redundancy.Roles.{
  Steps, Outcome, snapshot_of, build_snapshot, commit_controller, initialize_controller,
  commit_snapshot, capture_snapshot, configuration_applied,
}
use faro.Redundancy.Pairing.{then_do}

-- A controller that has captured its configuration keeps one snapshot: that of its revision and home.
abbrev pub IsPublished : Manager → Type 0
IsPublished m =
    (payload : ConfigSnapshot) × (m.snapshots ≡ (m.state.config_revision, payload) ∷ [])
    × (payload.revision ≡ m.state.config_revision)
    × (payload.home_id ≡ m.state.home_id)

abbrev pub Holds : Role → Manager → Type 0
Holds standalone m = (m.nodes ≡ []) × (m.snapshots ≡ [])
Holds replica m = (m.nodes ≡ []) × (m.snapshots ≡ [])
Holds controller m = (m.state.config_revision ≡ 0) ⊎ IsPublished m

abbrev pub IsWellFormed : Manager → Type 0
IsWellFormed m = Holds m.state.role m

pub then_do-keeps :
    {A B : Type 0} (P : Manager → Type 0) (r : Outcome A) (k : Manager → A → Outcome B)
    → P r.0
    → ((m : Manager) (a : A) → r ≡ (m, ok a) → P (k m a).0)
    → P (then_do r k).0
then_do-keeps P (m, ok a) k h f = f m a refl
then_do-keeps P (m, err e) k h f = h

role_cases : (r : Role) → (r ≡ standalone) ⊎ ((r ≡ controller) ⊎ (r ≡ replica))
role_cases standalone = inl refl
role_cases controller = inr (inl refl)
role_cases replica = inr (inr refl)

pub controller_role : (r : Role) → is_controller r ≡ true → r ≡ controller
controller_role standalone h = absurd (ground arith)
controller_role controller h = refl
controller_role replica h = absurd (ground arith)

commit_snapshot-IsWellFormed :
    (io : Steps) (m : Manager) (p : ConfigSnapshot)
    → p.revision ≡ m.state.config_revision + 1
    → p.home_id ≡ m.state.home_id
    → IsWellFormed m
    → IsWellFormed (commit_snapshot io m.state m (some p)).0
unfolding commit_snapshot
commit_snapshot-IsWellFormed io m p revision home h =
    elim (Bool-cases
      (not (is_controller m.state.role && m.state.config_revision == m.state.config_revision))) [
        | inl e ↦ rw e h
        | inr e ↦ elim (Bool-cases io.write_ok) [
          | inl w ↦
              rw (e, w)
                (subst
                  (λ r. Holds r (record m {
                    state = record (m.state) {
                      config_revision = m.state.config_revision + 1;
                      last_error = [];
                    };
                    snapshots = (m.state.config_revision + 1, p) ∷ [];
                  }))
                  (sym (controller_role m.state.role (ground arith)))
                  (inr (p, refl, revision, home)))
          | inr w ↦ rw (e, w) h
        ]
      ]

pub capture_snapshot-IsWellFormed :
    (io : Steps) (m : Manager) → IsWellFormed m → IsWellFormed (capture_snapshot io m.state m).0
unfolding capture_snapshot build_snapshot snapshot_of commit_snapshot
capture_snapshot-IsWellFormed io m h = elim (Option-cases io.generated) [
  | inl e ↦ rw e h
  | inr (g, e) ↦ rw e (commit_snapshot-IsWellFormed io m _ refl refl h)
]

commit_controller-IsWellFormed :
    (io : Steps) (home name : Bytes) (m : Manager) (p : ConfigSnapshot)
    → p.revision ≡ 1
    → p.home_id ≡ home
    → IsWellFormed m
    → IsWellFormed (commit_controller io home name m (some p)).0
unfolding commit_controller
commit_controller-IsWellFormed io home name m p revision same h =
    elim (Bool-cases (not (is_standalone m.state.role))) [
      | inl e ↦ rw e h
      | inr e ↦ elim (Bool-cases io.write_ok) [
        | inl w ↦ rw (e, w) (inr (p, refl, revision, same))
        | inr w ↦ rw (e, w) h
      ]
    ]

pub initialize_controller-IsWellFormed :
    (io : Steps) (state : LocalState) (home name : Bytes) (m : Manager)
    → IsWellFormed m
    → IsWellFormed (initialize_controller io state home name m).0
unfolding initialize_controller build_snapshot snapshot_of commit_controller
initialize_controller-IsWellFormed io state home name m h = elim (Option-cases io.generated) [
  | inl e ↦ rw e h
  | inr (g, e) ↦ rw e (commit_controller-IsWellFormed io home name m _ refl refl h)
]

pub configuration_applied-IsWellFormed :
    (io : Steps) (m : Manager) → IsWellFormed m → IsWellFormed (configuration_applied io m)
unfolding configuration_applied
configuration_applied-IsWellFormed io m h =
    elim (Bool-cases (not io.read_ok || not (is_controller m.state.role))) [
      | inl e ↦ rw e h
      | inr e ↦ rw e (capture_snapshot-IsWellFormed io m h)
    ]
