-- ===== src/Redundancy/Handlers.antt =====
-- internal/redundancy: the handlers of the controller keep what the tables hold in each role.
use faro.Prelude.{
  nat_eq, ◌≡◌, refl, sym, ap, subst, ◌∙◌, Bool, true, false, not, List, [], ◌∷◌, ltb, ◌==◌, arith,
  inl, inr, Bool-cases, Option-cases, ok,
}
use faro.Strings.{Bytes, bytes_eq}
use faro.Redundancy.Types.{
  Role, standalone, controller, replica, is_standalone, is_controller, is_replica, LocalState,
  Manager, PairRequest, PairingSession,
}
use faro.Redundancy.Roles.{
  Steps, snapshot_of, build_snapshot, commit_snapshot, capture_snapshot, initialize_controller,
}
use faro.Redundancy.Crypto.{Primitives, or_error}
use faro.Redundancy.Pairing.{
  PairSteps, then_do, lift, read_state, rename_controller, repair_snapshot, prepare_pairing_state,
  create_pairing_code, normalize_pairing_node_name, start_pairing, store_paired_node,
  consume_pairing, check_pair, pair_response, pair_node, accept_pair,
}
use faro.Redundancy.Membership.{
  Holds, IsWellFormed, then_do-keeps, controller_role, capture_snapshot-IsWellFormed,
  initialize_controller-IsWellFormed,
}

-- Nodes, pairing codes and the columns beside revision and home are free for a controller.
controller-free :
    (m n : Manager)
    → n.snapshots ≡ m.snapshots
    → n.state.config_revision ≡ m.state.config_revision
    → n.state.home_id ≡ m.state.home_id
    → Holds controller m
    → Holds controller n
controller-free m n s r i (inl e) = inl (r ∙ e)
controller-free m n s r i (inr (p, e, revision, home)) =
    inr (p, s ∙ (e ∙ ap (λ k. (k, p) ∷ []) (sym r)), revision ∙ sym r, home ∙ sym i)

tables-free :
    (role : Role) (m n : Manager)
    → n.snapshots ≡ m.snapshots
    → n.state.config_revision ≡ m.state.config_revision
    → n.state.home_id ≡ m.state.home_id
    → (m.nodes ≡ [] → n.nodes ≡ [])
    → Holds role m
    → Holds role n
tables-free standalone m n s r i f (a, b) = (f a, s ∙ b)
tables-free replica m n s r i f (a, b) = (f a, s ∙ b)
tables-free controller m n s r i f h = controller-free m n s r i h

pub tables-IsWellFormed :
    (m n : Manager)
    → n.state.role ≡ m.state.role
    → n.snapshots ≡ m.snapshots
    → n.state.config_revision ≡ m.state.config_revision
    → n.state.home_id ≡ m.state.home_id
    → (m.nodes ≡ [] → n.nodes ≡ [])
    → IsWellFormed m
    → IsWellFormed n
tables-IsWellFormed m n role s r i f h =
    subst (λ k. Holds k n) (sym role) (tables-free m.state.role m n s r i f h)

-- The manager of a controller, well-formed.
abbrev pub IsController : Manager → Type 0
IsController m = (m.state.role ≡ controller) × IsWellFormed m

IsController-update :
    (m n : Manager)
    → n.state.role ≡ m.state.role
    → n.snapshots ≡ m.snapshots
    → n.state.config_revision ≡ m.state.config_revision
    → n.state.home_id ≡ m.state.home_id
    → IsController m
    → IsController n
IsController-update m n role s r i (c, h) = (
  role ∙ c,
  subst (λ k. Holds k n) (sym (role ∙ c)) (controller-free m n s r i (subst (λ k. Holds k m) c h)),
)

capture_snapshot-role :
    (io : Steps) (m : Manager) → (capture_snapshot io m.state m).0.state.role ≡ m.state.role
unfolding capture_snapshot build_snapshot snapshot_of commit_snapshot
capture_snapshot-role io m = elim (Option-cases io.generated) [
  | inl e ↦ rw e refl
  | inr (g, e) ↦ rw e (ground arith)
]

pub read_state-ok :
    (b : Bool) (m n : Manager) (s : LocalState)
    → read_state b m ≡ (n, ok s)
    → (m ≡ n) × (s ≡ m.state)
unfolding read_state
read_state-ok true m n s h = ground arith
read_state-ok false m n s h = absurd (ground arith)

pub read_state-keeps : (P : Manager → Type 0) (b : Bool) (m : Manager) → P m → P (read_state b m).0
unfolding read_state
read_state-keeps P true m h = h
read_state-keeps P false m h = h

repair_snapshot-IsController :
    (io : Steps) (m : Manager) → IsController m → IsController (repair_snapshot io m.state m).0
unfolding repair_snapshot
repair_snapshot-IsController io m (c, h) = elim (Bool-cases (m.state.config_revision == 0)) [
  | inl e ↦ rw e (
      then_do-keeps IsController (capture_snapshot io m.state m) (λ n u. read_state io.reread_ok n)
        (capture_snapshot-role io m ∙ c, capture_snapshot-IsWellFormed io m h)
        (λ n u same. read_state-keeps IsController io.reread_ok n (
          subst IsController (ap (λ p. p.0) same)
            (capture_snapshot-role io m ∙ c, capture_snapshot-IsWellFormed io m h))))
  | inr e ↦ rw e (c, h)
]

rename_controller-IsController :
    (io : Steps) (name : Bytes) (s : LocalState) (m : Manager)
    → IsController m
    → IsController (rename_controller io name s m).0
unfolding rename_controller
rename_controller-IsController io name s m h = elim (Bool-cases (s.node_name == name)) [
  | inl e ↦ rw e h
  | inr e ↦ elim (Bool-cases io.rename_ok) [
    | inl w ↦
        rw (e, w)
          (IsController-update m (record m { state = record (m.state) { node_name = name } }) refl
            refl refl refl h)
    | inr w ↦ rw (e, w) h
  ]
]

pairings-free :
    (m : Manager) (l : List (Bytes × PairingSession))
    → IsWellFormed m
    → IsWellFormed (record m { pairings = l })
pairings-free m l h =
    tables-free m.state.role m (record m { pairings = l }) refl refl refl (λ e. e) h

repair_rename-IsWellFormed :
    (io : Steps) (name : Bytes) (m : Manager)
    → IsController m
    → IsWellFormed
        (then_do
          (repair_snapshot io m.state m)
          (λ p repaired. rename_controller io name repaired p)).0
repair_rename-IsWellFormed io name m h =
    then_do-keeps IsWellFormed (repair_snapshot io m.state m)
      (λ p repaired. rename_controller io name repaired p) (repair_snapshot-IsController io m h).1
      (λ p s same.
        (rename_controller-IsController io name s p
          (subst IsController (ap (λ p. p.0) same) (repair_snapshot-IsController io m h))).1)

prepare_pairing_state-IsWellFormed :
    (io : PairSteps) (name : Bytes) (m : Manager)
    → IsWellFormed m
    → IsWellFormed (prepare_pairing_state io name m).0
unfolding prepare_pairing_state
prepare_pairing_state-IsWellFormed io name m h =
    then_do-keeps IsWellFormed (read_state io.steps.read_ok m) _
      (read_state-keeps IsWellFormed io.steps.read_ok m h)
      (λ n s read.
        let (same, state) = read_state-ok io.steps.read_ok m n s read in
        let g = subst IsWellFormed same h in
        elim (Bool-cases (is_replica s.role)) [
          | inl e ↦ rw e g
          | inr e ↦ elim (Bool-cases (is_standalone s.role)) [
            | inl a ↦
                rw (e, a)
                  (then_do-keeps IsWellFormed (lift n (or_error _ io.random_id)) _ g
                    (λ p home drawn.
                      let k = subst IsWellFormed (ap (λ p. p.0) drawn) g in
                      then_do-keeps IsWellFormed (initialize_controller io.steps s home name p) _
                        (initialize_controller-IsWellFormed io.steps s home name p k)
                        (λ q u done. read_state-keeps IsWellFormed io.steps.reread_ok q (
                          subst IsWellFormed (ap (λ p. p.0) done)
                            (initialize_controller-IsWellFormed io.steps s home name p k)))))
            | inr a ↦
                rw (e, a)
                  (subst
                    (λ t.
                      IsWellFormed
                        (then_do (repair_snapshot io.steps t n)
                          (λ p repaired. rename_controller io.steps name repaired p)).0)
                    (sym (state ∙ ap (λ m. m.state) same))
                    (repair_rename-IsWellFormed io.steps name n
                      (controller_role n.state.role (ground arith), g)))
          ]
        ])

create_pairing_code-IsWellFormed :
    (io : PairSteps) (m : Manager) → IsWellFormed m → IsWellFormed (create_pairing_code io m).0
unfolding create_pairing_code
create_pairing_code-IsWellFormed io m h =
    then_do-keeps IsWellFormed (lift m (or_error _ io.random_id)) _ h (λ n id a.
      let hn = subst IsWellFormed (ap (λ p. p.0) a) h in
      then_do-keeps IsWellFormed (lift n (or_error _ io.random_token)) _ hn (λ p token b.
        let hp = subst IsWellFormed (ap (λ p. p.0) b) hn in
        then_do-keeps IsWellFormed (lift p (or_error _ io.key_pair)) _ hp
          (λ q pair c. pairings-free q _ (subst IsWellFormed (ap (λ p. p.0) c) hp))))

pub start_pairing-IsWellFormed :
    (io : PairSteps) (name : Bytes) (m : Manager)
    → IsWellFormed m
    → IsWellFormed (start_pairing io name m).0
unfolding start_pairing
start_pairing-IsWellFormed io name m h =
    then_do-keeps IsWellFormed (lift m (normalize_pairing_node_name name)) _ h (λ n chosen a.
      let hn = subst IsWellFormed (ap (λ p. p.0) a) h in
      then_do-keeps IsWellFormed (prepare_pairing_state io chosen n) _
        (prepare_pairing_state-IsWellFormed io chosen n hn)
        (λ p s b.
          let hp =
            subst IsWellFormed (ap (λ p. p.0) b)
              (prepare_pairing_state-IsWellFormed io chosen n hn) in
          elim (Bool-cases (ltb s.config_revision 1)) [
            | inl e ↦ rw e hp
            | inr e ↦ rw e (create_pairing_code-IsWellFormed io p hp)
          ]))

pair_node-IsController :
    (x : Primitives) (io : PairSteps) (s : LocalState) (m : Manager) (r : PairRequest)
    (t : PairingSession) (key : Bytes)
    → IsController m
    → IsController (pair_node x io s m r t key).0
unfolding pair_node store_paired_node consume_pairing
pair_node-IsController x io s m r t key h =
    then_do-keeps IsController (lift m (or_error _ io.random_token)) _ h (λ n secret a.
      let hn = subst IsController (ap (λ p. p.0) a) h in
      then_do-keeps IsController (lift n (or_error _ (io.encrypt secret))) _ hn (λ p text b.
        let hp = subst IsController (ap (λ p. p.0) b) hn in
        elim (Bool-cases (not io.store_ok)) [
          | inl e ↦ rw e hp
          | inr e ↦ rw e (
              let hs =
                IsController-update p (store_paired_node io.steps.now r text p) refl refl refl refl
                  hp in
              then_do-keeps IsController
                (lift (store_paired_node io.steps.now r text p) (pair_response x io s t key secret))
                _ hs
                (λ q envelope c.
                  IsController-update q (consume_pairing r.pairing_id q) refl refl refl refl
                    (subst IsController (ap (λ p. p.0) c) hs)))
        ]))

pub accept_pair-IsWellFormed :
    (x : Primitives) (io : PairSteps) (r : PairRequest) (m : Manager)
    → IsWellFormed m
    → IsWellFormed (accept_pair x io r m).0
unfolding accept_pair
accept_pair-IsWellFormed x io r m h =
    then_do-keeps IsWellFormed (read_state io.steps.read_ok m) _
      (read_state-keeps IsWellFormed io.steps.read_ok m h)
      (λ n s read.
        let (same, state) = read_state-ok io.steps.read_ok m n s read in
        let g = subst IsWellFormed same h in
        let own = state ∙ ap (λ m. m.state) same in
        elim (Bool-cases (not (is_controller s.role))) [
          | inl e ↦ rw e g
          | inr e ↦
              let hr =
                subst (λ t. IsController (repair_snapshot io.steps t n).0) (sym own)
                  (repair_snapshot-IsController io.steps n
                    (ap (λ t. t.role) (sym own) ∙ controller_role s.role (ground arith), g)) in
              rw e (
                then_do-keeps IsWellFormed (repair_snapshot io.steps s n) _ hr.1 (λ p current a.
                  let hp = subst IsController (ap (λ p. p.0) a) hr in
                  then_do-keeps IsWellFormed (lift p (check_pair x io r p)) _ hp.1 (λ q checked b.
                    (pair_node-IsController x io current q checked.0 checked.1 checked.2
                      (subst IsController (ap (λ p. p.0) b) hp)).1)))
        ])
