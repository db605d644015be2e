-- ===== src/Supervision/Receipts.antt =====
-- src/unrest_harness/supervision.py, `_validate_receipt_transitions`, and the receipts of models.py.
pub mod Once
use unrest.Base.{
  ℕ, suc, Bool, true, false, not, ◌&&◌, ◌||◌, List, [], ◌∷◌, ◌++◌, String, Option, none, some, ◌==◌,
  if◌then◌else◌, any, length, leb, eqb,
}

pub data Action : Type 0 where
  continue nudge stop_for_attention : Action

pub data Actor : Type 0 where
  orchestrator maintainer timeout_policy : Actor

pub data DeliveryStatus : Type 0 where
  not_applicable pending delivered consumed delivery_blocked : DeliveryStatus

pub record SteeringBinding : Type 0 where
  pub project_id : String
  pub mission_id : String
  pub node_id : Option String
  pub terminal_review_id : Option String
  pub attempt_id : String
  pub checkpoint_sequence : ℕ

pub record SupervisionReceipt : Type 0 where
  pub binding : SteeringBinding
  pub receipt_sequence : ℕ
  pub action : Action
  pub actor : Actor
  pub body_byte_count : ℕ
  pub body_sha256 : Option String
  pub delivery_status : DeliveryStatus

abbrev pub action_index : Action → ℕ
action_index Action.continue = 0
action_index Action.nudge = 1
action_index Action.stop_for_attention = 2

abbrev pub actor_index : Actor → ℕ
actor_index Actor.orchestrator = 0
actor_index Actor.maintainer = 1
actor_index Actor.timeout_policy = 2

abbrev pub status_index : DeliveryStatus → ℕ
status_index DeliveryStatus.not_applicable = 0
status_index DeliveryStatus.pending = 1
status_index DeliveryStatus.delivered = 2
status_index DeliveryStatus.consumed = 3
status_index DeliveryStatus.delivery_blocked = 4

abbrev pub is_nudge : SupervisionReceipt → Bool
is_nudge r = eqb (action_index r.action) (action_index Action.nudge)

abbrev pub has_status : DeliveryStatus → SupervisionReceipt → Bool
has_status s r = eqb (status_index r.delivery_status) (status_index s)

abbrev pub same_option : Option String → Option String → Bool
same_option none none = true
same_option (some x) (some y) = x == y
same_option _ _ = false

-- The project, the mission and the attempt: the key of an accepted nudge.
abbrev pub same_attempt_key : SteeringBinding → SteeringBinding → Bool
same_attempt_key a b =
    a.attempt_id == b.attempt_id && (a.mission_id == b.mission_id && a.project_id == b.project_id)

-- Equality of `_binding_key`.
abbrev pub same_binding : SteeringBinding → SteeringBinding → Bool
same_binding a b =
    same_attempt_key a b
    && (same_option a.node_id b.node_id
        && (same_option a.terminal_review_id b.terminal_review_id
            && eqb a.checkpoint_sequence b.checkpoint_sequence))

-- The rows of each binding so far, and the attempts with an accepted nudge.
pub record Seen : Type 0 where
  pub groups : SteeringBinding → List SupervisionReceipt
  pub accepted_nudges : List SteeringBinding

-- A pending nudge, which counts as accepted.
abbrev pub is_accepted : SupervisionReceipt → Bool
is_accepted r = is_nudge r && has_status DeliveryStatus.pending r

-- The receipt may be the first of its binding.
unfoldable pub may_open : Seen → SupervisionReceipt → Bool
may_open s r =
    (if is_nudge r
      then has_status DeliveryStatus.pending r || has_status DeliveryStatus.delivery_blocked r
      else has_status DeliveryStatus.not_applicable r
        || has_status DeliveryStatus.delivery_blocked r)
    && not (is_accepted r && any (same_attempt_key r.binding) s.accepted_nudges)

-- The receipt may follow `count` rows, of which `first` is the first.
unfoldable pub may_follow : SupervisionReceipt → ℕ → SupervisionReceipt → Bool
may_follow first count r =
    not (has_status DeliveryStatus.delivery_blocked first || not (is_nudge first))
    && (leb count 2
        && ((if eqb count 1
              then has_status DeliveryStatus.delivered r
              else has_status DeliveryStatus.consumed r)
            && (eqb (action_index r.action) (action_index first.action)
                && (eqb (actor_index r.actor) (actor_index first.actor)
                    && (eqb r.body_byte_count first.body_byte_count
                        && same_option r.body_sha256 first.body_sha256)))))

unfoldable pub may_stand : Seen → List SupervisionReceipt → SupervisionReceipt → Bool
unfolding may_open may_follow
may_stand s [] r = may_open s r
may_stand s (first ∷ rows) r = may_follow first (suc (length rows)) r

unfoldable pub seen_with : Seen → List SupervisionReceipt → SupervisionReceipt → Seen
seen_with s rows r = record {
  groups = λ k. if same_binding r.binding k then rows ++ r ∷ [] else s.groups k;
  accepted_nudges = elim rows [
    | [] ↦ if is_accepted r then r.binding ∷ s.accepted_nudges else s.accepted_nudges
    | first ∷ more ↦ s.accepted_nudges
  ];
}

unfoldable pub transitions : ℕ → Seen → List SupervisionReceipt → Bool
unfolding may_stand seen_with
transitions expected s [] = true
transitions expected s (r ∷ rs) =
    let rows = s.groups r.binding in
    eqb r.receipt_sequence expected
    && (may_stand s rows r && transitions (suc expected) (seen_with s rows r) rs)

abbrev pub none_seen : Seen
none_seen = record { groups = λ k. []; accepted_nudges = [] }

-- `_validate_receipt_transitions`: `true` where it does not raise.
unfoldable pub validate_receipt_transitions : List SupervisionReceipt → Bool
unfolding transitions
validate_receipt_transitions receipts = transitions 1 none_seen receipts
