-- ===== src/Supervision/Receipts/Once.antt =====
-- The pending nudges of an attempt in a history that `_validate_receipt_transitions` of supervision.py
-- accepts.
use unrest.Base.{
  ℕ, suc, ◌≤◌, ◌≡◌, refl, ap, arith, Bool, true, false, ◌&&◌, List, [], ◌∷◌, any, ◌==◌,
  if◌then◌else◌, and_left, and_right, eq_iff, String,
}
use unrest.Supervision.Receipts.{
  SteeringBinding, SupervisionReceipt, DeliveryStatus, Seen, has_status, is_accepted,
  same_attempt_key, may_stand, seen_with, transitions, none_seen, validate_receipt_transitions,
}

-- How many receipts are a pending one of the attempt.
unfoldable pub pending_count : SteeringBinding → List SupervisionReceipt → ℕ
pending_count a [] = 0
pending_count a (r ∷ rs) =
    let rest = pending_count a rs in
    if has_status DeliveryStatus.pending r && same_attempt_key a r.binding then suc rest else rest

same_attempt_key-at :
    (a b c : SteeringBinding)
    → same_attempt_key a b ≡ true
    → same_attempt_key b c ≡ same_attempt_key a c
same_attempt_key-at a b c h = ground (
  arith,
  ap (λ (t : String). t == c.attempt_id),
  ap (λ (t : String). t == c.mission_id),
  ap (λ (t : String). t == c.project_id),
  eq_iff a.attempt_id b.attempt_id,
  eq_iff a.mission_id b.mission_id,
  eq_iff a.project_id b.project_id,
)

any-same_attempt_key :
    (a b : SteeringBinding) (cs : List SteeringBinding)
    → same_attempt_key a b ≡ true
    → any (same_attempt_key b) cs ≡ any (same_attempt_key a) cs
any-same_attempt_key a b [] h = refl
any-same_attempt_key a b (c ∷ cs) h =
    ground (arith, same_attempt_key-at a b c h, any-same_attempt_key a b cs h)

-- A pending receipt that may stand opens its binding.
pending_opens :
    (s : Seen) (rows : List SupervisionReceipt) (r : SupervisionReceipt)
    → may_stand s rows r ≡ true
    → has_status DeliveryStatus.pending r ≡ true
    → (rows ≡ [])
      × ((is_accepted r ≡ true) × (any (same_attempt_key r.binding) s.accepted_nudges ≡ false))
unfolding may_stand
pending_opens s [] r h p = (refl, (ground arith, ground arith))
pending_opens s (first ∷ rows) r h p = ground arith

-- How many pending receipts of the attempt may still come.
abbrev room : SteeringBinding → Seen → ℕ
room a s = if any (same_attempt_key a) s.accepted_nudges then 0 else 1

room-seen_with :
    (a : SteeringBinding) (s : Seen) (rows : List SupervisionReceipt) (r : SupervisionReceipt)
    → room a (seen_with s rows r) ≤ room a s
unfolding seen_with
room-seen_with a s [] r = ground arith
room-seen_with a s (first ∷ rows) r = omega arith

-- After an accepted nudge there is no room for another.
room-spent :
    (a : SteeringBinding) (s : Seen) (rows : List SupervisionReceipt) (r : SupervisionReceipt)
    → rows ≡ []
    → is_accepted r ≡ true
    → same_attempt_key a r.binding ≡ true
    → room a (seen_with s rows r) ≡ 0
unfolding seen_with
room-spent a s [] r e accepted same = ground arith
room-spent a s (first ∷ rows) r e accepted same = cc

room-fresh :
    (a b : SteeringBinding) (s : Seen)
    → same_attempt_key a b ≡ true
    → any (same_attempt_key b) s.accepted_nudges ≡ false
    → room a s ≡ 1
room-fresh a b s same fresh = ground (arith, any-same_attempt_key a b s.accepted_nudges same)

transitions-room :
    (a : SteeringBinding) (expected : ℕ) (s : Seen) (rs : List SupervisionReceipt)
    → transitions expected s rs ≡ true
    → pending_count a rs ≤ room a s
unfolding transitions pending_count
transitions-room a expected s [] h = ground arith
transitions-room a expected s (r ∷ rs) h =
    let rows = s.groups r.binding in
    let stands : may_stand s rows r ≡ true = ground arith in
    let rest = transitions-room a (suc expected) (seen_with s rows r) rs (ground arith) in
    go rows (has_status DeliveryStatus.pending r && same_attempt_key a r.binding) refl stands rest
  where
    go :
        (rows : List SupervisionReceipt) (b : Bool)
        → (has_status DeliveryStatus.pending r && same_attempt_key a r.binding) ≡ b
        → may_stand s rows r ≡ true
        → pending_count a rs ≤ room a (seen_with s rows r)
        → (if b then suc (pending_count a rs) else pending_count a rs) ≤ room a s
    go rows true e stands rest =
        let same =
          and_right (has_status DeliveryStatus.pending r) (same_attempt_key a r.binding) e in
        let (opens, (accepted, fresh)) =
          pending_opens s rows r stands
            (and_left (has_status DeliveryStatus.pending r) (same_attempt_key a r.binding) e) in
        omega
          (arith, room-spent a s rows r opens accepted same, room-fresh a r.binding s same fresh)
    go rows false e stands rest = omega (arith, room-seen_with a s rows r)

-- In a history that `_validate_receipt_transitions` accepts, no attempt has two pending nudges: a nudge
-- of an attempt is accepted at most once, whatever its checkpoint.
pub validate_receipt_transitions-once :
    (receipts : List SupervisionReceipt) (a : SteeringBinding)
    → validate_receipt_transitions receipts ≡ true
    → pending_count a receipts ≤ 1
unfolding validate_receipt_transitions
validate_receipt_transitions-once receipts a h = transitions-room a 1 none_seen receipts h
