-- ===== src/Supervision/Updates.antt =====
-- src/unrest_harness/supervision.py: `_validate_monotonic_update` over several updates.
use unrest.Base.{
  ◌≡◌, refl, ap, Bool, true, false, not, ◌&&◌, ◌||◌, List, [], ◌∷◌, String, Option, none, some,
  arith, ◌==◌, eq_iff, eq_refl, contains, subset, ltb, eqb, ℕ,
}
use unrest.Supervision.{
  ActiveAttemptSnapshot, SupervisionPhase, SupervisionStatus, eq_option, same_attempt,
  checkpoint_advances, counts_advance, targets_advance, ranks_advance, partitions_targets,
  is_monotonic_update, terminal_snapshot, phase_rank, status_rank, is_active_phase,
  is_waiting_phase, role_index, scope_index, blocker_index,
}

eq_option_trans :
    (a b c : Option String) → eq_option a b ≡ true → eq_option b c ≡ true → eq_option a c ≡ true
eq_option_trans none none none h k = refl
eq_option_trans none none (some z) h k = k
eq_option_trans none (some y) c h k = cc
eq_option_trans (some x) none c h k = cc
eq_option_trans (some x) (some y) none h k = k
eq_option_trans (some x) (some y) (some z) h k =
    ground (arith, h, k, eq_iff x y, eq_iff y z, eq_iff x z)

contains-subset :
    (x : String) (xs ys : List String)
    → subset xs ys ≡ true
    → contains x xs ≡ true
    → contains x ys ≡ true
contains-subset x [] ys h c = cc
contains-subset x (y ∷ xs) ys h c =
    ground (arith, contains-subset x xs ys, eq_iff x y, ap (λ (s : String). contains s ys))

subset_trans :
    (xs ys zs : List String) → subset xs ys ≡ true → subset ys zs ≡ true → subset xs zs ≡ true
subset_trans [] ys zs h k = refl
subset_trans (x ∷ xs) ys zs h k = ground (arith, subset_trans xs ys zs, contains-subset x ys zs)

both : (p q : Bool) → p && q ≡ true → (p ≡ true) × (q ≡ true)
both p q h = (ground (arith, h), ground (arith, h))

join : (p q : Bool) → p ≡ true → q ≡ true → p && q ≡ true
join p q h k = ground (arith, h, k)

text_trans : (a b c : String) → (a == b) ≡ true → (b == c) ≡ true → (a == c) ≡ true
text_trans a b c h k = ground (arith, h, k, eq_iff a b, eq_iff b c, eq_iff a c)

number_trans : (a b c : ℕ) → eqb a b ≡ true → eqb b c ≡ true → eqb a c ≡ true
number_trans a b c h k = ground (arith, h, k)

at_least_trans : (a b c : ℕ) → not (ltb b a) ≡ true → not (ltb c b) ≡ true → not (ltb c a) ≡ true
at_least_trans a b c h k = ground (arith, h, k)

ranks_trans :
    (p q r s t u : ℕ)
    → not (ltb q p || ltb t s) ≡ true
    → not (ltb r q || ltb u t) ≡ true
    → not (ltb r p || ltb u s) ≡ true
ranks_trans p q r s t u h k = ground (arith, h, k)

-- The tests of the checkpoint sequence, over the sequences, the blockers and the scopes of three
-- snapshots as numbers, and what the phases of the three say.
forward : (s t b d o u : ℕ) (active_from waiting_to : Bool) → Bool
forward s t b d o u active_from waiting_to =
    not (ltb t s)
    && (not (active_from && (waiting_to && eqb t s))
        && not (eqb t s && (not (eqb d b) || not (eqb u o))))

forward_trans :
    (s t v b d f o u w : ℕ) (a1 w2 a2 w3 : Bool)
    → not (a1 && w3) || (a2 || w2) ≡ true
    → forward s t b d o u a1 w2 ≡ true
    → forward t v d f u w a2 w3 ≡ true
    → forward s v b f o w a1 w3 ≡ true
unfolding forward
forward_trans s t v b d f o u w a1 w2 a2 w3 m h k = ground (arith, m, h, k)

-- Between an active and a waiting phase, an update without rollback is active or waiting.
between :
    (p q r : SupervisionPhase)
    → not (ltb (phase_rank r) (phase_rank q)) ≡ true
    → not (is_active_phase p && is_waiting_phase r) || (is_active_phase q || is_waiting_phase q)
      ≡ true
between p q r h = ground (arith, h)

module _ (a b c : ActiveAttemptSnapshot) where
  same_attempt_trans : same_attempt a b ≡ true → same_attempt b c ≡ true → same_attempt a c ≡ true
  unfolding same_attempt
  same_attempt_trans h k =
      let (h1, h2) = both _ _ h in
      let (k1, k2) = both _ _ k in
      let (i1, i2) = both _ _ h2 in
      let (j1, j2) = both _ _ k2 in
      let (l1, l2) = both _ _ i2 in
      let (m1, m2) = both _ _ j2 in
      let (n1, n2) = both _ _ l2 in
      let (o1, o2) = both _ _ m2 in
      let (p1, p2) = both _ _ n2 in
      let (q1, q2) = both _ _ o2 in
      join _ _ (text_trans a.attempt_id b.attempt_id c.attempt_id h1 k1) (
        join _ _ (text_trans a.mission_id b.mission_id c.mission_id i1 j1) (
          join _ _ (eq_option_trans a.node_id b.node_id c.node_id l1 m1) (
            join _ _ (text_trans a.project_id b.project_id c.project_id n1 o1) (
              join _ _
                (number_trans (role_index a.role) (role_index b.role) (role_index c.role) p1 q1)
                (eq_option_trans a.terminal_review_id b.terminal_review_id c.terminal_review_id p2
                  q2)))))

  checkpoint_advances_trans :
      checkpoint_advances a b ≡ true
      → checkpoint_advances b c ≡ true
      → not (ltb (phase_rank c.phase) (phase_rank b.phase)) ≡ true
      → checkpoint_advances a c ≡ true
  unfolding checkpoint_advances forward
  checkpoint_advances_trans h k r =
      forward_trans a.checkpoint_sequence b.checkpoint_sequence c.checkpoint_sequence
        (blocker_index a.blocker_code) (blocker_index b.blocker_code) (blocker_index c.blocker_code)
        (scope_index a.scope_status) (scope_index b.scope_status) (scope_index c.scope_status)
        (is_active_phase a.phase) (is_waiting_phase b.phase) (is_active_phase b.phase)
        (is_waiting_phase c.phase) (between a.phase b.phase c.phase r) h k

  counts_advance_trans :
      counts_advance a b ≡ true → counts_advance b c ≡ true → counts_advance a c ≡ true
  unfolding counts_advance
  counts_advance_trans h k =
      let (h1, h2) = both _ _ h in
      let (k1, k2) = both _ _ k in
      let (i1, i2) = both _ _ h2 in
      let (j1, j2) = both _ _ k2 in
      join _ _
        (at_least_trans a.elapsed_nanoseconds b.elapsed_nanoseconds c.elapsed_nanoseconds h1 k1)
        (join _ _
          (at_least_trans a.checkpoint_requests b.checkpoint_requests c.checkpoint_requests i1 j1)
          (at_least_trans a.last_effect_sequence b.last_effect_sequence c.last_effect_sequence i2
            j2))

  targets_advance_trans :
      targets_advance a b ≡ true → targets_advance b c ≡ true → targets_advance a c ≡ true
  unfolding targets_advance
  targets_advance_trans h k =
      let (h1, h2) = both _ _ h in
      let (k1, k2) = both _ _ k in
      join _ _
        (subset_trans a.completed_target_ids b.completed_target_ids c.completed_target_ids h1 k1)
        (subset_trans c.remaining_target_ids b.remaining_target_ids a.remaining_target_ids k2 h2)

  apart : (p q : Bool) → not (p || q) ≡ true → (not p ≡ true) × (not q ≡ true)
  apart p q h = (ground (arith, h), ground (arith, h))

  ranks_advance_trans :
      ranks_advance a b ≡ true → ranks_advance b c ≡ true → ranks_advance a c ≡ true
  unfolding ranks_advance
  ranks_advance_trans h k =
      ranks_trans (phase_rank a.phase) (phase_rank b.phase) (phase_rank c.phase)
        (status_rank a.supervision_status) (status_rank b.supervision_status)
        (status_rank c.supervision_status) h k

  -- Two accepted updates in a row are together an accepted update: a snapshot that follows another by
  -- accepted steps could have replaced it at once.
  pub is_monotonic_update_trans :
      (assigned : List String)
      → is_monotonic_update a b assigned ≡ true
      → is_monotonic_update b c assigned ≡ true
      → is_monotonic_update a c assigned ≡ true
  unfolding is_monotonic_update
  is_monotonic_update_trans assigned h k =
      let (h1, h2) = both _ _ h in
      let (k1, k2) = both _ _ k in
      let (i1, i2) = both _ _ h2 in
      let (j1, j2) = both _ _ k2 in
      let (l1, l2) = both _ _ i2 in
      let (m1, m2) = both _ _ j2 in
      let (n1, n2) = both _ _ l2 in
      let (o1, o2) = both _ _ m2 in
      let (p1, p2) = both _ _ n2 in
      let (q1, q2) = both _ _ o2 in
      join _ _ (same_attempt_trans h1 k1) (
        join _ _ (checkpoint_advances_trans i1 j1 (unfold ranks_advance in (apart _ _ q1).0)) (
          join _ _ (counts_advance_trans l1 m1)
            (join _ _ (targets_advance_trans n1 o1) (join _ _ (ranks_advance_trans p1 q1) q2))))

eq_option_self : (o : Option String) → eq_option o o ≡ true
eq_option_self none = refl
eq_option_self (some x) = eq_refl x

subset_more : (x : String) (xs ys : List String) → subset xs ys ≡ true → subset xs (x ∷ ys) ≡ true
subset_more x [] ys h = refl
subset_more x (y ∷ xs) ys h = ground (arith, subset_more x xs ys)

subset_self : (xs : List String) → subset xs xs ≡ true
subset_self [] = refl
subset_self (x ∷ xs) = ground (arith, eq_refl x, subset_more x xs xs (subset_self xs))

rank_top : (p : SupervisionPhase) → not (ltb 2 (phase_rank p)) ≡ true
rank_top p = ground arith

status_top : (s : SupervisionStatus) → not (ltb 2 (status_rank s)) ≡ true
status_top s = ground arith

number_self : (n : ℕ) → (eqb n n ≡ true) × (ltb n n ≡ false)
number_self n = (ground arith, ground arith)

still :
    (s b o : ℕ) (active_from : Bool)
    → (not (ltb s s)
        && (not (active_from && (false && eqb s s))
            && not (eqb s s && (not (eqb b b) || not (eqb o o)))))
      ≡ true
still s b o active_from = ground (arith, number_self s, number_self b, number_self o)

counts_self :
    (a : ActiveAttemptSnapshot)
    → (not (ltb a.elapsed_nanoseconds a.elapsed_nanoseconds)
        && (not (ltb a.checkpoint_requests a.checkpoint_requests)
            && not (ltb a.last_effect_sequence a.last_effect_sequence)))
      ≡ true
counts_self a = ground (
  arith,
  number_self a.elapsed_nanoseconds,
  number_self a.checkpoint_requests,
  number_self a.last_effect_sequence,
)

ranks_top :
    (p : SupervisionPhase) (s : SupervisionStatus)
    → not (ltb 2 (phase_rank p) || ltb 2 (status_rank s)) ≡ true
ranks_top p s = ground (arith, rank_top p, status_top s)

-- The terminal snapshot of a snapshot whose targets are the assigned ones is an accepted update of it,
-- so that an attempt can be finalised from every phase.
is_monotonic_update-terminal_snapshot :
    (current : ActiveAttemptSnapshot) (assigned : List String)
    → partitions_targets current assigned ≡ true
    → is_monotonic_update current (terminal_snapshot current) assigned ≡ true
unfolding is_monotonic_update same_attempt checkpoint_advances counts_advance targets_advance
    ranks_advance partitions_targets terminal_snapshot
is_monotonic_update-terminal_snapshot current assigned h =
    join _ _
      (join _ _ (eq_refl current.attempt_id) (
        join _ _ (eq_refl current.mission_id) (
          join _ _ (eq_option_self current.node_id) (
            join _ _ (eq_refl current.project_id) (
              join _ _ ((number_self (role_index current.role)).0)
                (eq_option_self current.terminal_review_id))))))
      (join _ _
        (still current.checkpoint_sequence (blocker_index current.blocker_code)
          (scope_index current.scope_status) (is_active_phase current.phase))
        (join _ _ (counts_self current) (
          join _ _
            (join _ _ (subset_self current.completed_target_ids)
              (subset_self current.remaining_target_ids))
            (join _ _ (ranks_top current.phase current.supervision_status) h))))
