-- ===== src/Supervision/Policy/Bounds.antt =====
-- src/unrest_harness/supervision.py: when `evaluate_checkpoint_policy` says that a checkpoint is due.
use unrest.Base.{
  ◌≡◌, refl, sym, subst, ℕ, ◌+◌, ◌-◌, ◌*◌, ◌%◌, ◌≤◌, ◌<◌, ◌⊎◌, inl, inr, Bool, true, false, not,
  ◌||◌, Option, none, some, arith, if◌then◌else◌, is_some, ltb, leb, eqb,
}
use unrest.Supervision.{ActiveAttemptSnapshot}
use unrest.Supervision.Policy.{
  CheckpointPolicyState, CheckpointEvaluation, Reason, evaluate_silence, evaluate_checkpoint_policy,
  with_effect, anchor_of, backoff_multiplier, is_out_of_scope, silence_nanoseconds,
  first_checkpoint_nanoseconds, max_checkpoint_requests, poll_nanoseconds,
}

-- A checkpoint may be asked for by its signal, or by a long enough attempt and silence.
abbrev pub IsDue : ActiveAttemptSnapshot → CheckpointPolicyState → ℕ → Type 0
IsDue snapshot next now =
    ((is_some snapshot.blocker_code || is_out_of_scope snapshot.scope_status) ≡ true)
    ⊎ ((next.attempt_started_nanoseconds + first_checkpoint_nanoseconds ≤ now)
        × (next.last_effect_nanoseconds
              + silence_nanoseconds * backoff_multiplier next.backoff_index
            ≤ now)
        × ((request : ℕ)
            → next.latest_request_nanoseconds ≡ some request
            → request + silence_nanoseconds * backoff_multiplier next.backoff_index ≤ now))

abbrev decides : (cap early soon quiet : Bool) → CheckpointPolicyState → CheckpointEvaluation
decides cap early soon quiet next =
    let answer : Bool → Reason → CheckpointEvaluation =
      λ due reason. record { checkpoint_due = due; reason = reason; state = next } in
    if cap
    then answer false Reason.request_cap
    else if early
    then answer true Reason.early_signal
    else if soon
    then answer false Reason.too_early
    else if quiet
    then answer false Reason.silence_below_threshold
    else answer true Reason.normal_threshold

decides-due :
    (cap early soon quiet : Bool) (next : CheckpointPolicyState)
    → (decides cap early soon quiet next).checkpoint_due ≡ true
    → (cap ≡ false) × ((early ≡ true) ⊎ ((soon ≡ false) × (quiet ≡ false)))
decides-due true early soon quiet next h = cc
decides-due false true soon quiet next h = (refl, inl refl)
decides-due false false true quiet next h = cc
decides-due false false false true next h = cc
decides-due false false false false next h = (refl, inr (refl, refl))

not_below : (a b : ℕ) → ltb a b ≡ false → b ≤ a
not_below a b h = ground (arith, h)

anchor-effect : (effect : ℕ) (request : Option ℕ) → effect ≤ anchor_of effect request
anchor-effect effect none = omega arith
anchor-effect effect (some r) = omega arith

anchor-request :
    (effect request : ℕ) (o : Option ℕ) → o ≡ some request → request ≤ anchor_of effect o
anchor-request effect request none h = cc
anchor-request effect request (some r) h = let same : r ≡ request = cc in omega (arith, same)

room : (a b c d : ℕ) → a ≤ b → b + c ≤ d → a + c ≤ d
room a b c d h k = omega (arith, h, k)

silence-state :
    (cap early soon quiet : Bool) (next : CheckpointPolicyState)
    → (decides cap early soon quiet next).state ≡ next
silence-state true early soon quiet next = refl
silence-state false true soon quiet next = refl
silence-state false false true quiet next = refl
silence-state false false false true next = refl
silence-state false false false false next = refl

silence-IsDue :
    (snapshot : ActiveAttemptSnapshot) (next : CheckpointPolicyState) (now : ℕ)
    → (evaluate_silence snapshot next now).checkpoint_due ≡ true
    → (next.checkpoint_requests < max_checkpoint_requests) × IsDue snapshot next now
unfolding evaluate_silence
silence-IsDue snapshot next now h =
    let anchor = anchor_of next.last_effect_nanoseconds next.latest_request_nanoseconds in
    let required = silence_nanoseconds * backoff_multiplier next.backoff_index in
    let start = next.attempt_started_nanoseconds + first_checkpoint_nanoseconds in
    let (few, why) =
      decides-due (leb max_checkpoint_requests next.checkpoint_requests)
        (is_some snapshot.blocker_code || is_out_of_scope snapshot.scope_status) (ltb now start)
        (ltb now (anchor + required)) next h in
    (
      ground (arith, few),
      elim why [
        | inl early ↦ inl early
        | inr (soon, quiet) ↦
            let silent = not_below now (anchor + required) quiet in
            inr (
              not_below now start soon,
              room next.last_effect_nanoseconds anchor required now
                  (anchor-effect next.last_effect_nanoseconds next.latest_request_nanoseconds)
                  silent,
              λ request e.
                  room request anchor required now
                    (anchor-request next.last_effect_nanoseconds request
                      next.latest_request_nanoseconds e)
                    silent,
            )
      ],
    )

evaluated :
    (snapshot : ActiveAttemptSnapshot) (next : CheckpointPolicyState) (now : ℕ)
    → (evaluate_silence snapshot next now).state ≡ next
unfolding evaluate_silence
evaluated snapshot next now = silence-state _ _ _ _ next

contrary : (x : CheckpointEvaluation) → x.checkpoint_due ≡ false → ¬ (x.checkpoint_due ≡ true)
contrary x n h = ground (arith, n, h)

either :
    (P : CheckpointEvaluation → Type 0) (b : Bool) (x y : CheckpointEvaluation)
    → (x.checkpoint_due ≡ true → P x)
    → (y.checkpoint_due ≡ true → P y)
    → (if b then x else y).checkpoint_due ≡ true
    → P (if b then x else y)
either P true x y k l h = k h
either P false x y k l h = l h

guarded :
    (P : CheckpointEvaluation → Type 0) (b : Bool) (x y : CheckpointEvaluation)
    → x.checkpoint_due ≡ false
    → (b ≡ false → y.checkpoint_due ≡ true → P y)
    → (if b then x else y).checkpoint_due ≡ true
    → P (if b then x else y)
guarded P true x y n k h = absurd (contrary x n h)
guarded P false x y n k h = k refl h

-- If a checkpoint is due, then the clock stands at a poll since the attempt started, fewer than two
-- requests were made, and either the snapshot gives a signal, or the attempt is 900 seconds old and
-- the silence since its last effect and since the latest request is 600 seconds times the multiplier
-- of the backoff.
pub evaluate_checkpoint_policy-IsDue :
    (snapshot : ActiveAttemptSnapshot) (state : CheckpointPolicyState) (now : ℕ)
    → (evaluate_checkpoint_policy snapshot state now).checkpoint_due ≡ true
    → (state.attempt_started_nanoseconds ≤ now)
      × ((now - state.attempt_started_nanoseconds) % poll_nanoseconds ≡ 0)
      × ((evaluate_checkpoint_policy snapshot state now).state.checkpoint_requests
          < max_checkpoint_requests)
      × IsDue snapshot (evaluate_checkpoint_policy snapshot state now).state now
unfolding evaluate_checkpoint_policy
evaluate_checkpoint_policy-IsDue snapshot state now =
    let started = state.attempt_started_nanoseconds in
    let P : CheckpointEvaluation → Type 0 = λ e.
      (started ≤ now)
      × ((now - started) % poll_nanoseconds ≡ 0)
      × (e.state.checkpoint_requests < max_checkpoint_requests)
      × IsDue snapshot e.state now in
    let refused : Reason → CheckpointEvaluation =
      λ reason. record { checkpoint_due = false; reason = reason; state = state } in
    let effect_time = started + snapshot.elapsed_nanoseconds in
    let old = evaluate_silence snapshot state now in
    let new = evaluate_silence snapshot (with_effect snapshot state) now in
    let timely =
      if ltb effect_time state.last_effect_nanoseconds
      then refused Reason.regressive_effect_time
      else new in
    let fresh = if ltb now effect_time then refused Reason.invalid_monotonic_time else timely in
    let known = not (ltb state.last_effect_sequence snapshot.last_effect_sequence) in
    guarded P (ltb now started) (refused Reason.invalid_monotonic_time) _ refl (λ begun.
      guarded P (not (eqb ((now - started) % poll_nanoseconds) 0)) (refused Reason.not_poll_tick)
        (if known then old else fresh) refl
        (λ tick.
          let at_tick : (next : CheckpointPolicyState)
              → (evaluate_silence snapshot next now).checkpoint_due ≡ true
              → P (evaluate_silence snapshot next now) =
            λ next due.
              let (few, is_due) = silence-IsDue snapshot next now due in
              (
                not_below now started begun,
                ground (arith, tick),
                subst
                    (λ (s : CheckpointPolicyState). s.checkpoint_requests < max_checkpoint_requests)
                    (sym (evaluated snapshot next now)) few,
                subst (λ (s : CheckpointPolicyState). IsDue snapshot s now)
                    (sym (evaluated snapshot next now)) is_due,
              ) in
          either P known old fresh (at_tick state) (
            guarded P (ltb now effect_time) (refused Reason.invalid_monotonic_time) timely refl
              (λ late.
                guarded P (ltb effect_time state.last_effect_nanoseconds)
                  (refused Reason.regressive_effect_time) new refl
                  (λ forward. at_tick (with_effect snapshot state))))))
