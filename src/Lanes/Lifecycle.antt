-- ===== src/Lanes/Lifecycle.antt =====
-- The life of one lane of experimental_model.py, as a step relation over what a campaign shows.
pub mod Following
pub mod Reserved
pub mod Ending
pub mod Calls
use unrest.Base.{
  ℕ, zero, suc, ◌≤◌, ◌≡◌, refl, arith, Bool, true, false, ◌&&◌, ◌||◌, is_some, ◌⊎◌, inl, inr,
}
use unrest.Lanes.{Phase, Lane, is_blocked}
use unrest.Lanes.Steps.Ready.{priority}
use unrest.Lanes.Steps.{is_worker_phase, is_correction}

-- `corrected` says that a correction has begun.
pub record View : Type 0 where
  pub phase : Phase
  pub generation : ℕ
  pub corrected : Bool
  pub in_flight : Bool
  pub blocked : Bool

abbrev pub view_of : Lane → View
view_of l = record {
  phase = l.phase;
  generation = l.generation;
  corrected = l.correction_reserved;
  in_flight = is_some l.active;
  blocked = is_blocked l;
}

abbrev pub begun : Phase → ℕ → Bool → Bool → View
begun p g c b = record { phase = p; generation = g; corrected = c; in_flight = true; blocked = b }

abbrev pub rests : Phase → ℕ → Bool → Bool → View
rests p g c b = record { phase = p; generation = g; corrected = c; in_flight = false; blocked = b }

-- A turn begins, and a correction only if none has begun before. A turn seals a candidate, accepts it, or
-- finds a defect: in the first generation a defect is corrected if no correction has begun, and starts the
-- second generation if one has. A lane is blocked, and is recovered in the first generation alone.
pub data LaneStep : View → View → Type 0 where
  begin :
      (p : Phase) (g : ℕ) (c : Bool)
      → is_some (priority p) ≡ true
      → (is_correction p && c) ≡ false
      → LaneStep (rests p g c false) (begun p g (c || is_correction p) false)
  seal : (g : ℕ) (c b : Bool) → LaneStep (begun Phase.work g c b) (rests Phase.validate g c b)
  fix : (g : ℕ) (c b : Bool) → LaneStep (begun Phase.correction g c b) (rests Phase.recheck g c b)
  accept : (g : ℕ) (c b : Bool) → LaneStep (begun Phase.validate g c b) (rests Phase.passed g c b)
  accept_fix :
      (g : ℕ) (c b : Bool) → LaneStep (begun Phase.recheck g c b) (rests Phase.passed g c b)
  correct :
      (p : Phase) (b : Bool)
      → is_worker_phase p ≡ false
      → LaneStep (begun p 0 false b) (rests Phase.correction 0 false b)
  renew :
      (p : Phase) (b : Bool)
      → is_worker_phase p ≡ false
      → LaneStep (begun p 0 true b) (rests Phase.work 1 true b)
  block :
      (p : Phase) (g : ℕ) (c f b : Bool)
      → LaneStep
          (record { phase = p; generation = g; corrected = c; in_flight = f; blocked = b })
          (rests Phase.attention g c true)
  recover : (p : Phase) (c : Bool) → LaneStep (rests p 0 c true) (rests Phase.work 1 c false)

pub data Lives (v : View) : View → Type 0 where
  here : Lives v v
  next : {u w : View} → Lives v u → LaneStep u w → Lives v w

pub Lives_trans : {u v w : View} → Lives u v → Lives v w → Lives u w
Lives_trans p here = p
Lives_trans p (next q s) = next (Lives_trans p q) s

-- The generation never falls.
step_grows : {u v : View} → LaneStep u v → u.generation ≤ v.generation
step_grows (begin p g c h k) = omega arith
step_grows (seal g c b) = omega arith
step_grows (fix g c b) = omega arith
step_grows (accept g c b) = omega arith
step_grows (accept_fix g c b) = omega arith
step_grows (correct p b h) = omega arith
step_grows (renew p b h) = omega arith
step_grows (block p g c f b) = omega arith
step_grows (recover p c) = omega arith

pub generation-le : {u v : View} → Lives u v → u.generation ≤ v.generation
generation-le here = omega arith
generation-le (next r s) = omega (arith, generation-le r, step_grows s)
