-- ===== src/Validation/Graph/Finish.antt =====
-- src/unrest_harness/task_validation.py: `check_acyclic`, the end of the `while queue` loop.
use unrest.Base.{
  ℕ, zero, suc, ◌+◌, ◌≤◌, ◌≡◌, refl, true, List, [], ◌∷◌, ◌++◌, String, arith, distinct, count,
  length, All, Dict, find_or, length-append, ◌⊎◌, inl, inr,
}
use unrest.Validation.Graph.{Edge, Sweep, visit, sweep}
use unrest.Validation.Graph.Counts.{count-distinct, length-le_of_count}
use unrest.Validation.Graph.Degrees.{between}
use unrest.Validation.Graph.Initial.{Joins}
use unrest.Validation.Graph.Loop.{Inv, Ordered, visit-Inv, visit-Ordered, next_rank}

module _ (ids : List String) (es : List Edge) (adj : Dict (List String)) where
  -- The state in which the loop stops: the queue is empty, and the popped tasks have ranks.
  pub record Swept (s : Sweep) : Type 0 where
    pub popped : List String
    pub rank : String → ℕ
    pub inv : Inv ids es adj popped s
    pub ord : Ordered ids es adj popped rank
    pub empty : s.queue ≡ []

  module _ (joins : All (Joins ids) es)
      (out : (u v : String) → count v (find_or [] u adj) ≡ between u v es)
      (apart : distinct ids ≡ true) where
    pub placed-le :
        (popped : List String) (s : Sweep)
        → Inv ids es adj popped s
        → length (popped ++ s.queue) ≤ length ids
    placed-le popped s inv =
        length-le_of_count (popped ++ s.queue) ids
          (λ v. ground (arith, inv.placed v, count-distinct v ids apart))

    split :
        (queue : List String) → (queue ≡ []) ⊎ ((c : String) × (q : List String) × (queue ≡ c ∷ q))
    split [] = inl refl
    split (c ∷ q) = inr (c, q, refl)

    pub sweep-Swept :
        (fuel : ℕ) (popped : List String) (rank : String → ℕ) (s : Sweep)
        → Inv ids es adj popped s
        → Ordered ids es adj popped rank
        → length ids ≤ length popped + fuel
        → Swept (sweep fuel adj s)
    unfolding sweep
    sweep-Swept zero popped rank s inv ord h = record {
      popped = popped;
      rank = rank;
      inv = inv;
      ord = ord;
      empty = elim (split s.queue) [
        | inl e ↦ e
        | inr (c, q, e) ↦
            absurd (omega (arith, rw e at (placed-le popped s inv), length-append popped (c ∷ q)))
      ];
    }
    sweep-Swept (suc fuel) popped rank s inv ord h = elim (split s.queue) [
      | inl e ↦
          rw (e, sweep) (record { popped = popped; rank = rank; inv = inv; ord = ord; empty = e })
      | inr (c, q, e) ↦ rw e (
          sweep-Swept fuel (popped ++ c ∷ [])
            (next_rank ids es adj joins out popped s c q inv e rank)
            (visit adj c q s.indeg s.visited) (visit-Inv ids es adj joins out popped s c q inv e)
            (visit-Ordered ids es adj joins out popped s c q inv e rank ord)
            (omega (arith, length-append popped (c ∷ []))))
    ]
