-- ===== src/Lanes/Places.antt =====
-- Lanes by their position, and turns at the end of their list, for the model of
-- src/unrest_harness/experimental_model.py.
use unrest.Base.{
  ℕ, zero, suc, ◌+◌, ◌≤◌, ◌<◌, ◌≡◌, refl, ap, subst, arith, List, [], ◌∷◌, Option, none, some,
  length, All,
}
use unrest.Lanes.{Lane, sum_by}

module _ {ℓ} {A : Type ℓ} where
  abbrev pub get_elem? : List A → ℕ → Option A
  get_elem? [] i = none
  get_elem? (x ∷ xs) zero = some x
  get_elem? (x ∷ xs) (suc i) = get_elem? xs i

  -- `xs[:i] + (v,) + xs[i + 1:]`, at an index in range.
  abbrev pub set : List A → ℕ → A → List A
  set [] i v = []
  set (x ∷ xs) zero v = v ∷ xs
  set (x ∷ xs) (suc i) v = x ∷ set xs i v

  -- `xs[-1]`
  abbrev pub last : List A → Option A
  last [] = none
  last (x ∷ []) = some x
  last (x ∷ (y ∷ ys)) = last (y ∷ ys)

  -- `xs[:-1] + (v,)`
  abbrev pub set_last : List A → A → List A
  set_last [] v = v ∷ []
  set_last (x ∷ []) v = v ∷ []
  set_last (x ∷ (y ∷ ys)) v = x ∷ set_last (y ∷ ys) v

  pub length-set_last : (xs : List A) (v : A) → 1 ≤ length xs → length (set_last xs v) ≡ length xs
  length-set_last [] v h = absurd (omega arith)
  length-set_last (x ∷ []) v h = refl
  length-set_last (x ∷ (y ∷ ys)) v h = omega (arith, length-set_last (y ∷ ys) v (omega arith))

  pub last-set_last : (xs : List A) (v : A) → last (set_last xs v) ≡ some v
  last-set_last [] v = refl
  last-set_last (x ∷ []) v = refl
  last-set_last (x ∷ (y ∷ [])) v = refl
  last-set_last (x ∷ (y ∷ (z ∷ zs))) v = last-set_last (y ∷ (z ∷ zs)) v

  pub get_elem?-last : (xs : List A) (i : ℕ) → suc i ≡ length xs → get_elem? xs i ≡ last xs
  get_elem?-last [] i h = absurd (omega arith)
  get_elem?-last (x ∷ []) zero h = refl
  get_elem?-last (x ∷ []) (suc i) h = absurd (omega arith)
  get_elem?-last (x ∷ (y ∷ ys)) zero h = absurd (omega arith)
  get_elem?-last (x ∷ (y ∷ ys)) (suc i) h = get_elem?-last (y ∷ ys) i (omega arith)

  pub last-some : (xs : List A) → 1 ≤ length xs → (x : A) × (last xs ≡ some x)
  last-some [] h = absurd (omega arith)
  last-some (x ∷ []) h = (x, refl)
  last-some (x ∷ (y ∷ ys)) h = last-some (y ∷ ys) (omega arith)

  pub get_some : (xs : List A) (i : ℕ) → i < length xs → (x : A) × (get_elem? xs i ≡ some x)
  get_some [] i h = absurd (omega arith)
  get_some (x ∷ xs) zero h = (x, refl)
  get_some (x ∷ xs) (suc i) h = get_some xs i (omega arith)

  pub get_elem?-set :
      (xs : List A) (i : ℕ) (x v : A) → get_elem? xs i ≡ some x → get_elem? (set xs i v) i ≡ some v
  get_elem?-set [] i x v e = cc
  get_elem?-set (y ∷ ys) zero x v e = refl
  get_elem?-set (y ∷ ys) (suc i) x v e = get_elem?-set ys i x v e

  pub length-set : (xs : List A) (i : ℕ) (v : A) → length (set xs i v) ≡ length xs
  length-set [] i v = refl
  length-set (x ∷ xs) zero v = refl
  length-set (x ∷ xs) (suc i) v = omega (arith, length-set xs i v)

module _ {ℓ κ} {A : Type ℓ} (P : A → Type κ) where
  pub All_of_get :
      (xs : List A) → ((j : ℕ) (x : A) → j < length xs → get_elem? xs j ≡ some x → P x) → All P xs
  All_of_get [] h = tt
  All_of_get (x ∷ xs) h =
      (h 0 x (omega arith) refl, All_of_get xs (λ j y lt e. h (suc j) y (omega arith) e))

  pub All-get : (xs : List A) (i : ℕ) (x : A) → All P xs → get_elem? xs i ≡ some x → P x
  All-get [] i x h e = cc
  All-get (y ∷ ys) zero x h e = subst P (ground arith) h.0
  All-get (y ∷ ys) (suc i) x h e = All-get ys i x h.1 e

  pub All-set : (xs : List A) (i : ℕ) (v : A) → All P xs → P v → All P (set xs i v)
  All-set [] i v h p = h
  All-set (x ∷ xs) zero v h p = (p, h.1)
  All-set (x ∷ xs) (suc i) v h p = (h.0, All-set xs i v h.1 p)

pub sum_by-set :
    (f : Lane → ℕ) (xs : List Lane) (i : ℕ) (old new : Lane)
    → get_elem? xs i ≡ some old
    → sum_by f (set xs i new) + f old ≡ sum_by f xs + f new
sum_by-set f [] i old new e = cc
sum_by-set f (x ∷ xs) zero old new e = let same : f x ≡ f old = ap f (ground arith) in omega arith
sum_by-set f (x ∷ xs) (suc i) old new e = omega (arith, sum_by-set f xs i old new e)
