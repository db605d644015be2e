-- ===== src/Validation/Graph/Counts.antt =====
-- src/unrest_harness/task_validation.py: `check_acyclic`, lists compared by how often a text occurs.
use unrest.Base.{
  suc, ◌+◌, ◌≤◌, ◌<◌, pred, ◌≡◌, refl, true, List, [], ◌∷◌, ◌++◌, String, arith, ◌==◌, eq_iff,
  eq_refl, if◌then◌else◌, ltb, Bool-cases, inl, inr, contains, distinct, count, length,
}

pub contains-eq-count : (x : String) (xs : List String) → contains x xs ≡ ltb 0 (count x xs)
contains-eq-count x [] = ground arith
contains-eq-count x (y ∷ ys) = ground (arith, contains-eq-count x ys, eq_iff x y, eq_iff y x)

pub count-append : (x : String) (xs ys : List String) → count x (xs ++ ys) ≡ count x xs + count x ys
count-append x [] ys = omega arith
count-append x (y ∷ xs) ys = ground (arith, count-append x xs ys)

-- In a list of distinct texts each occurs at most once.
pub count-distinct :
    (x : String) (xs : List String)
    → distinct xs ≡ true
    → count x xs ≡ (if contains x xs then 1 else 0)
count-distinct x [] h = refl
count-distinct x (y ∷ ys) h = ground (
  arith,
  count-distinct x ys,
  contains-eq-count y ys,
  contains-eq-count x ys,
  eq_iff x y,
  eq_iff y x,
)

-- The list without the first occurrence of a text.
remove : String → List String → List String
remove x [] = []
remove x (y ∷ ys) = if y == x then ys else y ∷ remove x ys

count-remove :
    (v x : String) (ys : List String)
    → count v (remove x ys) ≡ (if x == v then pred (count v ys) else count v ys)
unfolding remove
count-remove v x [] = ground arith
count-remove v x (y ∷ ys) = ground (arith, count-remove v x ys, eq_iff x v, eq_iff y x, eq_iff y v)

length-remove :
    (x : String) (ys : List String) → 0 < count x ys → length ys ≡ suc (length (remove x ys))
unfolding remove
length-remove x [] h = absurd (omega arith)
length-remove x (y ∷ ys) h = ground (arith, length-remove x ys)

-- A list whose texts all occur at least as often in another is no longer than it.
pub length-le_of_count :
    (xs ys : List String) → ((v : String) → count v xs ≤ count v ys) → length xs ≤ length ys
length-le_of_count [] ys h = omega arith
length-le_of_count (x ∷ xs) ys h =
    let shorter =
      length-le_of_count xs (remove x ys)
        (λ v. ground (arith, h v, count-remove v x ys, eq_iff x v)) in
    ground (arith, shorter, length-remove x ys, h x, eq_refl x)

-- Of two lists of one length, where the first occurs within the second, the counts are the same.
pub count-eq_of_length :
    (xs ys : List String) (x : String)
    → ((v : String) → count v xs ≤ count v ys)
    → length ys ≤ length xs
    → count x ys ≤ count x xs
count-eq_of_length xs ys x h l = elim (Bool-cases (ltb (count x xs) (count x ys))) [
  | inl less ↦
      let longer = length-le_of_count (x ∷ xs) ys (λ v. ground (arith, h v, eq_iff x v)) in
      absurd (omega arith)
  | inr more ↦ ground arith
]
