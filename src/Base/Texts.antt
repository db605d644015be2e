-- ===== src/Base/Texts.antt =====
-- Python's `in` and `set` over texts: lists of texts, read by membership.
use Prim.Native.Nat.{ℕ, suc}
use Prim.Native.Char.{code}
use Prim.Native.String.{String}
use mathlib.Core.Path.{◌≡◌, refl, ap}
use mathlib.Core.Bool.{Bool, true, false, ◌&&◌, ◌||◌, not}
use mathlib.Core.List.{List, [], ◌∷◌, ◌++◌}
use native.Mathlib.Omega.{arith}
use text.Mathlib.Text.{◌==◌}
use text.Mathlib.TextEquality.{eq_iff}
use unrest.Base.Tests.{if◌then◌else◌}
use unrest.Base.Lists.{all}

-- The code points of a text. `String` has its own `[]` and `∷`.
abbrev pub codes : String → List ℕ
codes String.[] = []
codes (String.◌∷◌ c s) = code c ∷ codes s

-- `x in xs`
abbrev pub contains : String → List String → Bool
contains x [] = false
contains x (y ∷ ys) = x == y || contains x ys

-- No text stands in the list twice.
abbrev pub distinct : List String → Bool
distinct [] = true
distinct (x ∷ xs) = not (contains x xs) && distinct xs

-- How often a text stands in the list.
abbrev pub count : String → List String → ℕ
count x [] = 0
count x (y ∷ ys) = if y == x then suc (count x ys) else count x ys

-- `set(xs) <= set(ys)`
abbrev pub subset : List String → List String → Bool
subset [] ys = true
subset (x ∷ xs) ys = contains x ys && subset xs ys

-- `xs - ys` on sets
abbrev pub minus : List String → List String → List String
minus [] ys = []
minus (x ∷ xs) ys = let rest = minus xs ys in if contains x ys then rest else x ∷ rest

pub eq_sym : (a b : String) → (a == b) ≡ (b == a)
eq_sym a b = ground (arith, eq_iff a b, eq_iff b a)

pub contains-append :
    (x : String) (xs ys : List String) → contains x (xs ++ ys) ≡ (contains x xs || contains x ys)
contains-append x [] ys = refl
contains-append x (y ∷ xs) ys = ground (arith, contains-append x xs ys)

pub contains-minus :
    (x : String) (xs ys : List String)
    → contains x (minus xs ys) ≡ (contains x xs && not (contains x ys))
contains-minus x [] ys = refl
contains-minus x (y ∷ xs) ys =
    ground (arith, contains-minus x xs ys, eq_iff x y, ap (λ (t : String). contains t ys))

-- A text is in the list exactly when it is counted.
pub contains-count : (x : String) (xs : List String) → 0 ≡ count x xs → contains x xs ≡ false
contains-count x [] h = refl
contains-count x (y ∷ ys) h = ground (arith, contains-count x ys, eq_iff x y, eq_iff y x)

pub count-contains : (x : String) (xs : List String) → contains x xs ≡ false → count x xs ≡ 0
count-contains x [] h = refl
count-contains x (y ∷ ys) h = ground (arith, count-contains x ys, eq_iff x y, eq_iff y x)

-- No text of the first list stands in the second.
abbrev pub disjoint : List String → List String → Bool
disjoint [] ys = true
disjoint (x ∷ xs) ys = not (contains x ys) && disjoint xs ys

pub disjoint-nil : (xs : List String) → disjoint xs [] ≡ true
disjoint-nil [] = refl
disjoint-nil (x ∷ xs) = disjoint-nil xs

pub disjoint-cons :
    (x : String) (xs ys : List String)
    → disjoint xs (x ∷ ys) ≡ (not (contains x xs) && disjoint xs ys)
disjoint-cons x [] ys = refl
disjoint-cons x (y ∷ xs) ys = ground (arith, disjoint-cons x xs ys, eq_iff x y, eq_iff y x)

pub disjoint-snoc :
    (x : String) (xs ys : List String)
    → disjoint xs (ys ++ x ∷ []) ≡ (not (contains x xs) && disjoint xs ys)
disjoint-snoc x [] ys = refl
disjoint-snoc x (y ∷ xs) ys =
    ground (arith, disjoint-snoc x xs ys, contains-append y ys (x ∷ []), eq_iff x y, eq_iff y x)

-- `set(xs) | set(ys)`
abbrev pub union : List String → List String → List String
union xs [] = xs
union xs (y ∷ ys) = union (if contains y xs then xs else xs ++ y ∷ []) ys

distinct-snoc :
    (xs : List String) (y : String) → distinct (xs ++ y ∷ []) ≡ (not (contains y xs) && distinct xs)
distinct-snoc [] y = refl
distinct-snoc (x ∷ xs) y =
    ground (arith, distinct-snoc xs y, contains-append x xs (y ∷ []), eq_iff x y, eq_iff y x)

pub distinct-union : (xs ys : List String) → distinct xs ≡ true → distinct (union xs ys) ≡ true
distinct-union xs [] h = h
distinct-union xs (y ∷ ys) h =
    distinct-union (if contains y xs then xs else xs ++ y ∷ []) ys
      (ground (arith, distinct-snoc xs y))

-- `list(dict.fromkeys(xs))`, apart from what was seen.
abbrev pub unique_from : List String → List String → List String
unique_from seen [] = []
unique_from seen (x ∷ xs) =
    let old = unique_from seen xs in
    let new = x ∷ unique_from (x ∷ seen) xs in if contains x seen then old else new

abbrev pub unique : List String → List String
unique = unique_from []

seen-all :
    (p : String → Bool) (x : String) (seen : List String)
    → all p seen ≡ true
    → contains x seen ≡ true
    → p x ≡ true
seen-all p x [] h m = cc
seen-all p x (y ∷ ys) h m = ground (arith, seen-all p x ys, eq_iff x y, ap p)

all-unique_from :
    (p : String → Bool) (seen xs : List String)
    → all p seen ≡ true
    → all p (unique_from seen xs) ≡ all p xs
all-unique_from p seen [] h = refl
all-unique_from p seen (x ∷ xs) h =
    ground
      (arith, all-unique_from p seen xs h, all-unique_from p (x ∷ seen) xs, seen-all p x seen h)

pub all-unique : (p : String → Bool) (xs : List String) → all p (unique xs) ≡ all p xs
all-unique p xs = all-unique_from p [] xs refl
