-- ===== src/Base/Members.antt =====
-- Tests at the members of a list of texts.
use Prim.Native.String.{String}
use mathlib.Core.Path.{◌≡◌, refl, ap, ◌∙◌}
use mathlib.Core.Bool.{Bool, true, false, not, ◌&&◌}
use mathlib.Core.List.{List, [], ◌∷◌, map}
use native.Mathlib.Omega.{arith}
use text.Mathlib.TextEquality.{eq_iff}
use unrest.Base.Lists.{all, any, select, is_empty}
use unrest.Base.Texts.{contains}

pub contains-select :
    (p : String → Bool) (xs : List String) (x : String)
    → contains x (select p xs) ≡ (contains x xs && p x)
contains-select p [] x = refl
contains-select p (y ∷ ys) x =
    ground (arith, contains-select p ys x, eq_iff x y, ap (λ (s : String). p s))

pub select-on :
    (p q : String → Bool) (xs : List String)
    → ((x : String) → contains x xs ≡ true → p x ≡ q x)
    → select p xs ≡ select q xs
select-on p q [] h = refl
select-on p q (x ∷ xs) h =
    ground (arith, select-on p q xs (λ y c. h y (ground (arith, c))), h x, eq_iff x x)

pub all-on :
    (p q : String → Bool) (xs : List String)
    → ((x : String) → contains x xs ≡ true → p x ≡ q x)
    → all p xs ≡ all q xs
all-on p q [] h = refl
all-on p q (x ∷ xs) h =
    ground (arith, all-on p q xs (λ y c. h y (ground (arith, c))), h x, eq_iff x x)

pub select_self :
    (p : String → Bool) (xs : List String) → select (λ x. contains x (select p xs)) xs ≡ select p xs
select_self p xs =
    select-on (λ x. contains x (select p xs)) p xs
      (λ x c. contains-select p xs x ∙ ground (arith, c))

pub empty-select :
    (p : String → Bool) (xs : List String) → is_empty (select (λ x. not (p x)) xs) ≡ all p xs
empty-select p [] = refl
empty-select p (x ∷ xs) = ground (arith, empty-select p xs)

pub is_empty-not :
    (p : String → Bool) (xs : List String) → all (λ x. not (p x)) xs ≡ is_empty (select p xs)
is_empty-not p [] = refl
is_empty-not p (x ∷ xs) = ground (arith, is_empty-not p xs)

pub is_empty-map {ℓ} :
    {B : Type ℓ} (f : String → B) (xs : List String) → is_empty (map f xs) ≡ is_empty xs
is_empty-map f [] = refl
is_empty-map f (x ∷ xs) = refl

pub all-both :
    (p q : String → Bool) (xs : List String) → all (λ x. p x && q x) xs ≡ (all p xs && all q xs)
all-both p q [] = refl
all-both p q (x ∷ xs) = ground (arith, all-both p q xs)

pub any-contains :
    (p : String → Bool) (xs : List String) (x : String)
    → contains x xs ≡ true
    → p x ≡ true
    → any p xs ≡ true
any-contains p [] x c h = cc
any-contains p (y ∷ ys) x c h =
    ground (arith, any-contains p ys x, eq_iff x y, ap (λ (s : String). p s))

pub all-contains :
    (p : String → Bool) (xs : List String) (x : String)
    → all p xs ≡ true
    → contains x xs ≡ true
    → p x ≡ true
all-contains p [] x h c = cc
all-contains p (y ∷ ys) x h c =
    ground (arith, all-contains p ys x, eq_iff x y, ap (λ (s : String). p s))

pub none-contains :
    (p : String → Bool) (xs : List String) (x : String)
    → any p xs ≡ false
    → contains x xs ≡ true
    → p x ≡ false
none-contains p [] x h c = cc
none-contains p (y ∷ ys) x h c =
    ground (arith, none-contains p ys x, eq_iff x y, ap (λ (s : String). p s))
