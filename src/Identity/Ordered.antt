-- ===== src/Identity/Ordered.antt =====
-- The order of the keys in canonical_identity.py's encoding, and values that are canonical already.
use unrest.Base.{
  ℕ, ◌≡◌, refl, ap, ◌∙◌, arith, true, false, List, [], ◌∷◌, All, Bool-cases, inl, inr, both_true,
}
use unrest.Identity.{
  Value, null, boolean, integer, real, text, object, array, other, Items, nil, cons, Fields, end,
  field,
}
use unrest.Identity.Encode.{text_le, place, sorted}
use unrest.Identity.Canon.{
  of_pairs, is_ordered, ordered_items, ordered_fields, canon, canon_items, canon_pairs,
}
use unrest.Identity.Valid.{sorted-All}

text_le_total : (xs ys : List ℕ) → text_le xs ys ≡ false → text_le ys xs ≡ true
unfolding text_le
text_le_total [] ys h = cc
text_le_total (x ∷ xs) [] h = refl
text_le_total (x ∷ xs) (y ∷ ys) h = ground (arith, text_le_total xs ys)

abbrev Ascending : List (List ℕ × Value) → Type 0
Ascending [] = Unit
Ascending (a ∷ []) = Unit
Ascending (a ∷ (b ∷ ps)) = (text_le a.0 b.0 ≡ true) × Ascending (b ∷ ps)

-- Behind `b`, what is placed comes after `b`.
place-after :
    (a b : List ℕ × Value) (ps : List (List ℕ × Value))
    → text_le b.0 a.0 ≡ true
    → Ascending (b ∷ ps)
    → Ascending (b ∷ place a ps)
unfolding place
place-after a b [] le h = (le, tt)
place-after a b (c ∷ ps) le (first, rest) = elim (Bool-cases (text_le a.0 c.0)) [
  | inl before ↦ rw before (le, (before, rest))
  | inr behind ↦ rw behind (first, place-after a c ps (text_le_total a.0 c.0 behind) rest)
]

place-Ascending :
    (a : List ℕ × Value) (ps : List (List ℕ × Value)) → Ascending ps → Ascending (place a ps)
unfolding place
place-Ascending a [] h = tt
place-Ascending a (b ∷ ps) h = elim (Bool-cases (text_le a.0 b.0)) [
  | inl before ↦ rw before (before, h)
  | inr behind ↦ rw behind (place-after a b ps (text_le_total a.0 b.0 behind) h)
]

sorted-Ascending : (ps : List (List ℕ × Value)) → Ascending (sorted ps)
unfolding sorted
sorted-Ascending [] = tt
sorted-Ascending (a ∷ ps) = place-Ascending a (sorted ps) (sorted-Ascending ps)

place_first :
    (a : List ℕ × Value) (ps : List (List ℕ × Value)) → Ascending (a ∷ ps) → place a ps ≡ a ∷ ps
unfolding place
place_first a [] h = refl
place_first a (b ∷ ps) h = rw h.0

Ascending-tail :
    (a : List ℕ × Value) (ps : List (List ℕ × Value)) → Ascending (a ∷ ps) → Ascending ps
Ascending-tail a [] h = tt
Ascending-tail a (b ∷ ps) h = h.1

Ascending-sorted : (ps : List (List ℕ × Value)) → Ascending ps → sorted ps ≡ ps
unfolding sorted
Ascending-sorted [] h = refl
Ascending-sorted (a ∷ ps) h =
    ap (place a) (Ascending-sorted ps (Ascending-tail a ps h)) ∙ place_first a ps h

abbrev IsCanonical : List ℕ × Value → Type 0
IsCanonical p = canon p.1 ≡ p.1

canon_pairs-of_pairs :
    (ps : List (List ℕ × Value)) → All IsCanonical ps → canon_pairs (of_pairs ps) ≡ ps
unfolding canon
canon_pairs-of_pairs [] h = refl
canon_pairs-of_pairs ((k, v) ∷ ps) h =
    ap (λ (u : Value). (k, u) ∷ canon_pairs (of_pairs ps)) h.0
    ∙ ap (λ (qs : List (List ℕ × Value)). (k, v) ∷ qs) (canon_pairs-of_pairs ps h.1)

mutual
  unfolding canon

  canon_twice : (v : Value) → canon (canon v) ≡ canon v
  canon_twice null = refl
  canon_twice (boolean b) = refl
  canon_twice (integer i) = refl
  canon_twice real = refl
  canon_twice (text s) = refl
  canon_twice (object fs) =
      let ps = sorted (canon_pairs fs) in
      ap (λ (qs : List (List ℕ × Value)). object (of_pairs qs))
        (ap sorted (
            canon_pairs-of_pairs ps
              (sorted-All IsCanonical (canon_pairs fs) (pairs-IsCanonical fs)))
          ∙ Ascending-sorted ps (sorted-Ascending (canon_pairs fs)))
  canon_twice (array xs) = ap array (items_twice xs)
  canon_twice other = refl

  items_twice : (xs : Items) → canon_items (canon_items xs) ≡ canon_items xs
  items_twice nil = refl
  items_twice (cons x xs) =
      ap (λ (u : Value). cons u (canon_items (canon_items xs))) (canon_twice x)
      ∙ ap (cons (canon x)) (items_twice xs)

  pairs-IsCanonical : (fs : Fields) → All IsCanonical (canon_pairs fs)
  pairs-IsCanonical end = tt
  pairs-IsCanonical (field k x fs) = (canon_twice x, pairs-IsCanonical fs)

pub canon_self : (v : Value) → canon (canon v) ≡ canon v
canon_self v = canon_twice v

abbrev PairOrdered : List ℕ × Value → Type 0
PairOrdered p = is_ordered p.1 ≡ true

ordered_of_pairs :
    (ps : List (List ℕ × Value))
    → Ascending ps
    → All PairOrdered ps
    → ordered_fields (of_pairs ps) ≡ true
unfolding is_ordered
ordered_of_pairs [] a h = refl
ordered_of_pairs ((k, v) ∷ []) a h = ground (arith, h.0)
ordered_of_pairs ((k, v) ∷ ((j, w) ∷ ps)) a h =
    ground (arith, a.0, h.0, ordered_of_pairs ((j, w) ∷ ps) a.1 h.1)

mutual
  unfolding canon is_ordered

  canon_ordered : (v : Value) → is_ordered (canon v) ≡ true
  canon_ordered null = refl
  canon_ordered (boolean b) = refl
  canon_ordered (integer i) = refl
  canon_ordered real = refl
  canon_ordered (text s) = refl
  canon_ordered (object fs) =
      ordered_of_pairs (sorted (canon_pairs fs)) (sorted-Ascending (canon_pairs fs))
        (sorted-All PairOrdered (canon_pairs fs) (pairs_ordered fs))
  canon_ordered (array xs) = items_ordered xs
  canon_ordered other = refl

  items_ordered : (xs : Items) → ordered_items (canon_items xs) ≡ true
  items_ordered nil = refl
  items_ordered (cons x xs) =
      both_true (is_ordered (canon x)) (ordered_items (canon_items xs)) (canon_ordered x)
        (items_ordered xs)

  pairs_ordered : (fs : Fields) → All PairOrdered (canon_pairs fs)
  pairs_ordered end = tt
  pairs_ordered (field k x fs) = (canon_ordered x, pairs_ordered fs)

pub is_ordered-canon : (v : Value) → is_ordered (canon v) ≡ true
is_ordered-canon v = canon_ordered v
