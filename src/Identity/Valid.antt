-- ===== src/Identity/Valid.antt =====
-- The values that canonical_identity.py accepts, and their canonical values.
use unrest.Base.{
  and_left, and_right, both_true, ℕ, ◌≡◌, refl, ap, ◌∙◌, arith, Bool, true, not, ◌||◌, List, [],
  ◌∷◌, All, Bool-cases, inl, inr,
}
use unrest.Identity.{
  Value, null, boolean, integer, real, text, object, array, other, Items, nil, cons, Fields, end,
  field, same_text,
}
use unrest.Identity.Encode.{text_le, place, sorted}
use unrest.Identity.Parse.{has_key, repeats}
use unrest.Identity.Canon.{
  of_pairs, canon, canon_items, canon_pairs, is_mapping, all_items, all_mappings,
}

module _ {A : Type 0} (P : List ℕ × A → Type 0) where
  place-All : (a : List ℕ × A) (xs : List (List ℕ × A)) → P a → All P xs → All P (place a xs)
  unfolding place
  place-All a [] h hs = (h, tt)
  place-All a (x ∷ xs) h hs = elim (Bool-cases (text_le a.0 x.0)) [
    | inl first ↦ rw first (h, hs)
    | inr later ↦ rw later (hs.0, place-All a xs h hs.1)
  ]

  pub sorted-All : (xs : List (List ℕ × A)) → All P xs → All P (sorted xs)
  unfolding sorted
  sorted-All [] hs = tt
  sorted-All (x ∷ xs) hs = place-All x (sorted xs) hs.0 (sorted-All xs hs.1)

same_text_sym : (xs ys : List ℕ) → same_text xs ys ≡ same_text ys xs
same_text_sym [] [] = refl
same_text_sym [] (y ∷ ys) = refl
same_text_sym (x ∷ xs) [] = refl
same_text_sym (x ∷ xs) (y ∷ ys) = ground (arith, same_text_sym xs ys)

-- Placing and sorting keep the keys.
has_key-place :
    (k j : List ℕ) (v : Value) (ps : List (List ℕ × Value))
    → has_key k (of_pairs (place (j, v) ps)) ≡ (same_text j k || has_key k (of_pairs ps))
unfolding place
has_key-place k j v [] = refl
has_key-place k j v ((i, u) ∷ ps) = elim (Bool-cases (text_le j i)) [
  | inl first ↦ rw first
  | inr later ↦ rw later (ground (arith, has_key-place k j v ps))
]

repeats-place :
    (j : List ℕ) (v : Value) (ps : List (List ℕ × Value))
    → repeats (of_pairs (place (j, v) ps)) ≡ (has_key j (of_pairs ps) || repeats (of_pairs ps))
unfolding place repeats
repeats-place j v [] = refl
repeats-place j v ((i, u) ∷ ps) = elim (Bool-cases (text_le j i)) [
  | inl first ↦ rw first
  | inr later ↦
      rw later (ground (arith, repeats-place j v ps, has_key-place i j v ps, same_text_sym i j))
]

has_key-sorted :
    (k : List ℕ) (ps : List (List ℕ × Value))
    → has_key k (of_pairs (sorted ps)) ≡ has_key k (of_pairs ps)
unfolding sorted
has_key-sorted k [] = refl
has_key-sorted k ((j, v) ∷ ps) =
    has_key-place k j v (sorted ps) ∙ ap (λ (b : Bool). same_text j k || b) (has_key-sorted k ps)

repeats-sorted :
    (ps : List (List ℕ × Value)) → repeats (of_pairs (sorted ps)) ≡ repeats (of_pairs ps)
unfolding sorted repeats
repeats-sorted [] = refl
repeats-sorted ((j, v) ∷ ps) =
    repeats-place j v (sorted ps) ∙ ground (arith, has_key-sorted j ps, repeats-sorted ps)

has_key-canon : (k : List ℕ) (fs : Fields) → has_key k (of_pairs (canon_pairs fs)) ≡ has_key k fs
unfolding canon
has_key-canon k end = refl
has_key-canon k (field j x fs) = ap (λ (b : Bool). same_text j k || b) (has_key-canon k fs)

repeats-canon : (fs : Fields) → repeats (of_pairs (canon_pairs fs)) ≡ repeats fs
unfolding canon repeats
repeats-canon end = refl
repeats-canon (field j x fs) = ground (arith, has_key-canon j fs, repeats-canon fs)

all_mappings-of_pairs :
    (ps : List (List ℕ × Value))
    → All (λ p. is_mapping p.1 ≡ true) ps
    → all_mappings (of_pairs ps) ≡ true
unfolding is_mapping
all_mappings-of_pairs [] h = refl
all_mappings-of_pairs ((k, v) ∷ ps) h = ground (arith, h.0, all_mappings-of_pairs ps h.1)

object_mapping :
    (fs : Fields) (gs : Fields)
    → repeats gs ≡ repeats fs
    → not (repeats fs) ≡ true
    → all_mappings gs ≡ true
    → is_mapping (object gs) ≡ true
unfolding is_mapping
object_mapping fs gs same new all_in = ground arith

mutual
  unfolding canon is_mapping

  mapping_canon : (v : Value) → is_mapping v ≡ true → is_mapping (canon v) ≡ true
  mapping_canon null h = refl
  mapping_canon (boolean b) h = refl
  mapping_canon (integer i) h = refl
  mapping_canon real h = refl
  mapping_canon (text s) h = refl
  mapping_canon (object fs) h =
      object_mapping fs (of_pairs (sorted (canon_pairs fs)))
        (repeats-sorted (canon_pairs fs) ∙ repeats-canon fs)
        (and_left (not (repeats fs)) (all_mappings fs) h)
        (all_mappings-of_pairs (sorted (canon_pairs fs)) (
          sorted-All (λ p. is_mapping p.1 ≡ true) (canon_pairs fs)
            (mappings_canon fs (and_right (not (repeats fs)) (all_mappings fs) h))))
  mapping_canon (array xs) h = items_mapping_canon xs h
  mapping_canon other h = refl

  items_mapping_canon : (xs : Items) → all_items xs ≡ true → all_items (canon_items xs) ≡ true
  items_mapping_canon nil h = refl
  items_mapping_canon (cons x xs) h =
      both_true (is_mapping (canon x)) (all_items (canon_items xs))
        (mapping_canon x (and_left (is_mapping x) (all_items xs) h))
        (items_mapping_canon xs (and_right (is_mapping x) (all_items xs) h))

  mappings_canon :
      (fs : Fields) → all_mappings fs ≡ true → All (λ p. is_mapping p.1 ≡ true) (canon_pairs fs)
  mappings_canon end h = tt
  mappings_canon (field k x fs) h = (
    mapping_canon x (and_left (is_mapping x) (all_mappings fs) h),
    mappings_canon fs (and_right (is_mapping x) (all_mappings fs) h),
  )

pub is_mapping-canon : (v : Value) → is_mapping v ≡ true → is_mapping (canon v) ≡ true
is_mapping-canon v h = mapping_canon v h
