-- ===== src/Identity/Accepted.antt =====
-- `validate_canonical_value` of canonical_identity.py as a test without paths, and the canonical value.
use unrest.Base.{
  and_left, and_right, both_true, ℕ, suc, ◌≡◌, refl, arith, Bool, true, false, not, ◌&&◌, ◌||◌,
  List, [], ◌∷◌, ◌++◌, all, any, All, ltb,
}
use unrest.Identity.{
  Value, null, boolean, integer, real, text, object, array, other, Items, nil, cons, Fields, end,
  field, Code, Segment, Result, ok, err, ◌>>◌, fail_if, same_text,
}
use unrest.Identity.Validate.{
  is_safe, is_surrogate, validate_string, validate_value, validate_items, validate_fields,
}
use unrest.Identity.Encode.{sorted}
use unrest.Identity.Canon.{
  of_pairs, canon, canon_items, canon_pairs, is_plain, plain_items, plain_fields,
}
use unrest.Identity.Valid.{sorted-All}

ok_left : (m k : Result (Unit {0})) → (m >> k) ≡ ok tt → m ≡ ok tt
ok_left (ok u) k h = refl
ok_left (err c p) k h = cc

ok_right : (m k : Result (Unit {0})) → (m >> k) ≡ ok tt → k ≡ ok tt
ok_right (ok u) k h = h
ok_right (err c p) k h = cc

ok_both : (m k : Result (Unit {0})) → m ≡ ok tt → k ≡ ok tt → (m >> k) ≡ ok tt
ok_both m k h e = rw h e

passes : (b : Bool) (c : Code) (p : List Segment) → fail_if (not b) c p ≡ ok tt → b ≡ true
passes true c p h = refl
passes false c p h = cc

module _ (normalize : List ℕ → List ℕ) where
  abbrev valid_string : List ℕ → Bool
  valid_string s = all (λ c. ltb c 128) s || (not (any is_surrogate s) && same_text (normalize s) s)

  mutual
    is_valid : Value → Bool
    is_valid null = false
    is_valid (boolean b) = true
    is_valid (integer i) = is_safe i
    is_valid real = false
    is_valid (text s) = valid_string s
    is_valid (object fs) = valid_fields fs
    is_valid (array xs) = valid_items xs
    is_valid other = false

    valid_items : Items → Bool
    valid_items nil = true
    valid_items (cons x xs) = is_valid x && valid_items xs

    valid_fields : Fields → Bool
    valid_fields end = true
    valid_fields (field k x fs) = valid_string k && (is_valid x && valid_fields fs)

  string_valid :
      (s : List ℕ) (p : List Segment)
      → validate_string normalize s p ≡ ok tt
      → valid_string s ≡ true
  unfolding validate_string
  string_valid s p h = ground arith

  valid_string-ok :
      (s : List ℕ) (p : List Segment)
      → valid_string s ≡ true
      → validate_string normalize s p ≡ ok tt
  unfolding validate_string
  valid_string-ok s p h = ground arith

  mutual
    unfolding validate_value is_valid

    value_valid :
        (v : Value) (p : List Segment) → validate_value normalize v p ≡ ok tt → is_valid v ≡ true
    value_valid null p h = cc
    value_valid (boolean b) p h = refl
    value_valid (integer i) p h = passes (is_safe i) Code.unsafe_integer p h
    value_valid real p h = cc
    value_valid (text s) p h = string_valid s p h
    value_valid (object fs) p h = fields_valid fs p h
    value_valid (array xs) p h = items_valid xs 0 p h
    value_valid other p h = cc

    items_valid :
        (xs : Items) (i : ℕ) (p : List Segment)
        → validate_items normalize xs i p ≡ ok tt
        → valid_items xs ≡ true
    items_valid nil i p h = refl
    items_valid (cons x xs) i p h =
        let q = p ++ Segment.at i ∷ [] in
        both_true (is_valid x) (valid_items xs)
          (value_valid x q
            (ok_left (validate_value normalize x q) (validate_items normalize xs (suc i) p) h))
          (items_valid xs (suc i) p
            (ok_right (validate_value normalize x q) (validate_items normalize xs (suc i) p) h))

    fields_valid :
        (fs : Fields) (p : List Segment)
        → validate_fields normalize fs p ≡ ok tt
        → valid_fields fs ≡ true
    fields_valid end p h = refl
    fields_valid (field k x fs) p h =
        let m = validate_string normalize k (p ++ Segment.key k ∷ []) in
        let n = validate_value normalize x (p ++ Segment.member k ∷ []) in
        let r = validate_fields normalize fs p in
        both_true (valid_string k) (is_valid x && valid_fields fs)
          (string_valid k (p ++ Segment.key k ∷ []) (ok_left m n (ok_left (m >> n) r h)))
          (both_true (is_valid x) (valid_fields fs)
            (value_valid x (p ++ Segment.member k ∷ []) (ok_right m n (ok_left (m >> n) r h)))
            (fields_valid fs p (ok_right (m >> n) r h)))

  mutual
    unfolding validate_value is_valid

    valid_value-ok :
        (v : Value) (p : List Segment) → is_valid v ≡ true → validate_value normalize v p ≡ ok tt
    valid_value-ok null p h = cc
    valid_value-ok (boolean b) p h = refl
    valid_value-ok (integer i) p h = rw h
    valid_value-ok real p h = cc
    valid_value-ok (text s) p h = valid_string-ok s p h
    valid_value-ok (object fs) p h = valid_fields-ok fs p h
    valid_value-ok (array xs) p h = valid_items-ok xs 0 p h
    valid_value-ok other p h = cc

    valid_items-ok :
        (xs : Items) (i : ℕ) (p : List Segment)
        → valid_items xs ≡ true
        → validate_items normalize xs i p ≡ ok tt
    valid_items-ok nil i p h = refl
    valid_items-ok (cons x xs) i p h =
        ok_both (validate_value normalize x (p ++ Segment.at i ∷ []))
          (validate_items normalize xs (suc i) p)
          (valid_value-ok x (p ++ Segment.at i ∷ []) (and_left (is_valid x) (valid_items xs) h))
          (valid_items-ok xs (suc i) p (and_right (is_valid x) (valid_items xs) h))

    valid_fields-ok :
        (fs : Fields) (p : List Segment)
        → valid_fields fs ≡ true
        → validate_fields normalize fs p ≡ ok tt
    valid_fields-ok end p h = refl
    valid_fields-ok (field k x fs) p h =
        let m = validate_string normalize k (p ++ Segment.key k ∷ []) in
        let n = validate_value normalize x (p ++ Segment.member k ∷ []) in
        let r = validate_fields normalize fs p in
        let rest = and_right (valid_string k) (is_valid x && valid_fields fs) h in
        ok_both (m >> n) r
          (ok_both m n
            (valid_string-ok k (p ++ Segment.key k ∷ [])
              (and_left (valid_string k) (is_valid x && valid_fields fs) h))
            (valid_value-ok x (p ++ Segment.member k ∷ [])
              (and_left (is_valid x) (valid_fields fs) rest)))
          (valid_fields-ok fs p (and_right (is_valid x) (valid_fields fs) rest))

  abbrev PairValid : List ℕ × Value → Type 0
  PairValid p = (valid_string p.0 ≡ true) × (is_valid p.1 ≡ true)

  fields_of_pairs :
      (ps : List (List ℕ × Value)) → All PairValid ps → valid_fields (of_pairs ps) ≡ true
  unfolding is_valid
  fields_of_pairs [] h = refl
  fields_of_pairs ((k, v) ∷ ps) h =
      both_true (valid_string k) (is_valid v && valid_fields (of_pairs ps)) h.0.0
        (both_true (is_valid v) (valid_fields (of_pairs ps)) h.0.1 (fields_of_pairs ps h.1))

  mutual
    unfolding canon is_valid

    valid_canon : (v : Value) → is_valid v ≡ true → is_valid (canon v) ≡ true
    valid_canon null h = h
    valid_canon (boolean b) h = h
    valid_canon (integer i) h = h
    valid_canon real h = h
    valid_canon (text s) h = h
    valid_canon (object fs) h =
        fields_of_pairs (sorted (canon_pairs fs))
          (sorted-All PairValid (canon_pairs fs) (pairs_canon fs h))
    valid_canon (array xs) h = items_canon xs h
    valid_canon other h = h

    items_canon : (xs : Items) → valid_items xs ≡ true → valid_items (canon_items xs) ≡ true
    items_canon nil h = refl
    items_canon (cons x xs) h =
        both_true (is_valid (canon x)) (valid_items (canon_items xs))
          (valid_canon x (and_left (is_valid x) (valid_items xs) h))
          (items_canon xs (and_right (is_valid x) (valid_items xs) h))

    pairs_canon : (fs : Fields) → valid_fields fs ≡ true → All PairValid (canon_pairs fs)
    pairs_canon end h = tt
    pairs_canon (field k x fs) h =
        let rest = and_right (valid_string k) (is_valid x && valid_fields fs) h in
        (
          (
            and_left (valid_string k) (is_valid x && valid_fields fs) h,
            valid_canon x (and_left (is_valid x) (valid_fields fs) rest),
          ),
          pairs_canon fs (and_right (is_valid x) (valid_fields fs) rest),
        )

  mutual
    unfolding is_plain is_valid

    valid_plain : (v : Value) → is_valid v ≡ true → is_plain v ≡ true
    valid_plain null h = h
    valid_plain (boolean b) h = refl
    valid_plain (integer i) h = h
    valid_plain real h = h
    valid_plain (text s) h = refl
    valid_plain (object fs) h = plain_fields_lem fs h
    valid_plain (array xs) h = plain_items_lem xs h
    valid_plain other h = h

    plain_items_lem : (xs : Items) → valid_items xs ≡ true → plain_items xs ≡ true
    plain_items_lem nil h = refl
    plain_items_lem (cons x xs) h =
        both_true (is_plain x) (plain_items xs)
          (valid_plain x (and_left (is_valid x) (valid_items xs) h))
          (plain_items_lem xs (and_right (is_valid x) (valid_items xs) h))

    plain_fields_lem : (fs : Fields) → valid_fields fs ≡ true → plain_fields fs ≡ true
    plain_fields_lem end h = refl
    plain_fields_lem (field k x fs) h =
        let rest = and_right (valid_string k) (is_valid x && valid_fields fs) h in
        both_true (is_plain x) (plain_fields fs)
          (valid_plain x (and_left (is_valid x) (valid_fields fs) rest))
          (plain_fields_lem fs (and_right (is_valid x) (valid_fields fs) rest))

  -- An accepted value has a canonical value that is accepted and that JSON text can hold.
  pub validate-canon :
      (v : Value)
      → validate_value normalize v [] ≡ ok tt
      → (validate_value normalize (canon v) [] ≡ ok tt) × (is_plain (canon v) ≡ true)
  validate-canon v h =
      let c = valid_canon v (value_valid v [] h) in
      (valid_value-ok (canon v) [] c, valid_plain (canon v) c)
