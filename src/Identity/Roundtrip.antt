-- ===== src/Identity/Roundtrip.antt =====
-- `strict_parse_json` of canonical_identity.py on the text that `canonical_json_bytes` makes.
use unrest.Base.{
  and_right, ℕ, suc, ◌*◌, ◌≡◌, refl, sym, ap, subst, ◌∙◌, arith, Bool, true, false, not, List, [],
  ◌∷◌, ◌++◌, length, eqb,
}
use unrest.Identity.{Value, Code, Result, ok, err, ◌>>=◌, fail_if, same_text}
use unrest.Identity.Validate.{validate_value}
use unrest.Identity.Encode.{encode_value, canonical_json}
use unrest.Identity.Parse.{
  skip_blanks, begins_with, parse_value, loads, encoded, strict_parse_json, verify_canonical_json,
}
use unrest.Identity.Canon.{canon, is_ordered, is_mapping, is_plain, write}
use unrest.Identity.Reading.{IsOpening, write-IsOpening, solid_text, parse_value-write}
use unrest.Identity.Writing.{encode_value-write}
use unrest.Identity.Valid.{is_mapping-canon}
use unrest.Identity.Accepted.{validate-canon}
use unrest.Identity.Ordered.{canon_self, is_ordered-canon}
use unrest.Identity.Strict.{strict_parse_json-is_mapping}
use unrest.Identity.Cost.{cost_value}

loads_steps :
    (cs rest : List ℕ) (v : Value)
    → skip_blanks cs ≡ cs
    → parse_value (suc (2 * length cs)) cs ≡ ok (v, rest)
    → skip_blanks rest ≡ []
    → loads cs ≡ ok v
unfolding loads
loads_steps cs rest v solid parses blank = rw solid (rw parses (rw blank refl))

newline_blank : skip_blanks (10 ∷ []) ≡ []
unfolding skip_blanks
newline_blank = refl

-- `json.loads` of a value's text and the line feed behind it.
loads-write :
    (v : Value) → is_plain v ≡ true → is_mapping v ≡ true → loads (write v (10 ∷ [])) ≡ ok v
loads-write v p m =
    loads_steps (write v (10 ∷ [])) (10 ∷ []) v
      (solid_text (write v (10 ∷ [])) (write-IsOpening v (10 ∷ []) p refl))
      (parse_value-write v (suc (2 * length (write v (10 ∷ [])))) (10 ∷ []) p m
        (omega (arith, cost_value v (10 ∷ []) p)) refl)
      newline_blank

no_bom : (cs : List ℕ) → IsOpening cs → begins_with 0xFEFF cs ≡ false
no_bom cs o = ap (begins_with 0xFEFF) o.split ∙ ground (arith, o.small)

same_text_refl : (xs : List ℕ) → same_text xs xs ≡ true
same_text_refl [] = refl
same_text_refl (x ∷ xs) = ground (arith, same_text_refl xs)

same_text-Eq : (xs ys : List ℕ) → same_text xs ys ≡ true → xs ≡ ys
same_text-Eq [] [] h = refl
same_text-Eq [] (y ∷ ys) h = cc
same_text-Eq (x ∷ xs) [] h = cc
same_text-Eq (x ∷ xs) (y ∷ ys) h =
    let e : x ≡ y = ground arith in
    let es = same_text-Eq xs ys (and_right (eqb x y) (same_text xs ys) h) in cc

ok_inj : (u v : Value) → ok u ≡ ok v → u ≡ v
ok_inj u v e = cc

module _ (normalize : List ℕ → List ℕ) where
  strict_steps :
      (cs : List ℕ) (v : Value)
      → begins_with 0xFEFF cs ≡ false
      → loads cs ≡ ok v
      → validate_value normalize v [] ≡ ok tt
      → strict_parse_json normalize (encoded cs) ≡ ok v
  unfolding strict_parse_json
  strict_steps cs v bom parses valid = rw bom (rw parses (rw valid refl))

  canonical_parts :
      (v : Value) (cs : List ℕ)
      → canonical_json normalize v ≡ ok cs
      → (validate_value normalize v [] ≡ ok tt) × (cs ≡ encode_value v ++ 10 ∷ [])
  unfolding canonical_json
  canonical_parts v cs h = parts (validate_value normalize v []) (encode_value v ++ 10 ∷ []) cs h
    where
      parts :
          (m : Result (Unit {0})) (made cs : List ℕ)
          → (m >>= λ _. ok made) ≡ ok cs
          → (m ≡ ok tt) × (cs ≡ made)
      parts (ok u) made cs h = (refl, cc)
      parts (err c p) made cs h = cc

  -- Where `canonical_json_bytes` encodes a value whose mappings have distinct keys, `strict_parse_json`
  -- reads the bytes back as the same value, with the fields of each object in the order of their keys.
  strict_parse_json-canonical_json :
      (v : Value) (cs : List ℕ)
      → is_mapping v ≡ true
      → canonical_json normalize v ≡ ok cs
      → strict_parse_json normalize (encoded cs) ≡ ok (canon v)
  strict_parse_json-canonical_json v cs m h =
      let (valid, made) = canonical_parts v cs h in
      let written : write (canon v) (10 ∷ []) ≡ cs =
        sym (encode_value-write v (10 ∷ [])) ∙ sym made in
      let (valid', p) = validate-canon normalize v valid in
      subst (λ (t : List ℕ). strict_parse_json normalize (encoded t) ≡ ok (canon v)) written
        (strict_steps (write (canon v) (10 ∷ [])) (canon v)
          (no_bom _ (write-IsOpening (canon v) (10 ∷ []) p refl))
          (loads-write (canon v) p (is_mapping-canon v m)) valid')

  verify_steps :
      (cs : List ℕ) (v : Value)
      → strict_parse_json normalize (encoded cs) ≡ ok v
      → canonical_json normalize v ≡ ok cs
      → verify_canonical_json normalize cs ≡ ok v
  unfolding verify_canonical_json
  verify_steps cs v parses again = rw parses (rw again (rw (same_text_refl cs) refl))

  canonical_json-canon :
      (v : Value) (cs : List ℕ)
      → canonical_json normalize v ≡ ok cs
      → canonical_json normalize (canon v) ≡ ok cs
  unfolding canonical_json
  canonical_json-canon v cs h =
      let (valid, made) = canonical_parts v cs h in
      let (valid', p) = validate-canon normalize v valid in
      let again : encode_value (canon v) ++ 10 ∷ [] ≡ cs =
        encode_value-write (canon v) (10 ∷ [])
        ∙ ap (λ w. write w (10 ∷ [])) (canon_self v)
        ∙ sym (encode_value-write v (10 ∷ []))
        ∙ sym made in
      rw valid' (ap ok again)

  -- Where `canonical_json_bytes` encodes a value whose mappings have distinct keys,
  -- `verify_canonical_json_bytes` accepts the bytes and returns the same value, with the fields of each
  -- object in the order of their keys.
  pub verify_canonical_json-canonical_json :
      (v : Value) (cs : List ℕ)
      → is_mapping v ≡ true
      → canonical_json normalize v ≡ ok cs
      → verify_canonical_json normalize cs ≡ ok (canon v)
  verify_canonical_json-canonical_json v cs m h =
      verify_steps cs (canon v) (strict_parse_json-canonical_json v cs m h)
        (canonical_json-canon v cs h)

  accepted_parts :
      (cs : List ℕ) (v : Value)
      → verify_canonical_json normalize cs ≡ ok v
      → (strict_parse_json normalize (encoded cs) ≡ ok v) × (canonical_json normalize v ≡ ok cs)
  unfolding verify_canonical_json
  accepted_parts cs v h = parts (strict_parse_json normalize (encoded cs)) h
    where
      tested :
          (w : Value) (again : List ℕ) (b : Bool)
          → same_text again cs ≡ b
          → (fail_if (not b) Code.non_canonical_bytes [] >>= λ _. ok w) ≡ ok v
          → (again ≡ cs) × (w ≡ v)
      tested w again true e h = (same_text-Eq again cs e, cc)
      tested w again false e h = cc

      compared :
          (w : Value) (m : Result (List ℕ))
          → (m >>= λ again.
              fail_if (not (same_text again cs)) Code.non_canonical_bytes [] >>= λ _. ok w)
            ≡ ok v
          → (m ≡ ok cs) × (w ≡ v)
      compared w (err c p) h = cc
      compared w (ok again) h =
          let (e, same) = tested w again (same_text again cs) refl h in (ap ok e, same)

      parts :
          (m : Result Value)
          → (m >>= λ w. canonical_json normalize w >>= λ again.
              fail_if (not (same_text again cs)) Code.non_canonical_bytes [] >>= λ _. ok w)
            ≡ ok v
          → (m ≡ ok v) × (canonical_json normalize v ≡ ok cs)
      parts (err c p) h = cc
      parts (ok w) h =
          let (made, same) = compared w (canonical_json normalize w) h in
          (ap ok same, subst (λ u. canonical_json normalize u ≡ ok cs) same made)

  -- What `verify_canonical_json_bytes` accepts holds no object, at any depth, that repeats a key or whose
  -- keys do not stand in the order of their code points, and it is the text that `canonical_json_bytes`
  -- makes of the value returned.
  pub verify_canonical_json-is_ordered :
      (cs : List ℕ) (v : Value)
      → verify_canonical_json normalize cs ≡ ok v
      → (is_mapping v ≡ true) × (is_ordered v ≡ true) × (canonical_json normalize v ≡ ok cs)
  verify_canonical_json-is_ordered cs v h =
      let (parses, made) = accepted_parts cs v h in
      let m = strict_parse_json-is_mapping normalize (encoded cs) v parses in
      let same : canon v ≡ v =
        ok_inj (canon v) v (sym (strict_parse_json-canonical_json v cs m made) ∙ parses) in
      (m, subst (λ (u : Value). is_ordered u ≡ true) same (is_ordered-canon v), made)
