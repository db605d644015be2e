-- ===== src/Identity/Ending/Parser.antt =====
-- The ending of `strict_parse_json` of canonical_identity.py.
use unrest.Base.{
  ℕ, zero, suc, ◌+◌, ◌*◌, ◌≤◌, ◌≡◌, refl, arith, Bool, true, false, not, List, [], ◌∷◌, none,
  if◌then◌else◌, length, eqb, ltb, any, all, ◌++◌,
}
use unrest.Identity.{
  Value, null, boolean, integer, real, other, Items, Fields, nil, cons, end, field, text, object,
  array, Code, Segment, Result, ok, ◌>>=◌, ◌>>◌, fail_if, same_text,
}
use unrest.Identity.Validate.{
  is_safe, is_surrogate, validate_string, validate_value, validate_items, validate_fields,
}
use unrest.Identity.Parse.{
  skip_blanks, plain, to_object, expect, begins_with, parse_value, parse_items, parse_fields, loads,
  Source, strict_parse_json,
}
use unrest.Identity.Ending.Atoms.{atom_from-Shorter}
use unrest.Identity.Ending.{
  is_from_source, Leaves, Leaves-if, Leaves-elim, leaves, fails, Leaves-bind, behind_part, Shorter,
  length-skip_blanks, expect-Leaves, string_from-Shorter,
}

to_object-Shorter : {n : ℕ} (p : Fields × List ℕ) → suc (length p.1) ≤ n → Shorter n (to_object p)
to_object-Shorter p le = Leaves-if behind_part _ (fails behind_part refl) (leaves behind_part le)

-- What stands behind an item: a comma and more, or the closing character.
continued :
    {A : Type 0} (n : ℕ) (close : ℕ) (cs : List ℕ) (last : List ℕ → Result (A × List ℕ))
    (more : List ℕ → Result (A × List ℕ))
    → length cs ≤ n
    → ((rest : List ℕ) → suc (length rest) ≤ n → Shorter n (last rest))
    → ((rest : List ℕ) → suc (length rest) ≤ n → Shorter n (more rest))
    → Shorter n
        (if begins_with close cs then (expect close cs >>= last) else (expect b',' cs >>= more))
continued n close cs last more le l m =
    Leaves-if behind_part (begins_with close cs)
      (Leaves-bind length behind_part (expect-Leaves close cs) (λ rest h. l rest (omega arith)))
      (Leaves-bind length behind_part (expect-Leaves b',' cs) (λ rest h. m rest (omega arith)))

mutual
  unfolding parse_value parse_items parse_fields

  parse_value-Shorter :
      (f : ℕ) (cs : List ℕ) → 2 * length cs + 1 ≤ f → Shorter (length cs) (parse_value f cs)
  parse_value-Shorter zero cs le = fails behind_part (ground arith)
  parse_value-Shorter (suc f) [] le = fails behind_part refl
  parse_value-Shorter (suc f) (c ∷ cs) le =
      let body = skip_blanks cs in
      Leaves-if behind_part (eqb c b'"')
        (Leaves-bind behind_part behind_part (string_from-Shorter plain none cs)
          (λ p h. leaves behind_part (omega arith)))
        (Leaves-if behind_part (eqb c b'{')
          (Leaves-if behind_part (begins_with b'}' body)
            (Leaves-bind length behind_part (expect-Leaves b'}' body)
              (λ rest h. to_object-Shorter (end, rest) (omega (arith, length-skip_blanks cs))))
            (Leaves-bind behind_part behind_part
              (parse_fields-Shorter f body (omega (arith, length-skip_blanks cs)))
              (λ p h. to_object-Shorter p (omega (arith, length-skip_blanks cs)))))
          (Leaves-if behind_part (eqb c b'[')
            (Leaves-if behind_part (begins_with b']' body)
              (Leaves-bind length behind_part (expect-Leaves b']' body)
                (λ rest h. leaves behind_part (omega (arith, length-skip_blanks cs))))
              (Leaves-bind behind_part behind_part
                (parse_items-Shorter f body (omega (arith, length-skip_blanks cs)))
                (λ p h. leaves behind_part (omega (arith, length-skip_blanks cs)))))
            (atom_from-Shorter c cs)))

  parse_items-Shorter :
      (f : ℕ) (cs : List ℕ) → 2 * length cs + 2 ≤ f → Shorter (length cs) (parse_items f cs)
  parse_items-Shorter zero cs le = fails behind_part (ground arith)
  parse_items-Shorter (suc f) cs le =
      Leaves-bind behind_part behind_part (parse_value-Shorter f cs (omega arith)) (λ p h.
        continued (length cs) b']' (skip_blanks p.1) _ _ (omega (arith, length-skip_blanks p.1))
          (λ rest k. leaves behind_part (omega arith))
          (λ rest k.
            Leaves-bind behind_part behind_part
              (parse_items-Shorter f (skip_blanks rest) (omega (arith, length-skip_blanks rest)))
              (λ q j. leaves behind_part (omega (arith, length-skip_blanks rest)))))

  parse_fields-Shorter :
      (f : ℕ) (cs : List ℕ) → 2 * length cs + 2 ≤ f → Shorter (length cs) (parse_fields f cs)
  parse_fields-Shorter zero cs le = fails behind_part (ground arith)
  parse_fields-Shorter (suc f) cs le =
      Leaves-bind length behind_part (expect-Leaves b'"' cs) (λ inside i.
        Leaves-bind behind_part behind_part (string_from-Shorter plain none inside) (λ k j.
          Leaves-bind length behind_part (expect-Leaves b':' (skip_blanks k.1)) (λ rest r.
            Leaves-bind behind_part behind_part
              (parse_value-Shorter f (skip_blanks rest)
                (omega (arith, length-skip_blanks rest, length-skip_blanks k.1)))
              (λ p h.
                continued (length cs) b'}' (skip_blanks p.1) _ _
                  (omega (
                    arith,
                    length-skip_blanks p.1,
                    length-skip_blanks rest,
                    length-skip_blanks k.1,
                  ))
                  (λ rest' t. leaves behind_part (omega arith))
                  (λ rest' t.
                    Leaves-bind behind_part behind_part
                      (parse_fields-Shorter f (skip_blanks rest')
                        (omega (arith, length-skip_blanks rest')))
                      (λ q u. leaves behind_part (omega (arith, length-skip_blanks rest'))))))))

abbrev pub Settles : {A : Type 0} → Result A → Type 0
Settles r = Leaves (λ a. 0) 1 r

settles : {A : Type 0} (a : A) → Settles (ok a)
settles a = leaves (λ b. 0) (omega arith)

fail_if-Settles :
    (b : Bool) (c : Code) (p : List Segment) → is_from_source c ≡ true → Settles (fail_if b c p)
fail_if-Settles true c p h = fails (λ a. 0) h
fail_if-Settles false c p h = settles tt

then_Settles :
    {A : Type 0} {r : Result (Unit {0})} {s : Result A} → Settles r → Settles s → Settles (r >> s)
then_Settles h k = Leaves-bind (λ a. 0) (λ b. 0) h (λ a le. k)

loads-Settles : (cs : List ℕ) → Settles (loads cs)
unfolding loads
loads-Settles cs =
    Leaves-bind behind_part (λ v. 0)
      (parse_value-Shorter (suc (2 * length cs)) (skip_blanks cs)
        (omega (arith, length-skip_blanks cs)))
      (λ p h. then_Settles (fail_if-Settles _ Code.invalid_json [] refl) (settles p.0))

module _ (normalize : List ℕ → List ℕ) where
  validate_string-Settles :
      (s : List ℕ) (path : List Segment) → Settles (validate_string normalize s path)
  unfolding validate_string
  validate_string-Settles s path =
      Leaves-if (λ a. 0) (all (λ c. ltb c 128) s) (settles tt)
        (then_Settles (fail_if-Settles (any is_surrogate s) Code.invalid_unicode path refl)
          (fail_if-Settles (not (same_text (normalize s) s)) Code.non_nfc path refl))

  mutual
    unfolding validate_value validate_items validate_fields

    validate_value-Settles :
        (v : Value) (path : List Segment) → Settles (validate_value normalize v path)
    validate_value-Settles null path = fails (λ a. 0) refl
    validate_value-Settles (boolean b) path = settles tt
    validate_value-Settles (integer i) path =
        fail_if-Settles (not (is_safe i)) Code.unsafe_integer path refl
    validate_value-Settles real path = fails (λ a. 0) refl
    validate_value-Settles (text s) path = validate_string-Settles s path
    validate_value-Settles (object fs) path = validate_fields-Settles fs path
    validate_value-Settles (array xs) path = validate_items-Settles xs 0 path
    validate_value-Settles other path = fails (λ a. 0) refl

    validate_items-Settles :
        (xs : Items) (i : ℕ) (path : List Segment) → Settles (validate_items normalize xs i path)
    validate_items-Settles nil i path = settles tt
    validate_items-Settles (cons x xs) i path =
        then_Settles (validate_value-Settles x (path ++ Segment.at i ∷ []))
          (validate_items-Settles xs (suc i) path)

    validate_fields-Settles :
        (fs : Fields) (path : List Segment) → Settles (validate_fields normalize fs path)
    validate_fields-Settles end path = settles tt
    validate_fields-Settles (field k x fs) path =
        then_Settles
          (then_Settles (validate_string-Settles k (path ++ Segment.key k ∷ []))
            (validate_value-Settles x (path ++ Segment.member k ∷ [])))
          (validate_fields-Settles fs path)

  pub strict_parse_json-Settles : (source : Source) → Settles (strict_parse_json normalize source)
  unfolding strict_parse_json
  strict_parse_json-Settles source =
      Leaves-if (λ a. 0) source.begins_with_bom (fails (λ a. 0) refl)
        (Leaves-elim (λ a. 0) source.decoded (fails (λ a. 0) refl)
          (λ cs.
            Leaves-bind (λ a. 0) (λ b. 0) (loads-Settles cs)
              (λ v le. then_Settles (validate_value-Settles v []) (settles v))))
