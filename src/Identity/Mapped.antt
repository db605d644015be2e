-- ===== src/Identity/Mapped.antt =====
-- The values that `json.loads` returns to `strict_parse_json` of canonical_identity.py, and the hook
-- `_pairs_to_object`.
use unrest.Base.{
  ℕ, zero, suc, ◌*◌, ◌≡◌, refl, arith, Bool, true, false, not, List, [], ◌∷◌, Option, none, some,
  if◌then◌else◌, length, eqb, ltb, both_true, subst,
}
use unrest.Identity.{
  Value, null, boolean, integer, text, array, Items, nil, cons, Fields, end, field, Code, Segment,
  Result, ok, err, ◌>>=◌, fail_if, same_text,
}
use unrest.Identity.Parse.{
  skip_blanks, plain, string_from, after_prefix, is_digit, is_real, signed, max_digits, numbered,
  digits_from, number_from, constant, literal, infinity, atom_from, repeats, to_object, expect,
  begins_with, parse_value, parse_items, parse_fields, loads,
}
use unrest.Identity.Canon.{is_mapping, all_items, all_mappings}

module _ {A : Type 0} (P : A → Type 0) where
  -- The value, if one is returned, has the property.
  abbrev HasAll : Result A → Type 0
  HasAll (ok a) = P a
  HasAll (err c p) = Unit {0}

  pub record Gives (r : Result A) : Type 0 where
    pub given : HasAll r

  Gives-when :
      (b : Bool) {r s : Result A}
      → (b ≡ true → Gives r)
      → (b ≡ false → Gives s)
      → Gives (if b then r else s)
  Gives-when true h k = h refl
  Gives-when false h k = k refl

  Gives-if : (b : Bool) {r s : Result A} → Gives r → Gives s → Gives (if b then r else s)
  Gives-if true h k = h
  Gives-if false h k = k

  Gives-elim :
      {B : Type 0} (o : Option B) {r : Result A} {f : B → Result A}
      → Gives r
      → ((b : B) → Gives (f b))
      → Gives (elim o [ none ↦ r | some b ↦ f b ])
  Gives-elim none h k = h
  Gives-elim (some b) h k = k b

  gives : {a : A} → P a → Gives (ok a)
  gives h = record { given = h }

  no_value : (c : Code) (p : List Segment) → Gives (err c p)
  no_value c p = record { given = tt }

module _ {A B : Type 0} (P : A → Type 0) (Q : B → Type 0) where
  Gives-bind :
      {r : Result A} {f : A → Result B}
      → Gives P r
      → ((a : A) → P a → Gives Q (f a))
      → Gives Q (r >>= f)
  Gives-bind {r = ok a} h k = k a h.given
  Gives-bind {r = err c p} h k = no_value Q c p

-- Nothing is asked of the parts that hold no value.
abbrev Any : {A : Type 0} → A → Type 0
Any a = Unit {0}

anything : {A : Type 0} (r : Result A) → Gives Any r
anything (ok a) = gives Any tt
anything (err c p) = no_value Any c p

abbrev IsMapping : Value × List ℕ → Type 0
IsMapping p = is_mapping p.0 ≡ true

abbrev AllItems : Items × List ℕ → Type 0
AllItems p = all_items p.0 ≡ true

abbrev AllMappings : Fields × List ℕ → Type 0
AllMappings p = all_mappings p.0 ≡ true

invalid_json : {A : Type 0} (P : A → Type 0) → Gives P (err Code.invalid_json [])
invalid_json P = no_value P Code.invalid_json []

to_object-IsMapping : (p : Fields × List ℕ) → AllMappings p → Gives IsMapping (to_object p)
unfolding is_mapping
to_object-IsMapping p h =
    Gives-when IsMapping (repeats p.0) (λ met. no_value IsMapping Code.duplicate_key [])
      (λ apart. gives IsMapping (ground (arith, h, apart)))

number_from-IsMapping : (minus : Bool) (cs : List ℕ) → Gives IsMapping (number_from minus cs)
unfolding number_from is_mapping
number_from-IsMapping minus [] = invalid_json IsMapping
number_from-IsMapping minus (c ∷ cs) =
    Gives-if IsMapping (eqb c b'0') (read 1 (0, cs))
      (Gives-if IsMapping (is_digit c) (read _ (digits_from 0 (c ∷ cs))) (invalid_json IsMapping))
  where
    read : (count : ℕ) (p : ℕ × List ℕ) → Gives IsMapping (numbered minus count p)
    read count p = Gives-if IsMapping (is_real p.1) (no_value IsMapping Code.float_not_allowed []) (
        Gives-if IsMapping (ltb max_digits count) (no_value IsMapping Code.value_error [])
          (gives IsMapping {a = (integer (signed minus p.0), p.1)} refl))

constant-IsMapping :
    (name : List ℕ) {r : Result (Value × List ℕ)} (cs : List ℕ)
    → Gives IsMapping r
    → Gives IsMapping (constant name r cs)
constant-IsMapping name cs h =
    Gives-elim IsMapping (after_prefix name cs) h
      (λ rest. no_value IsMapping Code.non_json_number [])

literal-IsMapping :
    (name : List ℕ) (v : Value) (cs : List ℕ)
    → is_mapping v ≡ true
    → Gives IsMapping (literal name v cs)
literal-IsMapping name v cs h =
    Gives-elim IsMapping (after_prefix name cs) (invalid_json IsMapping)
      (λ rest. gives IsMapping {a = (v, rest)} h)

atom_from-IsMapping : (c : ℕ) (cs : List ℕ) → Gives IsMapping (atom_from c cs)
unfolding atom_from is_mapping
atom_from-IsMapping c cs =
    Gives-if IsMapping (eqb c b'n') (literal-IsMapping (b'u' ∷ b'l' ∷ b'l' ∷ []) null cs refl) (
      Gives-if IsMapping (eqb c b't')
        (literal-IsMapping (b'r' ∷ b'u' ∷ b'e' ∷ []) (boolean true) cs refl)
        (Gives-if IsMapping (eqb c b'f')
          (literal-IsMapping (b'a' ∷ b'l' ∷ b's' ∷ b'e' ∷ []) (boolean false) cs refl)
          (Gives-if IsMapping (eqb c b'-')
            (constant-IsMapping infinity cs (number_from-IsMapping true cs))
            (Gives-if IsMapping (eqb c b'N')
              (constant-IsMapping (b'a' ∷ b'N' ∷ []) cs (invalid_json IsMapping))
              (Gives-if IsMapping (eqb c b'I')
                (constant-IsMapping infinity (c ∷ cs) (invalid_json IsMapping))
                (number_from-IsMapping false (c ∷ cs)))))))

-- What stands behind an item: a comma and more, or the closing character.
continued :
    {A : Type 0} (P : A × List ℕ → Type 0) (close : ℕ) (cs : List ℕ)
    (last more : List ℕ → Result (A × List ℕ))
    → ((rest : List ℕ) → Gives P (last rest))
    → ((rest : List ℕ) → Gives P (more rest))
    → Gives P
        (if begins_with close cs then (expect close cs >>= last) else (expect b',' cs >>= more))
continued P close cs last more l m =
    Gives-if P (begins_with close cs)
      (Gives-bind Any P (anything (expect close cs)) (λ rest h. l rest))
      (Gives-bind Any P (anything (expect b',' cs)) (λ rest h. m rest))

mutual
  unfolding parse_value parse_items parse_fields is_mapping

  parse_value-IsMapping : (f : ℕ) (cs : List ℕ) → Gives IsMapping (parse_value f cs)
  parse_value-IsMapping zero cs = no_value IsMapping Code.out_of_fuel []
  parse_value-IsMapping (suc f) [] = invalid_json IsMapping
  parse_value-IsMapping (suc f) (c ∷ cs) =
      let body = skip_blanks cs in
      Gives-if IsMapping (eqb c b'"')
        (Gives-bind Any IsMapping (anything (string_from plain none cs))
          (λ p h. gives IsMapping {a = (text p.0, p.1)} refl))
        (Gives-if IsMapping (eqb c b'{')
          (Gives-if IsMapping (begins_with b'}' body)
            (Gives-bind Any IsMapping (anything (expect b'}' body))
              (λ rest h. to_object-IsMapping (end, rest) refl))
            (Gives-bind AllMappings IsMapping (parse_fields-IsMapping f body)
              (λ p h. to_object-IsMapping p h)))
          (Gives-if IsMapping (eqb c b'[')
            (Gives-if IsMapping (begins_with b']' body)
              (Gives-bind Any IsMapping (anything (expect b']' body))
                (λ rest h. gives IsMapping {a = (array nil, rest)} refl))
              (Gives-bind AllItems IsMapping (parse_items-IsMapping f body)
                (λ p h. gives IsMapping {a = (array p.0, p.1)} h)))
            (atom_from-IsMapping c cs)))

  parse_items-IsMapping : (f : ℕ) (cs : List ℕ) → Gives AllItems (parse_items f cs)
  parse_items-IsMapping zero cs = no_value AllItems Code.out_of_fuel []
  parse_items-IsMapping (suc f) cs =
      Gives-bind IsMapping AllItems (parse_value-IsMapping f cs) (λ p h.
        continued AllItems b']' (skip_blanks p.1) _ _
          (λ rest.
            gives AllItems {a = (cons p.0 nil, rest)} (both_true (is_mapping p.0) true h refl))
          (λ rest. Gives-bind AllItems AllItems (parse_items-IsMapping f (skip_blanks rest)) (λ q k.
            gives AllItems {a = (cons p.0 q.0, q.1)}
              (both_true (is_mapping p.0) (all_items q.0) h k))))

  parse_fields-IsMapping : (f : ℕ) (cs : List ℕ) → Gives AllMappings (parse_fields f cs)
  parse_fields-IsMapping zero cs = no_value AllMappings Code.out_of_fuel []
  parse_fields-IsMapping (suc f) cs =
      Gives-bind Any AllMappings (anything (expect b'"' cs)) (λ inside _.
        Gives-bind Any AllMappings (anything (string_from plain none inside)) (λ k _.
          Gives-bind Any AllMappings (anything (expect b':' (skip_blanks k.1))) (λ rest _.
            Gives-bind IsMapping AllMappings (parse_value-IsMapping f (skip_blanks rest)) (λ p h.
              continued AllMappings b'}' (skip_blanks p.1) _ _
                (λ rest'.
                  gives AllMappings {a = (field k.0 p.0 end, rest')}
                    (both_true (is_mapping p.0) true h refl))
                (λ rest'.
                  Gives-bind AllMappings AllMappings (parse_fields-IsMapping f (skip_blanks rest'))
                    (λ q j.
                      gives AllMappings {a = (field k.0 p.0 q.0, q.1)}
                        (both_true (is_mapping p.0) (all_mappings q.0) h j)))))))

loads-Gives : (cs : List ℕ) → Gives (λ v. is_mapping v ≡ true) (loads cs)
unfolding loads
loads-Gives cs =
    Gives-bind IsMapping (λ v. is_mapping v ≡ true)
      (parse_value-IsMapping (suc (2 * length cs)) (skip_blanks cs))
      (λ p h.
        Gives-bind Any (λ v. is_mapping v ≡ true)
          (anything (fail_if (not (same_text (skip_blanks p.1) [])) Code.invalid_json []))
          (λ u _. gives (λ v. is_mapping v ≡ true) h))

-- A value that `json.loads` returns has distinct keys at each depth.
pub loads-is_mapping : (cs : List ℕ) (v : Value) → loads cs ≡ ok v → is_mapping v ≡ true
loads-is_mapping cs v e = taken (loads cs) (loads-Gives cs) e
  where
    taken : (r : Result Value) → Gives (λ w. is_mapping w ≡ true) r → r ≡ ok v → is_mapping v ≡ true
    taken (ok w) g h =
        let same : w ≡ v = cc in subst (λ (u : Value). is_mapping u ≡ true) same g.given
    taken (err c p) g h = cc
