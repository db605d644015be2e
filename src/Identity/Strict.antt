-- ===== src/Identity/Strict.antt =====
-- `strict_parse_json` of canonical_identity.py on any bytes.
use unrest.Base.{
  ℕ, ◌≡◌, refl, ap, subst, Bool, true, false, List, [], Option, none, some, if◌then◌else◌,
}
use unrest.Identity.{Value, Code, Result, ok, err, ◌>>=◌, ◌>>◌}
use unrest.Identity.Validate.{validate_value}
use unrest.Identity.Parse.{loads, Source, strict_parse_json}
use unrest.Identity.Canon.{is_mapping}
use unrest.Identity.Mapped.{loads-is_mapping}
use unrest.Identity.Ending.{is_from_source}
use unrest.Identity.Ending.Parser.{Settles, strict_parse_json-Settles}

module _ (normalize : List ℕ → List ℕ) where
  -- What a success of `strict_parse_json` comes from.
  pub record IsParsed (source : Source) (v : Value) : Type 0 where
    pub characters : List ℕ
    pub no_bom : source.begins_with_bom ≡ false
    pub read : loads characters ≡ ok v
    pub valid : validate_value normalize v [] ≡ ok tt

  checked :
      (m : Result Value) (k : Value → Result (Unit {0})) (v : Value)
      → (m >>= λ w. k w >> ok w) ≡ ok v
      → (m ≡ ok v) × (k v ≡ ok tt)
  checked (err c p) k v h = cc
  checked (ok w) k v h = passed (k w) refl h
    where
      passed :
          (r : Result (Unit {0})) → k w ≡ r → (r >> ok w) ≡ ok v → (ok w ≡ ok v) × (k v ≡ ok tt)
      passed (err c p) e h = cc
      passed (ok u) e h =
          let same : w ≡ v = cc in (ap ok same, subst (λ (x : Value). k x ≡ ok tt) same e)

  parsed :
      (source : Source) (v : Value) → strict_parse_json normalize source ≡ ok v → IsParsed source v
  unfolding strict_parse_json
  parsed source v h = decided source.begins_with_bom source.decoded refl h
    where
      decided :
          (b : Bool) (o : Option (List ℕ))
          → source.begins_with_bom ≡ b
          → (if b then err Code.bom_not_allowed [] else elim o [
            | none ↦ err Code.invalid_utf8 []
            | some cs ↦ loads cs >>= λ w. validate_value normalize w [] >> ok w
          ])
            ≡ ok v
          → IsParsed source v
      decided true o e h = cc
      decided false none e h = cc
      decided false (some cs) e h =
          let (read, valid) = checked (loads cs) (λ w. validate_value normalize w []) v h in
          record { characters = cs; no_bom = e; read = read; valid = valid }

  pub strict_parse_json-is_mapping :
      (source : Source) (v : Value)
      → strict_parse_json normalize source ≡ ok v
      → is_mapping v ≡ true
  strict_parse_json-is_mapping source v h =
      let p = parsed source v h in loads-is_mapping p.characters v p.read

  -- A value that is returned is valid and has distinct keys, and an error is not the model's own.
  abbrev pub Answers : Source → Result Value → Type 0
  Answers source (ok v) =
      (source.begins_with_bom ≡ false)
      × ((is_mapping v ≡ true) × (validate_value normalize v [] ≡ ok tt))
  Answers source (err c p) = is_from_source c ≡ true

  -- On any bytes, `strict_parse_json` ends, if recursion has no limit: it fails, with a code of its own or
  -- the ValueError of `int`, or it returns a value that `validate_canonical_value` accepts and in which no
  -- object, at any depth, repeats a key, and then the bytes begin with no mark of byte order.
  pub strict_parse_json-Answers :
      (source : Source) → Answers source (strict_parse_json normalize source)
  strict_parse_json-Answers source = answered (strict_parse_json normalize source) refl
    where
      answered : (r : Result Value) → strict_parse_json normalize source ≡ r → Answers source r
      answered (ok v) e =
          let p = parsed source v e in (p.no_bom, (loads-is_mapping p.characters v p.read, p.valid))
      answered (err c p) e = (subst Settles e (strict_parse_json-Settles normalize source)).ends
