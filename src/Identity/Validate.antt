-- ===== src/Identity/Validate.antt =====
-- src/unrest_harness/canonical_identity.py: `validate_canonical_value`.
use unrest.Base.{ℕ, suc, Bool, not, ◌&&◌, List, [], ◌∷◌, ◌++◌, if◌then◌else◌, all, any, ltb, leb}
use unrest.Identity.{
  ℤ, pos, negsuc, Value, null, boolean, integer, real, text, object, array, other, Items, nil, cons,
  Fields, end, field, Code, Segment, Result, ok, err, ◌>>◌, fail_if, same_text,
}

abbrev pub safe_integer : ℕ
safe_integer = 9007199254740991

-- `-_SAFE_INTEGER <= value <= _SAFE_INTEGER`
abbrev pub is_safe : ℤ → Bool
is_safe (pos n) = leb n safe_integer
is_safe (negsuc n) = ltb n safe_integer

abbrev pub is_surrogate : ℕ → Bool
is_surrogate c = leb 0xD800 c && leb c 0xDFFF

-- `normalize` is `unicodedata.normalize("NFC", ...)`.
module _ (normalize : List ℕ → List ℕ) where
  -- `_validate_string`
  unfoldable pub validate_string : List ℕ → List Segment → Result (Unit {0})
  validate_string s path = if all (λ c. ltb c 128) s then ok tt else (do
    fail_if (any is_surrogate s) Code.invalid_unicode path
    fail_if (not (same_text (normalize s) s)) Code.non_nfc path)

  -- `validate_canonical_value`. Its recursion has no limit here: the interpreter's, which depends on the
  -- stack in use, raises a RecursionError on a value that is nested too deep.
  unfoldable mutual
    unfolding validate_string

    pub validate_value : Value → List Segment → Result (Unit {0})
    validate_value null path = err Code.null_not_allowed path
    validate_value (boolean b) path = ok tt
    validate_value (integer i) path = fail_if (not (is_safe i)) Code.unsafe_integer path
    validate_value real path = err Code.float_not_allowed path
    validate_value (text s) path = validate_string s path
    validate_value (object fs) path = validate_fields fs path
    validate_value (array xs) path = validate_items xs 0 path
    validate_value other path = err Code.unsupported_type path

    pub validate_items : Items → ℕ → List Segment → Result (Unit {0})
    validate_items nil i path = ok tt
    validate_items (cons x xs) i path =
        validate_value x (path ++ Segment.at i ∷ []) >> validate_items xs (suc i) path

    pub validate_fields : Fields → List Segment → Result (Unit {0})
    validate_fields end path = ok tt
    validate_fields (field k x fs) path =
        validate_string k (path ++ Segment.key k ∷ [])
        >> validate_value x (path ++ Segment.member k ∷ [])
        >> validate_fields fs path
