-- ===== src/Tests/Identities.antt =====
-- A mapping with an escape, a negative number and a list, through canonical_identity.py.

use unrest.Base.{ℕ, ◌≡◌, refl, true, List, [], ◌∷◌}
use unrest.Identity.{
  negsuc, Value, boolean, integer, text, object, array, nil, cons, end, field, Code, Segment, ok,
  err,
}
use unrest.Identity.Encode.{canonical_json}
use unrest.Identity.Parse.{encoded, strict_parse_json, verify_canonical_json}
use unrest.Identity.Canon.{is_mapping, is_ordered, canon}
use unrest.Identity.Roundtrip.{
  verify_canonical_json-canonical_json, verify_canonical_json-is_ordered,
}
use unrest.Identity.Strict.{Answers, strict_parse_json-Answers}

-- On text of ASCII alone the normal form is the text itself.
abbrev same : List ℕ → List ℕ
same s = s

abbrev key_b : List ℕ
key_b = b'b' ∷ []

abbrev key_a : List ℕ
key_a = b'a' ∷ []

-- {"b": [true, "q\"\n"], "a": -12}
abbrev value : Value
value = object (
    field key_b (array (cons (boolean true) (cons (text (b'q' ∷ b'"' ∷ 10 ∷ [])) nil)))
      (field key_a (integer (negsuc 11)) end))

abbrev sorted_value : Value
sorted_value = object (
    field key_a (integer (negsuc 11))
      (field key_b (array (cons (boolean true) (cons (text (b'q' ∷ b'"' ∷ 10 ∷ [])) nil))) end))

-- {"a":-12,"b":[true,"q\"\n"]} and a line feed
abbrev bytes : List ℕ
bytes =
    b'{' ∷ b'"' ∷ b'a' ∷ b'"' ∷ b':' ∷ b'-' ∷ b'1' ∷ b'2' ∷ b',' ∷ b'"' ∷ b'b' ∷ b'"' ∷ b':' ∷ b'['
    ∷ b't' ∷ b'r' ∷ b'u' ∷ b'e' ∷ b',' ∷ b'"' ∷ b'q' ∷ b'\\' ∷ b'"' ∷ b'\\' ∷ b'n' ∷ b'"' ∷ b']'
    ∷ b'}' ∷ 10 ∷ []

encodes : canonical_json same value ≡ ok bytes
unfolding canonical_json
encodes = refl

parses : strict_parse_json same (encoded bytes) ≡ ok sorted_value
unfolding strict_parse_json
parses = refl

verifies : verify_canonical_json same bytes ≡ ok sorted_value
unfolding verify_canonical_json
verifies = refl

-- {"a":1,"a":1}
repeated_refused :
    strict_parse_json same (
      encoded (
        b'{' ∷ b'"' ∷ b'a' ∷ b'"' ∷ b':' ∷ b'1' ∷ b',' ∷ b'"' ∷ b'a' ∷ b'"' ∷ b':' ∷ b'1' ∷ b'}'
        ∷ []))
    ≡ err Code.duplicate_key []
unfolding strict_parse_json
repeated_refused = refl

float_refused :
    strict_parse_json same (encoded (b'1' ∷ b'.' ∷ b'5' ∷ [])) ≡ err Code.float_not_allowed []
unfolding strict_parse_json
float_refused = refl

-- [1,null]
null_refused :
    strict_parse_json same (encoded (b'[' ∷ b'1' ∷ b',' ∷ b'n' ∷ b'u' ∷ b'l' ∷ b'l' ∷ b']' ∷ []))
    ≡ err Code.null_not_allowed (Segment.at 1 ∷ [])
unfolding strict_parse_json
null_refused = refl

-- A blank before the value is read, and is not canonical.
blank_refused : verify_canonical_json same (b' ' ∷ b'1' ∷ 10 ∷ []) ≡ err Code.non_canonical_bytes []
unfolding verify_canonical_json
blank_refused = refl

verify_canonical_json-canonical_json_example : verify_canonical_json same bytes ≡ ok sorted_value
unfolding is_mapping canon
verify_canonical_json-canonical_json_example =
    verify_canonical_json-canonical_json same value bytes refl encodes

verify_canonical_json-is_ordered_example :
    (is_mapping sorted_value ≡ true)
    × (is_ordered sorted_value ≡ true)
    × (canonical_json same sorted_value ≡ ok bytes)
verify_canonical_json-is_ordered_example =
    verify_canonical_json-is_ordered same bytes sorted_value verifies

-- Keys that stand in another order are read, and are not canonical.
disordered_refused :
    verify_canonical_json same (
      b'{' ∷ b'"' ∷ b'b' ∷ b'"' ∷ b':' ∷ b'1' ∷ b',' ∷ b'"' ∷ b'a' ∷ b'"' ∷ b':' ∷ b'1' ∷ b'}' ∷ 10
      ∷ [])
    ≡ err Code.non_canonical_bytes []
unfolding verify_canonical_json
disordered_refused = refl

strict_parse_json-Answers_example :
    Answers same (encoded bytes) (strict_parse_json same (encoded bytes))
strict_parse_json-Answers_example = strict_parse_json-Answers same (encoded bytes)
