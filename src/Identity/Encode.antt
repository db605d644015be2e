-- ===== src/Identity/Encode.antt =====
-- src/unrest_harness/canonical_identity.py: `_encode_value` and `canonical_json_bytes`, up to the
-- UTF-8 codec. The escapes are those of `json.dumps(..., ensure_ascii=False)`.
use unrest.Base.{
  ℕ, zero, suc, ◌+◌, ◌/◌, ◌%◌, Bool, true, false, ◌&&◌, ◌||◌, List, [], ◌∷◌, ◌++◌, if◌then◌else◌,
  ltb, eqb,
}
use unrest.Identity.{
  ℤ, pos, negsuc, Value, null, boolean, integer, real, text, object, array, other, Items, nil, cons,
  Fields, end, field, Result, ok, ◌>>◌,
}
use unrest.Identity.Validate.{validate_value}

abbrev pub hex_digit : ℕ → ℕ
hex_digit d = if ltb d 10 then d + b'0' else d + 87

unfoldable pub escape : ℕ → List ℕ
escape c =
    if eqb c b'"'
    then b'\\' ∷ b'"' ∷ []
    else if eqb c b'\\'
    then b'\\' ∷ b'\\' ∷ []
    else if eqb c 10
    then b'\\' ∷ b'n' ∷ []
    else if eqb c 13
    then b'\\' ∷ b'r' ∷ []
    else if eqb c 9
    then b'\\' ∷ b't' ∷ []
    else if eqb c 12
    then b'\\' ∷ b'f' ∷ []
    else if eqb c 8
    then b'\\' ∷ b'b' ∷ []
    else if ltb c 32
    then b'\\' ∷ b'u' ∷ b'0' ∷ b'0' ∷ hex_digit (c / 16) ∷ hex_digit (c % 16) ∷ []
    else c ∷ []

unfoldable pub escaped : List ℕ → List ℕ
unfolding escape
escaped [] = []
escaped (c ∷ cs) = escape c ++ escaped cs

-- `_encode_string`
unfoldable pub encode_string : List ℕ → List ℕ
unfolding escaped
encode_string s = b'"' ∷ (escaped s ++ b'"' ∷ [])

-- The decimal digits of a number below `10 ^ f`.
unfoldable pub digits : ℕ → ℕ → List ℕ
digits zero n = []
digits (suc f) n =
    let more = digits f (n / 10) ++ (n % 10 + b'0') ∷ [] in
    if ltb n 10 then (n + b'0') ∷ [] else more

-- `str(n)`: a number has at most as many digits as its successor counts.
unfoldable pub decimal : ℕ → List ℕ
unfolding digits
decimal n = digits (suc n) n

unfoldable pub encode_integer : ℤ → List ℕ
unfolding decimal
encode_integer (pos n) = decimal n
encode_integer (negsuc n) = b'-' ∷ decimal (suc n)

-- The order of texts by their code points.
unfoldable pub text_le : List ℕ → List ℕ → Bool
text_le [] ys = true
text_le (x ∷ xs) [] = false
text_le (x ∷ xs) (y ∷ ys) = ltb x y || (eqb x y && text_le xs ys)

module _ {A : Type 0} where
  unfoldable pub place : List ℕ × A → List (List ℕ × A) → List (List ℕ × A)
  unfolding text_le
  place a [] = a ∷ []
  place a (b ∷ bs) = if text_le a.0 b.0 then a ∷ (b ∷ bs) else b ∷ place a bs

  -- `sorted(...)` by the keys
  unfoldable pub sorted : List (List ℕ × A) → List (List ℕ × A)
  unfolding place
  sorted [] = []
  sorted (a ∷ rest) = place a (sorted rest)

-- `",".join(f"{_encode_string(key)}:{...}")`
unfoldable pub join_fields : List (List ℕ × List ℕ) → List ℕ
unfolding encode_string
join_fields [] = []
join_fields ((k, x) ∷ []) = encode_string k ++ (b':' ∷ x)
join_fields ((k, x) ∷ (b ∷ rest)) =
    encode_string k ++ (b':' ∷ (x ++ (b',' ∷ join_fields (b ∷ rest))))

unfoldable pub join_items : List (List ℕ) → List ℕ
join_items [] = []
join_items (x ∷ []) = x
join_items (x ∷ (y ∷ rest)) = x ++ (b',' ∷ join_items (y ∷ rest))

-- `_encode_value`, on a value that has passed the validation: there it never fails.
unfoldable mutual
  unfolding encode_integer encode_string sorted join_fields join_items

  pub encode_value : Value → List ℕ
  encode_value null = []
  encode_value (boolean true) = b't' ∷ b'r' ∷ b'u' ∷ b'e' ∷ []
  encode_value (boolean false) = b'f' ∷ b'a' ∷ b'l' ∷ b's' ∷ b'e' ∷ []
  encode_value (integer i) = encode_integer i
  encode_value real = []
  encode_value (text s) = encode_string s
  encode_value (object fs) = b'{' ∷ (join_fields (sorted (encode_fields fs)) ++ b'}' ∷ [])
  encode_value (array xs) = b'[' ∷ (join_items (encode_items xs) ++ b']' ∷ [])
  encode_value other = []

  pub encode_items : Items → List (List ℕ)
  encode_items nil = []
  encode_items (cons x xs) = encode_value x ∷ encode_items xs

  pub encode_fields : Fields → List (List ℕ × List ℕ)
  encode_fields end = []
  encode_fields (field k x fs) = (k, encode_value x) ∷ encode_fields fs

-- `canonical_json_bytes`, before the codec.
unfoldable pub canonical_json : (List ℕ → List ℕ) → Value → Result (List ℕ)
unfolding validate_value encode_value
canonical_json normalize v = do validate_value normalize v []; ok (encode_value v ++ 10 ∷ [])
