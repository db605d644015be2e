-- ===== src/Identity/Cost.antt =====
-- The fuel of `loads` against the length of the text that `canonical_json_bytes` of
-- canonical_identity.py makes.
use unrest.Base.{
  and_left, and_right, ℕ, suc, ◌+◌, ◌*◌, ◌≤◌, ◌≡◌, ap, arith, true, false, List, [], ◌∷◌, ◌++◌,
  length, length-append,
}
use unrest.Identity.{
  ℤ, pos, negsuc, Value, null, boolean, integer, real, text, object, array, other, Items, nil, cons,
  Fields, end, field,
}
use unrest.Identity.Encode.{escape, encode_integer}
use unrest.Identity.Canon.{
  is_plain, plain_items, plain_fields, write_escaped, write, write_items, write_fields, cost,
  cost_items, cost_fields,
}
use unrest.Identity.Numbers.{decimal-IsHead}

escaped_longer : (s t : List ℕ) → length t ≤ length (write_escaped s t)
unfolding write_escaped
escaped_longer [] t = omega arith
escaped_longer (c ∷ cs) t =
    omega (arith, length-append (escape c) (write_escaped cs t), escaped_longer cs t)

integer_length : (i : ℤ) → 1 ≤ length (encode_integer i)
unfolding encode_integer
integer_length (pos n) = let d = decimal-IsHead n in omega (arith, ap length d.split)
integer_length (negsuc n) = omega arith

integer_longer : (i : ℤ) (t : List ℕ) → suc (length t) ≤ length (encode_integer i ++ t)
integer_longer i t = omega (arith, length-append (encode_integer i) t, integer_length i)

mutual
  unfolding is_plain cost write

  -- The text is long enough for twice its length to be fuel for its value.
  pub cost_value :
      (v : Value) (t : List ℕ)
      → is_plain v ≡ true
      → cost v + 1 + 2 * length t ≤ 2 * length (write v t)
  cost_value null t p = cc
  cost_value (boolean true) t p = omega arith
  cost_value (boolean false) t p = omega arith
  cost_value (integer i) t p = omega (arith, integer_longer i t)
  cost_value real t p = cc
  cost_value (text s) t p = omega (arith, escaped_longer s (b'"' ∷ t))
  cost_value (object end) t p = omega arith
  cost_value (object (field k x fs)) t p =
      let more = b'"' ∷ b':' ∷ write x (write_fields fs t) in
      omega (
        arith,
        escaped_longer k more,
        cost_value x (write_fields fs t) (and_left (is_plain x) (plain_fields fs) p),
        cost_more_fields fs t (and_right (is_plain x) (plain_fields fs) p),
      )
  cost_value (array nil) t p = omega arith
  cost_value (array (cons x xs)) t p = omega (
    arith,
    cost_value x (write_items xs t) (and_left (is_plain x) (plain_items xs) p),
    cost_more_items xs t (and_right (is_plain x) (plain_items xs) p),
  )
  cost_value other t p = cc

  cost_more_items :
      (xs : Items) (t : List ℕ)
      → plain_items xs ≡ true
      → cost_items xs + 2 + 2 * length t ≤ 2 * length (write_items xs t)
  cost_more_items nil t p = omega arith
  cost_more_items (cons x xs) t p = omega (
    arith,
    cost_value x (write_items xs t) (and_left (is_plain x) (plain_items xs) p),
    cost_more_items xs t (and_right (is_plain x) (plain_items xs) p),
  )

  cost_more_fields :
      (fs : Fields) (t : List ℕ)
      → plain_fields fs ≡ true
      → cost_fields fs + 2 + 2 * length t ≤ 2 * length (write_fields fs t)
  cost_more_fields end t p = omega arith
  cost_more_fields (field k x fs) t p =
      let more = b'"' ∷ b':' ∷ write x (write_fields fs t) in
      omega (
        arith,
        escaped_longer k more,
        cost_value x (write_fields fs t) (and_left (is_plain x) (plain_fields fs) p),
        cost_more_fields fs t (and_right (is_plain x) (plain_fields fs) p),
      )
