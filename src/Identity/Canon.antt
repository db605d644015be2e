-- ===== src/Identity/Canon.antt =====
-- The value that canonical_identity.py's encoding stands for, and its text written in one pass.
use unrest.Base.{ℕ, suc, ◌+◌, Bool, true, false, not, ◌&&◌, List, [], ◌∷◌, ◌++◌}
use unrest.Identity.{
  Value, null, boolean, integer, real, text, object, array, other, Items, nil, cons, Fields, end,
  field,
}
use unrest.Identity.Encode.{escape, encode_integer, text_le, sorted}
use unrest.Identity.Parse.{repeats}
use unrest.Identity.Validate.{is_safe}

abbrev pub of_pairs : List (List ℕ × Value) → Fields
of_pairs [] = end
of_pairs ((k, x) ∷ ps) = field k x (of_pairs ps)

-- The same value with the fields of each object in the order of their keys; as a Python value the two
-- are equal.
unfoldable mutual
  unfolding sorted

  pub canon : Value → Value
  canon null = null
  canon (boolean b) = boolean b
  canon (integer i) = integer i
  canon real = real
  canon (text s) = text s
  canon (object fs) = object (of_pairs (sorted (canon_pairs fs)))
  canon (array xs) = array (canon_items xs)
  canon other = other

  pub canon_items : Items → Items
  canon_items nil = nil
  canon_items (cons x xs) = cons (canon x) (canon_items xs)

  pub canon_pairs : Fields → List (List ℕ × Value)
  canon_pairs end = []
  canon_pairs (field k x fs) = (k, canon x) ∷ canon_pairs fs

-- The keys of each object within are distinct, as those of a mapping are.
unfoldable mutual
  unfolding repeats

  pub is_mapping : Value → Bool
  is_mapping null = true
  is_mapping (boolean b) = true
  is_mapping (integer i) = true
  is_mapping real = true
  is_mapping (text s) = true
  is_mapping (object fs) = not (repeats fs) && all_mappings fs
  is_mapping (array xs) = all_items xs
  is_mapping other = true

  pub all_items : Items → Bool
  all_items nil = true
  all_items (cons x xs) = is_mapping x && all_items xs

  pub all_mappings : Fields → Bool
  all_mappings end = true
  all_mappings (field k x fs) = is_mapping x && all_mappings fs

-- The first key, if there is one, does not come before `k`.
abbrev pub begins_after : List ℕ → Fields → Bool
begins_after k end = true
begins_after k (field j x fs) = text_le k j

-- The fields of each object within stand in the order of their keys.
unfoldable mutual
  unfolding text_le

  pub is_ordered : Value → Bool
  is_ordered null = true
  is_ordered (boolean b) = true
  is_ordered (integer i) = true
  is_ordered real = true
  is_ordered (text s) = true
  is_ordered (object fs) = ordered_fields fs
  is_ordered (array xs) = ordered_items xs
  is_ordered other = true

  pub ordered_items : Items → Bool
  ordered_items nil = true
  ordered_items (cons x xs) = is_ordered x && ordered_items xs

  pub ordered_fields : Fields → Bool
  ordered_fields end = true
  ordered_fields (field k x fs) = begins_after k fs && (is_ordered x && ordered_fields fs)

-- The value is built of what JSON text can hold, apart from `null`, and its integers are safe.
unfoldable mutual
  pub is_plain : Value → Bool
  is_plain null = false
  is_plain (boolean b) = true
  is_plain (integer i) = is_safe i
  is_plain real = false
  is_plain (text s) = true
  is_plain (object fs) = plain_fields fs
  is_plain (array xs) = plain_items xs
  is_plain other = false

  pub plain_items : Items → Bool
  plain_items nil = true
  plain_items (cons x xs) = is_plain x && plain_items xs

  pub plain_fields : Fields → Bool
  plain_fields end = true
  plain_fields (field k x fs) = is_plain x && plain_fields fs

unfoldable pub write_escaped : List ℕ → List ℕ → List ℕ
write_escaped [] t = t
write_escaped (c ∷ cs) t = escape c ++ write_escaped cs t

-- The text of a value, followed by `t`; fields are written in the order in which they stand.
unfoldable mutual
  unfolding write_escaped encode_integer

  pub write : Value → List ℕ → List ℕ
  write null t = t
  write (boolean true) t = b't' ∷ b'r' ∷ b'u' ∷ b'e' ∷ t
  write (boolean false) t = b'f' ∷ b'a' ∷ b'l' ∷ b's' ∷ b'e' ∷ t
  write (integer i) t = encode_integer i ++ t
  write real t = t
  write (text s) t = b'"' ∷ write_escaped s (b'"' ∷ t)
  write (object end) t = b'{' ∷ b'}' ∷ t
  write (object (field k x fs)) t =
      b'{' ∷ b'"' ∷ write_escaped k (b'"' ∷ b':' ∷ write x (write_fields fs t))
  write (array nil) t = b'[' ∷ b']' ∷ t
  write (array (cons x xs)) t = b'[' ∷ write x (write_items xs t)
  write other t = t

  pub write_items : Items → List ℕ → List ℕ
  write_items nil t = b']' ∷ t
  write_items (cons x xs) t = b',' ∷ write x (write_items xs t)

  pub write_fields : Fields → List ℕ → List ℕ
  write_fields end t = b'}' ∷ t
  write_fields (field k x fs) t =
      b',' ∷ b'"' ∷ write_escaped k (b'"' ∷ b':' ∷ write x (write_fields fs t))

-- The fuel that reads the text of a value back.
unfoldable mutual
  pub cost : Value → ℕ
  cost null = 1
  cost (boolean b) = 1
  cost (integer i) = 1
  cost real = 1
  cost (text s) = 1
  cost (object fs) = suc (cost_fields fs)
  cost (array xs) = suc (cost_items xs)
  cost other = 1

  pub cost_items : Items → ℕ
  cost_items nil = 0
  cost_items (cons x xs) = suc (cost x + cost_items xs)

  pub cost_fields : Fields → ℕ
  cost_fields end = 0
  cost_fields (field k x fs) = suc (cost x + cost_fields fs)
