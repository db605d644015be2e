-- ===== src/Identity/Reading.antt =====
-- The parser of canonical_identity.py's model of `json.loads`, on the text of a value.
pub mod Steps
use unrest.Base.{
  and_left, and_right, both_true, ℕ, zero, suc, ◌+◌, ◌≤◌, ◌<◌, ◌≡◌, refl, sym, ap, subst, ◌∙◌,
  arith, Bool, true, false, not, ◌&&◌, List, [], ◌∷◌, ◌++◌, eqb,
}
use unrest.Identity.{
  ℤ, Value, null, boolean, integer, real, text, object, array, other, Items, nil, cons, Fields, end,
  field, Result, ok, ◌>>=◌,
}
use unrest.Identity.Encode.{encode_integer}
use unrest.Identity.Parse.{
  repeats, string_from, plain, is_blank, skip_blanks, parse_value, parse_items, parse_fields,
}
use unrest.Identity.Canon.{
  is_mapping, all_items, all_mappings, is_plain, plain_items, plain_fields, write_escaped, write,
  write_items, write_fields, cost, cost_items, cost_fields,
}
use unrest.Identity.Strings.{string_from-write}
use unrest.Identity.Numbers.{ends_number, encode_integer-IsNumeral}
use unrest.Identity.Reading.Steps.*

-- The first character of a value's text is no blank and closes no array.
pub record IsOpening (cs : List ℕ) : Type 0 where
  pub first : ℕ
  pub others : List ℕ
  pub split : cs ≡ first ∷ others
  pub solid : is_blank first ≡ false
  pub opens : eqb first b']' ≡ false
  pub small : first < 128

opening :
    (c : ℕ) (cs : List ℕ) → is_blank c ≡ false → eqb c b']' ≡ false → c < 128 → IsOpening (c ∷ cs)
opening c cs solid opens small = record {
  first = c;
  others = cs;
  split = refl;
  solid = solid;
  opens = opens;
  small = small;
}

pub write-IsOpening :
    (v : Value) (t : List ℕ) → is_plain v ≡ true → ends_number t ≡ true → IsOpening (write v t)
unfolding write is_plain
write-IsOpening null t p h = cc
write-IsOpening (boolean true) t p h = opening _ _ refl refl (omega arith)
write-IsOpening (boolean false) t p h = opening _ _ refl refl (omega arith)
write-IsOpening (integer i) t p h =
    let r = encode_integer-IsNumeral i t p h in
    record {
      first = r.first;
      others = r.others;
      split = r.split;
      solid = ground (arith, r.low, r.high);
      opens = ground (arith, r.high);
      small = omega (arith, r.high);
    }
write-IsOpening real t p h = cc
write-IsOpening (text s) t p h = opening _ _ refl refl (omega arith)
write-IsOpening (object end) t p h = opening _ _ refl refl (omega arith)
write-IsOpening (object (field k x fs)) t p h = opening _ _ refl refl (omega arith)
write-IsOpening (array nil) t p h = opening _ _ refl refl (omega arith)
write-IsOpening (array (cons x xs)) t p h = opening _ _ refl refl (omega arith)
write-IsOpening other t p h = cc

pub solid_text : (cs : List ℕ) → IsOpening cs → skip_blanks cs ≡ cs
solid_text cs o = rw o.split (skip_solid o.first o.others o.solid)

items_end : (xs : Items) (t : List ℕ) → ends_number (write_items xs t) ≡ true
unfolding write_items
items_end nil t = refl
items_end (cons x xs) t = refl

fields_end : (fs : Fields) (t : List ℕ) → ends_number (write_fields fs t) ≡ true
unfolding write_fields
fields_end end t = refl
fields_end (field k x fs) t = refl

-- What is to be read of the items and of the fields behind the opening bracket.
abbrev ItemsRead : ℕ → Items → List ℕ → Type 0
ItemsRead f nil t = Unit {0}
ItemsRead f (cons x xs) t = parse_items f (write x (write_items xs t)) ≡ ok (cons x xs, t)

abbrev FieldsRead : ℕ → Fields → List ℕ → Type 0
FieldsRead f end t = Unit {0}
FieldsRead f (field k x fs) t =
    parse_fields f (b'"' ∷ write_escaped k (b'"' ∷ b':' ∷ write x (write_fields fs t)))
    ≡ ok (field k x fs, t)

not_true : (b : Bool) → not b ≡ true → b ≡ false
not_true b h = ground arith

mutual
  unfolding is_plain is_mapping cost write write_items write_fields

  read_value :
      (v : Value) (f : ℕ) (t : List ℕ)
      → is_plain v ≡ true
      → is_mapping v ≡ true
      → cost v ≤ f
      → ends_number t ≡ true
      → parse_value f (write v t) ≡ ok (v, t)
  read_value v zero t p m c h = absurd (omega (arith, cost_pos v))
  read_value null (suc f) t p m c h = cc
  read_value (boolean true) (suc f) t p m c h = value_true f t
  read_value (boolean false) (suc f) t p m c h = value_false f t
  read_value (integer i) (suc f) t p m c h =
      let r = encode_integer-IsNumeral i t p h in
      ap (parse_value (suc f)) r.split
      ∙ (value_atom f r.first r.others (ground (arith, r.low, r.high)) (ground (arith, r.high))
            (ground (arith, r.high))
          ∙ r.reads)
  read_value real (suc f) t p m c h = cc
  read_value (text s) (suc f) t p m c h = value_text f s _ t (string_from-write s t)
  read_value (object end) (suc f) t p m c h = value_empty_object f t
  read_value (object (field k x fs)) (suc f) t p m c h =
      value_object f _ (field k x fs) t (not_true (repeats (field k x fs)) (and_left _ _ m)) (
        read_fields (field k x fs) f t p (and_right (not (repeats (field k x fs))) _ m)
          (omega arith))
  read_value (array nil) (suc f) t p m c h = value_empty_array f t
  read_value (array (cons x xs)) (suc f) t p m c h =
      let o = write-IsOpening x (write_items xs t) (and_left _ _ p) (items_end xs t) in
      value_array f o.first o.others _ (cons x xs) t o.split o.solid o.opens
        (read_items (cons x xs) f t p m (omega arith))
  read_value other (suc f) t p m c h = cc

  read_items :
      (xs : Items) (f : ℕ) (t : List ℕ)
      → plain_items xs ≡ true
      → all_items xs ≡ true
      → cost_items xs ≤ f
      → ItemsRead f xs t
  read_items nil f t p m c = tt
  read_items (cons x xs) zero t p m c = absurd (omega arith)
  read_items (cons x nil) (suc f) t p m c =
      items_last f _ x t
        (read_value x f (b']' ∷ t) (and_left _ _ p) (and_left _ _ m) (omega arith) refl)
  read_items (cons x (cons y ys)) (suc f) t p m c =
      let o =
        write-IsOpening y (write_items ys t) (and_left _ _ (and_right (is_plain x) _ p))
          (items_end ys t) in
      items_more f _ x _ (cons y ys) t
        (read_value x f (write_items (cons y ys) t) (and_left _ _ p) (and_left _ _ m) (omega arith)
          refl)
        (solid_text _ o)
        (read_items (cons y ys) f t (and_right (is_plain x) _ p) (and_right (is_mapping x) _ m)
          (omega arith))

  read_fields :
      (fs : Fields) (f : ℕ) (t : List ℕ)
      → plain_fields fs ≡ true
      → all_mappings fs ≡ true
      → cost_fields fs ≤ f
      → FieldsRead f fs t
  read_fields end f t p m c = tt
  read_fields (field k x fs) zero t p m c = absurd (omega arith)
  read_fields (field k x end) (suc f) t p m c =
      let o = write-IsOpening x (b'}' ∷ t) (and_left _ _ p) refl in
      fields_last f _ k _ x t (string_from-write k _) (solid_text _ o)
        (read_value x f (b'}' ∷ t) (and_left _ _ p) (and_left _ _ m) (omega arith) refl)
  read_fields (field k x (field j y fs)) (suc f) t p m c =
      let o = write-IsOpening x (write_fields (field j y fs) t) (and_left _ _ p) refl in
      fields_more f _ k _ x _ (field j y fs) t (string_from-write k _) (solid_text _ o)
        (read_value x f (write_fields (field j y fs) t) (and_left _ _ p) (and_left _ _ m)
          (omega arith) refl)
        (read_fields (field j y fs) f t (and_right (is_plain x) _ p) (and_right (is_mapping x) _ m)
          (omega arith))

-- The text of a value is read back, with what follows it.
pub parse_value-write :
    (v : Value) (f : ℕ) (t : List ℕ)
    → is_plain v ≡ true
    → is_mapping v ≡ true
    → cost v ≤ f
    → ends_number t ≡ true
    → parse_value f (write v t) ≡ ok (v, t)
parse_value-write v f t p m c h = read_value v f t p m c h
