-- ===== src/Identity/Reading/Steps.antt =====
-- One step of the parser of canonical_identity.py's model of `json.loads`, for each form of a value.
use unrest.Base.{ℕ, suc, ◌≤◌, ◌≡◌, refl, sym, ap, ◌∙◌, arith, true, false, List, ◌∷◌, none, eqb}
use unrest.Identity.{
  Value, boolean, text, object, array, null, integer, real, other, Items, nil, cons, Fields, end,
  field, ok,
}
use unrest.Identity.Parse.{
  plain, is_blank, skip_blanks, string_from, atom_from, repeats, parse_value, parse_items,
  parse_fields,
}
use unrest.Identity.Canon.{cost}

pub cost_pos : (v : Value) → 1 ≤ cost v
unfolding cost
cost_pos null = omega arith
cost_pos (boolean b) = omega arith
cost_pos (integer i) = omega arith
cost_pos real = omega arith
cost_pos (text s) = omega arith
cost_pos (object fs) = omega arith
cost_pos (array xs) = omega arith
cost_pos other = omega arith

pub skip_solid : (c : ℕ) (cs : List ℕ) → is_blank c ≡ false → skip_blanks (c ∷ cs) ≡ c ∷ cs
unfolding skip_blanks
skip_solid c cs h = rw h

pub value_true :
    (f : ℕ) (t : List ℕ)
    → parse_value (suc f) (b't' ∷ b'r' ∷ b'u' ∷ b'e' ∷ t) ≡ ok (boolean true, t)
unfolding parse_value
value_true f t = refl

pub value_false :
    (f : ℕ) (t : List ℕ)
    → parse_value (suc f) (b'f' ∷ b'a' ∷ b'l' ∷ b's' ∷ b'e' ∷ t) ≡ ok (boolean false, t)
unfolding parse_value
value_false f t = refl

pub value_atom :
    (f c : ℕ) (cs : List ℕ)
    → eqb c b'"' ≡ false
    → eqb c b'{' ≡ false
    → eqb c b'[' ≡ false
    → parse_value (suc f) (c ∷ cs) ≡ atom_from c cs
unfolding parse_value
value_atom f c cs a b d = rw (a, b, d)

pub value_text :
    (f : ℕ) (s cs t : List ℕ)
    → string_from plain none cs ≡ ok (s, t)
    → parse_value (suc f) (b'"' ∷ cs) ≡ ok (text s, t)
unfolding parse_value
value_text f s cs t e = rw e

pub value_empty_object :
    (f : ℕ) (t : List ℕ) → parse_value (suc f) (b'{' ∷ b'}' ∷ t) ≡ ok (object end, t)
unfolding parse_value
value_empty_object f t = refl

pub value_empty_array :
    (f : ℕ) (t : List ℕ) → parse_value (suc f) (b'[' ∷ b']' ∷ t) ≡ ok (array nil, t)
unfolding parse_value
value_empty_array f t = refl

pub value_object :
    (f : ℕ) (cs : List ℕ) (fs : Fields) (t : List ℕ)
    → repeats fs ≡ false
    → parse_fields f (b'"' ∷ cs) ≡ ok (fs, t)
    → parse_value (suc f) (b'{' ∷ b'"' ∷ cs) ≡ ok (object fs, t)
unfolding parse_value
value_object f cs fs t new e = rw (e, new)

pub value_array :
    (f c : ℕ) (others cs : List ℕ) (xs : Items) (t : List ℕ)
    → cs ≡ c ∷ others
    → is_blank c ≡ false
    → eqb c b']' ≡ false
    → parse_items f cs ≡ ok (xs, t)
    → parse_value (suc f) (b'[' ∷ cs) ≡ ok (array xs, t)
unfolding parse_value
value_array f c others cs xs t split solid opens e =
    let body : parse_items f (c ∷ others) ≡ ok (xs, t) = ap (parse_items f) (sym split) ∙ e in
    rw split (rw (solid, opens) (rw body refl))

pub items_last :
    (f : ℕ) (cs : List ℕ) (x : Value) (t : List ℕ)
    → parse_value f cs ≡ ok (x, b']' ∷ t)
    → parse_items (suc f) cs ≡ ok (cons x nil, t)
unfolding parse_items
items_last f cs x t e = rw e

pub items_more :
    (f : ℕ) (cs : List ℕ) (x : Value) (rest : List ℕ) (xs : Items) (t : List ℕ)
    → parse_value f cs ≡ ok (x, b',' ∷ rest)
    → skip_blanks rest ≡ rest
    → parse_items f rest ≡ ok (xs, t)
    → parse_items (suc f) cs ≡ ok (cons x xs, t)
unfolding parse_items
items_more f cs x rest xs t e solid more = rw e (rw solid (rw more refl))

pub fields_last :
    (f : ℕ) (inside k rest : List ℕ) (x : Value) (t : List ℕ)
    → string_from plain none inside ≡ ok (k, b':' ∷ rest)
    → skip_blanks rest ≡ rest
    → parse_value f rest ≡ ok (x, b'}' ∷ t)
    → parse_fields (suc f) (b'"' ∷ inside) ≡ ok (field k x end, t)
unfolding parse_fields
fields_last f inside k rest x t s solid e = rw s (rw solid (rw e refl))

pub fields_more :
    (f : ℕ) (inside k rest : List ℕ) (x : Value) (after : List ℕ) (fs : Fields) (t : List ℕ)
    → string_from plain none inside ≡ ok (k, b':' ∷ rest)
    → skip_blanks rest ≡ rest
    → parse_value f rest ≡ ok (x, b',' ∷ b'"' ∷ after)
    → parse_fields f (b'"' ∷ after) ≡ ok (fs, t)
    → parse_fields (suc f) (b'"' ∷ inside) ≡ ok (field k x fs, t)
unfolding parse_fields
fields_more f inside k rest x after fs t s solid e more = rw s (rw solid (rw e (rw more refl)))
