-- ===== src/Identity/Writing.antt =====
-- The encoding of canonical_identity.py and the text written in one pass.
use unrest.Base.{
  ℕ, ◌≡◌, refl, ap, ◌∙◌, true, false, List, [], ◌∷◌, ◌++◌, append_assoc, Bool-cases, inl, inr,
}
use unrest.Identity.{
  Value, null, boolean, integer, real, text, object, array, other, Items, nil, cons, Fields, end,
  field,
}
use unrest.Identity.Encode.{
  escape, escaped, encode_string, text_le, place, sorted, join_fields, join_items, encode_value,
  encode_items, encode_fields,
}
use unrest.Identity.Canon.{
  of_pairs, canon, canon_items, canon_pairs, write_escaped, write, write_items, write_fields,
}

escaped-write : (s t : List ℕ) → escaped s ++ t ≡ write_escaped s t
unfolding escaped write_escaped
escaped-write [] t = refl
escaped-write (c ∷ cs) t =
    append_assoc (escape c) (escaped cs) t ∙ ap (λ (u : List ℕ). escape c ++ u) (escaped-write cs t)

string-write : (s t : List ℕ) → encode_string s ++ t ≡ b'"' ∷ write_escaped s (b'"' ∷ t)
unfolding encode_string
string-write s t =
    ap (λ (u : List ℕ). b'"' ∷ u)
      (append_assoc (escaped s) (b'"' ∷ []) t ∙ escaped-write s (b'"' ∷ t))

-- The encoded fields and the fields of the canonical value, in step.
abbrev Tied : List (List ℕ × List ℕ) → List (List ℕ × Value) → Type 0
Tied [] [] = Unit
Tied [] (b ∷ bs) = ⊥
Tied (a ∷ as') [] = ⊥
Tied (a ∷ as') (b ∷ bs) = (a.0 ≡ b.0) × ((t : List ℕ) → a.1 ++ t ≡ write b.1 t) × Tied as' bs

place-Tied :
    (a : List ℕ × List ℕ) (b : List ℕ × Value) (as' : List (List ℕ × List ℕ))
    (bs : List (List ℕ × Value))
    → a.0 ≡ b.0
    → ((t : List ℕ) → a.1 ++ t ≡ write b.1 t)
    → Tied as' bs
    → Tied (place a as') (place b bs)
unfolding place
place-Tied a b [] [] e w h = (e, w, tt)
place-Tied a b [] (y ∷ ys) e w h = absurd h
place-Tied a b (x ∷ xs) [] e w h = absurd h
place-Tied a b (x ∷ xs) (y ∷ ys) e w (e', w', h) =
    let same : text_le a.0 x.0 ≡ text_le b.0 y.0 =
      ap (λ (k : List ℕ). text_le k x.0) e ∙ ap (text_le b.0) e' in
    elim (Bool-cases (text_le b.0 y.0)) [
      | inl first ↦ rw (same ∙ first, first) (e, w, (e', w', h))
      | inr later ↦ rw (same ∙ later, later) (e', w', place-Tied a b xs ys e w h)
    ]

sorted-Tied :
    (as' : List (List ℕ × List ℕ)) (bs : List (List ℕ × Value))
    → Tied as' bs
    → Tied (sorted as') (sorted bs)
unfolding sorted
sorted-Tied [] [] h = tt
sorted-Tied [] (y ∷ ys) h = absurd h
sorted-Tied (x ∷ xs) [] h = absurd h
sorted-Tied (x ∷ xs) (y ∷ ys) (e, w, h) =
    place-Tied x y (sorted xs) (sorted ys) e w (sorted-Tied xs ys h)

-- The text of a key, its colon and its value.
key_text :
    (k j x t rest : List ℕ) (v : Value)
    → k ≡ j
    → x ++ t ≡ rest
    → (encode_string k ++ (b':' ∷ x)) ++ t ≡ b'"' ∷ write_escaped j (b'"' ∷ b':' ∷ rest)
key_text k j x t rest v e w =
    append_assoc (encode_string k) (b':' ∷ x) t
    ∙ (string-write k (b':' ∷ (x ++ t))
        ∙ (ap (λ (u : List ℕ). b'"' ∷ write_escaped k (b'"' ∷ b':' ∷ u)) w
            ∙ ap (λ (u : List ℕ). b'"' ∷ write_escaped u (b'"' ∷ b':' ∷ rest)) e))

join_fields-Tied :
    (a : List ℕ × List ℕ) (as' : List (List ℕ × List ℕ)) (b : List ℕ × Value)
    (bs : List (List ℕ × Value)) (t : List ℕ)
    → Tied (a ∷ as') (b ∷ bs)
    → join_fields (a ∷ as') ++ (b'}' ∷ t)
      ≡ b'"' ∷ write_escaped b.0 (b'"' ∷ b':' ∷ write b.1 (write_fields (of_pairs bs) t))
unfolding join_fields write_fields
join_fields-Tied (k, x) [] (j, v) [] t (e, w, h) =
    key_text k j x (b'}' ∷ t) (write v (b'}' ∷ t)) v e (w (b'}' ∷ t))
join_fields-Tied a [] b (y ∷ ys) t (e, w, h) = absurd h
join_fields-Tied a (x ∷ xs) b [] t (e, w, h) = absurd h
join_fields-Tied (k, x) (a ∷ as') (j, v) ((i, u) ∷ bs) t (e, w, h) =
    let rest = join_fields (a ∷ as') in
    let more = join_fields-Tied a as' (i, u) bs t h in
    key_text k j (x ++ (b',' ∷ rest)) (b'}' ∷ t) (write v (write_fields (of_pairs ((i, u) ∷ bs)) t))
      v e
      (append_assoc x (b',' ∷ rest) (b'}' ∷ t)
        ∙ (w (b',' ∷ (rest ++ (b'}' ∷ t))) ∙ ap (λ (z : List ℕ). write v (b',' ∷ z)) more))

array_text : (x body t : List ℕ) → (b'[' ∷ (x ++ b']' ∷ [])) ++ t ≡ b'[' ∷ (x ++ (b']' ∷ t))
array_text x body t = ap (λ (u : List ℕ). b'[' ∷ u) (append_assoc x (b']' ∷ []) t)

object_text : (x t : List ℕ) → (b'{' ∷ (x ++ b'}' ∷ [])) ++ t ≡ b'{' ∷ (x ++ (b'}' ∷ t))
object_text x t = ap (λ (u : List ℕ). b'{' ∷ u) (append_assoc x (b'}' ∷ []) t)

-- What is to be shown of the items behind the opening bracket.
abbrev ItemsWritten : Items → List ℕ → Type 0
ItemsWritten nil t = Unit {0}
ItemsWritten (cons x xs) t =
    join_items (encode_items (cons x xs)) ++ (b']' ∷ t)
    ≡ write (canon x) (write_items (canon_items xs) t)

object-write :
    (as' : List (List ℕ × List ℕ)) (bs : List (List ℕ × Value)) (t : List ℕ)
    → Tied as' bs
    → (b'{' ∷ (join_fields as' ++ b'}' ∷ [])) ++ t ≡ write (object (of_pairs bs)) t
unfolding write join_fields
object-write [] [] t h = refl
object-write [] (b ∷ bs) t h = absurd h
object-write (a ∷ as') [] t h = absurd h
object-write (a ∷ as') ((k, v) ∷ bs) t h =
    object_text (join_fields (a ∷ as')) t
    ∙ ap (λ (u : List ℕ). b'{' ∷ u) (join_fields-Tied a as' (k, v) bs t h)

mutual
  unfolding encode_value join_items canon write

  -- The encoding of a value is the text of its canonical value.
  encode-write_lem : (v : Value) (t : List ℕ) → encode_value v ++ t ≡ write (canon v) t
  encode-write_lem null t = refl
  encode-write_lem (boolean true) t = refl
  encode-write_lem (boolean false) t = refl
  encode-write_lem (integer i) t = refl
  encode-write_lem real t = refl
  encode-write_lem (text s) t = string-write s t
  encode-write_lem (object fs) t =
      object-write (sorted (encode_fields fs)) (sorted (canon_pairs fs)) t
        (sorted-Tied (encode_fields fs) (canon_pairs fs) (fields-Tied fs))
  encode-write_lem (array nil) t = refl
  encode-write_lem (array (cons x xs)) t =
      array_text (join_items (encode_items (cons x xs))) [] t
      ∙ ap (λ (u : List ℕ). b'[' ∷ u) (items-write (cons x xs) t)
  encode-write_lem other t = refl

  items-write : (xs : Items) (t : List ℕ) → ItemsWritten xs t
  items-write nil t = tt
  items-write (cons x nil) t = encode-write_lem x (b']' ∷ t)
  items-write (cons x (cons y ys)) t =
      append_assoc (encode_value x) (b',' ∷ join_items (encode_items (cons y ys))) (b']' ∷ t)
      ∙ (encode-write_lem x _
          ∙ ap (λ (u : List ℕ). write (canon x) (b',' ∷ u)) (items-write (cons y ys) t))

  fields-Tied : (fs : Fields) → Tied (encode_fields fs) (canon_pairs fs)
  fields-Tied end = tt
  fields-Tied (field k x fs) = (refl, (λ t. encode-write_lem x t), fields-Tied fs)

pub encode_value-write : (v : Value) (t : List ℕ) → encode_value v ++ t ≡ write (canon v) t
encode_value-write v t = encode-write_lem v t
