-- ===== src/Identity/Ending/Atoms.antt =====
-- The text that the parser of numbers and literals leaves, under `strict_parse_json` of
-- canonical_identity.py.
use unrest.Base.{
  ℕ, suc, ◌+◌, ◌*◌, ◌≤◌, ◌≡◌, refl, arith, Bool, true, false, List, [], ◌∷◌, ◌-◌, Option, none,
  some, if◌then◌else◌, length, ltb, eqb, inl, inr, Bool-cases,
}
use unrest.Identity.{Value, null, boolean, Code, Result, ok}
use unrest.Identity.Parse.{
  invalid, after_prefix, is_real, max_digits, is_digit, digits_from, numbered, number_from,
  constant, literal, infinity, atom_from,
}
use unrest.Identity.Ending.{
  Leaves-if, Leaves-when, Leaves-elim, leaves, fails, behind_part, Shorter, longer,
}

length-digits_from : (n : ℕ) (cs : List ℕ) → length (digits_from n cs).1 ≤ length cs
unfolding digits_from
length-digits_from n [] = omega arith
length-digits_from n (c ∷ cs) = elim (Bool-cases (is_digit c)) [
  | inl h ↦ rw h (omega (arith, length-digits_from (n * 10 + (c - b'0')) cs))
  | inr h ↦ rw h (omega arith)
]

digits_from_digit :
    (n c : ℕ) (cs : List ℕ) → is_digit c ≡ true → length (digits_from n (c ∷ cs)).1 ≤ length cs
unfolding digits_from
digits_from_digit n c cs h = rw h (length-digits_from (n * 10 + (c - b'0')) cs)

numbered-Shorter :
    {n : ℕ} (minus : Bool) (count : ℕ) (p : ℕ × List ℕ)
    → suc (length p.1) ≤ n
    → Shorter n (numbered minus count p)
numbered-Shorter minus count p h =
    Leaves-if behind_part (is_real p.1)
      (fails behind_part {c = Code.float_not_allowed} {p = []} refl)
      (Leaves-if behind_part (ltb max_digits count)
        (fails behind_part {c = Code.value_error} {p = []} refl) (leaves behind_part h))

number_from-Shorter : (minus : Bool) (cs : List ℕ) → Shorter (length cs) (number_from minus cs)
unfolding number_from
number_from-Shorter minus [] = fails behind_part refl
number_from-Shorter minus (c ∷ cs) =
    Leaves-if behind_part (eqb c b'0') (numbered-Shorter minus 1 (0, cs) (omega arith)) (
      Leaves-when behind_part (is_digit c)
        (λ h.
          numbered-Shorter minus _ (digits_from 0 (c ∷ cs))
            (omega (arith, digits_from_digit 0 c cs h)))
        (fails behind_part refl))

constant-Shorter :
    (name cs : List ℕ) {n : ℕ} {r : Result (Value × List ℕ)}
    → Shorter n r
    → Shorter n (constant name r cs)
constant-Shorter name cs h =
    Leaves-elim behind_part (after_prefix name cs) h (λ rest. fails behind_part refl)

abbrev Found : ℕ → Value → Option (List ℕ) → Type 0
Found n v none = Shorter {A = Value} n invalid
Found n v (some rest) = Shorter n (ok (v, rest))

Found-if :
    (b : Bool) (n : ℕ) (v : Value) (o o' : Option (List ℕ))
    → Found n v o
    → Found n v o'
    → Found n v (if b then o else o')
Found-if true n v o o' h k = h
Found-if false n v o o' h k = k

Found-more : (o : Option (List ℕ)) (n : ℕ) (v : Value) → Found n v o → Found (suc n) v o
Found-more none n v h = longer h
Found-more (some rest) n v h = longer h

Found-Shorter :
    (o : Option (List ℕ)) {n : ℕ} (v : Value)
    → Found n v o
    → Shorter {A = Value} n (elim o [ none ↦ invalid | some rest ↦ ok (v, rest) ])
Found-Shorter none v h = h
Found-Shorter (some rest) v h = h

after_prefix-Found :
    (name : List ℕ) (v : Value) (cs : List ℕ) → Found (suc (length cs)) v (after_prefix name cs)
after_prefix-Found [] v cs = leaves behind_part (omega arith)
after_prefix-Found (c ∷ name) v [] = fails behind_part refl
after_prefix-Found (c ∷ name) v (d ∷ cs) =
    Found-if (eqb c d) (suc (suc (length cs))) v (after_prefix name cs) none
      (Found-more (after_prefix name cs) (suc (length cs)) v (after_prefix-Found name v cs))
      (fails behind_part refl)

literal-Shorter :
    (name : List ℕ) (v : Value) (cs : List ℕ) → Shorter (suc (length cs)) (literal name v cs)
literal-Shorter name v cs = Found-Shorter (after_prefix name cs) v (after_prefix-Found name v cs)

pub atom_from-Shorter : (c : ℕ) (cs : List ℕ) → Shorter (suc (length cs)) (atom_from c cs)
unfolding atom_from
atom_from-Shorter c cs =
    Leaves-if behind_part (eqb c b'n') (literal-Shorter (b'u' ∷ b'l' ∷ b'l' ∷ []) null cs) (
      Leaves-if behind_part (eqb c b't')
        (literal-Shorter (b'r' ∷ b'u' ∷ b'e' ∷ []) (boolean true) cs)
        (Leaves-if behind_part (eqb c b'f')
          (literal-Shorter (b'a' ∷ b'l' ∷ b's' ∷ b'e' ∷ []) (boolean false) cs)
          (Leaves-if behind_part (eqb c b'-')
            (constant-Shorter infinity cs (longer (number_from-Shorter true cs)))
            (Leaves-if behind_part (eqb c b'N') (constant-Shorter (b'a' ∷ b'N' ∷ []) cs unknown) (
              Leaves-if behind_part (eqb c b'I') (constant-Shorter infinity (c ∷ cs) unknown)
                (number_from-Shorter false (c ∷ cs)))))))
  where
    unknown : Shorter {A = Value} (suc (length cs)) invalid
    unknown = fails behind_part refl
