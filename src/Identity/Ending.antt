-- ===== src/Identity/Ending.antt =====
-- `json.loads` as `strict_parse_json` of canonical_identity.py calls it: the text that the parts of the
-- parser leave, and its strings.
pub mod Atoms
pub mod Parser
use unrest.Base.{
  ℕ, zero, suc, ◌+◌, ◌*◌, ◌≤◌, ◌≡◌, refl, sym, ap, subst, ◌∙◌, arith, Bool, true, false, not, List,
  [], ◌∷◌, ◌++◌, ◌-◌, Option, none, some, if◌then◌else◌, length, ltb, eqb, inl, inr, Bool-cases,
  Option-cases,
}
use unrest.Identity.{
  ℤ, Value, null, boolean, integer, text, Items, cons, nil, Fields, end, field, Code, Segment,
  Result, ok, err, ◌>>=◌, ◌>>◌, fail_if, same_text,
}
use unrest.Identity.Validate.{validate_value}
use unrest.Identity.Parse.{
  invalid, is_blank, skip_blanks, after_prefix, Mode, plain, behind, hex, hex_value, escape_of,
  held, prefixed, joined, string_from, is_digit, digits_from, is_real, signed, numbered,
  number_from, constant, literal, infinity, atom_from, repeats, to_object, to_array, expect,
  begins_with, parse_value, parse_items, parse_fields, loads, Source, strict_parse_json,
}

-- The code is not the one of the model's own.
abbrev pub is_from_source : Code → Bool
is_from_source Code.out_of_fuel = false
is_from_source _ = true

module _ {A : Type 0} (size : A → ℕ) where
  -- The result leaves less than `n`, or fails otherwise than for want of fuel.
  abbrev pub Ends : ℕ → Result A → Type 0
  Ends n (ok a) = suc (size a) ≤ n
  Ends n (err c p) = is_from_source c ≡ true

  pub record Leaves (n : ℕ) (r : Result A) : Type 0 where
    pub ends : Ends n r

  pub Leaves-if :
      (b : Bool) {n : ℕ} {r s : Result A} → Leaves n r → Leaves n s → Leaves n (if b then r else s)
  Leaves-if true h k = h
  Leaves-if false h k = k

  pub Leaves-when :
      (b : Bool) {n : ℕ} {r s : Result A}
      → (b ≡ true → Leaves n r)
      → Leaves n s
      → Leaves n (if b then r else s)
  Leaves-when true h k = h refl
  Leaves-when false h k = k

  pub Leaves-elim :
      {B : Type 0} (o : Option B) {n : ℕ} {r : Result A} {f : B → Result A}
      → Leaves n r
      → ((b : B) → Leaves n (f b))
      → Leaves n (elim o [ none ↦ r | some b ↦ f b ])
  Leaves-elim none h k = h
  Leaves-elim (some b) h k = k b

  pub Leaves-more : {m n : ℕ} {r : Result A} → m ≤ n → Leaves m r → Leaves n r
  Leaves-more {r = ok a} le h = record { ends = omega (arith, h.ends) }
  Leaves-more {r = err c p} le h = record { ends = h.ends }

  pub leaves : {n : ℕ} {a : A} → suc (size a) ≤ n → Leaves n (ok a)
  leaves h = record { ends = h }

  pub fails : {n : ℕ} {c : Code} {p : List Segment} → is_from_source c ≡ true → Leaves n (err c p)
  fails h = record { ends = h }

module _ {A B : Type 0} (size : A → ℕ) (size' : B → ℕ) where
  pub Leaves-bind :
      {n m : ℕ} {r : Result A} {f : A → Result B}
      → Leaves size n r
      → ((a : A) → suc (size a) ≤ n → Leaves size' m (f a))
      → Leaves size' m (r >>= f)
  Leaves-bind {r = ok a} h k = k a h.ends
  Leaves-bind {r = err c p} h k = fails size' h.ends

-- The length of the text behind a parsed part.
abbrev pub behind_part : {A : Type 0} → A × List ℕ → ℕ
behind_part p = length p.1

abbrev pub Shorter : {A : Type 0} → ℕ → Result (A × List ℕ) → Type 0
Shorter n r = Leaves behind_part n r

pub length-skip_blanks : (cs : List ℕ) → length (skip_blanks cs) ≤ length cs
unfolding skip_blanks
length-skip_blanks [] = omega arith
length-skip_blanks (c ∷ cs) = elim (Bool-cases (is_blank c)) [
  | inl h ↦ rw h (omega (arith, length-skip_blanks cs))
  | inr h ↦ rw h (omega arith)
]

pub expect-Leaves : (c : ℕ) (cs : List ℕ) → Leaves length (length cs) (expect c cs)
expect-Leaves c [] = fails length refl
expect-Leaves c (d ∷ cs) = Leaves-if length _ (leaves length (omega arith)) (fails length refl)

prefixed-Shorter :
    (cs : List ℕ) {n : ℕ} {r : Result (List ℕ × List ℕ)} → Shorter n r → Shorter n (prefixed cs r)
prefixed-Shorter cs h = Leaves-bind behind_part behind_part h (λ p le. leaves behind_part le)

pub longer : {A : Type 0} {n : ℕ} {r : Result (A × List ℕ)} → Shorter n r → Shorter (suc n) r
longer h = Leaves-more behind_part (omega arith) h

string_from-Shorter :
    (m : Mode) (h : Option ℕ) (cs : List ℕ) → Shorter (length cs) (string_from m h cs)
unfolding string_from
string_from-Shorter m h [] = fails behind_part refl
string_from-Shorter plain h (c ∷ cs) = Leaves-if behind_part _ (leaves behind_part (omega arith)) (
    Leaves-if behind_part _ (longer (string_from-Shorter behind h cs)) (
      Leaves-if behind_part _ (fails behind_part refl)
        (longer (prefixed-Shorter _ (string_from-Shorter plain none cs)))))
string_from-Shorter behind h (c ∷ cs) =
    Leaves-if behind_part _ (longer (string_from-Shorter (hex 4 0) h cs)) (
      Leaves-elim behind_part (escape_of c) (fails behind_part refl)
        (λ d. longer (prefixed-Shorter _ (string_from-Shorter plain none cs))))
string_from-Shorter (hex zero u) h (c ∷ cs) = fails behind_part refl
string_from-Shorter (hex (suc k) u) h (c ∷ cs) =
    Leaves-elim behind_part (hex_value c) (fails behind_part refl) (λ d.
      Leaves-if behind_part _
        (longer (prefixed-Shorter _ (string_from-Shorter plain (joined h (u * 16 + d)).1 cs)))
        (longer (string_from-Shorter (hex k (u * 16 + d)) h cs)))
