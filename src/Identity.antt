-- ===== src/Identity.antt =====
-- src/unrest_harness/canonical_identity.py: the values that it encodes, and how it fails.
pub mod Validate
pub mod Encode
pub mod Parse
pub mod Canon
pub mod Numbers
pub mod Strings
pub mod Reading
pub mod Writing
pub mod Valid
pub mod Accepted
pub mod Ordered
pub mod Cost
pub mod Mapped
pub mod Ending
pub mod Strict
pub mod Roundtrip
use unrest.Base.{ℕ, Bool, true, false, ◌&&◌, List, [], ◌∷◌, if◌then◌else◌, eqb}

-- `negsuc n` is -(n + 1).
pub data ℤ : Type 0 where
  pos : ℕ → ℤ
  negsuc : ℕ → ℤ

-- A text is the list of its code points, and the keys of a mapping are texts. `real` stands for every
-- float, and `other` for a value of a type that has no encoding.
mutual
  pub data Value : Type 0 where
    null : Value
    boolean : Bool → Value
    integer : ℤ → Value
    real : Value
    text : List ℕ → Value
    object : Fields → Value
    array : Items → Value
    other : Value

  pub data Items : Type 0 where
    nil : Items
    cons : Value → Items → Items

  pub data Fields : Type 0 where
    end : Fields
    field : List ℕ → Value → Fields → Fields

-- The codes of `FoundationValidationError`. `value_error` is the plain ValueError of `int`, which no
-- handler of the source catches, and `out_of_fuel` is the model's own.
pub data Code : Type 0 where
  null_not_allowed : Code
  unsafe_integer : Code
  float_not_allowed : Code
  invalid_unicode : Code
  non_nfc : Code
  unsupported_type : Code
  bom_not_allowed : Code
  invalid_utf8 : Code
  invalid_json : Code
  duplicate_key : Code
  non_json_number : Code
  non_canonical_bytes : Code
  value_error : Code
  out_of_fuel : Code

-- One part of the path of a failure: `.key`, `{key}` or `[index]`.
pub data Segment : Type 0 where
  member : List ℕ → Segment
  key : List ℕ → Segment
  at : ℕ → Segment

pub data Result (A : Type 0) : Type 0 where
  ok : A → Result A
  err : Code → List Segment → Result A

infixl 5 ◌>>=◌ ◌>>◌
abbrev pub ◌>>=◌ : {A B : Type 0} → Result A → (A → Result B) → Result B
ok a >>= f = f a
err c p >>= f = err c p

abbrev pub ◌>>◌ : {B : Type 0} → Result (Unit {0}) → Result B → Result B
m >> k = m >>= λ _. k

-- `_fail`, where the test holds.
abbrev pub fail_if : Bool → Code → List Segment → Result (Unit {0})
fail_if true c p = err c p
fail_if false c p = ok tt

-- Equality of texts.
abbrev pub same_text : List ℕ → List ℕ → Bool
same_text [] [] = true
same_text (x ∷ xs) (y ∷ ys) = eqb x y && same_text xs ys
same_text _ _ = false
