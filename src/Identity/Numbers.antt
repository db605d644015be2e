-- ===== src/Identity/Numbers.antt =====
-- The integers of canonical_identity.py in decimal, read back by the parser of numbers.
use unrest.Base.{
  ℕ, zero, suc, ◌+◌, ◌*◌, ◌/◌, ◌%◌, ◌<◌, ◌≤◌, ◌≡◌, ◌≢◌, refl, sym, ap, ◌∙◌, arith, Bool, true,
  false, not, ◌&&◌, List, [], ◌∷◌, ◌++◌, if◌then◌else◌, ltb, eqb, append_assoc, length,
  length-append, ◌-◌, Bool-cases, inl, inr,
}
use unrest.Identity.{ℤ, pos, negsuc, Value, Result, integer, ok}
use unrest.Identity.Validate.{is_safe}
use unrest.Identity.Encode.{digits, decimal, encode_integer}
use unrest.Identity.Parse.{
  is_digit, digits_from, begins_with_digit, is_real, signed, numbered, number_from, atom_from,
}

-- The number whose digits are those of `m` and then those of `n`.
shift : ℕ → ℕ → ℕ → ℕ
shift zero n m = m
shift (suc f) n m = if ltb n 10 then m * 10 + n else shift f (n / 10) m * 10 + n % 10

shift_self : (f n : ℕ) → n < f → shift f n 0 ≡ n
unfolding shift
shift_self zero n h = absurd (omega arith)
shift_self (suc f) n h = ground (arith, shift_self f (n / 10))

digit_step :
    (m d : ℕ) (t : List ℕ) → d < 10 → digits_from m ((d + b'0') ∷ t) ≡ digits_from (m * 10 + d) t
unfolding digits_from
digit_step m d t lt =
    let digit : is_digit (d + b'0') ≡ true = ground arith in
    rw digit (ap (λ (k : ℕ). digits_from (m * 10 + k) t) (omega arith))

digits_few : (f n : ℕ) → ltb n 10 ≡ true → digits (suc f) n ≡ (n + b'0') ∷ []
unfolding digits
digits_few f n h = rw h

digits_many :
    (f n : ℕ) → ltb n 10 ≡ false → digits (suc f) n ≡ digits f (n / 10) ++ (n % 10 + b'0') ∷ []
unfolding digits
digits_many f n h = rw h

digits_from-digits :
    (f n m : ℕ) (t : List ℕ) → n < f → digits_from m (digits f n ++ t) ≡ digits_from (shift f n m) t
unfolding shift
digits_from-digits zero n m t h = absurd (omega arith)
digits_from-digits (suc f) n m t h = elim (Bool-cases (ltb n 10)) [
  | inl few ↦ rw (digits_few f n few, few) (digit_step m n t (ground arith))
  | inr many ↦
      rw (digits_many f n many, many)
        (rw (append_assoc (digits f (n / 10)) ((n % 10 + b'0') ∷ []) t) (
          digits_from-digits f (n / 10) m ((n % 10 + b'0') ∷ t) (ground arith)
          ∙ digit_step (shift f (n / 10) m) (n % 10) t (omega arith)))
]

-- The first digit, which is not 0 unless the number is.
pub record IsHead (n : ℕ) (ds : List ℕ) : Type 0 where
  pub first : ℕ
  pub others : List ℕ
  pub split : ds ≡ first ∷ others
  pub least : b'0' ≤ first
  pub most : first ≤ b'9'
  pub nonzero : 0 < n → b'0' < first
  pub alone : n ≡ 0 → others ≡ []

digits-IsHead : (f n : ℕ) → n < f → IsHead n (digits f n)
digits-IsHead zero n h = absurd (omega arith)
digits-IsHead (suc f) n h = elim (Bool-cases (ltb n 10)) [
  | inl few ↦ record {
    first = n + b'0';
    others = [];
    split = digits_few f n few;
    least = omega arith;
    most = ground arith;
    nonzero = λ p. omega arith;
    alone = λ z. refl;
  }
  | inr many ↦
      let more = digits-IsHead f (n / 10) (ground arith) in
      record {
        first = more.first;
        others = more.others ++ (n % 10 + b'0') ∷ [];
        split = digits_many f n many ∙ ap (λ (ds : List ℕ). ds ++ (n % 10 + b'0') ∷ []) more.split;
        least = more.least;
        most = more.most;
        nonzero = λ p. more.nonzero (ground arith);
        alone = λ z. absurd (ground arith);
      }
]

pub decimal-IsHead : (n : ℕ) → IsHead n (decimal n)
unfolding decimal
decimal-IsHead n = digits-IsHead (suc n) n (omega arith)

-- A text that no number runs into.
abbrev pub ends_number : List ℕ → Bool
ends_number t = not (begins_with_digit t) && not (is_real t)

stops : (m : ℕ) (t : List ℕ) → begins_with_digit t ≡ false → digits_from m t ≡ (m, t)
unfolding digits_from
stops m [] h = refl
stops m (c ∷ cs) h = rw h

decimal_value :
    (n : ℕ) (t : List ℕ) → begins_with_digit t ≡ false → digits_from 0 (decimal n ++ t) ≡ (n, t)
unfolding decimal
decimal_value n t h =
    digits_from-digits (suc n) n 0 t (omega arith)
    ∙ (ap (λ (m : ℕ). digits_from m t) (shift_self (suc n) n (omega arith)) ∙ stops n t h)

numbered_ok :
    (minus : Bool) (n : ℕ) (t : List ℕ)
    → ends_number t ≡ true
    → (count : ℕ) → count ≤ 4300
    → numbered minus count (n, t) ≡ ok (integer (signed minus n), t)
numbered_ok minus n t h count few =
    let no_fraction : is_real t ≡ false = ground (arith, h) in
    let short : ltb 4300 count ≡ false = ground arith in rw (no_fraction, short)

number_zero : (minus : Bool) (t : List ℕ) → number_from minus (b'0' ∷ t) ≡ numbered minus 1 (0, t)
unfolding number_from
number_zero minus t = refl

-- `numbered` with the digits that the text begins with.
abbrev counted : Bool → List ℕ → Result (Value × List ℕ)
counted minus cs = numbered minus (length cs - length (digits_from 0 cs).1) (digits_from 0 cs)

number_digits :
    (minus : Bool) (c : ℕ) (cs : List ℕ)
    → b'0' < c
    → c ≤ b'9'
    → number_from minus (c ∷ cs) ≡ counted minus (c ∷ cs)
unfolding number_from
number_digits minus c cs lo hi =
    let nonzero : eqb c b'0' ≡ false = ground arith in
    let digit : is_digit c ≡ true = ground arith in rw (nonzero, digit)

decimal-zero : decimal 0 ≡ b'0' ∷ []
unfolding decimal
decimal-zero = refl

-- A number in decimal is read back.
pub number_from-decimal :
    (minus : Bool) (n : ℕ) (t : List ℕ)
    → length (decimal n) ≤ 4300
    → ends_number t ≡ true
    → number_from minus (decimal n ++ t) ≡ ok (integer (signed minus n), t)
number_from-decimal minus zero t few h =
    ap (λ (ds : List ℕ). number_from minus (ds ++ t)) decimal-zero
    ∙ (number_zero minus t ∙ numbered_ok minus 0 t h 1 (omega arith))
number_from-decimal minus (suc n) t few h =
    let d = decimal-IsHead (suc n) in
    rw d.split (
      number_digits minus d.first (d.others ++ t) (d.nonzero (omega arith)) d.most
      ∙ (ap (λ (ds : List ℕ). counted minus (ds ++ t)) (sym d.split)
          ∙ (ap (λ (p : ℕ × List ℕ). numbered minus (length (decimal (suc n) ++ t) - length p.1) p)
                (decimal_value (suc n) t (ground (arith, h)))
              ∙ numbered_ok minus (suc n) t h (length (decimal (suc n) ++ t) - length t)
                  (omega (arith, few, length-append (decimal (suc n)) t)))))

atom_digit :
    (c : ℕ) (cs : List ℕ) → b'0' ≤ c → c ≤ b'9' → atom_from c cs ≡ number_from false (c ∷ cs)
unfolding atom_from
atom_digit c cs lo hi =
    let n : eqb c b'n' ≡ false = ground arith in
    let t : eqb c b't' ≡ false = ground arith in
    let f : eqb c b'f' ≡ false = ground arith in
    let m : eqb c b'-' ≡ false = ground arith in
    let nan : eqb c b'N' ≡ false = ground arith in
    let i : eqb c b'I' ≡ false = ground arith in rw (n, t, f, m, nan, i)

atom_minus :
    (c : ℕ) (cs : List ℕ)
    → b'0' ≤ c
    → c ≤ b'9'
    → atom_from b'-' (c ∷ cs) ≡ number_from true (c ∷ cs)
unfolding atom_from
atom_minus c cs lo hi = ground arith

-- The text of an integer and what follows it.
pub record IsNumeral (i : ℤ) (t : List ℕ) : Type 0 where
  pub first : ℕ
  pub others : List ℕ
  pub split : encode_integer i ++ t ≡ first ∷ others
  pub low : b'-' ≤ first
  pub high : first ≤ b'9'
  pub comma : first ≢ b','
  pub reads : atom_from first others ≡ ok (integer i, t)

tens : ℕ → ℕ
tens zero = 1
tens (suc k) = 10 * tens k

tenth : (n k : ℕ) → n < tens (suc (suc k)) → n / 10 < tens (suc k)
unfolding tens
tenth n k h = omega arith

ten : tens 1 ≡ 10
unfolding tens
ten = refl

length-digits : (k f n : ℕ) → n < tens (suc k) → length (digits f n) ≤ suc k
unfolding digits
length-digits k zero n h = omega arith
length-digits zero (suc f) n h =
    let few : ltb n 10 ≡ true = ground (arith, ten) in omega (arith, ap length (digits_few f n few))
length-digits (suc k) (suc f) n h = elim (Bool-cases (ltb n 10)) [
  | inl few ↦ omega (arith, ap length (digits_few f n few))
  | inr many ↦ omega (
    arith,
    ap length (digits_many f n many),
    length-append (digits f (n / 10)) ((n % 10 + b'0') ∷ []),
    length-digits k f (n / 10) (tenth n k h),
  )
]

sixteen : tens 16 ≡ 10000000000000000
unfolding tens
sixteen = refl

length-decimal : (n : ℕ) → n ≤ 9007199254740991 → length (decimal n) ≤ 4300
unfolding decimal
length-decimal n h = omega (arith, length-digits 15 (suc n) n (omega (arith, sixteen)))

pub encode_integer-IsNumeral :
    (i : ℤ) (t : List ℕ) → is_safe i ≡ true → ends_number t ≡ true → IsNumeral i t
unfolding encode_integer
encode_integer-IsNumeral (pos n) t safe h =
    let d = decimal-IsHead n in
    record {
      first = d.first;
      others = d.others ++ t;
      split = ap (λ (ds : List ℕ). ds ++ t) d.split;
      low = omega (arith, d.least);
      high = d.most;
      comma = omega (arith, d.least);
      reads =
          atom_digit d.first (d.others ++ t) d.least d.most
          ∙ (ap (λ (ds : List ℕ). number_from false (ds ++ t)) (sym d.split)
              ∙ number_from-decimal false n t (length-decimal n (ground (arith, safe))) h);
    }
encode_integer-IsNumeral (negsuc n) t safe h =
    let d = decimal-IsHead (suc n) in
    record {
      first = b'-';
      others = decimal (suc n) ++ t;
      split = refl;
      low = omega arith;
      high = omega arith;
      comma = omega arith;
      reads =
          ap (λ (ds : List ℕ). atom_from b'-' (ds ++ t)) d.split
          ∙ (atom_minus d.first (d.others ++ t) d.least d.most
              ∙ (ap (λ (ds : List ℕ). number_from true (ds ++ t)) (sym d.split)
                  ∙ number_from-decimal true (suc n) t
                      (length-decimal (suc n) (ground (arith, safe))) h));
    }
