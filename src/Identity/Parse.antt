-- ===== src/Identity/Parse.antt =====
-- src/unrest_harness/canonical_identity.py: `strict_parse_json` and `verify_canonical_json_bytes`, over
-- `json.loads` of the standard library with the hooks that the source gives it.
use unrest.Base.{
  ℕ, zero, suc, ◌+◌, ◌-◌, ◌*◌, Bool, true, false, not, ◌&&◌, ◌||◌, List, [], ◌∷◌, ◌++◌, Option,
  none, some, if◌then◌else◌, length, ltb, leb, eqb,
}
use unrest.Identity.{
  ℤ, pos, negsuc, Value, null, boolean, integer, text, object, array, Items, nil, cons, Fields, end,
  field, Code, Result, ok, err, ◌>>=◌, ◌>>◌, fail_if, same_text,
}
use unrest.Identity.Validate.{validate_value}
use unrest.Identity.Encode.{canonical_json}

-- A failure of `json.loads`, raised again as `invalid_json`.
abbrev pub invalid : {A : Type 0} → Result A
invalid = err Code.invalid_json []

abbrev pub is_blank : ℕ → Bool
is_blank c = eqb c 32 || (eqb c 9 || (eqb c 10 || eqb c 13))

unfoldable pub skip_blanks : List ℕ → List ℕ
skip_blanks [] = []
skip_blanks (c ∷ cs) = if is_blank c then skip_blanks cs else c ∷ cs

-- What follows the prefix, where the text begins with it.
abbrev pub after_prefix : List ℕ → List ℕ → Option (List ℕ)
after_prefix [] cs = some cs
after_prefix (p ∷ ps) [] = none
after_prefix (p ∷ ps) (c ∷ cs) = if eqb p c then after_prefix ps cs else none

-- Text within a string: plain, behind a backslash, or within `\uXXXX` with this many digits to come.
pub data Mode : Type 0 where
  plain : Mode
  behind : Mode
  hex : ℕ → ℕ → Mode

abbrev pub hex_value : ℕ → Option ℕ
hex_value c =
    if leb b'0' c && leb c b'9'
    then some (c - b'0')
    else if leb b'a' c && leb c b'f'
    then some (c - 87)
    else if leb b'A' c && leb c b'F'
    then some (c - 55)
    else none

abbrev pub escape_of : ℕ → Option ℕ
escape_of c =
    if eqb c b'"' || (eqb c b'\\' || eqb c b'/')
    then some c
    else if eqb c b'b'
    then some 8
    else if eqb c b'f'
    then some 12
    else if eqb c b'n'
    then some 10
    else if eqb c b'r'
    then some 13
    else if eqb c b't'
    then some 9
    else none

abbrev pub is_high : ℕ → Bool
is_high c = leb 0xD800 c && leb c 0xDBFF

abbrev pub is_low : ℕ → Bool
is_low c = leb 0xDC00 c && leb c 0xDFFF

-- The high half of a pair that no low half has followed.
abbrev pub held : Option ℕ → List ℕ
held none = []
held (some h) = h ∷ []

abbrev pub prefixed : List ℕ → Result (List ℕ × List ℕ) → Result (List ℕ × List ℕ)
prefixed cs r = r >>= λ p. ok (cs ++ p.0, p.1)

-- What `\uXXXX` adds to the text, and the half that it leaves: a low half behind a high one joins it.
abbrev pub joined : Option ℕ → ℕ → List ℕ × Option ℕ
joined none u = if is_high u then ([], some u) else (u ∷ [], none)
joined (some h) u =
    if is_low u
    then ((0x10000 + (h - 0xD800) * 1024 + (u - 0xDC00)) ∷ [], none)
    else if is_high u
    then (h ∷ [], some u)
    else (h ∷ u ∷ [], none)

-- The text of a string and what follows its closing quote.
unfoldable pub string_from : Mode → Option ℕ → List ℕ → Result (List ℕ × List ℕ)
string_from m h [] = invalid
string_from plain h (c ∷ cs) =
    let escape = string_from behind h cs in
    let rest = prefixed (held h ++ c ∷ []) (string_from plain none cs) in
    if eqb c b'"'
    then ok (held h, cs)
    else if eqb c b'\\'
    then escape
    else if ltb c 32
    then invalid
    else rest
string_from behind h (c ∷ cs) =
    let unit = string_from (hex 4 0) h cs in
    let named : ℕ → Result (List ℕ × List ℕ) =
      λ d. prefixed (held h ++ d ∷ []) (string_from plain none cs) in
    if eqb c b'u' then unit else elim (escape_of c) [ none ↦ invalid | some d ↦ named d ]
string_from (hex zero u) h (c ∷ cs) = invalid
string_from (hex (suc k) u) h (c ∷ cs) = elim (hex_value c) [
  | none ↦ invalid
  | some d ↦
      let u' = u * 16 + d in
      let more = string_from (hex k u') h cs in
      let last = prefixed (joined h u').0 (string_from plain (joined h u').1 cs) in
      if eqb k 0 then last else more
]

abbrev pub is_digit : ℕ → Bool
is_digit c = leb b'0' c && leb c b'9'

-- The value of the digits that the text begins with, and what follows them.
unfoldable pub digits_from : ℕ → List ℕ → ℕ × List ℕ
digits_from n [] = (n, [])
digits_from n (c ∷ cs) =
    let more = digits_from (n * 10 + (c - b'0')) cs in if is_digit c then more else (n, c ∷ cs)

abbrev pub begins_with_digit : List ℕ → Bool
begins_with_digit [] = false
begins_with_digit (c ∷ cs) = is_digit c

abbrev pub signless : List ℕ → List ℕ
signless [] = []
signless (c ∷ cs) = if eqb c b'+' || eqb c b'-' then cs else c ∷ cs

-- A fraction or an exponent follows: `\.\d+` or `[eE][-+]?\d+`.
abbrev pub is_real : List ℕ → Bool
is_real [] = false
is_real (c ∷ cs) =
    (eqb c b'.' && begins_with_digit cs)
    || ((eqb c b'e' || eqb c b'E') && begins_with_digit (signless cs))

abbrev pub negated : ℕ → ℤ
negated zero = pos 0
negated (suc n) = negsuc n

abbrev pub signed : Bool → ℕ → ℤ
signed false n = pos n
signed true n = negated n

-- The most digits that `int` converts, by default.
abbrev pub max_digits : ℕ
max_digits = 4300

-- The parse of a number of `count` digits is over: a float is refused by the hook, and `int` refuses a
-- longer number with a ValueError that is no JSONDecodeError.
abbrev pub numbered : Bool → ℕ → ℕ × List ℕ → Result (Value × List ℕ)
numbered minus count p =
    if is_real p.1
    then err Code.float_not_allowed []
    else if ltb max_digits count
    then err Code.value_error []
    else ok (integer (signed minus p.0), p.1)

-- `0|[1-9]\d*`
unfoldable pub number_from : Bool → List ℕ → Result (Value × List ℕ)
unfolding digits_from
number_from minus [] = invalid
number_from minus (c ∷ cs) =
    let p = digits_from 0 (c ∷ cs) in
    if eqb c b'0'
    then numbered minus 1 (0, cs)
    else if is_digit c
    then numbered minus (suc (length cs) - length p.1) p
    else invalid

abbrev pub constant : List ℕ → Result (Value × List ℕ) → List ℕ → Result (Value × List ℕ)
constant name otherwise cs = elim (after_prefix name cs) [
  | none ↦ otherwise
  | some rest ↦ err Code.non_json_number []
]

abbrev pub literal : List ℕ → Value → List ℕ → Result (Value × List ℕ)
literal name v cs = elim (after_prefix name cs) [ none ↦ invalid | some rest ↦ ok (v, rest) ]

abbrev pub infinity : List ℕ
infinity = b'I' ∷ b'n' ∷ b'f' ∷ b'i' ∷ b'n' ∷ b'i' ∷ b't' ∷ b'y' ∷ []

-- A value that is no string, object or array; `c` is the first character.
unfoldable pub atom_from : ℕ → List ℕ → Result (Value × List ℕ)
unfolding number_from
atom_from c cs =
    if eqb c b'n'
    then literal (b'u' ∷ b'l' ∷ b'l' ∷ []) null cs
    else if eqb c b't'
    then literal (b'r' ∷ b'u' ∷ b'e' ∷ []) (boolean true) cs
    else if eqb c b'f'
    then literal (b'a' ∷ b'l' ∷ b's' ∷ b'e' ∷ []) (boolean false) cs
    else if eqb c b'-'
    then constant infinity (number_from true cs) cs
    else if eqb c b'N'
    then constant (b'a' ∷ b'N' ∷ []) invalid cs
    else if eqb c b'I'
    then constant infinity invalid (c ∷ cs)
    else number_from false (c ∷ cs)

abbrev pub has_key : List ℕ → Fields → Bool
has_key k end = false
has_key k (field j x fs) = same_text j k || has_key k fs

-- `_pairs_to_object` refuses a key that has been met.
unfoldable pub repeats : Fields → Bool
repeats end = false
repeats (field k x fs) = has_key k fs || repeats fs

abbrev pub to_object : Fields × List ℕ → Result (Value × List ℕ)
to_object p = if repeats p.0 then err Code.duplicate_key [] else ok (object p.0, p.1)

abbrev pub to_array : Items × List ℕ → Result (Value × List ℕ)
to_array p = ok (array p.0, p.1)

-- The next character is `c`.
abbrev pub expect : ℕ → List ℕ → Result (List ℕ)
expect c [] = invalid
expect c (d ∷ cs) = if eqb d c then ok cs else invalid

abbrev pub begins_with : ℕ → List ℕ → Bool
begins_with c [] = false
begins_with c (d ∷ cs) = eqb d c

-- `scan_once` of `json.loads`, `JSONArray` behind its bracket and `JSONObject` behind its brace. The
-- interpreter's limit on recursion is left out.
unfoldable mutual
  unfolding skip_blanks string_from atom_from repeats

  pub parse_value : ℕ → List ℕ → Result (Value × List ℕ)
  parse_value zero cs = err Code.out_of_fuel []
  parse_value (suc f) [] = invalid
  parse_value (suc f) (c ∷ cs) =
      let body = skip_blanks cs in
      let fields = parse_fields f body >>= to_object in
      let items = parse_items f body >>= to_array in
      let chars = (string_from plain none cs >>= λ p. ok (text p.0, p.1)) in
      let no_fields = (expect b'}' body >>= λ rest. to_object (end, rest)) in
      let no_items = (expect b']' body >>= λ rest. to_array (nil, rest)) in
      if eqb c b'"'
      then chars
      else if eqb c b'{'
      then (if begins_with b'}' body then no_fields else fields)
      else if eqb c b'['
      then (if begins_with b']' body then no_items else items)
      else atom_from c cs

  pub parse_items : ℕ → List ℕ → Result (Items × List ℕ)
  parse_items zero cs = err Code.out_of_fuel []
  parse_items (suc f) cs = parse_value f cs >>= λ p.
      let behind' = skip_blanks p.1 in
      let more =
        (expect b',' behind' >>= λ rest.
        parse_items f (skip_blanks rest) >>= λ q. ok (cons p.0 q.0, q.1)) in
      let last = (expect b']' behind' >>= λ rest. ok (cons p.0 nil, rest)) in
      if begins_with b']' behind' then last else more

  pub parse_fields : ℕ → List ℕ → Result (Fields × List ℕ)
  parse_fields zero cs = err Code.out_of_fuel []
  parse_fields (suc f) cs = expect b'"' cs >>= λ inside. string_from plain none inside >>= λ k.
      expect b':' (skip_blanks k.1) >>= λ rest. parse_value f (skip_blanks rest) >>= λ p.
      let behind' = skip_blanks p.1 in
      let more =
        (expect b',' behind' >>= λ rest'.
        parse_fields f (skip_blanks rest') >>= λ q. ok (field k.0 p.0 q.0, q.1)) in
      let last = (expect b'}' behind' >>= λ rest'. ok (field k.0 p.0 end, rest')) in
      if begins_with b'}' behind' then last else more

-- `json.loads`: blanks may stand before and after the value, and nothing else.
unfoldable pub loads : List ℕ → Result Value
unfolding parse_value
loads cs = do
  p ← parse_value (suc (2 * length cs)) (skip_blanks cs)
  fail_if (not (same_text (skip_blanks p.1) [])) Code.invalid_json []
  ok p.0

-- The bytes, read by the UTF-8 codec: `none` if they are not UTF-8.
pub record Source : Type 0 where
  pub begins_with_bom : Bool
  pub decoded : Option (List ℕ)

-- The bytes of a text.
abbrev pub encoded : List ℕ → Source
encoded cs = record { begins_with_bom = begins_with 0xFEFF cs; decoded = some cs }

module _ (normalize : List ℕ → List ℕ) where
  unfoldable pub strict_parse_json : Source → Result Value
  unfolding loads validate_value
  strict_parse_json source =
      if source.begins_with_bom then err Code.bom_not_allowed [] else elim source.decoded [
        | none ↦ err Code.invalid_utf8 []
        | some cs ↦ loads cs >>= λ v. validate_value normalize v [] >> ok v
      ]

  -- `verify_canonical_json_bytes`, on bytes that encode a text.
  unfoldable pub verify_canonical_json : List ℕ → Result Value
  unfolding strict_parse_json canonical_json
  verify_canonical_json cs = do
    v ← strict_parse_json (encoded cs)
    again ← canonical_json normalize v
    fail_if (not (same_text again cs)) Code.non_canonical_bytes []
    ok v
