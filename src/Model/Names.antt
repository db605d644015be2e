-- ===== src/Model/Names.antt =====
-- src/unrest_harness/models.py: the patterns of identifiers. `fullmatch` asks for the whole text, so
-- a trailing newline is refused as any other character is.
use unrest.Base.{ℕ, Bool, false, ◌&&◌, ◌||◌, not, List, [], ◌∷◌, String, leb, eqb, all, any, codes}

unfoldable pub is_upper : ℕ → Bool
is_upper c = leb b'A' c && leb c b'Z'

unfoldable pub is_lower : ℕ → Bool
is_lower c = leb b'a' c && leb c b'z'

unfoldable pub is_digit : ℕ → Bool
is_digit c = leb b'0' c && leb c b'9'

-- `[A-Z0-9-]`
unfoldable pub is_assertion_char : ℕ → Bool
unfolding is_upper is_digit
is_assertion_char c = is_upper c || is_digit c || eqb c b'-'

-- `[A-Za-z0-9_-]`
unfoldable pub is_task_char : ℕ → Bool
unfolding is_upper is_lower is_digit
is_task_char c = is_upper c || is_lower c || is_digit c || eqb c b'_' || eqb c b'-'

-- `[A-Za-z0-9._:-]`
unfoldable pub is_identity_char : ℕ → Bool
unfolding is_upper is_lower is_digit
is_identity_char c =
    is_upper c || is_lower c || is_digit c || eqb c b'.' || eqb c b'_' || eqb c b':' || eqb c b'-'

-- A first character and the rest.
abbrev pub head_and_rest : (ℕ → Bool) → (List ℕ → Bool) → List ℕ → Bool
head_and_rest first rest [] = false
head_and_rest first rest (c ∷ cs) = first c && rest cs

-- One or more characters of a class: the `+` of a pattern.
abbrev pub one_or_more : (ℕ → Bool) → List ℕ → Bool
one_or_more p [] = false
one_or_more p (c ∷ cs) = all p (c ∷ cs)

-- ASSERTION_ID_REGEX, `^[A-Z][A-Z0-9-]+$`
unfoldable pub matches_assertion_id : String → Bool
unfolding is_assertion_char
matches_assertion_id s = head_and_rest is_upper (one_or_more is_assertion_char) (codes s)

-- TASK_ID_REGEX, `^[A-Za-z][A-Za-z0-9_-]*$`
unfoldable pub matches_task_id : String → Bool
unfolding is_task_char
matches_task_id s = head_and_rest (λ c. is_upper c || is_lower c) (all is_task_char) (codes s)

-- `[A-Za-z0-9][A-Za-z0-9._:-]*`
unfoldable pub matches_identity : String → Bool
unfolding is_identity_char
matches_identity s =
    head_and_rest (λ c. is_upper c || is_lower c || is_digit c) (all is_identity_char) (codes s)

-- `str.isspace` of one character.
unfoldable pub is_space : ℕ → Bool
is_space c =
    (leb 9 c && leb c 13)
    || (leb 28 c && leb c 32)
    || eqb c 0x85
    || eqb c 0xa0
    || eqb c 0x1680
    || (leb 0x2000 c && leb c 0x200a)
    || eqb c 0x2028
    || eqb c 0x2029
    || eqb c 0x202f
    || eqb c 0x205f
    || eqb c 0x3000

-- The truth value of `s.strip()`: some character is no space.
unfoldable pub has_text : String → Bool
unfolding is_space
has_text s = any (λ c. not (is_space c)) (codes s)
