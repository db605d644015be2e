-- ===== src/Identity/Strings.antt =====
-- The escapes of canonical_identity.py, read back by the parser of strings.
use unrest.Base.{
  ℕ, suc, ◌+◌, ◌*◌, ◌/◌, ◌%◌, ◌<◌, ◌≡◌, refl, ap, ◌∙◌, arith, Bool, true, false, List, [], ◌∷◌,
  ◌++◌, none, some, if◌then◌else◌, ltb, eqb,
}
use unrest.Identity.{ok}
use unrest.Identity.Encode.{hex_digit, escape}
use unrest.Identity.Parse.{plain, hex, hex_value, escape_of, prefixed, string_from, is_high}
use unrest.Identity.Canon.{write_escaped}

hex_value-hex_digit : (d : ℕ) → d < 16 → hex_value (hex_digit d) ≡ some d
hex_value-hex_digit d lt = ground arith

eqb→eq : (a b : ℕ) → eqb a b ≡ true → a ≡ b
eqb→eq a b h = ground arith

-- The text `cs` before `t` is read as the character `c`.
abbrev Reads : ℕ → List ℕ → List ℕ → Type 0
Reads c t cs = string_from plain none (cs ++ t) ≡ prefixed (c ∷ []) (string_from plain none t)

Reads-if :
    (c : ℕ) (t : List ℕ) (b : Bool) (xs ys : List ℕ)
    → (b ≡ true → Reads c t xs)
    → (b ≡ false → Reads c t ys)
    → Reads c t (if b then xs else ys)
Reads-if c t true xs ys f g = f refl
Reads-if c t false xs ys f g = g refl

plain_char :
    (c : ℕ) (t : List ℕ)
    → eqb c b'"' ≡ false
    → eqb c b'\\' ≡ false
    → ltb c 32 ≡ false
    → string_from plain none (c ∷ t) ≡ prefixed (c ∷ []) (string_from plain none t)
unfolding string_from
plain_char c t a b d = rw (a, b, d)

named_char :
    (c d : ℕ) (t : List ℕ)
    → eqb c b'u' ≡ false
    → escape_of c ≡ some d
    → string_from plain none (b'\\' ∷ c ∷ t) ≡ prefixed (d ∷ []) (string_from plain none t)
unfolding string_from
named_char c d t a e = rw (a, e)

unit_starts :
    (t : List ℕ) → string_from plain none (b'\\' ∷ b'u' ∷ t) ≡ string_from (hex 4 0) none t
unfolding string_from
unit_starts t = refl

hex_more :
    (k u c d : ℕ) (t : List ℕ)
    → hex_value c ≡ some d
    → eqb k 0 ≡ false
    → string_from (hex (suc k) u) none (c ∷ t) ≡ string_from (hex k (u * 16 + d)) none t
unfolding string_from
hex_more k u c d t e more = rw (e, string_from) (rw more refl)

hex_last :
    (u c d : ℕ) (t : List ℕ)
    → hex_value c ≡ some d
    → is_high (u * 16 + d) ≡ false
    → string_from (hex 1 u) none (c ∷ t) ≡ prefixed ((u * 16 + d) ∷ []) (string_from plain none t)
unfolding string_from
hex_last u c d t e low = rw (e, string_from) (rw low refl)

hex_char :
    (c : ℕ) (t : List ℕ)
    → c < 32
    → string_from plain none
        (b'\\' ∷ b'u' ∷ b'0' ∷ b'0' ∷ hex_digit (c / 16) ∷ hex_digit (c % 16) ∷ t)
      ≡ prefixed (c ∷ []) (string_from plain none t)
hex_char c t lt =
    let low = hex_digit (c % 16) ∷ t in
    let high = hex_digit (c / 16) ∷ low in
    let same : (0 * 16 + 0) * 16 + 0 + 0 ≡ 0 = refl in
    let whole : (c / 16) * 16 + c % 16 ≡ c = omega arith in
    unit_starts (b'0' ∷ b'0' ∷ high)
    ∙ (hex_more 3 0 b'0' 0 (b'0' ∷ high) refl refl
        ∙ (hex_more 2 0 b'0' 0 high refl refl
            ∙ (hex_more 1 0 (hex_digit (c / 16)) (c / 16) low
                  (hex_value-hex_digit (c / 16) (omega arith)) refl
                ∙ (hex_last (0 * 16 + c / 16) (hex_digit (c % 16)) (c % 16) t
                      (hex_value-hex_digit (c % 16) (omega arith)) (ground arith)
                    ∙ ap (λ (n : ℕ). prefixed (n ∷ []) (string_from plain none t)) (omega arith)))))

-- One escaped character is read back.
escaped_char :
    (c : ℕ) (t : List ℕ)
    → string_from plain none (escape c ++ t) ≡ prefixed (c ∷ []) (string_from plain none t)
unfolding escape
escaped_char c t =
    Reads-if c t (eqb c b'"') _ _ (λ e. rw (eqb→eq c b'"' e) (named_char b'"' b'"' t refl refl))
      (λ quote.
        Reads-if c t (eqb c b'\\') _ _
          (λ e. rw (eqb→eq c b'\\' e) (named_char b'\\' b'\\' t refl refl))
          (λ slash.
            Reads-if c t (eqb c 10) _ _ (λ e. rw (eqb→eq c 10 e) (named_char b'n' 10 t refl refl))
              (λ _.
                Reads-if c t (eqb c 13) _ _
                  (λ e. rw (eqb→eq c 13 e) (named_char b'r' 13 t refl refl))
                  (λ _.
                    Reads-if c t (eqb c 9) _ _
                      (λ e. rw (eqb→eq c 9 e) (named_char b't' 9 t refl refl))
                      (λ _.
                        Reads-if c t (eqb c 12) _ _
                          (λ e. rw (eqb→eq c 12 e) (named_char b'f' 12 t refl refl))
                          (λ _.
                            Reads-if c t (eqb c 8) _ _
                              (λ e. rw (eqb→eq c 8 e) (named_char b'b' 8 t refl refl))
                              (λ _.
                                Reads-if c t (ltb c 32) _ _ (λ lt. hex_char c t (ground arith))
                                  (λ printable. plain_char c t quote slash printable))))))))

closes : (t : List ℕ) → string_from plain none (b'"' ∷ t) ≡ ok ([], t)
unfolding string_from
closes t = refl

-- A string is read back, with what follows its closing quote.
pub string_from-write :
    (s t : List ℕ) → string_from plain none (write_escaped s (b'"' ∷ t)) ≡ ok (s, t)
unfolding write_escaped
string_from-write [] t = closes t
string_from-write (c ∷ cs) t =
    escaped_char c (write_escaped cs (b'"' ∷ t)) ∙ rw (string_from-write cs t)
