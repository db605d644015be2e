-- ===== src/Lanes/Admission.antt =====
-- src/unrest_harness/experimental_model.py: `admit`, the facts that a campaign needs to begin.
pub mod Scopes
pub mod Initial
use unrest.Base.{
  ℕ, zero, suc, ◌+◌, ◌*◌, Bool, true, false, not, ◌&&◌, ◌||◌, List, [], ◌∷◌, ◌++◌, String, Option,
  none, some, if◌then◌else◌, length, is_empty, any, all, concat_map, codes, distinct, map, ltb, leb,
  eqb, ◌==◌,
}
use unrest.Model.Names.{is_space}
use unrest.Lanes.{Phase, Reason, LaneSpec, Config, Lane, State, Result, ok, ◌>>=◌, validated}

abbrev pub slash : ℕ
slash = b'/'

-- Equality of texts, by code points.
abbrev pub same_codes : List ℕ → List ℕ → Bool
same_codes [] [] = true
same_codes (x ∷ xs) (y ∷ ys) = eqb x y && same_codes xs ys
same_codes _ _ = false

-- `xs.startswith(p)`
abbrev pub has_prefix : List ℕ → List ℕ → Bool
has_prefix [] xs = true
has_prefix (p ∷ ps) [] = false
has_prefix (p ∷ ps) (x ∷ xs) = eqb p x && has_prefix ps xs

-- `a.startswith(b + "/")`
abbrev pub is_under : String → String → Bool
is_under a b = has_prefix (codes b ++ slash ∷ []) (codes a)

-- `a == b or a.startswith(b + "/") or b.startswith(a + "/")`
unfoldable pub overlaps : String → String → Bool
overlaps a b = same_codes (codes a) (codes b) || (is_under a b || is_under b a)

-- Some pair of the paths overlaps.
unfoldable pub any_overlap : List String → Bool
unfolding overlaps
any_overlap [] = false
any_overlap (a ∷ as') = any (overlaps a) as' || any_overlap as'

-- `text.split("/")`
unfoldable pub split : List ℕ → List (List ℕ)
split [] = [] ∷ []
split (c ∷ cs) = elim (split cs) [
  | [] ↦ []
  | part ∷ parts ↦ if eqb c slash then [] ∷ (part ∷ parts) else (c ∷ part) ∷ parts
]

abbrev member : List ℕ → List String → Bool
member part names = any (λ n. same_codes part (codes n)) names

-- `c in "*?[]\n\r\0"`, and the backslash.
abbrev is_forbidden : ℕ → Bool
is_forbidden c =
    eqb c b'\\'
    || (eqb c b'*'
        || (eqb c b'?' || (eqb c b'[' || (eqb c b']' || (eqb c 10 || (eqb c 13 || eqb c 0))))))

abbrev ends_in_space : ℕ → List ℕ → Bool
ends_in_space d [] = is_space d
ends_in_space d (e ∷ es) = ends_in_space e es

-- `p != p.strip()`: a space stands first or last.
abbrev is_padded : List ℕ → Bool
is_padded [] = false
is_padded (c ∷ cs) = is_space c || ends_in_space c cs

-- A path that no lane may name.
unfoldable pub is_invalid : String → Bool
unfolding split is_space
is_invalid p =
    is_empty (codes p)
    || (any is_forbidden (codes p)
        || (any (λ part. member part ("" ∷ "." ∷ ".." ∷ ".git" ∷ [])) (split (codes p))
            || is_padded (codes p)))

abbrev is_hex : ℕ → Bool
is_hex c = (leb b'0' c && leb c b'9') || (leb b'a' c && leb c b'f')

abbrev pub paths_of : List LaneSpec → List String
paths_of specs = concat_map (λ (s : LaneSpec). s.writes) specs

abbrev pub resources_of : List LaneSpec → List String
resources_of specs = concat_map (λ (s : LaneSpec). s.resources) specs

abbrev pub spec_ids : List LaneSpec → List String
spec_ids [] = []
spec_ids (s ∷ specs) = s.id ∷ spec_ids specs

-- The reason to refuse the plan, the first that holds.
unfoldable pub refusal_of : List LaneSpec → String → Bool → Bool → Config → Option Reason
unfolding is_invalid any_overlap
refusal_of specs base clean isolated config =
    if not config.enabled
    then some Reason.disabled
    else if not clean
    then some Reason.dirty_base
    else if not (eqb (length (codes base)) 40) || any (λ c. not (is_hex c)) (codes base)
    then some Reason.invalid_base
    else if not isolated
    then some Reason.unsupported_dispatch
    else if not (leb 1 (length specs) && leb (length specs) 4) || not (distinct (spec_ids specs))
    then some Reason.invalid_lanes
    else if config.reuse && ltb config.parking_capacity 2
    then some Reason.parking_capacity
    else if any (λ (s : LaneSpec). not s.auto_merge) specs
    then some Reason.integration_disabled
    else if any (λ (s : LaneSpec). is_empty s.writes) specs
    then some Reason.missing_scope
    else if any is_invalid (paths_of specs)
    then some Reason.invalid_scope
    else if any_overlap (paths_of specs)
    then some Reason.overlap
    else if not (distinct (resources_of specs))
    then some Reason.shared_resource
    else if ltb config.turn_budget (2 * length specs + config.final_turns)
    then some Reason.budget
    else none

abbrev pub fresh_lane : Config → ℕ → LaneSpec → Lane
fresh_lane config i spec = record {
  spec = spec;
  phase = Phase.work;
  admitted = false;
  generation = 0;
  candidate = none;
  correction_reserved = false;
  reuse_owner = config.reuse && eqb i 0;
  parking_reserved = 0;
  leases = [];
  turns = [];
  active = none;
  blocking = none;
  history = [];
}

-- `Lane(...) for i, s in enumerate(specs)`
abbrev pub lanes_from : Config → ℕ → List LaneSpec → List Lane
lanes_from config i [] = []
lanes_from config i (s ∷ specs) = fresh_lane config i s ∷ lanes_from config (suc i) specs

pub record Admission : Type 0 where
  pub reason : Option Reason
  pub state : Option State

abbrev pub initial_state : List LaneSpec → String → Config → State
initial_state specs base config = record {
  config = config;
  base = base;
  lanes = lanes_from config 0 specs;
  now = 0;
  halt = none;
}

unfoldable pub admit : List LaneSpec → String → Bool → Bool → Config → Result Admission
unfolding refusal_of validated
admit specs base clean isolated config = elim (refusal_of specs base clean isolated config) [
  | some r ↦ ok (record { reason = some r; state = none })
  | none ↦ do
    s ← validated (initial_state specs base config)
    ok (record { reason = none; state = some s })
]
