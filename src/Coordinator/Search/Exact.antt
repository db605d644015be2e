-- ===== src/Coordinator/Search/Exact.antt =====
-- src/unrest_harness/coordinator.py: the search down the graph against reachability.
use mathlib.Core.List.{reverse}
use unrest.Base.{
  ℕ, zero, suc, ◌+◌, ◌*◌, ◌≤◌, ◌≡◌, ◌↔◌, ap, Bool, true, false, ◌||◌, List, [], ◌∷◌, ◌++◌, map,
  String, arith, ◌==◌, eq_iff, eq_refl, if◌then◌else◌, Bool-cases, inl, inr, contains,
  contains-append, length, length-append, length-map, select, length-select-le, concat_map,
}
use unrest.Model.Task.{Task}
use unrest.Validation.Fields.{ids_of}
use unrest.Validation.Navigation.{total_deps}
use unrest.Validation.Navigation.Closure.{length-reverse, contains-reverse}
use unrest.Coordinator.Search.{downstream_of, search, search_fuel, search_down}

length-edges-le :
    (tasks : List Task) (id : String)
    → length (concat_map (λ t. map (λ dep. t.id) (select (λ dep. dep == id) t.depends_on)) tasks)
      ≤ total_deps tasks
unfolding total_deps
length-edges-le [] id = omega arith
length-edges-le (t ∷ ts) id = omega (
  arith,
  length-edges-le ts id,
  length-append (map (λ dep. t.id) (select (λ dep. dep == id) t.depends_on))
      (concat_map (λ u. map (λ dep. u.id) (select (λ dep. dep == id) u.depends_on)) ts),
  length-map {0, 0} {A = String} {B = String} (λ dep. t.id)
      (select (λ dep. dep == id) t.depends_on),
  length-select-le (λ (dep : String). dep == id) t.depends_on,
)

length-downstream_of-le :
    (tasks : List Task) (id : String) → length (downstream_of tasks id) ≤ total_deps tasks
unfolding downstream_of
length-downstream_of-le tasks id = ground (arith, length-edges-le tasks id)

downstream_of-unknown :
    (tasks : List Task) (id : String)
    → contains id (ids_of tasks) ≡ false
    → downstream_of tasks id ≡ []
unfolding downstream_of
downstream_of-unknown tasks id h = rw h

-- The tasks that were not seen yet.
unseen : List String → List Task → ℕ
unseen seen [] = 0
unseen seen (t ∷ ts) = (if contains t.id seen then 0 else 1) + unseen seen ts

unseen-le : (seen : List String) (tasks : List Task) → unseen seen tasks ≤ length tasks
unfolding unseen
unseen-le seen [] = omega arith
unseen-le seen (t ∷ ts) = ground (arith, unseen-le seen ts)

unseen_mono :
    (seen : List String) (x : String) (tasks : List Task)
    → unseen (x ∷ seen) tasks ≤ unseen seen tasks
unfolding unseen
unseen_mono seen x [] = omega arith
unseen_mono seen x (t ∷ ts) = ground (arith, unseen_mono seen x ts)

unseen_step :
    (seen : List String) (x : String) (tasks : List Task)
    → contains x seen ≡ false
    → contains x (ids_of tasks) ≡ true
    → suc (unseen (x ∷ seen) tasks) ≤ unseen seen tasks
unfolding unseen
unseen_step seen x [] n k = absurd (cc)
unseen_step seen x (t ∷ ts) n k = ground (
  arith,
  unseen_step seen x ts n,
  unseen_mono seen x ts,
  eq_iff x t.id,
  eq_iff t.id x,
  ap (λ (s : String). contains s seen),
)

module _ (tasks : List Task) (skip hit : String → Bool) where
  -- The ids that a path down the graph reaches without a skipped id.
  pub data Reached (starts : List String) : String → Type 0 where
    start : {x : String} → contains x starts ≡ true → skip x ≡ false → Reached starts x
    down :
        {x : String} (y : String)
        → Reached starts y
        → contains x (downstream_of tasks y) ≡ true
        → skip x ≡ false
        → Reached starts x

mul_mono : (u v t : ℕ) → u ≤ v → u * t ≤ v * t
mul_mono u v t h = grind arith

mul_step : (u v t : ℕ) → suc u ≤ v → u * t + t ≤ v * t
mul_step u v t h = grind arith

module _ (tasks : List Task) (skip hit : String → Bool) (starts : List String) where
  abbrev next : String → List String
  next = downstream_of tasks

  -- What is pending and not skipped is reached.
  search_sound :
      (fuel : ℕ) (seen pending : List String)
      → ((x : String)
          → contains x pending ≡ true
          → skip x ≡ false
          → Reached tasks skip hit starts x)
      → search next skip hit fuel seen pending ≡ true
      → (x : String) × Reached tasks skip hit starts x × (hit x ≡ true)
  unfolding search
  search_sound zero seen pending r h = absurd (cc)
  search_sound (suc fuel) seen [] r h = absurd (cc)
  search_sound (suc fuel) seen (c ∷ p) r h = elim (Bool-cases (contains c seen || skip c)) [
    | inl over ↦ search_sound fuel seen p (λ x m s. r x (ground arith) s) (rw over at h)
    | inr new ↦
        let up_c = r c (ground (arith, eq_refl c)) (ground arith) in
        elim (Bool-cases (hit c)) [
          | inl found ↦ (c, up_c, found)
          | inr miss ↦
              search_sound fuel (c ∷ seen) (reverse (next c) ++ p)
                (λ x m s. elim (Bool-cases (contains x (next c))) [
                  | inl child ↦ Reached.down c up_c child s
                  | inr other ↦
                      r x
                        (ground (
                          arith,
                          contains-append x (reverse (next c)) p,
                          contains-reverse x (next c),
                        ))
                        s
                ])
                (ground arith)
        ]
  ]

  -- What the search has passed: no hit among it, and its children passed or pending.
  record Passed (seen pending : List String) : Type 0 where
    no_hit : (x : String) → contains x seen ≡ true → hit x ≡ false
    from_starts :
        (x : String)
        → contains x starts ≡ true
        → skip x ≡ false
        → (contains x seen || contains x pending) ≡ true
    from_seen :
        (y x : String)
        → contains y seen ≡ true
        → contains x (next y) ≡ true
        → skip x ≡ false
        → (contains x seen || contains x pending) ≡ true

  pass_over :
      (c : String) (seen p : List String)
      → (contains c seen || skip c) ≡ true
      → Passed seen (c ∷ p)
      → Passed seen p
  pass_over c seen p over f = record {
    no_hit = f.no_hit;
    from_starts = λ x h s.
        ground
          (arith, f.from_starts x h s, eq_iff x c, ap (λ (z : String). contains z seen), ap skip);
    from_seen = λ y x h e s.
        ground
          (arith, f.from_seen y x h e s, eq_iff x c, ap (λ (z : String). contains z seen), ap skip);
  }

  go_deeper :
      (c : String) (seen p : List String)
      → hit c ≡ false
      → Passed seen (c ∷ p)
      → Passed (c ∷ seen) (reverse (next c) ++ p)
  go_deeper c seen p miss f = record {
    no_hit = λ x h. ground (arith, f.no_hit x, eq_iff x c, ap hit);
    from_starts =
        λ x h s. ground (arith, f.from_starts x h s, contains-append x (reverse (next c)) p);
    from_seen = λ y x h e s. elim (Bool-cases (y == c)) [
      | inl same ↦
          let child = ap (λ (z : String). contains x (next z)) ((eq_iff y c).0 same) in
          ground (arith, child, contains-append x (reverse (next c)) p, contains-reverse x (next c))
      | inr other ↦
          let was : contains y seen ≡ true = ground arith in
          ground (arith, f.from_seen y x was e s, contains-append x (reverse (next c)) p)
    ];
  }

  Reached-seen :
      (seen : List String)
      → Passed seen []
      → {x : String} → Reached tasks skip hit starts x
      → contains x seen ≡ true
  Reached-seen seen f {x} (Reached.start h s) = ground (arith, f.from_starts x h s)
  Reached-seen seen f {x} (Reached.down y r e s) =
      let before = Reached-seen seen f r in ground (arith, f.from_seen y x before e s)

  deeper_fuel :
      (fuel : ℕ) (c : String) (seen p : List String)
      → suc (length p) + unseen seen tasks * total_deps tasks ≤ suc fuel
      → contains c seen ≡ false
      → length (reverse (next c) ++ p) + unseen (c ∷ seen) tasks * total_deps tasks ≤ fuel
  deeper_fuel fuel c seen p m new =
      let pushed = length-append (reverse (next c)) p in
      let same = length-reverse (next c) in
      elim (Bool-cases (contains c (ids_of tasks))) [
        | inl known ↦ omega (
          arith,
          pushed,
          same,
          length-downstream_of-le tasks c,
          mul_step (unseen (c ∷ seen) tasks) (unseen seen tasks) (total_deps tasks)
              (unseen_step seen c tasks new known),
        )
        | inr unknown ↦ omega (
          arith,
          pushed,
          same,
          ap length (downstream_of-unknown tasks c unknown),
          mul_mono (unseen (c ∷ seen) tasks) (unseen seen tasks) (total_deps tasks)
              (unseen_mono seen c tasks),
        )
      ]

  search_complete :
      (fuel : ℕ) (seen pending : List String)
      → length pending + unseen seen tasks * total_deps tasks ≤ fuel
      → Passed seen pending
      → search next skip hit fuel seen pending ≡ false
      → (x : String) → Reached tasks skip hit starts x
      → hit x ≡ false
  unfolding search
  search_complete zero seen [] m f h x r = f.no_hit x (Reached-seen seen f r)
  search_complete zero seen (c ∷ p) m f h x r = absurd (omega arith)
  search_complete (suc fuel) seen [] m f h x r = f.no_hit x (Reached-seen seen f r)
  search_complete (suc fuel) seen (c ∷ p) m f h x r =
      elim (Bool-cases (contains c seen || skip c)) [
        | inl over ↦
            search_complete fuel seen p (omega arith) (pass_over c seen p over f) (rw over at h) x r
        | inr new ↦
            search_complete fuel (c ∷ seen) (reverse (next c) ++ p)
              (deeper_fuel fuel c seen p m (ground arith)) (go_deeper c seen p (ground arith) f)
              (ground arith) x r
      ]

-- `search_down` is true exactly when a path down the graph, without skipped ids, leads from one of
-- the starts to a hit.
pub search_down_exact :
    (tasks : List Task) (skip hit : String → Bool) (starts : List String)
    → (search_down tasks skip hit starts ≡ true)
      ↔ ((x : String) × Reached tasks skip hit starts x × (hit x ≡ true))
unfolding search_down search_fuel
search_down_exact tasks skip hit starts =
    let fuel = search_fuel tasks starts in
    let st = reverse starts in
    (
      (λ h.
          search_sound tasks skip hit starts fuel [] st
            (λ x m s. Reached.start (ground (arith, contains-reverse x starts)) s) h),
      λ (x, r, found). elim (Bool-cases (search_down tasks skip hit starts)) [
        | inl yes_found ↦ yes_found
        | inr nothing ↦
            let missed =
              search_complete tasks skip hit starts fuel [] st
                (omega (
                  arith,
                  length-reverse starts,
                  mul_mono (unseen [] tasks) (length tasks) (total_deps tasks) (unseen-le [] tasks),
                ))
                (record {
                  no_hit = λ y h. cc;
                  from_starts = λ y h s. ground (arith, contains-reverse y starts);
                  from_seen = λ y z h e s. cc;
                })
                nothing x r in
            cc
      ],
    )
