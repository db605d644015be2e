-- ===== src/Validation/Navigation/Closure.antt =====
-- src/unrest_harness/task_validation.py: the walk up the graph against reachability.
use mathlib.Core.List.{reverse, reverse-append}
use unrest.Base.{
  ℕ, zero, suc, ◌+◌, ◌≤◌, ◌≡◌, ◌↔◌, refl, ap, ◌∙◌, Bool, true, false, ◌||◌, List, [], ◌∷◌, ◌++◌,
  String, none, some, arith, eq_iff, eq_refl, if◌then◌else◌, is_some, Bool-cases, Option-cases, inl,
  inr, ◌⊎◌, contains, contains-append, length, length-append, sym, subst,
}
use unrest.Model.Task.{Task}
use unrest.Validation.Navigation.{task_by_id, walk_step, walk, total_deps, upstream_closure}

pub length-reverse : (xs : List String) → length (reverse xs) ≡ length xs
length-reverse [] = refl
length-reverse (x ∷ xs) =
    ap length (reverse-append (x ∷ []) xs)
    ∙ (length-append (reverse xs) (x ∷ []) ∙ omega (arith, length-reverse xs))

pub contains-reverse : (x : String) (xs : List String) → contains x (reverse xs) ≡ contains x xs
contains-reverse x [] = refl
contains-reverse x (y ∷ ys) =
    ap (contains x) (reverse-append (y ∷ []) ys)
    ∙ (contains-append x (reverse ys) (y ∷ []) ∙ ground (arith, contains-reverse x ys))

-- What the tasks outside `seen` can still push.
unseen : List String → List Task → ℕ
unseen seen [] = 0
unseen seen (t ∷ ts) = (if contains t.id seen then 0 else length t.depends_on) + unseen seen ts

unseen-le : (seen : List String) (tasks : List Task) → unseen seen tasks ≤ total_deps tasks
unfolding unseen total_deps
unseen-le seen [] = omega arith
unseen-le seen (t ∷ ts) = ground (arith, unseen-le seen ts)

unseen_mono :
    (seen : List String) (x : String) (tasks : List Task)
    → unseen (seen ++ x ∷ []) tasks ≤ unseen seen tasks
unfolding unseen
unseen_mono seen x [] = omega arith
unseen_mono seen x (t ∷ ts) =
    ground (arith, unseen_mono seen x ts, contains-append t.id seen (x ∷ []))

-- Adding a task takes its dependencies off.
unseen_step :
    (seen : List String) (x : String) (tasks : List Task) (t : Task)
    → contains x seen ≡ false
    → task_by_id x tasks ≡ some t
    → unseen (seen ++ x ∷ []) tasks + length t.depends_on ≤ unseen seen tasks
unfolding unseen task_by_id
unseen_step seen x [] t n e = absurd (cc)
unseen_step seen x (u ∷ us) t n e = elim (Option-cases (task_by_id x us)) [
  | inl nothing ↦ ground (
    arith,
    unseen_mono seen x us,
    contains-append u.id seen (x ∷ []),
    eq_iff u.id x,
    eq_refl x,
    ap (λ (s : String). contains s seen),
  )
  | inr (v, found) ↦ ground (arith, unseen_step seen x us t n, contains-append u.id seen (x ∷ []))
]

abbrev State : Type 0
State = List String × List String

-- What one round does.
data Round (tasks : List Task) (c : String) (seen st : List String) : Type 0 where
  old : contains c seen ≡ true → walk_step tasks c seen st ≡ (seen, st) → Round tasks c seen st
  unknown :
      task_by_id c tasks ≡ none → walk_step tasks c seen st ≡ (seen, st) → Round tasks c seen st
  added :
      (t : Task)
      → contains c seen ≡ false
      → task_by_id c tasks ≡ some t
      → walk_step tasks c seen st ≡ (seen ++ c ∷ [], reverse t.depends_on ++ st)
      → Round tasks c seen st

round : (tasks : List Task) (c : String) (seen st : List String) → Round tasks c seen st
unfolding walk_step
round tasks c seen st = elim (Bool-cases (contains c seen)) [
  | inl e ↦ Round.old e (ground arith)
  | inr n ↦ elim (Option-cases (task_by_id c tasks)) [
    | inl nothing ↦ Round.unknown nothing (ground arith)
    | inr (t, found) ↦ Round.added t n found (ground arith)
  ]
]

-- The stack is empty after as many rounds as the fuel of `upstream_closure`.
walk-empties :
    (fuel : ℕ) (tasks : List Task) (seen stack : List String)
    → length stack + unseen seen tasks ≤ fuel
    → (walk fuel tasks seen stack).1 ≡ []
unfolding walk
walk-empties zero tasks seen [] h = refl
walk-empties zero tasks seen (c ∷ st) h = absurd (omega arith)
walk-empties (suc fuel) tasks seen [] h = refl
walk-empties (suc fuel) tasks seen (c ∷ st) h =
    let next = λ (p : State). (walk fuel tasks p.0 p.1).1 ≡ [] in
    elim (round tasks c seen st) [
      | Round.old _ e ↦ subst next (sym e) (walk-empties fuel tasks seen st (omega arith))
      | Round.unknown _ e ↦ subst next (sym e) (walk-empties fuel tasks seen st (omega arith))
      | Round.added t n found e ↦ subst next (sym e) (
          walk-empties fuel tasks (seen ++ c ∷ []) (reverse t.depends_on ++ st) (
            omega (
              arith,
              unseen_step seen c tasks t n found,
              length-append (reverse t.depends_on) st,
              length-reverse t.depends_on,
            )))
    ]

-- The ids that a list of ids leads to through dependencies, by tasks that the list has.
pub data Upstream (tasks : List Task) (starts : List String) : String → Type 0 where
  start : {x : String} → contains x starts ≡ true → Upstream tasks starts x
  dep :
      {x : String} (y : String) (t : Task)
      → Upstream tasks starts y
      → task_by_id y tasks ≡ some t
      → contains x t.depends_on ≡ true
      → Upstream tasks starts x

module _ (tasks : List Task) (starts : List String) where
  abbrev known : String → Bool
  known x = is_some (task_by_id x tasks)

  -- What is added or waits on the stack is upstream, and what is added is known.
  record Sound (seen st : List String) : Type 0 where
    seen_up : (x : String) → contains x seen ≡ true → Upstream tasks starts x × (known x ≡ true)
    st_up : (x : String) → contains x st ≡ true → Upstream tasks starts x

  -- What is added has its dependencies added or on the stack, and so have the starts.
  record Full (seen st : List String) : Type 0 where
    from_starts :
        (x : String)
        → contains x starts ≡ true
        → known x ≡ true
        → (contains x seen || contains x st) ≡ true
    from_seen :
        (y : String) (t : Task) (x : String)
        → contains y seen ≡ true
        → task_by_id y tasks ≡ some t
        → contains x t.depends_on ≡ true
        → known x ≡ true
        → (contains x seen || contains x st) ≡ true

  module _ (c : String) (seen st : List String) where
    skip-Sound : Sound seen (c ∷ st) → Sound seen st
    skip-Sound s = record { seen_up = s.seen_up; st_up = λ x h. s.st_up x (ground arith) }

    skip-Full :
        (contains c seen ≡ true) ⊎ (task_by_id c tasks ≡ none) → Full seen (c ∷ st) → Full seen st
    skip-Full why f = record {
      from_starts = λ x h k. ground (
        arith,
        f.from_starts x h k,
        why,
        eq_iff x c,
        ap (λ (s : String). contains s seen),
        ap (λ (s : String). task_by_id s tasks),
      );
      from_seen = λ y t x h e d k. ground (
        arith,
        f.from_seen y t x h e d k,
        why,
        eq_iff x c,
        ap (λ (s : String). contains s seen),
        ap (λ (s : String). task_by_id s tasks),
      );
    }

    module _ (t : Task) (found : task_by_id c tasks ≡ some t) where
      abbrev seen' : List String
      seen' = seen ++ c ∷ []

      abbrev st' : List String
      st' = reverse t.depends_on ++ st

      seen_split : (x : String) → contains x seen' ≡ true → (contains x seen ≡ true) ⊎ (c ≡ x)
      seen_split x h = ground (arith, contains-append x seen (c ∷ []), eq_iff x c)

      st_split :
          (x : String)
          → contains x st' ≡ true
          → (contains x t.depends_on ≡ true) ⊎ (contains x st ≡ true)
      st_split x h =
          ground
            (arith, contains-append x (reverse t.depends_on) st, contains-reverse x t.depends_on)

      add-Sound : Sound seen (c ∷ st) → Sound seen' st'
      add-Sound s =
          let up_c = s.st_up c (ground (arith, eq_refl c)) in
          record {
            seen_up = λ x h. elim (seen_split x h) [
              | inl was ↦ s.seen_up x was
              | inr e ↦ subst (λ z. Upstream tasks starts z × (known z ≡ true)) e (up_c, rw found)
            ];
            st_up = λ x h. elim (st_split x h) [
              | inl d ↦ Upstream.dep c t up_c found d
              | inr was ↦ s.st_up x (ground arith)
            ];
          }

      still :
          (x : String)
          → (contains x seen || contains x (c ∷ st)) ≡ true
          → (contains x seen' || contains x st') ≡ true
      still x h =
          ground
            (arith, contains-append x seen (c ∷ []), contains-append x (reverse t.depends_on) st)

      add-Full : Full seen (c ∷ st) → Full seen' st'
      add-Full f = record {
        from_starts = λ x h k. still x (f.from_starts x h k);
        from_seen = λ y u x h e d k. elim (seen_split y h) [
          | inl was ↦ still x (f.from_seen y u x was e d k)
          | inr same ↦
              let fu = ap (λ (z : String). task_by_id z tasks) same in
              ground (
                arith,
                fu,
                contains-append x (reverse t.depends_on) st,
                contains-reverse x t.depends_on,
              )
        ];
      }

  walk-Sound :
      (fuel : ℕ) (seen st : List String)
      → Sound seen st
      → Sound (walk fuel tasks seen st).0 (walk fuel tasks seen st).1
  unfolding walk
  walk-Sound zero seen st s = s
  walk-Sound (suc fuel) seen [] s = s
  walk-Sound (suc fuel) seen (c ∷ st) s =
      let next = λ (p : State). Sound (walk fuel tasks p.0 p.1).0 (walk fuel tasks p.0 p.1).1 in
      elim (round tasks c seen st) [
        | Round.old _ e ↦ subst next (sym e) (walk-Sound fuel seen st (skip-Sound c seen st s))
        | Round.unknown _ e ↦ subst next (sym e) (walk-Sound fuel seen st (skip-Sound c seen st s))
        | Round.added t n found e ↦
            subst next (sym e) (walk-Sound fuel _ _ (add-Sound c seen st t found s))
      ]

  walk-Full :
      (fuel : ℕ) (seen st : List String)
      → Full seen st
      → Full (walk fuel tasks seen st).0 (walk fuel tasks seen st).1
  unfolding walk
  walk-Full zero seen st f = f
  walk-Full (suc fuel) seen [] f = f
  walk-Full (suc fuel) seen (c ∷ st) f =
      let next = λ (p : State). Full (walk fuel tasks p.0 p.1).0 (walk fuel tasks p.0 p.1).1 in
      elim (round tasks c seen st) [
        | Round.old o e ↦
            subst next (sym e) (walk-Full fuel seen st (skip-Full c seen st (inl o) f))
        | Round.unknown o e ↦
            subst next (sym e) (walk-Full fuel seen st (skip-Full c seen st (inr o) f))
        | Round.added t n found e ↦
            subst next (sym e) (walk-Full fuel _ _ (add-Full c seen st t found f))
      ]

  reaches :
      (seen : List String)
      → Full seen []
      → ((y : String) → contains y seen ≡ true → known y ≡ true)
      → {x : String} → Upstream tasks starts x
      → known x ≡ true
      → contains x seen ≡ true
  reaches seen f up {x} (Upstream.start h) k = ground (arith, f.from_starts x h k)
  reaches seen f up {x} (Upstream.dep y t u found d) k =
      let before = reaches seen f up u (rw found) in
      ground (arith, f.from_seen y t x before found d k)

-- `upstream_closure` adds exactly the ids of the task list that the given ids lead to through
-- `depends_on`, the given ids included.
pub upstream_closure_exact :
    (tasks : List Task) (starts : List String) (x : String)
    → (contains x (upstream_closure tasks starts) ≡ true)
      ↔ (Upstream tasks starts x × (is_some (task_by_id x tasks) ≡ true))
unfolding upstream_closure
upstream_closure_exact tasks starts x =
    let fuel = length starts + total_deps tasks in
    let st = reverse starts in
    let sound = walk-Sound tasks starts fuel [] st (record {
      seen_up = λ y h. cc;
      st_up = λ y h. Upstream.start (ground (arith, contains-reverse y starts));
    }) in
    let full = walk-Full tasks starts fuel [] st (record {
      from_starts = λ y h k. ground (arith, contains-reverse y starts);
      from_seen = λ y t z h e d k. cc;
    }) in
    let ends =
      walk-empties fuel tasks [] st (omega (arith, length-reverse starts, unseen-le [] tasks)) in
    (
      (λ h. sound.seen_up x h),
      λ (u, k).
          reaches tasks starts (walk fuel tasks [] st).0 (rw ends at full)
            (λ y h. (sound.seen_up y h).1) u k,
    )
