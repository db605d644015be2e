-- ===== src/Validation/Graph/Loop.antt =====
-- src/unrest_harness/task_validation.py: `check_acyclic`, the invariant of the `while queue` loop.
use unrest.Base.{
  ℕ, ◌≤◌, ◌<◌, ◌≡◌, refl, ap, ◌∙◌, Bool, true, false, ◌&&◌, List, [], ◌∷◌, ◌++◌, String, arith,
  ◌==◌, eq_iff, eq_refl, if◌then◌else◌, eqb, contains, distinct, count, length, select, All, Dict,
  find_or, keys, length-append,
}
use unrest.Validation.Graph.{Edge, degree, release, Sweep, visit, start}
use unrest.Validation.Graph.Counts.{contains-eq-count, count-append, count-distinct}
use unrest.Validation.Graph.Degrees.{
  released, release-queue, release-degree, keys-release, count-released, waits, between,
  waits-append,
}
use unrest.Validation.Graph.Initial.{Joins}

count-select :
    (v : String) (p : String → Bool) (xs : List String)
    → count v (select p xs) ≡ (if p v then count v xs else 0)
count-select v p [] = ground arith
count-select v p (x ∷ xs) = ground (arith, count-select v p xs, eq_iff x v, ap p)

waits-unknown :
    (ids popped : List String) (v : String) (es : List Edge)
    → All (Joins ids) es
    → contains v ids ≡ false
    → waits popped v es ≡ 0
unfolding waits
waits-unknown ids popped v [] h n = refl
waits-unknown ids popped v ((u, w) ∷ es) h n =
    ground (arith, waits-unknown ids popped v es h.1 n, eq_iff w v, h.0.1)

-- An edge into a task that waits for nothing starts at a popped task.
waits-popped :
    (popped : List String) (f : String → ℕ) (es : List Edge)
    → ((v : String) → waits popped v es ≤ f v)
    → All (λ (u, w). f w ≡ 0 → contains u popped ≡ true) es
unfolding waits
waits-popped popped f [] h = tt
waits-popped popped f ((u, w) ∷ es) h =
    ((λ e. ground (arith, h w, eq_refl w)), waits-popped popped f es (λ v. ground (arith, h v)))

module _ (ids : List String) (es : List Edge) (adj : Dict (List String)) where
  pub record Inv (popped : List String) (s : Sweep) : Type 0 where
    pub indeg_keys : keys s.indeg ≡ ids
    pub into : (v : String) → degree v s.indeg ≡ waits popped v es
    pub placed :
        (v : String)
        → count v (popped ++ s.queue)
          ≡ (if contains v ids && eqb (degree v s.indeg) 0 then 1 else 0)
    pub number : s.visited ≡ length popped

  -- The order of popping, as a rank.
  pub record Ordered (popped : List String) (rank : String → ℕ) : Type 0 where
    pub below : (v : String) → 0 < count v popped → rank v < length popped
    pub sorted : All (λ (u, w). 0 < count w popped → rank u < rank w) es

  pub start-Inv :
      (indeg : Dict ℕ)
      → distinct ids ≡ true
      → keys indeg ≡ ids
      → ((v : String) → degree v indeg ≡ waits [] v es)
      → Inv [] (start indeg)
  unfolding start
  start-Inv indeg d k i = record {
    indeg_keys = k;
    into = i;
    placed = λ v. rw k (
        ground
          (arith, count-select v (λ tid. eqb (degree tid indeg) 0) ids, count-distinct v ids d));
    number = refl;
  }

  module _ (joins : All (Joins ids) es)
      (out : (u v : String) → count v (find_or [] u adj) ≡ between u v es) where
    module _ (popped : List String) (s : Sweep) (c : String) (q : List String) (inv : Inv popped s)
        (front : s.queue ≡ c ∷ q) where
      not_popped : contains c popped ≡ false
      not_popped =
          let once = rw front at (inv.placed c) in
          ground (arith, once, count-append c popped (c ∷ q), contains-eq-count c popped, eq_refl c)

      front_degree : degree c s.indeg ≡ 0
      front_degree =
          let once = rw front at (inv.placed c) in
          ground (arith, once, count-append c popped (c ∷ q), eq_refl c)

      pub visit-Inv : Inv (popped ++ c ∷ []) (visit adj c q s.indeg s.visited)
      unfolding visit
      visit-Inv =
          let ns = find_or [] c adj in
          record {
            indeg_keys = keys-release ns s.indeg q ∙ inv.indeg_keys;
            into = λ v. omega (
              arith,
              release-degree ns s.indeg q v,
              inv.into v,
              out c v,
              waits-append popped c v es not_popped,
            );
            placed = λ v. ground (
              arith,
              rw front at (inv.placed v),
              ap (count v) (release-queue ns s.indeg q),
              count-append v popped (c ∷ q),
              count-append v (popped ++ c ∷ []) (release ns s.indeg q).1,
              count-append v popped (c ∷ []),
              count-append v q (released ns s.indeg),
              count-released ns s.indeg v,
              release-degree ns s.indeg q v,
              out c v,
              waits-unknown ids popped v es joins,
              inv.into v,
            );
            number = ground (arith, inv.number, length-append popped (c ∷ []));
          }

      -- Every task popped so far keeps its rank; the new one gets the next.
      pub next_rank : (String → ℕ) → String → ℕ
      next_rank rank x = if x == c then length popped else rank x

      module _ (rank : String → ℕ) (ord : Ordered popped rank) where
        closed : All (λ (u, w). degree w s.indeg ≡ 0 → contains u popped ≡ true) es
        closed = waits-popped popped (λ v. degree v s.indeg) es (λ v. omega (arith, inv.into v))

        -- A popped task waits for nothing.
        popped_degree : (v : String) → 0 < count v (popped ++ c ∷ []) → degree v s.indeg ≡ 0
        popped_degree v h = ground (
          arith,
          rw front at (inv.placed v),
          count-append v popped (c ∷ q),
          count-append v popped (c ∷ []),
        )

        next_sorted :
            (fs : List Edge)
            → All (λ (u, w). degree w s.indeg ≡ 0 → contains u popped ≡ true) fs
            → All (λ (u, w). 0 < count w popped → rank u < rank w) fs
            → All
                (λ (u, w). 0 < count w (popped ++ c ∷ []) → next_rank rank u < next_rank rank w)
                fs
        unfolding next_rank
        next_sorted [] h k = tt
        next_sorted ((u, w) ∷ fs) h k = (
          (λ m.
              let source = h.0 (popped_degree w m) in
              ground (
                arith,
                source,
                k.0,
                ord.below u,
                contains-eq-count u popped,
                count-append w popped (c ∷ []),
                eq_iff u c,
                eq_iff w c,
                eq_iff c w,
                not_popped,
              )),
          next_sorted fs h.1 k.1,
        )

        pub visit-Ordered : Ordered (popped ++ c ∷ []) (next_rank rank)
        unfolding next_rank
        visit-Ordered = record {
          below = λ v h. ground (
            arith,
            ord.below v,
            length-append popped (c ∷ []),
            count-append v popped (c ∷ []),
            eq_iff v c,
            eq_iff c v,
          );
          sorted = next_sorted es closed ord.sorted;
        }
