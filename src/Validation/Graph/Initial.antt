-- ===== src/Validation/Graph/Initial.antt =====
-- src/unrest_harness/task_validation.py: `check_acyclic`, the counts and successors before the loop.
use unrest.Base.{
  ℕ, suc, ◌+◌, ◌≡◌, refl, ap, ◌∙◌, true, List, [], ◌∷◌, ◌++◌, String, arith, ◌==◌, eq_iff, eq_refl,
  if◌then◌else◌, contains, distinct, disjoint-nil, count, foldl, All, Dict, find, find_or, modify,
  keys, find-modify, keys-modify, contains-keys, concat_map, keys-foldl-put, find_or-foldl-put,
  Bool-cases, inl, inr,
}
use unrest.Model.Task.{Task}
use unrest.Validation.Fields.{ids_of}
use unrest.Validation.Fields.Exact.{All-map}
use unrest.Validation.Graph.{
  Edge, task_edges, edges, Adjacency, no_edges, add_edge, degree, adjacency,
}
use unrest.Validation.Graph.Counts.{count-append}
use unrest.Validation.Graph.Degrees.{waits, between}

-- Both ends of an edge are ids of the list.
abbrev pub Joins : List String → Edge → Type 0
Joins ids (u, w) = (contains u ids ≡ true) × (contains w ids ≡ true)

pub All-append {ℓ κ} :
    {A : Type ℓ} (P : A → Type κ) (xs ys : List A) → All P xs → All P ys → All P (xs ++ ys)
All-append P [] ys hx hy = hy
All-append P (x ∷ xs) ys hx hy = (hx.0, All-append P xs ys hx.1 hy)

task_edges-Joins :
    (ids : List String) (id : String) (deps : List String)
    → contains id ids ≡ true
    → All (Joins ids) (task_edges ids id deps)
unfolding task_edges
task_edges-Joins ids id [] h = tt
task_edges-Joins ids id (dep ∷ deps) h = elim (Bool-cases (contains dep ids)) [
  | inl known ↦ rw known ((known, h), task_edges-Joins ids id deps h)
  | inr unknown ↦ rw unknown (task_edges-Joins ids id deps h)
]

edges_from-Joins :
    (ids : List String) (tasks : List Task)
    → All (λ t. contains t.id ids ≡ true) tasks
    → All (Joins ids) (concat_map (λ t. task_edges ids t.id t.depends_on) tasks)
edges_from-Joins ids [] h = tt
edges_from-Joins ids (t ∷ ts) h =
    All-append (Joins ids) (task_edges ids t.id t.depends_on) _
      (task_edges-Joins ids t.id t.depends_on h.0) (edges_from-Joins ids ts h.1)

contains-ids_of : (tasks : List Task) → All (λ t. contains t.id (ids_of tasks) ≡ true) tasks
contains-ids_of [] = tt
contains-ids_of (t ∷ ts) =
    (ground (arith, eq_refl t.id), All-map ts (λ u h. ground arith) (contains-ids_of ts))

pub edges-Joins : (tasks : List Task) → All (Joins (ids_of tasks)) (edges tasks)
unfolding edges
edges-Joins tasks = edges_from-Joins (ids_of tasks) tasks (contains-ids_of tasks)

-- What one edge adds.
degree-modify-suc :
    (v k : String) (d : Dict ℕ)
    → contains k (keys d) ≡ true
    → degree v (modify k suc d) ≡ (if k == v then suc (degree v d) else degree v d)
unfolding degree
degree-modify-suc v k d h =
    ground
      (arith, find-modify k v suc d, contains-keys k d, eq_iff k v, ap (λ (t : String). find t d))

find_or-modify_snoc :
    (v k id : String) (d : Dict (List String))
    → contains k (keys d) ≡ true
    → find_or [] v (modify k (λ l. l ++ id ∷ []) d)
      ≡ (if k == v then find_or [] v d ++ id ∷ [] else find_or [] v d)
find_or-modify_snoc v k id d h = ground (
  arith,
  find-modify k v (λ l. l ++ id ∷ []) d,
  contains-keys k d,
  eq_iff k v,
  ap (λ (t : String). find t d),
)

-- The counts are the edges into a task, the lists the edges out of it.
pub record Holds (ids : List String) (es : List Edge) (g : Adjacency) : Type 0 where
  pub indeg_keys : keys g.indeg ≡ ids
  pub adj_keys : keys g.adj ≡ ids
  pub into : (v : String) → degree v g.indeg ≡ waits [] v es
  pub out : (u v : String) → count v (find_or [] u g.adj) ≡ between u v es

module _ (ids : List String) where
  keys-add_edges :
      (es : List Edge) (g : Adjacency)
      → (keys (foldl add_edge g es).indeg ≡ keys g.indeg)
        × (keys (foldl add_edge g es).adj ≡ keys g.adj)
  unfolding add_edge
  keys-add_edges [] g = (refl, refl)
  keys-add_edges ((u, w) ∷ es) g =
      let ih = keys-add_edges es (add_edge g (u, w)) in
      (ih.0 ∙ keys-modify w suc g.indeg, ih.1 ∙ keys-modify u (λ l. l ++ w ∷ []) g.adj)

  degree-add_edges :
      (es : List Edge) (g : Adjacency) (v : String)
      → keys g.indeg ≡ ids
      → All (Joins ids) es
      → degree v (foldl add_edge g es).indeg ≡ degree v g.indeg + waits [] v es
  unfolding add_edge waits
  degree-add_edges [] g v k h = omega arith
  degree-add_edges ((u, w) ∷ es) g v k h =
      let step = degree-modify-suc v w g.indeg (rw k h.0.1) in
      let ih = degree-add_edges es (add_edge g (u, w)) v (keys-modify w suc g.indeg ∙ k) h.1 in
      ground (arith, step, ih)

  count-add_edges :
      (es : List Edge) (g : Adjacency) (u v : String)
      → keys g.adj ≡ ids
      → All (Joins ids) es
      → count v (find_or [] u (foldl add_edge g es).adj)
        ≡ count v (find_or [] u g.adj) + between u v es
  unfolding add_edge between
  count-add_edges [] g u v k h = omega arith
  count-add_edges ((s, w) ∷ es) g u v k h =
      let step = find_or-modify_snoc u s w g.adj (rw k h.0.0) in
      let ih =
        count-add_edges es (add_edge g (s, w)) u v (keys-modify s (λ l. l ++ w ∷ []) g.adj ∙ k)
          h.1 in
      let shown = ap (count v) step in
      ground (arith, shown, ih, count-append v (find_or [] u g.adj) (w ∷ []))

  no_edges-Holds :
      distinct ids ≡ true
      → (keys (no_edges ids).indeg ≡ ids)
        × (keys (no_edges ids).adj ≡ ids)
        × ((v : String) → degree v (no_edges ids).indeg ≡ 0)
        × ((u : String) → find_or [] u (no_edges ids).adj ≡ [])
  unfolding no_edges degree keys find
  no_edges-Holds h = (
    keys-foldl-put 0 ids [] h (disjoint-nil ids),
    keys-foldl-put [] ids [] h (disjoint-nil ids),
    (λ v. find_or-foldl-put 0 ids [] v refl),
    λ u. find_or-foldl-put [] ids [] u refl,
  )

pub adjacency-Holds :
    (tasks : List Task)
    → distinct (ids_of tasks) ≡ true
    → Holds (ids_of tasks) (edges tasks) (adjacency tasks)
unfolding adjacency
adjacency-Holds tasks h =
    let ids = ids_of tasks in
    let es = edges tasks in
    let g = no_edges ids in
    let (ik, ak, zeros, empties) = no_edges-Holds ids h in
    let joins = edges-Joins tasks in
    record {
      indeg_keys = (keys-add_edges ids es g).0 ∙ ik;
      adj_keys = (keys-add_edges ids es g).1 ∙ ak;
      into = λ v. omega (arith, degree-add_edges ids es g v ik joins, zeros v);
      out = λ u v. omega (arith, count-add_edges ids es g u v ak joins, ap (count v) (empties u));
    }
