-- ===== src/Validation/Graph/Degrees.antt =====
-- src/unrest_harness/task_validation.py: `check_acyclic`, the counts of open edges.
use unrest.Base.{
  ℕ, suc, ◌+◌, ◌-◌, pred, ◌≡◌, refl, sym, ap, false, not, ◌&&◌, List, [], ◌∷◌, ◌++◌, String, arith,
  ◌==◌, eq_iff, if◌then◌else◌, ltb, leb, eqb, contains, count, Dict, modify, keys, find-modify,
  keys-modify, contains-append, append-nil, append_assoc, ◌∙◌,
}
use unrest.Validation.Graph.{Edge, degree, release}

pub degree-modify-pred :
    (v k : String) (d : Dict ℕ)
    → degree v (modify k pred d) ≡ (if k == v then pred (degree v d) else degree v d)
unfolding degree
degree-modify-pred v k d = ground (arith, find-modify k v pred d)

-- The tasks that a call of `release` puts into the queue.
pub released : List String → Dict ℕ → List String
released [] d = []
released (n ∷ ns) d =
    let rest = released ns (modify n pred d) in if eqb (degree n d) 1 then n ∷ rest else rest

pub release-queue :
    (ns : List String) (d : Dict ℕ) (q : List String) → (release ns d q).1 ≡ q ++ released ns d
unfolding release released
release-queue [] d q = sym (append-nil q)
release-queue (n ∷ ns) d q = ground (
  arith,
  release-queue ns (modify n pred d) (q ++ n ∷ []),
  release-queue ns (modify n pred d) q,
  append_assoc q (n ∷ []) (released ns (modify n pred d)),
)

pub release-degree :
    (ns : List String) (d : Dict ℕ) (q : List String) (v : String)
    → degree v (release ns d q).0 ≡ degree v d - count v ns
unfolding release
release-degree [] d q v = omega arith
release-degree (n ∷ ns) d q v = ground (
  arith,
  degree-modify-pred v n d,
  release-degree ns (modify n pred d) (if eqb (degree n d) 1 then q ++ n ∷ [] else q) v,
)

pub keys-release :
    (ns : List String) (d : Dict ℕ) (q : List String) → keys (release ns d q).0 ≡ keys d
unfolding release
keys-release [] d q = refl
keys-release (n ∷ ns) d q =
    keys-release ns (modify n pred d) (if eqb (degree n d) 1 then q ++ n ∷ [] else q)
    ∙ keys-modify n pred d

pub count-released :
    (ns : List String) (d : Dict ℕ) (v : String)
    → count v (released ns d)
      ≡ (if ltb 0 (degree v d) && leb (degree v d) (count v ns) then 1 else 0)
unfolding released
count-released [] d v = ground arith
count-released (n ∷ ns) d v = ground (
  arith,
  count-released ns (modify n pred d) v,
  degree-modify-pred v n d,
  eq_iff n v,
  ap (λ (t : String). degree t d),
)

-- The edges into `v` whose source is not in `done`.
unfoldable pub waits : List String → String → List Edge → ℕ
waits done v [] = 0
waits done v ((u, w) ∷ es) =
    if w == v && not (contains u done) then suc (waits done v es) else waits done v es

-- The edges from `u` to `v`.
unfoldable pub between : String → String → List Edge → ℕ
between u v [] = 0
between u v ((s, w) ∷ es) = if s == u && w == v then suc (between u v es) else between u v es

-- Taking one more task off turns its edges from open to closed.
pub waits-append :
    (done : List String) (c v : String) (es : List Edge)
    → contains c done ≡ false
    → waits (done ++ c ∷ []) v es + between c v es ≡ waits done v es
unfolding waits between
waits-append done c v [] h = omega arith
waits-append done c v ((u, w) ∷ es) h = ground (
  arith,
  waits-append done c v es h,
  contains-append u done (c ∷ []),
  eq_iff u c,
  ap (λ (t : String). contains t done),
)
