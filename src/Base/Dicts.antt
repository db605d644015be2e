-- ===== src/Base/Dicts.antt =====
-- Python's `dict` with text keys, as an association list in insertion order.
use Prim.Native.String.{String}
use mathlib.Core.Path.{◌≡◌, refl, sym, ◌∙◌}
use mathlib.Core.Bool.{true}
use mathlib.Core.Option.{Option, none, some}
use mathlib.Core.List.{append-nil, append_assoc, ◌++◌, List, [], ◌∷◌}
use native.Mathlib.Omega.{arith}
use text.Mathlib.Text.{◌==◌}
use text.Mathlib.TextEquality.{eq_iff}
use unrest.Base.Texts.{contains, distinct, disjoint, disjoint-snoc}
use unrest.Base.Lists.{foldl}
use unrest.Base.Tests.{is_some, if◌then◌else◌}

abbrev pub Dict {ℓ} : Type ℓ → Type ℓ
Dict V = List (String × V)

module _ {ℓ} {V : Type ℓ} where
  -- d.get(k)
  unfoldable pub find : String → Dict V → Option V
  find k [] = none
  find k ((j, v) ∷ d) = if j == k then some v else find k d

  -- d.get(k, default)
  abbrev pub find_or : V → String → Dict V → V
  find_or v k d = elim (find k d) [ none ↦ v | some w ↦ w ]

  -- d[k] = v
  unfoldable pub put : String → V → Dict V → Dict V
  put k v [] = (k, v) ∷ []
  put k v ((j, w) ∷ d) = if j == k then (k, v) ∷ d else (j, w) ∷ put k v d

  -- d[k] = f(d[k]), at a key that is there
  unfoldable pub modify : String → (V → V) → Dict V → Dict V
  modify k f [] = []
  modify k f ((j, w) ∷ d) = if j == k then (j, f w) ∷ d else (j, w) ∷ modify k f d

  unfoldable pub keys : Dict V → List String
  keys [] = []
  keys ((j, w) ∷ d) = j ∷ keys d

  pub find-put :
      (k j : String) (v : V) (d : Dict V)
      → find j (put k v d) ≡ (if k == j then some v else find j d)
  unfolding find put
  find-put k j v [] = refl
  find-put k j v ((i, w) ∷ d) = ground (arith, eq_iff k j, eq_iff i k, eq_iff i j, find-put k j v d)

  pub find-modify :
      (k j : String) (f : V → V) (d : Dict V)
      → find j (modify k f d)
        ≡ (if k == j then elim (find j d) [ none ↦ none | some v ↦ some (f v) ] else find j d)
  unfolding find modify
  find-modify k j f [] = ground arith
  find-modify k j f ((i, w) ∷ d) =
      ground (arith, eq_iff k j, eq_iff i k, eq_iff i j, find-modify k j f d)

  pub keys-modify : (k : String) (f : V → V) (d : Dict V) → keys (modify k f d) ≡ keys d
  unfolding keys modify
  keys-modify k f [] = refl
  keys-modify k f ((i, w) ∷ d) = ground (arith, keys-modify k f d)

  pub contains-keys : (k : String) (d : Dict V) → contains k (keys d) ≡ is_some (find k d)
  unfolding keys find
  contains-keys k [] = refl
  contains-keys k ((j, w) ∷ d) = ground (arith, contains-keys k d, eq_iff k j, eq_iff j k)

  pub keys-put :
      (k : String) (v : V) (d : Dict V)
      → keys (put k v d) ≡ (if contains k (keys d) then keys d else keys d ++ k ∷ [])
  unfolding keys put
  keys-put k v [] = refl
  keys-put k v ((j, w) ∷ d) = ground (arith, keys-put k v d, eq_iff k j, eq_iff j k)

-- `{k: v for k in ids}`
pub keys-foldl-put {ℓ} :
    {V : Type ℓ} (v : V) (ids : List String) (d : Dict V)
    → distinct ids ≡ true
    → disjoint ids (keys d) ≡ true
    → keys (foldl (λ e id. put id v e) d ids) ≡ keys d ++ ids
keys-foldl-put v [] d h k = sym (append-nil (keys d))
keys-foldl-put v (id ∷ ids) d h k =
    let step : keys (put id v d) ≡ keys d ++ id ∷ [] = ground (arith, keys-put id v d) in
    keys-foldl-put v ids (put id v d) (ground arith)
      (rw step (ground (arith, disjoint-snoc id ids (keys d))))
    ∙ (rw step (append_assoc (keys d) (id ∷ []) ids))

pub find_or-foldl-put {ℓ} :
    {V : Type ℓ} (v : V) (ids : List String) (d : Dict V) (k : String)
    → find_or v k d ≡ v
    → find_or v k (foldl (λ e id. put id v e) d ids) ≡ v
find_or-foldl-put v [] d k h = h
find_or-foldl-put v (id ∷ ids) d k h =
    find_or-foldl-put v ids (put id v d) k (ground (arith, find-put id k v d))
