-- ===== src/Lanes/Sound/Sweeping.antt =====
-- The loops of experimental_model.py over the lanes by their index.
use unrest.Base.{
  ℕ, zero, suc, ◌+◌, ◌<◌, ◌≡◌, ◌≢◌, refl, sym, subst, ap, ◌∙◌, arith, Bool, List, [], ◌∷◌, some,
  length, map, All, ◌⊎◌, inl, inr, length-map,
}
use native.Mathlib.Decide.{dec_lt}
use unrest.Lanes.{Reason, Turn, Lane, State, Result, ok}
use unrest.Lanes.Places.{get_elem?, set, length-set, All_of_get}
use unrest.Lanes.Steps.{with_lane, unparked, closed, blocked_lane, attend}
use unrest.Lanes.Progress.{each}
use unrest.Lanes.Sound.{IsSound}
use unrest.Lanes.Sound.Attending.{attend-ok}

-- A rule for the loop: an invariant over the index that every round keeps.
pub each_inv :
    (P : ℕ → State → Type 0) (m : ℕ) (f : State → ℕ → Result State)
    → ((i : ℕ) (s : State) → i < m → P i s → (s' : State) × (f s i ≡ ok s') × P (suc i) s')
    → (n i : ℕ) (s : State) → n + i ≡ m
    → P i s
    → (s' : State) × (each f n i s ≡ ok s') × P m s'
each_inv P m f round zero i s e p = (s, refl, subst (λ k. P k s) (omega arith) p)
each_inv P m f round (suc n) i s e p =
    let (s', first, p') = round i s (omega arith) p in
    let (t, rest, q) = each_inv P m f round n (suc i) s' (omega arith) p' in (t, rw first rest, q)

some_inj : (x y : Lane) → some x ≡ some y → x ≡ y
some_inj x y e = cc

at_index :
    (s : State) (i j : ℕ) (l k : Lane)
    → j ≡ i
    → get_elem? s.lanes i ≡ some l
    → get_elem? s.lanes j ≡ some k
    → l ≡ k
at_index s i j l k e a b = some_inj l k (sym a ∙ (ap (λ (n : ℕ). get_elem? s.lanes n) (sym e) ∙ b))

mapped_lane :
    (ls : List Lane) (j : ℕ) (l : Lane)
    → get_elem? (map unparked ls) j ≡ some l
    → (old : Lane) × (get_elem? ls j ≡ some old) × (unparked old ≡ l)
mapped_lane [] j l e = cc
mapped_lane (x ∷ xs) zero l e = (x, refl, some_inj (unparked x) l e)
mapped_lane (x ∷ xs) (suc j) l e = mapped_lane xs j l e

-- What stands at an index once lane `i` is blocked.
attended_lane :
    (ls : List Lane) (i : ℕ) (b : Lane) (j : ℕ) (l : Lane)
    → get_elem? (map unparked (set ls i b)) j ≡ some l
    → (unparked b ≡ l) ⊎ ((old : Lane) × (j ≢ i) × (get_elem? ls j ≡ some old) × (unparked old ≡ l))
attended_lane [] i b j l e = cc
attended_lane (x ∷ xs) zero b zero l e = inl (some_inj (unparked b) l e)
attended_lane (x ∷ xs) zero b (suc j) l e =
    let (old, found, same) = mapped_lane xs j l e in inr (old, omega arith, found, same)
attended_lane (x ∷ xs) (suc i) b zero l e = inr (x, omega arith, refl, some_inj (unparked x) l e)
attended_lane (x ∷ xs) (suc i) b (suc j) l e = elim (attended_lane xs i b j l e) [
  | inl here ↦ inl here
  | inr (old, apart, found, same) ↦ inr (old, omega (arith, apart), found, same)
]

-- `Q` holds of the lanes below the index.
pub record IsSwept (Q : Lane → Type 0) (m clock i : ℕ) (s : State) : Type 0 where
  pub sound : IsSound s
  pub size : length s.lanes ≡ m
  pub clock_is : s.now ≡ clock
  pub swept : (j : ℕ) (l : Lane) → j < i → get_elem? s.lanes j ≡ some l → Q l

module _ (Q : Lane → Type 0) (m clock : ℕ) where
  pub attend-IsSwept :
      (i : ℕ) (s : State) (l : Lane) (reason : Reason) (u : Bool)
      → get_elem? s.lanes i ≡ some l
      → ((l : Lane) → Q l → Q (unparked l))
      → ((ts : List Turn) → Q (unparked (blocked_lane l ts reason)))
      → IsSwept Q m clock i s
      → (s' : State) × (attend s i reason u ≡ ok s') × IsSwept Q m clock (suc i) s'
  attend-IsSwept i s l reason u e keeps blocks w =
      let (ts, ends, attends, sound) = attend-ok s i l reason u e w.sound in
      let b = blocked_lane l ts reason in
      (
        closed (with_lane s i b),
        attends,
        record {
          sound = sound;
          size = length-map unparked (set s.lanes i b) ∙ (length-set s.lanes i b ∙ w.size);
          clock_is = w.clock_is;
          swept = λ j k lt found. elim (attended_lane s.lanes i b j k found) [
            | inl here ↦ subst Q here (blocks ts)
            | inr (old, apart, old_found, same) ↦
                subst Q same (keeps old (w.swept j old (omega (arith, apart)) old_found))
          ];
        },
      )

  pub keep-IsSwept :
      (i : ℕ) (s : State) (l : Lane)
      → get_elem? s.lanes i ≡ some l
      → Q l
      → IsSwept Q m clock i s
      → IsSwept Q m clock (suc i) s
  keep-IsSwept i s l e holds w = record {
    sound = w.sound;
    size = w.size;
    clock_is = w.clock_is;
    swept = λ j k lt found. elim (dec_lt j i) [
      | yes below ↦ w.swept j k below found
      | no over ↦ subst Q (at_index s i j l k (omega (arith, over)) e found) holds
    ];
  }

  pub All-IsSwept : (s : State) → IsSwept Q m clock m s → All Q s.lanes
  All-IsSwept s w = All_of_get Q s.lanes (λ j l lt e. w.swept j l (omega (arith, w.size)) e)
