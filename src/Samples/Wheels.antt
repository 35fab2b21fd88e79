-- ===== src/Samples/Wheels.antt =====
-- A timer wheel with one slot and a resolution, which hands out all its ports at the next tick.
use proxyengine.Base.{
  ℕ, zero, suc, ◌*◌, ◌%◌, ◌≡◌, ◌≢◌, ◌<◌, refl, ap, inl, Option, none, some, List, [], ◌∷◌, ◌++◌,
  map, arith, length, get_elem?, set, contains, true, false,
}
use proxyengine.Base.Words.{u16_mod}
use proxyengine.External.{TimerWheel, AllU16}

abbrev pub loaded : List ℕ × ℕ
loaded = (4000 ∷ [], 10)

abbrev pub u16s : List ℕ → List ℕ
u16s = map (λ p. p % u16_mod)

-- The place (0, i) holds the port `i` of the list, in u16.
abbrev pub at : List ℕ → ℕ × ℕ → Option ℕ
at w (zero, i) = get_elem? (u16s w) i
at w (suc s, i) = none

pub u16s-AllU16 : (w : List ℕ) → AllU16 (u16s w)
u16s-AllU16 [] = _
u16s-AllU16 (p ∷ w) = (omega arith, u16s-AllU16 w)

pub ticks_once : (w : List ℕ) → false ≡ true → 0 < 0
ticks_once w h = cc

past_end : (w : List ℕ) → get_elem? (u16s w) (length w) ≡ none
past_end [] = refl
past_end (p ∷ w) = past_end w

pub at_end : (w : List ℕ) → at w (0, length w) ≡ none
at_end w = past_end w

pushed : (w : List ℕ) (p : ℕ) → p < u16_mod → get_elem? (u16s (w ++ p ∷ [])) (length w) ≡ some p
pushed [] p h = ap some (omega arith)
pushed (q ∷ w) p h = pushed w p h

pushed_others :
    (w : List ℕ) (p i : ℕ) → length w ≢ i → get_elem? (u16s (w ++ p ∷ [])) i ≡ get_elem? (u16s w) i
pushed_others [] p zero h = absurd (h refl)
pushed_others [] p (suc i) h = refl
pushed_others (q ∷ w) p zero h = refl
pushed_others (q ∷ w) p (suc i) h = pushed_others w p i (λ e. h (ap suc e))

pub at-push : (w : List ℕ) (p : ℕ) → p < u16_mod → at (w ++ p ∷ []) (0, length w) ≡ some p
at-push w p h = pushed w p h

pub at-push_others :
    (w : List ℕ) (p : ℕ) (j : ℕ × ℕ) → (0, length w) ≢ j → at (w ++ p ∷ []) j ≡ at w j
at-push_others w p (zero, i) h = pushed_others w p i (λ e. h (ap (λ (k : ℕ). (0, k)) e))
at-push_others w p (suc s, i) h = refl

u16s-set : (w : List ℕ) (i j v : ℕ) → i ≢ j → get_elem? (u16s (set w i v)) j ≡ get_elem? (u16s w) j
u16s-set [] i j v h = refl
u16s-set (x ∷ w) zero zero v h = absurd (h refl)
u16s-set (x ∷ w) zero (suc j) v h = refl
u16s-set (x ∷ w) (suc i) zero v h = refl
u16s-set (x ∷ w) (suc i) (suc j) v h = u16s-set w i j v (λ e. h (ap suc e))

abbrev pub overwrite : List ℕ → ℕ × ℕ → ℕ → List ℕ
overwrite w (zero, i) v = set w i v
overwrite w (suc s, i) v = w

pub at-overwrite : (w : List ℕ) (i j : ℕ × ℕ) (v : ℕ) → i ≢ j → at (overwrite w i v) j ≡ at w j
at-overwrite w (zero, i) (zero, j) v h = u16s-set w i j v (λ e. h (ap (λ (k : ℕ). (0, k)) e))
at-overwrite w (zero, i) (suc t, j) v h = refl
at-overwrite w (suc s, i) j v h = refl

listed : (w : List ℕ) (i p : ℕ) → get_elem? (u16s w) i ≡ some p → contains (u16s w) p ≡ true
listed [] i p e = cc
listed (q ∷ w) zero p e = ground arith
listed (q ∷ w) (suc i) p e = ground (arith, listed w i p e)

pub at-listed : (w : List ℕ) (j : ℕ × ℕ) (p : ℕ) → at w j ≡ some p → contains (u16s w) p ≡ true
at-listed w (zero, i) p e = listed w i p e
at-listed w (suc s, i) p e = cc

instance abbrev pub wheel : TimerWheel
wheel = record {
  Wheel = List ℕ × ℕ;
  wheel_new = λ _ cycles _. ([], cycles);
  resolution = λ w. w.1;
  get_max_timeout_cycles = λ w. 1000 * w.1;
  new_resolution = λ _ _ _. refl;
  schedule = λ w _ p. ((0, length w.0), (w.0 ++ p ∷ [], w.1));
  replace = λ w i v. (at w.0 i, (overwrite w.0 i v, w.1));
  tick = λ w _. (some (u16s w.0), false, ([], w.1));
  due = λ _ _. 0;
  tick_ends = λ w now h. ticks_once w.0 h;
  tick_ports = λ w now. u16s-AllU16 w.0;
  entry = λ w i. at w.0 i;
  replace_entry = λ _ _ _. refl;
  replace_others = λ w i j v h. at-overwrite w.0 i j v h;
  schedule_free = λ w t p. at_end w.0;
  schedule_entry = λ w t p h. at-push w.0 p h;
  schedule_others = λ w t p j h. at-push_others w.0 p j h;
  tick_entries = λ w now j p e. inl (at-listed w.0 j p e);
}
