-- ===== src/Record/Laws.antt =====
-- What an `Extension` holds after a run of pushes.
use native.Mathlib.Decide.{dec_lt}
use native.Mathlib.Numerals.{add-one}
use mathlib.Core.List.{append-nil, append_assoc}
use proxyengine.Base.{
  ℕ, suc, ◌+◌, ◌<◌, ◌≤◌, ◌≡◌, ◌⊎◌, inl, inr, refl, sym, ap, ◌∙◌, some, List, [], ◌∷◌, ◌++◌, map,
  arith, lt→ltb, length, get_elem?, set, take, length-set, get_elem?-set_self, Result, ok, panic,
  ◌>>=◌, zero,
}
use proxyengine.Tcp.{TcpState, listen}
use proxyengine.Record.{
  Extension, capacity, new, stamp, push_state, init, states, deltas_to_base_stamp,
}

-- The arrays have their seven places, and the count stays within them.
pub record IsValid (e : Extension) : Type 0 where
  pub state_places : length e.s_state ≡ capacity
  pub stamp_places : length e.s_stamps ≡ capacity
  pub counted : e.s_state_count ≤ capacity

zero_or_suc : (n : ℕ) → (n ≡ 0) ⊎ ((k : ℕ) × (n ≡ suc k))
zero_or_suc zero = inl refl
zero_or_suc (suc k) = inr (k, refl)

take-set {ℓ} :
    {A : Type ℓ} (xs : List A) (n : ℕ) (v : A)
    → n < length xs
    → take (suc n) (set xs n v) ≡ take n xs ++ v ∷ []
take-set [] n v h = elim h [ ]
take-set (x ∷ xs) zero v h = refl
take-set (x ∷ xs) (suc n) v h = ap (◌∷◌ x) (take-set xs n v (omega arith))

-- `push_state` over a list of readings and states, first to last.
pub push_all : ℕ → ℕ → Extension → List (ℕ × TcpState) → Result Extension
push_all factor base e [] = ok e
push_all factor base e ((tsc, s) ∷ rest) =
    push_state factor base tsc e s >>= λ e'. push_all factor base e' rest

-- One push as a fact about the two arrays: within the room it succeeds, and both grow by one.
pub push_state-ok :
    (factor base tsc : ℕ) (e : Extension) (s : TcpState)
    → IsValid e
    → e.s_state_count < capacity
    → (e' : Extension) × (push_state factor base tsc e s ≡ ok e')
      × IsValid e'
      × (e'.s_state_count ≡ suc e.s_state_count)
      × (take e'.s_state_count e'.s_state ≡ take e.s_state_count e.s_state ++ s ∷ [])
      × (take e'.s_state_count e'.s_stamps
          ≡ take e.s_state_count e.s_stamps ++ stamp factor base tsc ∷ [])
      × (get_elem? e'.s_state e.s_state_count ≡ some s)
unfolding push_state
push_state-ok factor base tsc e s v room = (
  record e {
    s_state = set e.s_state e.s_state_count s;
    s_stamps = set e.s_stamps e.s_state_count (stamp factor base tsc);
    s_state_count = e.s_state_count + 1;
  },
  rw (lt→ltb _ _ room),
  record {
    state_places = length-set e.s_state e.s_state_count s ∙ v.state_places;
    stamp_places = length-set e.s_stamps e.s_state_count _ ∙ v.stamp_places;
    counted = omega arith;
  },
  omega arith,
  rw add-one (take-set e.s_state e.s_state_count s (omega (arith, v.state_places))),
  rw add-one (take-set e.s_stamps e.s_state_count _ (omega (arith, v.stamp_places))),
  get_elem?-set_self e.s_state e.s_state_count s (omega (arith, v.state_places)),
)

push_state_full :
    (factor base tsc : ℕ) (e : Extension) (s : TcpState)
    → e.s_state_count ≡ capacity
    → push_state factor base tsc e s ≡ panic
unfolding push_state
push_state_full factor base tsc e s full = ground arith

pub new-IsValid : IsValid new
unfolding new
new-IsValid = record { state_places = refl; stamp_places = refl; counted = omega arith }

init-IsValid : (e : Extension) → IsValid e → IsValid (init e)
unfolding init
init-IsValid e v = record {
  state_places = v.state_places;
  stamp_places = v.stamp_places;
  counted = omega arith;
}

abbrev pub stamps : ℕ → ℕ → List (ℕ × TcpState) → List ℕ
stamps factor base = map λ p. stamp factor base p.0

push_all_arrays :
    (factor base : ℕ) (ps : List (ℕ × TcpState)) (e : Extension)
    → IsValid e
    → e.s_state_count + length ps ≤ capacity
    → (e' : Extension) × (push_all factor base e ps ≡ ok e')
      × IsValid e'
      × (e'.s_state_count ≡ e.s_state_count + length ps)
      × (take e'.s_state_count e'.s_state ≡ take e.s_state_count e.s_state ++ map (λ p. p.1) ps)
      × (take e'.s_state_count e'.s_stamps
          ≡ take e.s_state_count e.s_stamps ++ stamps factor base ps)
unfolding push_all
push_all_arrays factor base [] e v room =
    (e, refl, v, omega arith, sym (append-nil _), sym (append-nil _))
push_all_arrays factor base ((tsc, s) ∷ ps) e v room =
    let (e₁, pushed, v₁, count, grown, stamped, _) =
      push_state-ok factor base tsc e s v (omega arith) in
    let (e₂, rest, v₂, count₂, grown₂, stamped₂) =
      push_all_arrays factor base ps e₁ v₁ (omega (arith, count)) in
    (
      e₂,
      rw pushed rest,
      v₂,
      omega (arith, count, count₂),
      grown₂
          ∙ rw grown (append_assoc (take e.s_state_count e.s_state) (s ∷ []) (map (λ p. p.1) ps)),
      stamped₂
          ∙ rw stamped (
              append_assoc (take e.s_state_count e.s_stamps) (stamp factor base tsc ∷ [])
                (stamps factor base ps)),
    )

deltas-take : (e : Extension) → deltas_to_base_stamp e ≡ take e.s_state_count e.s_stamps
unfolding deltas_to_base_stamp
deltas-take e = elim (zero_or_suc e.s_state_count) [
  | inl z ↦ rw (z, deltas_to_base_stamp)
  | inr (n, p) ↦ rw (p, deltas_to_base_stamp) (rw (lt→ltb 0 (suc n) (omega arith)))
]

-- After init, up to seven pushes to a valid record succeed, and the record then shows Listen and
-- the pushed states in their order, with the stamps of their readings.
pub push_all-states :
    (factor base : ℕ) (ps : List (ℕ × TcpState)) (e : Extension)
    → IsValid e
    → length ps ≤ capacity
    → (e' : Extension) × (push_all factor base (init e) ps ≡ ok e')
      × IsValid e'
      × (states e' ≡ listen ∷ map (λ p. p.1) ps)
      × (deltas_to_base_stamp e' ≡ stamps factor base ps)
unfolding init states
push_all-states factor base ps e v room =
    let (e', pushed, v', count, grown, stamped) =
      push_all_arrays factor base ps (init e) (init-IsValid e v) (omega arith) in
    (e', pushed, v', ap (◌∷◌ listen) grown, deltas-take e' ∙ stamped)

-- A run of pushes to a valid record that would pass seven states panics.
pub push_all_overflow :
    (factor base : ℕ) (ps : List (ℕ × TcpState)) (e : Extension)
    → IsValid e
    → capacity < e.s_state_count + length ps
    → push_all factor base e ps ≡ panic
unfolding push_all
push_all_overflow factor base [] e v over = absurd (omega (arith, v.counted))
push_all_overflow factor base ((tsc, s) ∷ ps) e v over = elim (dec_lt e.s_state_count capacity) [
  | yes room ↦
      let (e₁, pushed, v₁, count, _, _, _) = push_state-ok factor base tsc e s v room in
      rw pushed (push_all_overflow factor base ps e₁ v₁ (omega (arith, count)))
  | no full ↦ rw (push_state_full factor base tsc e s (omega (arith, v.counted)))
]
