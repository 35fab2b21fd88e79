-- ===== src/Program/File/Shut.antt =====
-- The counts of completed connections, on the client side and on the server side.
use proxyengine.Base.{
  ℕ, zero, suc, ◌+◌, ◌-◌, ◌<◌, ◌≤◌, ◌≡◌, refl, sym, subst, ap, ◌∙◌, Bool, Bool-cases, inl, inr,
  true, false, ◌&&◌, Option, none, some, List, [], ◌∷◌, ◌++◌, map, length, take, get_elem?, ◌==◌,
  if◌then◌else◌, Result, ok, panic, arith,
}
use proxyengine.Base as Base
use proxyengine.Tcp.{TcpState, closed, listen, state_eq}
use proxyengine.Record.{Extension, last_state, states}
use proxyengine.Record.Laws.{IsValid}
use proxyengine.Program.Records.{ConData, last, closes, completed_count}
use proxyengine.Program.File.{Pairs, clients, servers, completed_count_s, completed_counts}

-- A server's record shows that its connection was completed: the cause, and its last state.
abbrev ends_closed : Option TcpState → Bool
ends_closed none = false
ends_closed (some state) = state_eq state closed

abbrev pub is_shut : Extension → Bool
is_shut e = closes e.s_release_cause && ends_closed (last (states e))

abbrev pub shut_count : List Extension → ℕ
shut_count [] = 0
shut_count (e ∷ es) = (if is_shut e then 1 else 0) + shut_count es

last-take {ℓ} :
    {A : Type ℓ} (d : A) (xs : List A) (k : ℕ)
    → k < length xs
    → (a : A) × (get_elem? xs k ≡ some a) × (last (d ∷ take (suc k) xs) ≡ some a)
last-take d [] k h = elim h [ ]
last-take d (x ∷ xs) zero h = (x, refl, refl)
last-take d (x ∷ []) (suc k) h = absurd (omega arith)
last-take d (x ∷ y ∷ xs) (suc k) h = last-take x (y ∷ xs) k (omega arith)

-- The state that `last_state` reads is the last one that the record shows.
last_of_states :
    (n : ℕ) (xs : List TcpState)
    → n ≤ length xs
    → (state : TcpState) × ((if n == 0 then ok listen else Base.unwrap (get_elem? xs (n - 1)))
        ≡ ok state)
      × (last (listen ∷ take n xs) ≡ some state)
last_of_states zero xs h = (listen, refl, refl)
last_of_states (suc k) xs h =
    let (state, at, is_last) = last-take listen xs k (omega arith) in
    (state, ground (arith, at), is_last)

last_state-last :
    (e : Extension)
    → IsValid e
    → (state : TcpState) × (last_state e ≡ ok state) × (last (states e) ≡ some state)
unfolding last_state states
last_state-last e v =
    last_of_states e.s_state_count e.s_state (omega (arith, v.counted, v.state_places))

abbrev pub AllValid : List Extension → Type 0
AllValid [] = Unit {0}
AllValid (e ∷ es) = IsValid e × AllValid es

completed_count_s-shut :
    (es : List Extension) → AllValid es → completed_count_s es ≡ ok (shut_count es)
unfolding completed_count_s
completed_count_s-shut [] vs = refl
completed_count_s-shut (e ∷ es) vs =
    let (state, read, shown) = last_state-last e vs.0 in
    elim (Bool-cases (closes e.s_release_cause)) [
      | inl both ↦ rw (both, read, shown, completed_count_s-shut es vs.1) refl
      | inr other ↦ rw (other, completed_count_s-shut es vs.1) refl
    ]

module _ ⦃C : ConData⦄ where
  open C use {Rec}

  abbrev pub counts : List (ℕ × Pairs) → ℕ × ℕ
  counts [] = (0, 0)
  counts ((_, pairs) ∷ rest) =
      let sums = counts rest in
      (completed_count (clients pairs) + sums.0, shut_count (servers pairs) + sums.1)

  abbrev pub Sound : List (ℕ × Pairs) → Type 0
  Sound [] = Unit {0}
  Sound ((_, pairs) ∷ rest) = AllValid (servers pairs) × Sound rest

  pub completed_counts_lem :
      (rs : List (ℕ × Pairs)) → Sound rs → completed_counts rs ≡ ok (counts rs)
  unfolding completed_counts
  completed_counts_lem [] sound = refl
  completed_counts_lem ((_, pairs) ∷ rest) sound =
      rw (completed_count_s-shut (servers pairs) sound.0)
        (rw (completed_counts_lem rest sound.1) refl)
