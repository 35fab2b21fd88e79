-- ===== src/Program/Records.antt =====
-- bin.rs, `write_and_evaluate_records`: how many connections were completed, and what cycles they
-- took. The lines that go to the file are in File.
pub mod Order
pub mod Spans
use proxyengine.Base.{
  ℕ, zero, suc, ◌+◌, ◌-◌, ◌/◌, ◌<◌, ◌≤◌, ◌≡◌, Bool, true, false, ◌&&◌, ◌||◌, Option, none, some,
  List, [], ◌∷◌, ltb, length, if◌then◌else◌, Result, ok, panic, ◌>>=◌, unwrap,
}
use proxyengine.Base.Words.{u64_mod}
use proxyengine.Tcp.{
  TcpState, closed, state_eq, ReleaseCause, unknown, timeout, passive_close, active_close,
  active_rst,
}
use proxyengine.Start.{or_else, divide}

abbrev pub last {ℓ} : {A : Type ℓ} → List A → Option A
last [] = none
last (x ∷ []) = some x
last (x ∷ y ∷ ys) = last (y ∷ ys)

-- A ConRecord, through the traits HasTcpState and HasConData (netfcts::conrecord): the last state
-- that a record shows is its last; a record with a
-- first stamp has a last one too, no less than it and below the greatest u64.
pub record ConData : Type 1 where
  pub Rec : Type 0
  pub release_cause : Rec → ReleaseCause
  pub states : Rec → List TcpState
  pub last_state : Rec → TcpState
  pub get_first_stamp : Rec → Option ℕ
  pub get_last_stamp : Rec → Option ℕ
  pub last_states : (r : Rec) → last (states r) ≡ some (last_state r)
  pub stamps :
      (r : Rec) (f : ℕ)
      → get_first_stamp r ≡ some f
      → (l : ℕ) × (get_last_stamp r ≡ some l) × (f ≤ l) × (l < u64_mod - 1)

-- Whether both sides had closed the connection.
abbrev pub closes : ReleaseCause → Bool
closes passive_close = true
closes active_close = true
closes _ = false

abbrev pub is_completed : ReleaseCause → TcpState → Bool
is_completed cause state = closes cause && state_eq state closed

module _ ⦃C : ConData⦄ where
  open C use {Rec}

  -- The count over all records, by `last_state`.
  unfoldable pub completed_count : List Rec → ℕ
  completed_count [] = 0
  completed_count (c ∷ cs) =
      (if is_completed (C.release_cause c) (C.last_state c) then 1 else 0) + completed_count cs

  -- The variables of the loop over one pipeline's records.
  pub record Evaluation : Type 0 where
    pub completed : ℕ
    pub min : Rec
    pub max : Rec

  abbrev pub first_of : Rec → ℕ
  first_of r = or_else (u64_mod - 1) (C.get_first_stamp r)

  abbrev pub last_of : Rec → ℕ
  last_of r = or_else 0 (C.get_last_stamp r)

  -- The loop's own count, by the last of `states`, which is read if the cause is one of the two.
  abbrev pub completed_by : Rec → ℕ → Result ℕ
  completed_by c n =
      if closes (C.release_cause c)
      then (do state ← unwrap (last (C.states c)); ok (if state_eq state closed then n + 1 else n))
      else ok n

  -- The body of the loop.
  abbrev pub evaluate_record : Rec → Evaluation → Result Evaluation
  evaluate_record c e = do
    completed ← completed_by c e.completed
    ok (record {
      completed = completed;
      min = (if ltb (first_of c) (first_of e.min) then c else e.min);
      max = (if ltb (last_of e.max) (last_of c) then c else e.max);
    })

  abbrev pub evaluate : List Rec → Evaluation → Result Evaluation
  evaluate [] e = ok e
  evaluate (c ∷ cs) e = do next ← evaluate_record c e; evaluate cs next

  -- The total of the used cycles, and what it is per connection, once all `n` records are seen. The
  -- difference is a u64: below 0 it panics.
  abbrev pub total : ℕ → Evaluation → Result (Option (ℕ × ℕ))
  total n e = elim (C.get_first_stamp e.min) [
    | none ↦ ok none
    | some start ↦ elim (C.get_last_stamp e.max) [
      | none ↦ ok none
      | some end ↦
          if ltb end start
          then panic
          else (do each ← divide (end - start) n; ok (some (end - start, each)))
    ]
  ]

  -- One pipeline's records: `sort_0_by` is the store's, by the client's port.
  unfoldable pub evaluate_records : (List Rec → List Rec) → List Rec → Result (ℕ × Option (ℕ × ℕ))
  evaluate_records sort_0_by [] = ok (0, none)
  evaluate_records sort_0_by (c ∷ cs) = do
    start ← unwrap (last (c ∷ cs))
    let sorted = sort_0_by (c ∷ cs)
    e ← evaluate sorted (record { completed = 0; min = start; max = start })
    cycles ← total (length (c ∷ cs)) e
    ok (e.completed, cycles)
