-- ===== src/Program/File.antt =====
-- bin.rs, `write_and_evaluate_records`: the counts of completed connections, the file of the
-- records, and the evaluation of each pipeline's records beside it.
--
-- A Store64 is here the list of its pairs; a HashMap is walked in the order of `con_records`.
pub mod Shut
pub mod Sections
use proxyengine.Base.{
  ℕ, zero, suc, ◌+◌, ◌-◌, Bool, true, false, ◌&&◌, Option, none, some, List, [], ◌∷◌, map, length,
  ◌==◌, if◌then◌else◌, Result, ok, panic,
}
use proxyengine.Base as Base
use proxyengine.Tcp.{closed, state_eq}
use proxyengine.Record.{Extension, last_state}
use proxyengine.Program.Records.{
  ConData, last, closes, completed_count, Evaluation, evaluate_record, total,
}
use proxyengine.Program.Effects.{
  Line, heading, line_c, line_s, Program, completed_connections, wrote, used_cycles, pure, act,
  lift, expect, ◌>>=◌, ◌>>◌,
}

-- The second count, over the server halves; `last_state` is read if the cause is one of the two.
abbrev completed_s : Extension → Result ℕ
completed_s e =
    if closes e.s_release_cause
    then Base.◌>>=◌ (last_state e) (λ state. ok (if state_eq state closed then 1 else 0))
    else ok 0

unfoldable pub completed_count_s : List Extension → Result ℕ
completed_count_s [] = ok 0
completed_count_s (e ∷ es) =
    Base.◌>>=◌ (completed_s e) (λ n. Base.◌>>=◌ (completed_count_s es) (λ rest. ok (n + rest)))

-- Whether the file can be created, written to and flushed.
pub record File ⦃C : ConData⦄ : Type 0 where
  pub create : Bool
  pub write_all : Line → Bool
  pub flush : Bool

module _ ⦃C : ConData⦄ where
  open C use {Rec}

  abbrev pub Pairs : Type 0
  Pairs = List (Rec × Extension)

  abbrev pub clients : Pairs → List Rec
  clients = map λ p. p.0

  abbrev pub servers : Pairs → List Extension
  servers = map λ p. p.1

  -- The sum over the pipelines.
  unfoldable pub completed_counts : List (ℕ × Pairs) → Result (ℕ × ℕ)
  completed_counts [] = ok (0, 0)
  completed_counts ((_, c_records) ∷ rest) =
      Base.◌>>=◌ (completed_count_s (servers c_records)) (λ s.
        Base.◌>>=◌ (completed_counts rest)
          (λ sums. ok (completed_count (clients c_records) + sums.0, s + sums.1)))

  module _ (f : File) where
    abbrev pub write : Line → Program (Unit {0})
    write line = expect (f.write_all line) >> act (wrote line)

    abbrev pub report : Option (ℕ × ℕ) → Program (Unit {0})
    report none = pure tt
    report (some (cycles, each)) = act (used_cycles cycles each)

    -- The body of the loop over the sorted pairs, for the `i`-th of `n`; behind the last one the
    -- cycles are reported.
    unfoldable pub write_pair : ℕ → ℕ → Rec × Extension → Evaluation → Program Evaluation
    write_pair n i (c, s) e = do
      write (line_c i c)
      write (line_s s)
      next ← lift (evaluate_record c e)
      (if i == n - 1 then (lift (total (i + 1) next) >>= report) else pure tt)
      pure next

    unfoldable pub write_pairs : ℕ → ℕ → Pairs → Evaluation → Program (Unit {0})
    write_pairs n i [] e = pure tt
    write_pairs n i (pair ∷ pairs) e = do
      next ← write_pair n i pair e
      write_pairs n (i + 1) pairs next

    -- One pipeline: `sort_0_by` is the store's, by the client's port.
    unfoldable pub write_pipeline : (Pairs → Pairs) → ℕ → Pairs → Program (Unit {0})
    write_pipeline sort_0_by p [] = write (heading p)
    write_pipeline sort_0_by p (pair ∷ pairs) = do
      write (heading p)
      start ← lift (Base.unwrap (last (clients (pair ∷ pairs))))
      write_pairs (length (pair ∷ pairs)) 0 (sort_0_by (pair ∷ pairs))
          (record { completed = 0; min = start; max = start })

    unfoldable pub write_pipelines : (Pairs → Pairs) → List (ℕ × Pairs) → Program (Unit {0})
    write_pipelines sort_0_by [] = pure tt
    write_pipelines sort_0_by ((p, c_records) ∷ rest) =
        write_pipeline sort_0_by p c_records >> write_pipelines sort_0_by rest

    unfoldable pub write_and_evaluate_records :
        (Pairs → Pairs) → List (ℕ × Pairs) → Program (Unit {0})
    write_and_evaluate_records sort_0_by con_records = do
      counts ← lift (completed_counts con_records)
      act (completed_connections counts.0 counts.1)
      expect f.create
      write_pipelines sort_0_by con_records
      expect f.flush
