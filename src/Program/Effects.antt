-- ===== src/Program/Effects.antt =====
-- bin.rs: what `main` and `write_and_evaluate_records` do to the world around them, as a list of
-- acts in their order. A panic keeps the acts that came before it.
use proxyengine.Base.{ℕ, ◌≡◌, refl, Bool, true, false, List, [], ◌∷◌, ◌++◌, Result, ok, panic}
use proxyengine.Packet.{Endpoint}
use proxyengine.Config.{EngineConfig}
use proxyengine.Forward.{FnSelectServer, FnPayload}
use proxyengine.Record.{Extension}
use proxyengine.Program.Records.{ConData}

-- netfcts::comm::MessageFrom, as far as `main` sends it.
pub data MessageFrom : Type 0 where
  start_engine : MessageFrom
  print_performance : List ℕ → MessageFrom
  fetch_counter fetch_c_records exit : MessageFrom

module _ ⦃C : ConData⦄ where
  open C use {Rec}

  -- What is written to the file of the connection records: a pipeline's heading, the numbered line
  -- of a client's record, and that of the server's.
  pub data Line : Type 0 where
    heading : ℕ → Line
    line_c : ℕ → Rec → Line
    line_s : Extension → Line

  -- Pipelines are installed on the cores with the targets and the callbacks; `used_cycles` is the
  -- report of a pipeline's total and its share per connection.
  pub data Act : Type 0 where
    installed : EngineConfig → List Endpoint → FnSelectServer → FnPayload → Act
    started : Act
    sent : MessageFrom → Act
    slept : ℕ → Act
    available_mbufs : Act
    completed_connections : ℕ → ℕ → Act
    wrote : Line → Act
    used_cycles : ℕ → ℕ → Act

  -- A statement: its acts, and its value or a panic.
  abbrev pub Program : Type 0 → Type 0
  Program A = List Act × Result A

  abbrev pub pure : {A : Type 0} → A → Program A
  pure a = ([], ok a)

  abbrev pub act : Act → Program (Unit {0})
  act a = (a ∷ [], ok tt)

  abbrev pub lift : {A : Type 0} → Result A → Program A
  lift r = ([], r)

  -- `expect`, and `unwrap`, of a call of another crate that may fail.
  abbrev pub expect : Bool → Program (Unit {0})
  expect true = pure tt
  expect false = ([], panic)

  infixl 5 ◌>>=◌ ◌>>◌
  unfoldable pub ◌>>=◌ : {A B : Type 0} → Program A → (A → Program B) → Program B
  (acts, panic) >>= next = (acts, panic)
  (acts, ok a) >>= next = let (more, r) = next a in (acts ++ more, r)

  abbrev pub ◌>>◌ : {A B : Type 0} → Program A → Program B → Program B
  m >> next = m >>= λ _. next

  -- What runs through leaves the acts of its parts, one after the other.
  pub bind_lem :
      {A B : Type 0} {m : Program A} {a : A} (next : A → Program B) {before after : List Act}
      {r : Result B}
      → m ≡ (before, ok a)
      → next a ≡ (after, r)
      → (m >>= next) ≡ (before ++ after, r)
  unfolding ◌>>=◌
  bind_lem next e f = rw (e, f) refl

  pub expect_lem : {b : Bool} → b ≡ true → expect b ≡ ([], ok tt)
  expect_lem e = rw e refl
