-- ===== src/Program/Records/Spans.antt =====
-- What `write_and_evaluate_records` says of one pipeline's records.
use mathlib.Core.List.{Permᴰ, Memᴰ}
use proxyengine.Base.{
  ℕ, suc, ◌+◌, ◌-◌, ◌/◌, ◌≤◌, ◌≡◌, refl, sym, ap, ◌∙◌, subst, ◌⊎◌, inl, inr, Option, none, some,
  List, [], ◌∷◌, arith, le→ltb_not, length, ok,
}
use proxyengine.Base.Words.{u64_mod}
use proxyengine.Program.Records.{
  ConData, last, completed_count, Evaluation, first_of, last_of, evaluate, total, evaluate_records,
}
use proxyengine.Program.Records.Order.{
  last-Mem, Perm-Mem, completed_count-Perm, Loops, evaluate-Loops,
}

module _ ⦃C : ConData⦄ where
  open C use {Rec}

  -- `cycles` are those from the earliest first stamp of the records to the latest last one.
  pub record Spans (cs : List Rec) (cycles : ℕ) : Type 0 where
    pub start : ℕ
    pub end : ℕ
    pub from : Rec
    pub until : Rec
    pub ordered : start ≤ end
    pub cycles_lem : cycles ≡ end - start
    pub starts : Memᴰ from cs × (C.get_first_stamp from ≡ some start)
    pub ends : Memᴰ until cs × (C.get_last_stamp until ≡ some end)
    pub earliest : (c : Rec) (f : ℕ) → Memᴰ c cs → C.get_first_stamp c ≡ some f → start ≤ f
    pub latest : (c : Rec) (l : ℕ) → Memᴰ c cs → C.get_last_stamp c ≡ some l → l ≤ end

  first_is : (r : Rec) (f : ℕ) → C.get_first_stamp r ≡ some f → first_of r ≡ f
  first_is r f e = rw e refl

  last_is : (r : Rec) (l : ℕ) → C.get_last_stamp r ≡ some l → last_of r ≡ l
  last_is r l e = rw e refl

  -- A record's time is not reported, or it is the one of `Spans`, per connection too.
  pub data Reported (cs : List Rec) : Option (ℕ × ℕ) → Type 0 where
    unreported :
        ((c : Rec) (f l : ℕ)
          → Memᴰ c cs
          → C.get_first_stamp c ≡ some f
          → C.get_last_stamp c ≡ some l
          → l ≡ 0)
        → Reported cs none
    reported :
        (cycles each : ℕ)
        → Spans cs cycles
        → each ≡ cycles / length cs
        → Reported cs (some (cycles, each))

  -- `e` has the records with the earliest and the latest stamp.
  pub record Finds (cs : List Rec) (e : Evaluation) : Type 0 where
    pub min_in : Memᴰ e.min cs
    pub max_in : Memᴰ e.max cs
    pub lowest : (c : Rec) → Memᴰ c cs → first_of e.min ≤ first_of c
    pub highest : (c : Rec) → Memᴰ c cs → last_of c ≤ last_of e.max

  module _ (x : Rec) (xs : List Rec) (e : Evaluation) (found : Finds (x ∷ xs) e) where
    abbrev cs : List Rec
    cs = x ∷ xs

    in_order :
        (f l : ℕ) → C.get_first_stamp e.min ≡ some f → C.get_last_stamp e.max ≡ some l → f ≤ l
    in_order f l at_min at_max =
        let (l', its_last, le, _) = C.stamps e.min f at_min in
        omega (
          arith,
          le,
          found.highest e.min found.min_in,
          last_is e.min l' its_last,
          last_is e.max l at_max,
        )

    spans :
        (f l : ℕ)
        → C.get_first_stamp e.min ≡ some f
        → C.get_last_stamp e.max ≡ some l
        → Spans cs (l - f)
    spans f l at_min at_max = record {
      start = f;
      end = l;
      from = e.min;
      until = e.max;
      ordered = in_order f l at_min at_max;
      cycles_lem = refl;
      starts = (found.min_in, at_min);
      ends = (found.max_in, at_max);
      earliest =
          λ c g m has. omega (arith, found.lowest c m, first_is c g has, first_is e.min f at_min);
      latest =
          λ c k m has. omega (arith, found.highest c m, last_is c k has, last_is e.max l at_max);
    }

    total-Reported :
        (f l : Option ℕ)
        → C.get_first_stamp e.min ≡ f
        → C.get_last_stamp e.max ≡ l
        → (o : Option (ℕ × ℕ)) × (total (length cs) e ≡ ok o) × Reported cs o
    total-Reported none l at_min at_max = (
      none,
      rw (at_min, total) refl,
      unreported (λ c f k m has ends.
          let (k', its_last, le, small) = C.stamps c f has in
          let low = found.lowest c m in
          let over : first_of e.min ≡ u64_mod - 1 = rw at_min refl in
          absurd (omega (arith, low, over, first_is c f has, le, small))),
    )
    total-Reported (some f) none at_min at_max = (
      none,
      rw (at_min, total) (rw at_max refl),
      unreported (λ c g k m has ends.
          let over : last_of e.max ≡ 0 = rw at_max refl in
          omega (arith, found.highest c m, last_is c k ends, over)),
    )
    total-Reported (some f) (some l) at_min at_max =
        let s = spans f l at_min at_max in
        (
          some (l - f, (l - f) / suc (length xs)),
          rw (at_min, total) (rw at_max (rw (le→ltb_not l f (in_order f l at_min at_max)) refl)),
          reported (l - f) ((l - f) / suc (length xs)) s refl,
        )

  Loops-Finds :
      (x : Rec) (xs sorted : List Rec) (start : Rec) (e : Evaluation)
      → Permᴰ sorted (x ∷ xs)
      → Permᴰ (x ∷ xs) sorted
      → Memᴰ start (x ∷ xs)
      → Loops sorted (record { completed = 0; min = start; max = start }) e
      → Finds (x ∷ xs) e
  Loops-Finds x xs sorted start e p q m l = record {
    min_in = within e.min l.min_in;
    max_in = within e.max l.max_in;
    lowest = λ c there. l.lowest c (Perm-Mem q c there);
    highest = λ c there. l.highest c (Perm-Mem q c there);
  }
    where
      within : (r : Rec) → Memᴰ r sorted ⊎ (r ≡ start) → Memᴰ r (x ∷ xs)
      within r (inl s) = Perm-Mem p r s
      within r (inr same) = subst (λ k. Memᴰ k (x ∷ xs)) (sym same) m

  -- The loop over the records in any order, from the last one on, and the report behind it.
  pub sorted-Reported :
      (x : Rec) (xs sorted : List Rec)
      → Permᴰ sorted (x ∷ xs)
      → Permᴰ (x ∷ xs) sorted
      → (start : Rec) × (e : Evaluation) × (o : Option (ℕ × ℕ)) × (last (x ∷ xs) ≡ some start)
        × (evaluate sorted (record { completed = 0; min = start; max = start }) ≡ ok e)
        × (e.completed ≡ completed_count (x ∷ xs))
        × (total (length (x ∷ xs)) e ≡ ok o)
        × Reported (x ∷ xs) o
  sorted-Reported x xs sorted p q =
      let (start, found, m) = last-Mem x xs in
      let (e, ran, l) =
        evaluate-Loops sorted (record { completed = 0; min = start; max = start }) in
      let (o, counted, report) =
        total-Reported x xs e (Loops-Finds x xs sorted start e p q m l) (C.get_first_stamp e.min)
          (C.get_last_stamp e.max) refl refl in
      (start, e, o, found, ran, l.counted ∙ plus_zero _ ∙ completed_count-Perm p, counted, report)
    where
      plus_zero : (n : ℕ) → n + 0 ≡ n
      plus_zero n = omega arith

  -- The evaluation of one pipeline's records, in whatever order the store sorts them, panics
  -- nowhere: it counts the completed connections, and reports the cycles from the earliest first
  -- stamp to the latest last one, and those per connection; none are reported only if no record
  -- with a first stamp has a last stamp above 0.
  pub evaluate_records-Reported :
      (sort_0_by : List Rec → List Rec) (cs : List Rec)
      → ((rs : List Rec) → Permᴰ (sort_0_by rs) rs × Permᴰ rs (sort_0_by rs))
      → (o : Option (ℕ × ℕ)) × (evaluate_records sort_0_by cs ≡ ok (completed_count cs, o))
        × Reported cs o
  unfolding evaluate_records completed_count
  evaluate_records-Reported sort_0_by [] sorts = (none, refl, unreported (λ c f l m. elim m [ ]))
  evaluate_records-Reported sort_0_by (x ∷ xs) sorts =
      let (p, q) = sorts (x ∷ xs) in
      let (start, e, o, found, ran, same, counted, report) =
        sorted-Reported x xs (sort_0_by (x ∷ xs)) p q in
      (o, rw found (rw ran (rw counted (ap (λ (n : ℕ). ok (n, o)) same))), report)
