-- ===== src/Program/File/Sections.antt =====
-- What `write_and_evaluate_records` leaves in its file and reports.
use mathlib.Core.List.Permᴰ as Perm
use mathlib.Core.List.{Permᴰ, append-nil}
use proxyengine.Base.{
  ℕ, zero, suc, ◌+◌, ◌-◌, ◌<◌, ◌≤◌, ◌≡◌, refl, sym, subst, ap, ◌∙◌, Bool, Bool-cases, inl, inr,
  true, false, ◌&&◌, Option, none, some, List, [], ◌∷◌, ◌++◌, map, length, take, get_elem?, ◌==◌,
  if◌then◌else◌, Result, ok, panic, arith,
}
use proxyengine.Base as Base
use proxyengine.Record.{Extension}
use proxyengine.Program.Records.{ConData, Evaluation, evaluate, evaluate_record, total}
use proxyengine.Program.Records.Spans.{Reported, unreported, sorted-Reported}
use proxyengine.Program.Effects.{
  Line, heading, line_c, line_s, Act, Program, completed_connections, wrote, used_cycles, ◌>>=◌,
  bind_lem, expect_lem,
}
use proxyengine.Program.File.{
  File, Pairs, clients, write, report, write_pair, write_pairs, write_pipeline, write_pipelines,
  write_and_evaluate_records,
}
use proxyengine.Program.File.Shut.{counts, Sound, completed_counts_lem}

Perm-length {ℓ} : {A : Type ℓ} {xs ys : List A} → Permᴰ xs ys → length xs ≡ length ys
Perm-length Permᴰ.nil = refl
Perm-length (Permᴰ.cons e p) = ap suc (Perm-length p)
Perm-length (Permᴰ.swap e f) = refl
Perm-length (Permᴰ.trans p q) = Perm-length p ∙ Perm-length q

nil_of_length {ℓ} : {A : Type ℓ} (xs : List A) → length xs ≡ 0 → xs ≡ []
nil_of_length [] e = refl
nil_of_length (x ∷ xs) e = absurd (omega (arith, e))

length-map {ℓ κ} :
    {A : Type ℓ} {B : Type κ} (g : A → B) (xs : List A) → length (map g xs) ≡ length xs
length-map g [] = refl
length-map g (x ∷ xs) = ap suc (length-map g xs)

module _ ⦃C : ConData⦄ where
  open C use {Rec}

  -- The two lines of each record, numbered from `i` on.
  abbrev pub numbered : ℕ → Pairs → List Act
  numbered i [] = []
  numbered i ((c, s) ∷ rest) = wrote (line_c i c) ∷ wrote (line_s s) ∷ numbered (i + 1) rest

  abbrev pub cycles_of : Option (ℕ × ℕ) → List Act
  cycles_of none = []
  cycles_of (some (cycles, each)) = used_cycles cycles each ∷ []

  -- What is written and reported of one pipeline, whose store lists its records as `sorted`.
  abbrev pub section : ℕ → Pairs → Option (ℕ × ℕ) → List Act
  section p sorted o = wrote (heading p) ∷ numbered 0 sorted ++ cycles_of o

  -- Each pipeline in its turn, with the records sorted and the cycles they took.
  pub data Sections (sort_0_by : Pairs → Pairs) : List (ℕ × Pairs) → List Act → Type 0 where
    done : Sections sort_0_by [] []
    section_then :
        (p : ℕ) (pairs : Pairs) (o : Option (ℕ × ℕ)) {rest : List (ℕ × Pairs)} {acts : List Act}
        → Reported (clients pairs) o
        → Sections sort_0_by rest acts
        → Sections sort_0_by ((p, pairs) ∷ rest) (section p (sort_0_by pairs) o ++ acts)

  module _ (f : File) (writes : (line : Line) → f.write_all line ≡ true) where
    write_lem : (line : Line) → write f line ≡ (wrote line ∷ [], ok tt)
    unfolding ◌>>=◌
    write_lem line = rw (writes line) refl

    reported_then :
        (o : Option (ℕ × ℕ)) (e : Evaluation)
        → (([], ok o) >>= report f >>= λ _. ([], ok e)) ≡ (cycles_of o, ok e)
    unfolding ◌>>=◌
    reported_then none e = refl
    reported_then (some (cycles, each)) e = refl

    not_last : (i n : ℕ) → i + 1 < n → (i == n - 1) ≡ false
    not_last i n h = ground arith

    is_last : (i n : ℕ) → i + 1 ≡ n → (i == n - 1) ≡ true
    is_last i n h = ground arith

    write_pair_more :
        (n i : ℕ) (c : Rec) (s : Extension) (e after : Evaluation)
        → i + 1 < n
        → evaluate_record c e ≡ ok after
        → write_pair f n i (c, s) e ≡ (wrote (line_c i c) ∷ wrote (line_s s) ∷ [], ok after)
    unfolding write_pair ◌>>=◌
    write_pair_more n i c s e after more ran =
        rw (writes (line_c i c), writes (line_s s), ran) (rw (not_last i n more) refl)

    write_pair_last :
        (n i : ℕ) (c : Rec) (s : Extension) (e after : Evaluation) (o : Option (ℕ × ℕ))
        → i + 1 ≡ n
        → evaluate_record c e ≡ ok after
        → total (i + 1) after ≡ ok o
        → write_pair f n i (c, s) e
          ≡ (wrote (line_c i c) ∷ wrote (line_s s) ∷ cycles_of o, ok after)
    unfolding write_pair ◌>>=◌
    write_pair_last n i c s e after o last_one ran counted =
        rw (writes (line_c i c), writes (line_s s), ran)
          (rw (is_last i n last_one) (
            rw counted (
              ap (λ (m : Program Evaluation). (wrote (line_c i c) ∷ wrote (line_s s) ∷ m.0, m.1))
                (reported_then o after))))

    write_pairs_lem :
        (n i : ℕ) (pair : Rec × Extension) (pairs : Pairs) (e e' : Evaluation) (o : Option (ℕ × ℕ))
        → i + length (pair ∷ pairs) ≡ n
        → evaluate (clients (pair ∷ pairs)) e ≡ ok e'
        → total n e' ≡ ok o
        → write_pairs f n i (pair ∷ pairs) e ≡ (numbered i (pair ∷ pairs) ++ cycles_of o, ok tt)
    unfolding write_pairs
    write_pairs_lem n i (c, s) [] e e' o count ran counted =
        let (after, one, same) = Base.>>=-eq-ok (evaluate_record c e) (evaluate []) ran in
        let num : i + 1 ≡ n = omega (arith, count) in
        let its : total (i + 1) after ≡ ok o = cc in
        bind_lem _ (write_pair_last n i c s e after o num one its) refl
        ∙ ap (λ (acts : List Act). (acts, ok tt)) (append-nil _)
    write_pairs_lem n i (c, s) (pair ∷ pairs) e e' o count ran counted =
        let (after, one, rest) =
          Base.>>=-eq-ok (evaluate_record c e) (evaluate (clients (pair ∷ pairs))) ran in
        bind_lem _ (write_pair_more n i c s e after (omega (arith, count)) one)
          (write_pairs_lem n (i + 1) pair pairs after e' o (omega (arith, count)) rest counted)

    module _ (sort_0_by : Pairs → Pairs)
        (sorts : (rs : Pairs) → Permᴰ (sort_0_by rs) rs × Permᴰ rs (sort_0_by rs)) where
      sorted_clients :
          (rs : Pairs)
          → Permᴰ (clients (sort_0_by rs)) (clients rs)
            × Permᴰ (clients rs) (clients (sort_0_by rs))
      sorted_clients rs = let (p, q) = sorts rs in (Perm.map (λ r. r.0) p, Perm.map (λ r. r.0) q)

      write_all_pairs :
          (n : ℕ) (sorted : Pairs) (e e' : Evaluation) (o : Option (ℕ × ℕ))
          → length sorted ≡ n
          → 0 < n
          → evaluate (clients sorted) e ≡ ok e'
          → total n e' ≡ ok o
          → write_pairs f n 0 sorted e ≡ (numbered 0 sorted ++ cycles_of o, ok tt)
      write_all_pairs n [] e e' o count some_left ran counted = absurd (omega (arith, count))
      write_all_pairs n (pair ∷ pairs) e e' o count some_left ran counted =
          write_pairs_lem n 0 pair pairs e e' o (omega (arith, count)) ran counted

      write_pipeline_lem :
          (p : ℕ) (pairs : Pairs)
          → (o : Option (ℕ × ℕ)) × Reported (clients pairs) o
            × (write_pipeline f sort_0_by p pairs ≡ (section p (sort_0_by pairs) o, ok tt))
      unfolding write_pipeline
      write_pipeline_lem p [] =
          let empty : sort_0_by [] ≡ [] = nil_of_length _ (Perm-length (sorts []).0) in
          (none, unreported (λ c f l m. elim m [ ]), rw empty (write_lem (heading p)))
      write_pipeline_lem p ((c, s) ∷ pairs) =
          let rs : Pairs = (c, s) ∷ pairs in
          let (there, back) = sorted_clients rs in
          let (start, e, o, found, ran, _, counted, report) =
            sorted-Reported c (clients pairs) (clients (sort_0_by rs)) there back in
          (
            o,
            report,
            bind_lem _ (write_lem (heading p)) (
                rw found (
                  bind_lem _ refl (
                    write_all_pairs (length rs) (sort_0_by rs)
                      (record { completed = 0; min = start; max = start }) e o
                      (Perm-length (sorts rs).0) (omega arith) ran
                      (subst (λ (n : ℕ). total (suc n) e ≡ ok o) (length-map (λ r. r.0) pairs)
                        counted)))),
          )

      write_pipelines_lem :
          (rs : List (ℕ × Pairs))
          → (acts : List Act) × Sections sort_0_by rs acts
            × (write_pipelines f sort_0_by rs ≡ (acts, ok tt))
      unfolding write_pipelines
      write_pipelines_lem [] = ([], done, refl)
      write_pipelines_lem ((p, pairs) ∷ rest) =
          let (o, report, one) = write_pipeline_lem p pairs in
          let (acts, sections, others) = write_pipelines_lem rest in
          (
            section p (sort_0_by pairs) o ++ acts,
            section_then p pairs o report sections,
            bind_lem _ one others,
          )

      -- Where the file can be created, written and flushed, the servers' records are valid, and
      -- sorting a store keeps its records, the completed connections of all pipelines are counted,
      -- on the client side and on the server side; then each pipeline in its turn gets a heading,
      -- the two lines of each of its records, numbered in the store's order, and the report of the
      -- cycles they took. Nothing panics.
      pub write_and_evaluate_records-Sections :
          (rs : List (ℕ × Pairs))
          → Sound rs
          → f.create ≡ true
          → f.flush ≡ true
          → (acts : List Act) × Sections sort_0_by rs acts
            × (write_and_evaluate_records f sort_0_by rs
                ≡ (completed_connections (counts rs).0 (counts rs).1 ∷ acts, ok tt))
      unfolding write_and_evaluate_records
      write_and_evaluate_records-Sections rs sound creates flushes =
          let (acts, sections, ran) = write_pipelines_lem rs in
          (
            acts,
            sections,
            bind_lem _ (ap (λ (r : Result (ℕ × ℕ)). ([], r)) (completed_counts_lem rs sound)) (
                  bind_lem _ refl
                    (bind_lem _ (expect_lem creates) (bind_lem _ ran (expect_lem flushes))))
                ∙ ap
                    (λ (more : List Act).
                      (completed_connections (counts rs).0 (counts rs).1 ∷ more, ok tt))
                    (append-nil acts),
          )
