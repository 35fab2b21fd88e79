-- ===== src/Program/Main/Protocol.antt =====
-- The messages that the program sends to the run time, on every way through `main`.
use mathlib.Core.List.{append-nil}
use proxyengine.Base.{
  ℕ, zero, suc, ◌+◌, ◌-◌, ◌≡◌, refl, sym, subst, ap, ◌∙◌, Bool, true, false, Option, none, some,
  List, [], ◌∷◌, ◌++◌, ok, if◌then◌else◌, unwrap, ◌==◌, length, ◌%◌,
}
use proxyengine.Config.{Configuration}
use proxyengine.Record.{Extension}
use proxyengine.Program.{l234data, is_delayed}
use proxyengine.Program.Records.{ConData, Evaluation, evaluate_record, total, last}
use proxyengine.Program.Effects.{
  MessageFrom, start_engine, print_performance, fetch_counter, fetch_c_records, exit, Line, heading,
  line_c, line_s, Act, available_mbufs, slept, wrote, completed_connections, started, Program, pure,
  act, lift, ◌>>=◌,
}
use proxyengine.Program.File.{
  File, Pairs, clients, completed_counts, write, report, write_pair, write_pairs, write_pipeline,
  write_pipelines, write_and_evaluate_records,
}
use proxyengine.Program.Main.{RunTime, collected, detailed, main, set_up, serve, main_loop}
use proxyengine.Program.Main.Rounds.{rounds, main_loop-rounds}
use proxyengine.Program.Main.Tells.{
  messages, Tells, Tells-bind, Tells-expect, Tells-lift, Tells-silent, Tells-send, Tells-when,
}

module _ ⦃C : ConData⦄ where
  open C use {Rec}

  -- What a set-up program says to the run time.
  abbrev pub protocol : Bool → List ℕ → List MessageFrom
  protocol records cores =
      start_engine
      ∷ print_performance cores
      ∷ fetch_counter
      ∷ ((if records then fetch_c_records ∷ [] else []) ++ exit ∷ [])

  silent_then :
      {A B : Type 0} {all : List MessageFrom} (m : Program A) {next : A → Program B}
      → Tells [] m
      → ((a : A) → Tells all (next a))
      → Tells all (m >>= next)
  silent_then m t k = Tells-bind m _ t k

  Tells-act : (a : Act) → messages (a ∷ []) ≡ [] → Tells [] (act a)
  Tells-act a e = Tells-silent (act a) e

  module _ (f : File) where
    Tells-write : (line : Line) → Tells [] (write f line)
    Tells-write line =
        silent_then _ (Tells-expect (f.write_all line)) (λ _. Tells-act (wrote line) refl)

    Tells-report : (o : Option (ℕ × ℕ)) → Tells [] (report f o)
    Tells-report none = Tells-silent _ refl
    Tells-report (some (cycles, each)) = Tells-silent _ refl

    write_pair-Tells :
        (n i : ℕ) (p : Rec × Extension) (e : Evaluation) → Tells [] (write_pair f n i p e)
    unfolding write_pair
    write_pair-Tells n i (c, s) e = silent_then _ (Tells-write (line_c i c)) (λ _.
        silent_then _ (Tells-write (line_s s)) (λ _.
          silent_then _ (Tells-lift (evaluate_record c e)) (λ after.
            silent_then _ (if_last (i == n - 1) after) (λ _. Tells-silent (pure after) refl))))
      where
        if_last :
            (b : Bool) (after : Evaluation)
            → Tells [] (if b then (lift (total (i + 1) after) >>= report f) else pure tt)
        if_last true after = silent_then _ (Tells-lift (total (i + 1) after)) Tells-report
        if_last false after = Tells-silent (pure tt) refl

    write_pairs-Tells : (n i : ℕ) (ps : Pairs) (e : Evaluation) → Tells [] (write_pairs f n i ps e)
    unfolding write_pairs
    write_pairs-Tells n i [] e = Tells-silent (pure tt) refl
    write_pairs-Tells n i (p ∷ ps) e =
        silent_then _ (write_pair-Tells n i p e) (λ after. write_pairs-Tells n (i + 1) ps after)

    module _ (sort_0_by : Pairs → Pairs) where
      write_pipeline-Tells : (p : ℕ) (ps : Pairs) → Tells [] (write_pipeline f sort_0_by p ps)
      unfolding write_pipeline
      write_pipeline-Tells p [] = Tells-write (heading p)
      write_pipeline-Tells p (pair ∷ ps) = silent_then _ (Tells-write (heading p)) (λ _.
          silent_then _ (Tells-lift (unwrap (last (clients (pair ∷ ps)))))
            (λ start. write_pairs-Tells (length (pair ∷ ps)) 0 (sort_0_by (pair ∷ ps)) _))

      write_pipelines-Tells : (rs : List (ℕ × Pairs)) → Tells [] (write_pipelines f sort_0_by rs)
      unfolding write_pipelines
      write_pipelines-Tells [] = Tells-silent (pure tt) refl
      write_pipelines-Tells ((p, ps) ∷ rest) =
          silent_then _ (write_pipeline-Tells p ps) (λ _. write_pipelines-Tells rest)

      write_and_evaluate_records-Tells :
          (rs : List (ℕ × Pairs)) → Tells [] (write_and_evaluate_records f sort_0_by rs)
      unfolding write_and_evaluate_records
      write_and_evaluate_records-Tells rs =
          silent_then _ (Tells-lift (completed_counts rs)) (λ counts.
            silent_then _ (Tells-act (completed_connections counts.0 counts.1) refl) (λ _.
              silent_then _ (Tells-expect f.create)
                (λ _. silent_then _ (write_pipelines-Tells rs) (λ _. Tells-expect f.flush))))

  messages-rounds : (k n : ℕ) → messages (rounds k n) ≡ []
  messages-rounds k zero = refl
  messages-rounds k (suc n) = looked (k % 300 == 0) (messages-rounds (k + 1) n)
    where
      looked :
          (b : Bool)
          → messages (rounds (k + 1) n) ≡ []
          → messages ((if b then available_mbufs ∷ [] else []) ++ slept 200 ∷ rounds (k + 1) n) ≡ []
      looked true e = e
      looked false e = e

  main_loop-Tells : (n : ℕ) → Tells [] (main_loop 300 n)
  main_loop-Tells n =
      Tells-silent (main_loop 300 n)
        (ap (λ (m : Program (Unit {0})). messages m.0) (main_loop-rounds n).0 ∙ messages-rounds 0 n)

  value_then :
      {A B : Type 0} {all : List MessageFrom} (a : A) (next : A → Program B)
      → Tells all (next a)
      → Tells all (lift (ok a) >>= next)
  unfolding ◌>>=◌
  value_then a next t = t

  unwrap_then :
      {A B : Type 0} {all : List MessageFrom} (o : Option A) (a : A) (next : A → Program B)
      → o ≡ some a
      → Tells all (next a)
      → Tells all (lift (unwrap o) >>= next)
  unwrap_then {all} o a next e t =
      subst (λ p. Tells all (lift (unwrap p) >>= next)) (sym e) (value_then a next t)

  maybe_silent :
      (b : Bool) (m : Program (Unit {0})) → Tells [] m → Tells [] (if b then m else pure tt)
  maybe_silent true m t = t
  maybe_silent false m t = Tells-silent (pure tt) refl

  module _ {Counter : Type 0} (w : RunTime Counter) where
    set_up-Tells : (c : Configuration) → Tells [] (set_up w c)
    unfolding set_up
    set_up-Tells c = silent_then _ (Tells-expect w.setup_flowdirector) (λ _.
        silent_then _ (Tells-expect w.set_handler) (λ _.
          silent_then _ (Tells-lift (l234data w.get_mac_from_ifname c.targets)) (λ servers.
            silent_then _ (Tells-expect w.start_schedulers) (λ _.
              maybe_silent (is_delayed c.engine) _ (
                silent_then _ (Tells-act _ refl)
                  (λ _. Tells-expect w.install_pipeline_on_cores))))))

    serve-Tells :
        (c : Configuration) (cores : List ℕ)
        → Tells (protocol (detailed w c) cores) (serve w c cores)
    unfolding serve
    serve-Tells c cores = silent_then _ (Tells-expect w.get_main_channel) (λ _.
        Tells-bind _ _ (Tells-send w.send start_engine) (λ _.
          silent_then _ (Tells-act (slept 2000) refl) (λ _.
            silent_then _ (main_loop-Tells w.running) (λ _.
              Tells-bind _ _ (Tells-send w.send (print_performance cores)) (λ _.
                silent_then _ (Tells-act (slept 1000) refl) (λ _.
                  Tells-bind _ _ (Tells-send w.send fetch_counter) (λ _.
                    Tells-bind _ _ (Tells-when (detailed w c) _ (Tells-send w.send fetch_c_records))
                      (λ _.
                        silent_then _
                          (maybe_silent (detailed w c) _ (
                            write_and_evaluate_records-Tells w.file w.sort_0_by
                              (w.iter (collected w).con_records)))
                          (λ _.
                            Tells-bind _ _ (Tells-send w.send exit)
                              (λ _. Tells-act (slept 200) refl))))))))))

    -- With a configuration, and with the active cores known, on every way through the program,
    -- panics included, the messages that it has sent to the run time are a beginning of: the start
    -- of the engine, the request for the performance of the cores, those for the counters and,
    -- with detailed records, for the records, and the exit. If it ends with an exit code, it has
    -- sent them all.
    pub main-Tells :
        (c : Configuration) (cores : List ℕ)
        → w.init ≡ some c
        → w.active_cores ≡ some cores
        → Tells (protocol (detailed w c) cores) (main w)
    unfolding main
    main-Tells c cores configured active = unwrap_then w.init c _ configured (
        silent_then _ (set_up-Tells c) (λ _. unwrap_then w.active_cores cores _ active (
          silent_then _ (Tells-act started refl) (λ _.
            subst (λ l. Tells {A = ℕ} l (serve w c cores >>= λ _. pure 0)) (append-nil _)
              (Tells-bind _ _ (serve-Tells c cores) (λ _. Tells-silent (pure 0) refl))))))
