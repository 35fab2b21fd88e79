-- ===== src/Program/Main/Ends.antt =====
-- A run of the program in which the world around it does its part.
use proxyengine.Base.{
  ℕ, ◌≡◌, refl, ap, ◌∙◌, Bool, true, false, some, List, [], ◌∷◌, ◌++◌, ok, if◌then◌else◌, unwrap,
}
use mathlib.Core.List.{Permᴰ, append-nil}
use proxyengine.Packet.{Endpoint}
use proxyengine.Config.{Configuration}
use proxyengine.Program.{l234data, f_by_payload, f_process_payload_c_s, is_delayed}
use proxyengine.Program.Records.{ConData}
use proxyengine.Program.Effects.{
  MessageFrom, start_engine, print_performance, fetch_counter, fetch_c_records, exit, Line, Act,
  installed, started, sent, slept, completed_connections, Program, lift, bind_lem, expect_lem,
}
use proxyengine.Program.File.{Pairs, write_and_evaluate_records}
use proxyengine.Program.File.Shut.{counts, Sound}
use proxyengine.Program.File.Sections.{Sections, write_and_evaluate_records-Sections}
use proxyengine.Program.Main.{RunTime, mtx_send, collected, detailed, when, main, set_up, serve}
use proxyengine.Program.Main.Rounds.{rounds, main_loop-rounds}

module _ ⦃C : ConData⦄ {Counter : Type 0} (w : RunTime Counter) where
  -- The records that have come in, pipeline by pipeline.
  abbrev pub con_records : List (ℕ × Pairs)
  con_records = w.iter (collected w).con_records

  -- The run time starts, with a configuration and addresses for its targets; it takes every
  -- message, and the file can be written. A store's sorting keeps its records, and the records of
  -- the servers are valid.
  pub record Works (c : Configuration) (servers : List Endpoint) (cores : List ℕ) : Type 0 where
    pub init : w.init ≡ some c
    pub flow_director : w.setup_flowdirector ≡ true
    pub handler : w.set_handler ≡ true
    pub targets : l234data w.get_mac_from_ifname c.targets ≡ ok servers
    pub schedulers : w.start_schedulers ≡ true
    pub installs : w.install_pipeline_on_cores ≡ true
    pub active : w.active_cores ≡ some cores
    pub channel : w.get_main_channel ≡ true
    pub takes : (m : MessageFrom) → w.send m ≡ true
    pub sorts : (rs : Pairs) → Permᴰ (w.sort_0_by rs) rs × Permᴰ rs (w.sort_0_by rs)
    pub create : w.file.create ≡ true
    pub write_all : (line : Line) → w.file.write_all line ≡ true
    pub flush : w.file.flush ≡ true
    pub sound : Sound con_records

  -- What the program does once its pipelines are installed; `report` is what follows the fetch of
  -- the records.
  abbrev pub running_script : Configuration → List ℕ → List Act → List Act
  running_script c cores report =
      started
      ∷ sent start_engine
      ∷ slept 2000
      ∷ (rounds 0 w.running
          ++ sent (print_performance cores)
            ∷ slept 1000
            ∷ sent fetch_counter
            ∷ ((if detailed w c then sent fetch_c_records ∷ [] else [])
                ++ ((if detailed w c then report else []) ++ sent exit ∷ slept 200 ∷ [])))

  abbrev pub script : Configuration → List Endpoint → List ℕ → List Act → List Act
  script c servers cores report =
      (if is_delayed c.engine
        then installed c.engine servers (f_by_payload w.deserialize servers) f_process_payload_c_s
          ∷ []
        else [])
      ++ running_script c cores report

  pub script-installed :
      (c : Configuration) (servers : List Endpoint) (cores : List ℕ) (report : List Act)
      → is_delayed c.engine ≡ true
      → script c servers cores report
        ≡ installed c.engine servers (f_by_payload w.deserialize servers) f_process_payload_c_s
          ∷ running_script c cores report
  script-installed c servers cores report delayed = rw delayed refl

  mtx_send_lem :
      (takes : MessageFrom → Bool) (m : MessageFrom)
      → takes m ≡ true
      → mtx_send takes m ≡ (sent m ∷ [], ok tt)
  mtx_send_lem takes m e = bind_lem _ (expect_lem e) refl

  when_lem :
      (b : Bool) (m : Program (Unit {0})) {acts : List Act}
      → m ≡ (acts, ok tt)
      → when w b m ≡ ((if b then acts else []), ok tt)
  when_lem true m e = e
  when_lem false m e = refl

  module _ (c : Configuration) (servers : List Endpoint) (cores : List ℕ)
      (good : Works c servers cores) where
    set_up_lem : set_up w c ≡ (
      (if is_delayed c.engine
          then installed c.engine servers (f_by_payload w.deserialize servers) f_process_payload_c_s
            ∷ []
          else []),
      ok tt,
    )
    unfolding set_up
    set_up_lem = bind_lem _ (expect_lem good.flow_director) (
        bind_lem _ (expect_lem good.handler) (
          bind_lem _ (ap lift good.targets) (
            bind_lem _ (expect_lem good.schedulers)
              (when_lem (is_delayed c.engine) _ (bind_lem _ refl (expect_lem good.installs))))))

    abbrev heard : (m : MessageFrom) → mtx_send w.send m ≡ (sent m ∷ [], ok tt)
    heard m = mtx_send_lem w.send m (good.takes m)

    serve_lem :
        (acts : List Act)
        → write_and_evaluate_records w.file w.sort_0_by con_records ≡ (acts, ok tt)
        → serve w c cores ≡ (
          sent start_engine
              ∷ slept 2000
              ∷ (rounds 0 w.running
                  ++ sent (print_performance cores)
                    ∷ slept 1000
                    ∷ sent fetch_counter
                    ∷ ((if detailed w c then sent fetch_c_records ∷ [] else [])
                        ++ ((if detailed w c then acts else []) ++ sent exit ∷ slept 200 ∷ []))),
          ok tt,
        )
    unfolding serve
    serve_lem acts written = bind_lem _ (expect_lem good.channel) (
        bind_lem _ (heard start_engine) (
          bind_lem _ refl (
            bind_lem _ (main_loop-rounds w.running).0 (
              bind_lem _ (heard (print_performance cores)) (
                bind_lem _ refl (
                  bind_lem _ (heard fetch_counter) (
                    bind_lem _ (when_lem (detailed w c) _ (heard fetch_c_records)) (
                      bind_lem _ (when_lem (detailed w c) _ written)
                        (bind_lem _ (heard exit) refl)))))))))

    by_script :
        (acts : List Act)
        → write_and_evaluate_records w.file w.sort_0_by con_records ≡ (acts, ok tt)
        → main w ≡ (script c servers cores acts, ok 0)
    unfolding main
    by_script acts written = bind_lem _ (ap (λ o. lift (unwrap o)) good.init) (
        bind_lem _ set_up_lem (
          bind_lem _ (ap (λ o. lift (unwrap o)) good.active) (
            bind_lem _ refl (
              bind_lem _ (serve_lem acts written) refl
              ∙ ap (λ (l : List Act). (l, ok 0)) (append-nil _)))))

    -- In a world that does its part, the program ends with the exit code 0, whenever the flag is
    -- cleared. It installs pipelines for its targets with the two callbacks, if the mode is the
    -- delayed one, starts the engine, waits through the rounds of its loop, and asks for the
    -- performance and the counters; with detailed records it then asks for the records, counts the
    -- completed connections of those that came, and writes and reports them pipeline by pipeline;
    -- the request to exit is the last message.
    pub main_lem :
        (acts : List Act) × Sections w.sort_0_by con_records acts
        × (main w ≡ (
          script c servers cores
              (completed_connections (counts con_records).0 (counts con_records).1 ∷ acts),
          ok 0,
        ))
    main_lem =
        let (acts, sections, written) =
          write_and_evaluate_records-Sections w.file good.write_all w.sort_0_by good.sorts
            con_records good.sound good.create good.flush in
        (acts, sections, by_script _ written)
