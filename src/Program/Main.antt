-- ===== src/Program/Main.antt =====
-- bin.rs, `main`: from the start of the run time to the end of the program. What the run time and
-- the operating system do is the argument `RunTime`; logging is left out but for the reports of the
-- loop and of the evaluation.
pub mod Rounds
pub mod Tells
pub mod Protocol
pub mod Ends
use proxyengine.Base.{
  ℕ, zero, suc, ◌+◌, Bool, true, false, Option, none, some, List, ◌==◌, if◌then◌else◌, unwrap,
}
use proxyengine.Config.{Configuration}
use proxyengine.Start.{or_else}
use proxyengine.Record.{Extension}
use proxyengine.Program.{CData, l234data, f_by_payload, f_process_payload_c_s, is_delayed}
use proxyengine.Program.Records.{ConData}
use proxyengine.Program.Replies.{Received, Collected, collect}
use proxyengine.Program.Effects.{
  MessageFrom, start_engine, print_performance, fetch_counter, fetch_c_records, exit, Program,
  installed, started, sent, slept, available_mbufs, pure, act, lift, expect, ◌>>=◌, ◌>>◌,
}
use proxyengine.Program.File.{File, Pairs, write_and_evaluate_records}

module _ ⦃C : ConData⦄ where
  -- RunTime::init, setup_flowdirector, ctrlc::set_handler, get_mac_from_ifname, start_schedulers,
  -- install_pipeline_on_cores, context and get_main_channel, each with its outcome; whether the
  -- run time still takes a message; how often the flag `running` is read before a signal has
  -- cleared it; the replies; the order in which a HashMap is walked, and a store's sorting; and
  -- the file of the records.
  pub record RunTime (Counter : Type 0) : Type 0 where
    pub init : Option Configuration
    pub setup_flowdirector : Bool
    pub set_handler : Bool
    pub get_mac_from_ifname : ℕ → Option ℕ
    pub deserialize : List ℕ → Option CData
    pub start_schedulers : Bool
    pub install_pipeline_on_cores : Bool
    pub active_cores : Option (List ℕ)
    pub get_main_channel : Bool
    pub send : MessageFrom → Bool
    pub running : ℕ
    pub replies : List (Received Counter Pairs)
    pub iter : (ℕ → Option Pairs) → List (ℕ × Pairs)
    pub sort_0_by : Pairs → Pairs
    pub file : File

  abbrev pub mtx_send : (MessageFrom → Bool) → MessageFrom → Program (Unit {0})
  mtx_send takes m = expect (takes m) >> act (sent m)

  -- The main loop, while the flag is read as set; `loops` is its counter.
  unfoldable pub main_loop : ℕ → ℕ → Program (Unit {0})
  main_loop loops zero = pure tt
  main_loop loops (suc n) = do
    counted ← (if loops == 300 then (act available_mbufs >> pure 0) else pure loops)
    act (slept 200)
    main_loop (counted + 1) n

  module _ {Counter : Type 0} (w : RunTime Counter) where
    abbrev nothing : Collected Counter Pairs
    nothing = record {
      tcp_counters_c = λ _. none;
      tcp_counters_s = λ _. none;
      con_records = λ _. none;
    }

    abbrev pub collected : Collected Counter Pairs
    collected = collect Counter Pairs w.replies nothing

    abbrev pub detailed : Configuration → Bool
    detailed configuration = or_else false configuration.engine.detailed_records

    abbrev pub when : Bool → Program (Unit {0}) → Program (Unit {0})
    when b m = if b then m else pure tt

    -- Up to the installation of the pipelines, if the mode asks for them.
    unfoldable pub set_up : Configuration → Program (Unit {0})
    set_up configuration = do
      expect w.setup_flowdirector
      expect w.set_handler
      servers ← lift (l234data w.get_mac_from_ifname configuration.targets)
      expect w.start_schedulers
      when (is_delayed configuration.engine) (do
        act (
            installed configuration.engine servers (f_by_payload w.deserialize servers)
              f_process_payload_c_s)
        expect w.install_pipeline_on_cores)

    unfoldable pub serve : Configuration → List ℕ → Program (Unit {0})
    serve configuration cores = do
      expect w.get_main_channel
      mtx_send w.send start_engine
      act (slept 2000)
      main_loop 300 w.running
      mtx_send w.send (print_performance cores)
      act (slept 1000)
      mtx_send w.send fetch_counter
      when (detailed configuration) (mtx_send w.send fetch_c_records)
      when (detailed configuration)
          (write_and_evaluate_records w.file w.sort_0_by (w.iter collected.con_records))
      mtx_send w.send exit
      act (slept 200)

    -- Its value is the exit code.
    unfoldable pub main : Program ℕ
    main = do
      configuration ← lift (unwrap w.init)
      set_up configuration
      cores ← lift (unwrap w.active_cores)
      act started
      serve configuration cores
      pure 0
