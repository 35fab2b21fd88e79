-- ===== src/Program/Engine.antt =====
-- The engine as `main` installs it: the pipelines of a core, with the targets and the callbacks
-- that `main` hands over, and what they do with whatever comes in.
use proxyengine.Base.{ℕ, ◌≡◌, Option, some, List, [], ◌∷◌, ok, length, get_elem?}
use proxyengine.Forward.{FnSelectServer}
use proxyengine.Packet.{Pdu, Endpoint}
use proxyengine.Tcp.{StateOrder}
use proxyengine.External.{RecStore, TimerWheel, PacketOps}
use proxyengine.Config.{Configuration, EngineConfig}
use proxyengine.Flow.{Setup}
use proxyengine.Pipeline.{Pipeline}
use proxyengine.Pipeline.Ready.{IsReady}
use proxyengine.Pipeline.Runs.{Call, run}
use proxyengine.Start.Laws.{records_mode}
use proxyengine.Start.{Calls}
use proxyengine.Pipes.{PciQueue, KniQueue, PmdPort, Task, kni_handle_request, proxy}
use proxyengine.Pipes.Laws.{queues, AllAble}
use proxyengine.Program.{CData, f_by_payload, f_process_payload_c_s}
use proxyengine.Program.Records.{ConData}
use proxyengine.Program.Run.{AllClean}
use proxyengine.Program.Main.{RunTime}

module _ ⦃order : StateOrder⦄ ⦃R : RecStore⦄ ⦃W : TimerWheel⦄ ⦃O : PacketOps⦄
    (engine : EngineConfig) (deserialize : List ℕ → Option CData) where
  -- One verdict for each packet of any sequence of clean ones, without a panic, and a pipeline in
  -- order at the end.
  abbrev Runs : Setup → Pipeline → Type 0
  Runs u s =
      (cs : List Call)
      → AllClean u (records_mode engine) deserialize cs s
      → (vs : List (ℕ × Pdu)) × (s' : Pipeline) × (run u cs s ≡ ok (vs, s'))
        × (length vs ≡ length cs)
        × IsReady u (records_mode engine) s'

  abbrev TaskRuns : Task → Type 0
  TaskRuns (proxy u s) = Runs u s
  TaskRuns (kni_handle_request k) = Unit {0}

  abbrev AllRun : List Task → Type 0
  AllRun [] = Unit {0}
  AllRun (t ∷ ts) = TaskRuns t × AllRun ts

  module _ (calls : Calls) (cpu_clock : ℕ) (servers : List Endpoint)
      (new_port_queues_for_core : PmdPort → Option PmdPort → Option PciQueue × Option KniQueue)
      (pmd_ports : ℕ → Option PmdPort)
      (first : (srv : Endpoint) × (get_elem? servers 0 ≡ some srv)) where
    abbrev Able : List (Option PciQueue × Option KniQueue) → Type 0
    Able =
        AllAble calls cpu_clock engine servers (f_by_payload deserialize servers)
          f_process_payload_c_s new_port_queues_for_core pmd_ports

    abbrev port_queues : List PmdPort → List (Option PciQueue × Option KniQueue)
    port_queues =
        queues calls cpu_clock engine servers (f_by_payload deserialize servers)
          f_process_payload_c_s new_port_queues_for_core pmd_ports

module _ ⦃C : ConData⦄ ⦃order : StateOrder⦄ ⦃R : RecStore⦄ ⦃W : TimerWheel⦄ ⦃O : PacketOps⦄
    {Counter : Type 0} (w : RunTime Counter) (calls : Calls) (cpu_clock : ℕ)
    (new_port_queues_for_core : PmdPort → Option PmdPort → Option PciQueue × Option KniQueue)
    (pmd_ports : ℕ → Option PmdPort) where
  -- What `main` hands to `setup_pipes_delayed_proxy` on each core.
  abbrev pub select : List Endpoint → FnSelectServer
  select servers = f_by_payload w.deserialize servers

  abbrev pub core_queues :
      Configuration → List Endpoint → List PmdPort → List (Option PciQueue × Option KniQueue)
  core_queues c servers ports =
      queues calls cpu_clock c.engine servers (select servers) f_process_payload_c_s
        new_port_queues_for_core pmd_ports ports
