-- ===== src/Pipes.antt =====
-- lib.rs, `setup_pipes_delayed_proxy`: what one core's scheduler runs for its physical ports.
pub mod Laws
use proxyengine.Base.{
  ℕ, Bool, true, false, ◌&&◌, Option, none, some, List, [], ◌∷◌, ◌++◌, ◌==◌, if◌then◌else◌, Result,
  ok, ◌>>=◌,
}
use proxyengine.Packet.{Endpoint}
use proxyengine.Tcp.{StateOrder}
use proxyengine.External.{RecStore, TimerWheel, PacketOps}
use proxyengine.Config.{EngineConfig}
use proxyengine.Forward.{FnSelectServer, FnPayload}
use proxyengine.Flow.{Setup}
use proxyengine.Pipeline.{Pipeline}
use proxyengine.Start.{Interfaces, Calls, setup_delayed_proxy}

-- A port's queue on this core, and the port of the kernel interface beside it. What the flow
-- director has for the queue stands in it as read.
pub record PciQueue : Type 0 where
  pub rxq : ℕ
  pub flow_ip : ℕ
  pub flow_port : ℕ
  pub port_mask : ℕ

pub record KniQueue : Type 0 where
  pub net_spec : Endpoint
  pub is_native_kni : Bool

pub record PmdPort : Type 0 where
  pub name : ℕ
  pub kni_name : Option ℕ

-- `pmd_ports.get(pmd_port.kni_name().unwrap())`, if there is a name.
abbrev pub kni_port : (ℕ → Option PmdPort) → PmdPort → Option PmdPort
kni_port pmd_ports port = elim port.kni_name [ none ↦ none | some name ↦ pmd_ports name ]

abbrev pub interfaces : PciQueue → KniQueue → Interfaces
interfaces pci kni = record {
  kni = kni.net_spec;
  flow_ip = pci.flow_ip;
  flow_port = pci.flow_port;
  port_mask = pci.port_mask;
}

-- Whether this core handles the requests of the kernel interface.
abbrev pub handles_kni : PciQueue → KniQueue → Bool
handles_kni pci kni = kni.is_native_kni && pci.rxq == 0

module _ ⦃order : StateOrder⦄ ⦃R : RecStore⦄ ⦃W : TimerWheel⦄ ⦃O : PacketOps⦄ where
  -- What the scheduler runs: the handler of the kernel interface's requests, a pipeline.
  pub data Task : Type 0 where
    kni_handle_request : KniQueue → Task
    proxy : Setup → Pipeline → Task

  module _ (calls : Calls) (cpu_clock : ℕ) (engine : EngineConfig) (servers : List Endpoint)
      (f_select_server : FnSelectServer) (f_process_payload : FnPayload) where
    -- The body of the loop, for a port whose two queues are there; without them, nothing is run.
    abbrev pub setup_port : Option PciQueue × Option KniQueue → Result (List Task)
    setup_port (some pci, some kni) = do
      started ←
          setup_delayed_proxy calls (interfaces pci kni) cpu_clock engine servers f_select_server
            f_process_payload
      let pipeline = proxy started.0 started.1 ∷ []
      ok (if handles_kni pci kni then kni_handle_request kni ∷ pipeline else pipeline)
    setup_port _ = ok []

    -- `new_port_queues_for_core` gives the two queues of a port; the list is what
    -- `physical_ports_for_core` gives.
    unfoldable pub setup_pipes_delayed_proxy :
        (PmdPort → Option PmdPort → Option PciQueue × Option KniQueue)
        → (ℕ → Option PmdPort)
        → List PmdPort
        → Result (List Task)
    setup_pipes_delayed_proxy new_port_queues_for_core pmd_ports [] = ok []
    setup_pipes_delayed_proxy new_port_queues_for_core pmd_ports (port ∷ ports) = do
      tasks ← setup_port (new_port_queues_for_core port (kni_port pmd_ports port))
      rest ← setup_pipes_delayed_proxy new_port_queues_for_core pmd_ports ports
      ok (tasks ++ rest)
