-- ===== src/Pipes/Laws.antt =====
-- The tasks of a core, port by port.
use proxyengine.Base.{
  ℕ, ◌≡◌, ◌≢◌, ◌⊎◌, refl, inl, inr, true, false, Bool-cases, Option, none, some, List, [], ◌∷◌,
  ◌++◌, arith, ok,
}
use proxyengine.Packet.{Endpoint}
use proxyengine.Tcp.{StateOrder}
use proxyengine.External.{RecStore, TimerWheel, PacketOps}
use proxyengine.Config.{EngineConfig}
use proxyengine.Forward.{FnSelectServer, FnPayload}
use proxyengine.Flow.{Setup}
use proxyengine.Pipeline.{Pipeline}
use proxyengine.Pipeline.Ready.{IsReady}
use proxyengine.Start.{Calls}
use proxyengine.Start.Laws.{IsAble, records_mode, Started, setup_delayed_proxy-Started}
use proxyengine.Pipes.{
  PciQueue, KniQueue, PmdPort, kni_port, interfaces, handles_kni, Task, kni_handle_request, proxy,
  setup_port, setup_pipes_delayed_proxy,
}

-- A port without one of its two queues.
abbrev pub Lacks : Option PciQueue × Option KniQueue → Type 0
Lacks q = (q.0 ≡ none) ⊎ (q.1 ≡ none)

module _ ⦃order : StateOrder⦄ ⦃R : RecStore⦄ ⦃W : TimerWheel⦄ ⦃O : PacketOps⦄ where
  module _ (calls : Calls) (cpu_clock : ℕ) (engine : EngineConfig) (servers : List Endpoint)
      (f : FnSelectServer) (g : FnPayload)
      (new_port_queues_for_core : PmdPort → Option PmdPort → Option PciQueue × Option KniQueue)
      (pmd_ports : ℕ → Option PmdPort) where
    -- The queues of each port.
    abbrev pub queues : List PmdPort → List (Option PciQueue × Option KniQueue)
    queues [] = []
    queues (port ∷ ports) = new_port_queues_for_core port (kni_port pmd_ports port) ∷ queues ports

    -- The set-up can work for each pair of queues.
    abbrev pub AllAble : List (Option PciQueue × Option KniQueue) → Type 0
    AllAble [] = Unit {0}
    AllAble ((some pci, some kni) ∷ qs) =
        IsAble calls (interfaces pci kni) cpu_clock engine × AllAble qs
    AllAble (_ ∷ qs) = AllAble qs

    -- A pipeline for a port: in order, with the servers and the callbacks, on the addresses of its
    -- kernel interface and of its queue, and on its queue's range of ports.
    pub record ForPort (pci : PciQueue) (kni : KniQueue) (u : Setup) (s : Pipeline) : Type 0 where
      pub ready : IsReady u (records_mode engine) s
      pub servers_same : u.servers ≡ servers
      pub select_same : u.f_select_server ≡ f
      pub payload_same : u.f_process_payload ≡ g
      pub client_side : u.me.l234 ≡ record (kni.net_spec) { port = engine.port }
      pub flow_ips : (u.me.ip_s ≡ pci.flow_ip) × (u.pipeline_ip ≡ pci.flow_ip)
      pub first_port : (u.tcp_min_port ≡ pci.flow_port) × (s.cm.tcp_port_base ≡ pci.flow_port)
      pub mask_same : s.cm.tcp_dst_port_mask ≡ pci.port_mask

    -- The tasks for a port with both queues: its pipeline, and before it the handler of its kernel
    -- interface, if that is a native one and the queue is the port's first.
    pub data ForQueues (pci : PciQueue) (kni : KniQueue) : List Task → Type 0 where
      with_handler :
          (u : Setup) (s : Pipeline)
          → kni.is_native_kni ≡ true
          → pci.rxq ≡ 0
          → ForPort pci kni u s
          → ForQueues pci kni (kni_handle_request kni ∷ proxy u s ∷ [])
      alone :
          (u : Setup) (s : Pipeline)
          → (kni.is_native_kni ≡ false) ⊎ (pci.rxq ≢ 0)
          → ForPort pci kni u s
          → ForQueues pci kni (proxy u s ∷ [])

    -- The tasks for ports with the queues `qs`, port by port.
    pub data Installed : List (Option PciQueue × Option KniQueue) → List Task → Type 0 where
      none_left : Installed [] []
      nothing :
          (q : Option PciQueue × Option KniQueue) {qs : List (Option PciQueue × Option KniQueue)}
          {ts : List Task}
          → Lacks q
          → Installed qs ts
          → Installed (q ∷ qs) ts
      port_then :
          (pci : PciQueue) (kni : KniQueue) {qs : List (Option PciQueue × Option KniQueue)}
          {more ts : List Task}
          → ForQueues pci kni more
          → Installed qs ts
          → Installed ((some pci, some kni) ∷ qs) (more ++ ts)

    begun-ForPort :
        (pci : PciQueue) (kni : KniQueue) (u : Setup) (s : Pipeline)
        (able : IsAble calls (interfaces pci kni) cpu_clock engine)
        → Started calls (interfaces pci kni) cpu_clock engine able servers f g u s
        → ForPort pci kni u s
    begun-ForPort pci kni u s able started = record {
      ready = started.ready;
      servers_same = started.servers_same;
      select_same = started.select_same;
      payload_same = started.payload_same;
      client_side = started.me_same;
      flow_ips = started.flow_ips;
      first_port = started.first_port;
      mask_same = started.mask_same;
    }

    one_port :
        (q : Option PciQueue × Option KniQueue) (qs : List (Option PciQueue × Option KniQueue))
        (ts : List Task)
        → AllAble (q ∷ qs)
        → Installed qs ts
        → (more : List Task) × (setup_port calls cpu_clock engine servers f g q ≡ ok more)
          × Installed (q ∷ qs) (more ++ ts)
    one_port (some pci, some kni) qs ts able rest =
        let (u, s, ran, started) =
          setup_delayed_proxy-Started calls (interfaces pci kni) cpu_clock engine able.0 servers f
            g in
        let its = begun-ForPort pci kni u s able.0 started in
        elim (Bool-cases (handles_kni pci kni)) [
          | inl here ↦ (
            kni_handle_request kni ∷ proxy u s ∷ [],
            rw (ran, setup_port) (rw here refl),
            port_then pci kni (with_handler u s (ground (arith, here)) (ground (arith, here)) its)
                rest,
          )
          | inr elsewhere ↦ (
            proxy u s ∷ [],
            rw (ran, setup_port) (rw elsewhere refl),
            port_then pci kni (alone u s (ground (arith, elsewhere)) its) rest,
          )
        ]
    one_port (some pci, none) qs ts able rest = ([], refl, nothing (some pci, none) (inr refl) rest)
    one_port (none, some kni) qs ts able rest = ([], refl, nothing (none, some kni) (inl refl) rest)
    one_port (none, none) qs ts able rest = ([], refl, nothing (none, none) (inl refl) rest)

    pub able_rest :
        (q : Option PciQueue × Option KniQueue) (qs : List (Option PciQueue × Option KniQueue))
        → AllAble (q ∷ qs)
        → AllAble qs
    able_rest (some pci, some kni) qs able = able.1
    able_rest (some pci, none) qs able = able
    able_rest (none, some kni) qs able = able
    able_rest (none, none) qs able = able

    -- Where the set-up can work for each pair of queues, a core gets its tasks port by port, in
    -- their order: for a port without one of its two queues none; for the others the port's
    -- pipeline, in order, with the servers and the callbacks, on the addresses of its kernel
    -- interface and its queue and on its queue's range of ports, and before it the handler of the
    -- kernel interface, exactly if that is a native one and the queue is the port's first.
    pub setup_pipes_delayed_proxy-Installed :
        (ports : List PmdPort)
        → AllAble (queues ports)
        → (ts : List Task) × (setup_pipes_delayed_proxy calls cpu_clock engine servers f g
              new_port_queues_for_core pmd_ports ports
            ≡ ok ts)
          × Installed (queues ports) ts
    unfolding setup_pipes_delayed_proxy
    setup_pipes_delayed_proxy-Installed [] able = ([], refl, none_left)
    setup_pipes_delayed_proxy-Installed (port ∷ ports) able =
        let q = new_port_queues_for_core port (kni_port pmd_ports port) in
        let (ts, ran, rest) =
          setup_pipes_delayed_proxy-Installed ports (able_rest q (queues ports) able) in
        let (more, first, all) = one_port q (queues ports) ts able rest in
        (more ++ ts, rw (first, setup_pipes_delayed_proxy) (rw ran refl), all)
