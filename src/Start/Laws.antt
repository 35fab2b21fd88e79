-- ===== src/Start/Laws.antt =====
-- What the set-up of a pipeline gives: a pipeline in order, with a timer wheel that is turned at
-- each tick.
use native.Mathlib.Nat as Nat
use proxyengine.Base.{
  Bool, ℕ, zero, suc, ◌*◌, ◌/◌, ◌≤◌, ◌<◌, ◌≡◌, refl, sym, ap, subst, ◌∙◌, inl, inr, Bool-cases,
  true, false, some, List, [], ◌∷◌, arith, ok, ltb, le→leb,
}
use proxyengine.Base.Words.{u64_mod}
use proxyengine.Packet.{Endpoint}
use proxyengine.Tcp.{StateOrder}
use proxyengine.External.{RecStore, TimerWheel, PacketOps}
use proxyengine.Connection.{ProxyConnection, in_use}
use proxyengine.Manager as Man
use proxyengine.Manager.{ConnectionManager, in_port}
use proxyengine.Manager.Invariant.{Live}
use proxyengine.Manager.New.{Shuffles, IsPortRange, new-IsValid, new_con, new_idle}
use proxyengine.Config.{Timeouts, EngineConfig}
use proxyengine.Forward.{FnSelectServer, FnPayload}
use proxyengine.Allocator as Alloc
use proxyengine.Allocator.Supply.{Brings, Stocked}
use proxyengine.Flow.{Setup}
use proxyengine.Pipeline.{Pipeline}
use proxyengine.Pipeline.Ready.{IsReady}
use proxyengine.Start.{Interfaces, Calls, limited, divide, mul_u64, or_else, setup_delayed_proxy}

-- The check leaves a time-out that is at most the wheel's greatest, and an earlier one as it was.
pub limited_lem :
    (timeouts : Timeouts) (max_cycles t : ℕ)
    → timeouts.established ≡ some t
    → (t' : ℕ) × ((limited timeouts max_cycles).established ≡ some t')
      × (t' ≤ max_cycles)
      × (t ≤ max_cycles → t' ≡ t)
unfolding limited
limited_lem timeouts max_cycles t e = elim (Bool-cases (ltb max_cycles t)) [
  | inl over ↦
      (max_cycles, rw (e, limited) (rw over refl), ground arith, λ le. ground (arith, over, le))
  | inr within ↦ (t, rw (e, limited) (rw within e), ground (arith, within), λ _. refl)
]

divide_same : (n : ℕ) → 0 < n → divide n n ≡ ok 1
divide_same zero h = absurd (ground (arith, h))
divide_same (suc n) h = ap ok (Nat.div_self h)

-- A set-up that can work: the ports of the flow are a range, the libraries do what they say, there
-- is a time-out, the clock runs at 100 Hz or more, and the pool has packets.
pub record IsAble ⦃O : PacketOps⦄ (calls : Calls) (ports : Interfaces) (cpu_clock : ℕ)
    (engine : EngineConfig) : Type 0 where
  pub shuffles : Shuffles calls.shuffle_ports
  pub range : IsPortRange ports.port_mask ports.flow_port
  pub tick : (n : ℕ) → calls.tick_length n ≡ n
  pub clock : 100 ≤ cpu_clock
  pub clock_u64 : cpu_clock * 10 < u64_mod
  pub limit : ℕ
  pub limits : (calls.default_or_some engine.timeouts).established ≡ some limit
  pub brings : Brings calls.new_pdu_array

-- Whether pipelines keep detailed records.
abbrev pub records_mode : EngineConfig → Bool
records_mode engine = or_else false engine.detailed_records

module _ ⦃order : StateOrder⦄ ⦃R : RecStore⦄ ⦃W : TimerWheel⦄ ⦃O : PacketOps⦄ (calls : Calls)
    (ports : Interfaces) (cpu_clock : ℕ) (engine : EngineConfig)
    (able : IsAble calls ports cpu_clock engine) where
  abbrev slot_cycles : ℕ
  slot_cycles = mul_u64 cpu_clock 10 / 1000

  one_tick : slot_cycles ≡ cpu_clock / 100
  one_tick = omega (arith, able.clock_u64)

  stocked : Stocked (Alloc.new calls.new_pdu_array)
  unfolding Alloc.new
  stocked = let (p, ps, got, roomy) = able.brings 0 in (p ∷ ps, got, roomy)

  -- A new manager has no live connection.
  pub new-Live :
      (q : ℕ) (d : ProxyConnection)
      → Live
          (Man.new calls.shuffle_ports ports.port_mask ports.flow_ip ports.flow_port
            (records_mode engine))
          q
          d
      → ⊥
  new-Live q d live =
      let (same, _, _) =
        new_con calls.shuffle_ports ports.port_mask ports.flow_ip ports.flow_port
          (records_mode engine) able.shuffles able.range q d live.0 in
      clash (
        sym live.1
        ∙ ap in_use same
        ∙ new_idle calls.shuffle_ports ports.port_mask ports.flow_ip ports.flow_port
            (records_mode engine) able.shuffles able.range)
    where
      clash : true ≡ false → ⊥
      clash e = cc

  abbrev empty : ConnectionManager
  empty =
      Man.new calls.shuffle_ports ports.port_mask ports.flow_ip ports.flow_port
        (records_mode engine)

  off : empty.detailed_records ≡ records_mode engine
  unfolding Man.new
  off = refl

  -- The manager works on the flow's address and range of ports.
  here :
      (empty.ip ≡ ports.flow_ip)
      × (empty.tcp_port_base ≡ ports.flow_port)
      × (empty.tcp_dst_port_mask ≡ ports.port_mask)
  unfolding Man.new
  here = (refl, refl, refl)

  -- The set-up with time-out `t`, and the pipeline as it starts.
  abbrev given : List Endpoint → FnSelectServer → FnPayload → ℕ → Setup
  given servers f g t = record {
    me = record { l234 = record (ports.kni) { port = engine.port }; ip_s = ports.flow_ip };
    servers = servers;
    f_select_server = f;
    f_process_payload = g;
    tcp_min_port = empty.tcp_port_base;
    pipeline_ip = empty.ip;
    timeout_cycles = mul_u64 t cpu_clock / 1000;
    wheel_tick_reduction_factor = 1;
    new_pdu_array = calls.new_pdu_array;
  }

  abbrev started : Pipeline
  started = record {
    cm = empty;
    heap = λ _. R.with_capacity Man.max_records;
    wheel = W.wheel_new 1002 slot_cycles 2500;
    counter_c = λ _. 0;
    counter_s = λ _. 0;
    allocator = Alloc.new calls.new_pdu_array;
    ticks = 0;
    sent = [];
    answers = [];
  }

  -- What the set-up gives: the callbacks and servers that it was given, a pipeline in order, and
  -- time-outs at each tick.
  pub record Started (servers : List Endpoint) (f : FnSelectServer) (g : FnPayload) (u : Setup)
      (s : Pipeline) : Type 0 where
    pub ready : IsReady u (records_mode engine) s
    pub servers_same : u.servers ≡ servers
    pub select_same : u.f_select_server ≡ f
    pub payload_same : u.f_process_payload ≡ g
    pub port_same : u.me.l234.port ≡ engine.port
    pub me_same : u.me.l234 ≡ record (ports.kni) { port = engine.port }
    pub flow_ips : (u.me.ip_s ≡ ports.flow_ip) × (u.pipeline_ip ≡ ports.flow_ip)
    pub first_port : (u.tcp_min_port ≡ ports.flow_port) × (s.cm.tcp_port_base ≡ ports.flow_port)
    pub mask_same : s.cm.tcp_dst_port_mask ≡ ports.port_mask
    pub pool_same : u.new_pdu_array ≡ calls.new_pdu_array
    pub each_tick : u.wheel_tick_reduction_factor ≡ 1

  -- For ports that are a range, with a time-out, packets with room for their headers in the pool
  -- and a clock of 100 Hz or more, whose tenfold fits a u64, the set-up passes its assertion and
  -- divides by no zero; the pipeline that it hands to the closure is in order, with the servers
  -- and callbacks as given, on the addresses of the kernel interface and the flow and on the
  -- flow's range of ports, and turns its wheel at each tick.
  pub setup_delayed_proxy-Started :
      (servers : List Endpoint) (f : FnSelectServer) (g : FnPayload)
      → (u : Setup) × (s : Pipeline) × (setup_delayed_proxy calls ports cpu_clock engine servers f g
          ≡ ok (u, s))
        × Started servers f g u s
  unfolding setup_delayed_proxy
  setup_delayed_proxy-Started servers f g =
      let wheel = W.wheel_new 1002 slot_cycles 2500 in
      let (t, limit, _, _) =
        limited_lem (calls.default_or_some engine.timeouts) (W.get_max_timeout_cycles wheel)
          able.limit able.limits in
      let tick : calls.tick_length (cpu_clock / 100) ≡ cpu_clock / 100 =
        able.tick (cpu_clock / 100) in
      let res : W.resolution wheel ≡ cpu_clock / 100 =
        W.new_resolution 1002 slot_cycles 2500 ∙ one_tick in
      let (valid, sound) =
        new-IsValid calls.shuffle_ports ports.port_mask ports.flow_ip ports.flow_port
          (records_mode engine) able.shuffles able.range in
      (
        given servers f g t,
        started,
        rw (tick, res)
            (rw (le→leb (cpu_clock / 100) (cpu_clock / 100) (omega arith))
              (rw (divide_same (cpu_clock / 100) (omega (arith, able.clock))) (rw limit refl))),
        record {
          ready = record {
            good = record {
              valid = valid;
              sound = sound;
              same_mode = off;
              settled = λ q d live. absurd (new-Live q d live);
            };
            stocked = stocked;
          };
          servers_same = refl;
          select_same = refl;
          payload_same = refl;
          port_same = refl;
          me_same = refl;
          flow_ips = (refl, here.0);
          first_port = (here.1, here.1);
          mask_same = here.2;
          pool_same = refl;
          each_tick = refl;
        },
      )

  inside : (a b : Setup × Pipeline) → ok a ≡ ok b → a ≡ b
  inside a b e = cc

  -- The same of what a call has given.
  pub begins-Started :
      (servers : List Endpoint) (f : FnSelectServer) (g : FnPayload) (u : Setup) (s : Pipeline)
      → setup_delayed_proxy calls ports cpu_clock engine servers f g ≡ ok (u, s)
      → Started servers f g u s
  begins-Started servers f g u s begins =
      let (u', s', ran, there) = setup_delayed_proxy-Started servers f g in
      subst (λ (us : Setup × Pipeline). Started servers f g us.0 us.1)
        (inside (u', s') (u, s) (sym ran ∙ begins)) there
