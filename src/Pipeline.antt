-- ===== src/Pipeline.antt =====
-- nftcp.rs, the closure of `setup_delayed_proxy`: what one pipeline does with one packet.
--
-- The verdict is the group index of the source: 0 drops the packet, 1 sends it to the network
-- interface, 2 to the kernel's. Logging, checksum offload flags and the profiling code are left out.
pub mod Leaving
pub mod Servers
pub mod Clients
pub mod Entry
pub mod Roles
pub mod Good
pub mod Ticks
pub mod Rooms
pub mod Ready
pub mod Dispatch
pub mod Runs
pub mod Groups
pub mod Records
use proxyengine.Base.{
  ℕ, zero, suc, ◌+◌, ◌%◌, Bool, not, ◌&&◌, ◌||◌, Option, none, some, List, [], ◌∷◌, ◌++◌, ltb, ◌==◌,
  if◌then◌else◌, Result, ok, panic, ◌>>=◌, ◌>>◌, assert,
}
use proxyengine.Tcp.{StateOrder}
use proxyengine.Packet.{Sock, Pdu}
use proxyengine.External.{RecStore, TimerWheel, PacketOps}
use proxyengine.Detailed.{Heap}
use proxyengine.Connection.{ProxyConnection}
use proxyengine.Allocator.{PduAllocator}
use proxyengine.Manager.{
  ConnectionManager, Ref, put_con, get_mut_by_port, get_mut_by_sock, get_mut_or_insert,
  release_port, release_timeouts, fetch_c_records,
}
use proxyengine.Flow.{Setup, Readings, Counter, Flow}
use proxyengine.Client.{client_packet}
use proxyengine.Server.{server_packet}

-- netfcts::comm: a request of the run time, and what a pipeline answers to it.
pub data MessageTo : Type 0 where
  fetch_counter fetch_c_recs other_message : MessageTo

-- The pipeline's two channels at a tick: what `rx.try_recv()` has, and whether the run time still
-- has the other end of `tx`, without which `send` is an error.
pub record Channels : Type 0 where
  pub waiting : Option MessageTo
  pub connected : Bool

-- `%`, which panics for 0.
abbrev pub modulo : ℕ → ℕ → Result ℕ
modulo a zero = panic
modulo a (suc b) = ok (a % suc b)

module _ ⦃O : PacketOps⦄ where
  -- The early returns: a packet that is not for the proxy, with the group it goes to.
  unfoldable pub early_return : Setup → Pdu → Option ℕ
  early_return u p =
      let me = u.me.l234 in
      let private = O.private_etype p.mac.etype in
      if private
      then none
      else if not (p.mac.dst == me.mac)
          && (not (O.is_multicast p.mac.dst) && not (O.is_broadcast p.mac.dst))
      then some 0
      else if not (p.mac.etype == 0x0800)
      then some 2
      else if not (p.ip.protocol == 6)
          || (not (p.ip.dst == u.pipeline_ip) && not (p.ip.dst == me.ip))
      then some 2
      else if not (p.tcp.dst_port == me.port) && ltb p.tcp.dst_port u.tcp_min_port
      then some 2
      else none

module _ ⦃R : RecStore⦄ where
  pub data MessageFrom : Type 0 where
    counters : Counter → Counter → MessageFrom
    c_records : Option R.Store → MessageFrom

module _ ⦃order : StateOrder⦄ ⦃R : RecStore⦄ ⦃W : TimerWheel⦄ ⦃O : PacketOps⦄ where
  -- What the closure keeps between packets.
  pub record Pipeline : Type 0 where
    pub cm : ConnectionManager
    pub heap : Heap
    pub wheel : W.Wheel
    pub counter_c : Counter
    pub counter_s : Counter
    pub allocator : PduAllocator
    pub ticks : ℕ
    pub sent : List Pdu
    pub answers : List MessageFrom

  -- A packet's group, the packet as it goes out, and the pipeline after it.
  abbrev pub Verdict : Type 0
  Verdict = ℕ × Pdu × Pipeline

  abbrev pub enter : Pipeline → ProxyConnection → Pdu → Flow
  enter s c p = record {
    heap = s.heap;
    con = c;
    pdu = p;
    wheel = s.wheel;
    counter_c = s.counter_c;
    counter_s = s.counter_s;
    allocator = s.allocator;
    sent = s.sent;
    group_index = 0;
    release_connection = none;
  }

  abbrev pub release_if :
      Option ℕ → ConnectionManager → W.Wheel → Result (ConnectionManager × W.Wheel)
  release_if none cm wheel = ok (cm, wheel)
  release_if (some sport) cm wheel = release_port cm sport wheel

  -- Writes the connection on `port` back, and releases it if that was asked for.
  unfoldable pub leave : Pipeline → ℕ → Flow → Result Verdict
  leave s port x = do
    let cm = put_con s.cm port x.con
    after ← release_if x.release_connection cm x.wheel
    ok (
      x.group_index,
      x.pdu,
      record s {
        cm = after.0;
        wheel = after.1;
        heap = x.heap;
        counter_c = x.counter_c;
        counter_s = x.counter_s;
        allocator = x.allocator;
        sent = x.sent;
      },
    )

  -- The connection of a client's packet: a SYN may open one.
  unfoldable pub find_client :
      Pipeline → Sock → Bool → Result (Option Ref × Heap × ConnectionManager)
  find_client s src_sock syn =
      if syn
      then get_mut_or_insert s.heap s.cm src_sock
      else (do found ← get_mut_by_sock s.cm src_sock; ok (found, s.heap, s.cm))

  unfoldable pub client_side : Setup → Readings → Pdu → Pipeline → Result Verdict
  client_side u tsc p s = do
    found ← find_client s (p.ip.src, p.tcp.src_port) p.tcp.syn_flag
    let s₁ = record s { heap = found.1; cm = found.2 }
    elim found.0 [
      | none ↦ ok (0, p, s₁)
      | some (port, c) ↦ do x ← client_packet u tsc (enter s₁ c p); leave s₁ port x
    ]

  unfoldable pub server_side : Setup → Readings → Pdu → Pipeline → Result Verdict
  server_side u tsc p s = do
    found ← get_mut_by_port s.cm p.tcp.dst_port
    elim found [
      | none ↦ ok (2, p, s)
      | some (port, c) ↦ do x ← server_packet u tsc (enter s c p); leave s port x
    ]

  -- The fuel is one more than the slots that are due, which is enough.
  abbrev pub timeouts : Pipeline → ℕ → Result Pipeline
  timeouts s now = elim (release_timeouts (suc (W.due s.wheel now)) s.heap s.cm s.wheel now) [
    | none ↦ panic
    | some r ↦ r >>= λ after. ok (record s { heap = after.0; cm = after.1; wheel = after.2 })
  ]

  -- `tx_clone.send(..).unwrap()`
  abbrev pub tx_send : Bool → MessageFrom → Pipeline → Result Pipeline
  tx_send connected m s = do assert connected; ok (record s { answers = s.answers ++ m ∷ [] })

  abbrev answer : Channels → Pipeline → Result Pipeline
  answer channels s = elim channels.waiting [
    | none ↦ ok s
    | some fetch_counter ↦ tx_send channels.connected (counters s.counter_c s.counter_s) s
    | some fetch_c_recs ↦
        let fetched = fetch_c_records s.heap s.cm in
        tx_send channels.connected (c_records fetched.0)
          (record s { heap = fetched.1; cm = fetched.2 })
    | some other_message ↦ ok s
  ]

  -- A tick of the generator: a message of the run time, if there is one, then the time-outs.
  unfoldable pub on_tick : Setup → Channels → ℕ → Pipeline → Result Pipeline
  on_tick u channels now s = do
    s₁ ← answer channels (record s { ticks = s.ticks + 1 })
    remainder ← modulo s₁.ticks u.wheel_tick_reduction_factor
    if remainder == 0 then timeouts s₁ now else ok s₁

  -- The closure. `channels` are those to the run time, and `now` is the cycle counter at the
  -- time-outs.
  unfoldable pub handle : Setup → Readings → Channels → ℕ → Pdu → Pipeline → Result Verdict
  handle u tsc channels now p s =
      let dispatched =
        (if p.mac.etype == O.private_etype_packet
          then ok (0, p, s)
          else if p.mac.etype == O.private_etype_timer
          then (do s₁ ← on_tick u channels now s; ok (0, p, s₁))
          else if p.tcp.dst_port == u.me.l234.port
          then client_side u tsc p s
          else server_side u tsc p s) in
      elim (early_return u p) [ none ↦ dispatched | some group ↦ ok (group, p, s) ]
