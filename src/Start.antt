-- ===== src/Start.antt =====
-- nftcp.rs, `setup_delayed_proxy` before the closure: the wheel, the time-outs, the
-- connection manager and what else the closure works with. Its streams, tasks and messages are those
-- of Wiring.
--
-- Multiplications on u64 keep their wrap-around. `timeouts.established.unwrap()` stands in the
-- closure, at each SYN; it never changes there, and is unwrapped here.
pub mod Laws
use proxyengine.Base.{
  ℕ, zero, suc, ◌*◌, ◌/◌, ◌%◌, Bool, false, Option, none, some, List, [], ltb, leb, if◌then◌else◌,
  Result, ok, panic, ◌>>=◌, ◌>>◌, assert, unwrap,
}
use proxyengine.Base.Words.{u64_mod}
use proxyengine.Packet.{Pdu, Endpoint}
use proxyengine.Tcp.{StateOrder}
use proxyengine.External.{RecStore, TimerWheel, PacketOps}
use proxyengine.Allocator as Alloc
use proxyengine.Manager as Man
use proxyengine.Config.{Timeouts, EngineConfig}
use proxyengine.Forward.{FnSelectServer, FnPayload}
use proxyengine.Flow.{Setup}
use proxyengine.Pipeline.{Pipeline}

abbrev pub timer_wheel_resolution_ms : ℕ
timer_wheel_resolution_ms = 10

abbrev pub timer_wheel_slots : ℕ
timer_wheel_slots = 1002

abbrev pub timer_wheel_slot_capacity : ℕ
timer_wheel_slot_capacity = 2500

-- u64 multiplication, and `/`, which panics for 0.
abbrev pub mul_u64 : ℕ → ℕ → ℕ
mul_u64 a b = (a * b) % u64_mod

abbrev pub divide : ℕ → ℕ → Result ℕ
divide a zero = panic
divide a (suc b) = ok (a / suc b)

abbrev pub or_else {ℓ} : {A : Type ℓ} → A → Option A → A
or_else a none = a
or_else _ (some a) = a

-- The check that the time-out does not overflow the wheel.
unfoldable pub limited : Timeouts → ℕ → Timeouts
limited timeouts max_cycles = elim timeouts.established [
  | none ↦ timeouts
  | some timeout ↦
      if ltb max_cycles timeout then record timeouts { established = some max_cycles } else timeouts
]

-- The kernel interface's endpoint, and the L4 flow of this core: its address, its first port and
-- the mask of the port's queue.
pub record Interfaces : Type 0 where
  pub kni : Endpoint
  pub flow_ip : ℕ
  pub flow_port : ℕ
  pub port_mask : ℕ

-- What the set-up calls of other crates: shuffle_ports, Timeouts::default_or_some, the length of a
-- tick of a TickGenerator made for that length, and Pdu::new_pdu_array by the number of its call.
pub record Calls : Type 0 where
  pub shuffle_ports : ℕ → ℕ → List ℕ
  pub default_or_some : Option Timeouts → Timeouts
  pub tick_length : ℕ → ℕ
  pub new_pdu_array : ℕ → Option (List Pdu)

module _ ⦃order : StateOrder⦄ ⦃R : RecStore⦄ ⦃W : TimerWheel⦄ ⦃O : PacketOps⦄ (calls : Calls) where
  unfoldable pub setup_delayed_proxy :
      Interfaces
      → ℕ
      → EngineConfig
      → List Endpoint
      → FnSelectServer
      → FnPayload
      → Result (Setup × Pipeline)
  setup_delayed_proxy ports cpu_clock engine servers f_select_server f_process_payload = do
    let cm =
        Man.new calls.shuffle_ports ports.port_mask ports.flow_ip ports.flow_port
          (or_else false engine.detailed_records)
    let wheel =
        W.wheel_new timer_wheel_slots (mul_u64 cpu_clock timer_wheel_resolution_ms / 1000)
          timer_wheel_slot_capacity
    let timeouts = limited (calls.default_or_some engine.timeouts) (W.get_max_timeout_cycles wheel)
    let tick = calls.tick_length (cpu_clock / 100)
    assert (leb tick (W.resolution wheel))
    factor ← divide (W.resolution wheel) tick
    established ← unwrap timeouts.established
    ok (
      record {
        me = record { l234 = record (ports.kni) { port = engine.port }; ip_s = ports.flow_ip };
        servers = servers;
        f_select_server = f_select_server;
        f_process_payload = f_process_payload;
        tcp_min_port = cm.tcp_port_base;
        pipeline_ip = cm.ip;
        timeout_cycles = mul_u64 established cpu_clock / 1000;
        wheel_tick_reduction_factor = factor;
        new_pdu_array = calls.new_pdu_array;
      },
      record {
        cm = cm;
        heap = λ _. R.with_capacity Man.max_records;
        wheel = wheel;
        counter_c = λ _. 0;
        counter_s = λ _. 0;
        allocator = Alloc.new calls.new_pdu_array;
        ticks = 0;
        sent = [];
        answers = [];
      },
    )
