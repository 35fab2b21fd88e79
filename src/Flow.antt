-- ===== src/Flow.antt =====
-- nftcp.rs, what the closure works with while it handles one packet of a connection: the connection
-- and its records, the packet, the counters, the wheel, the queue of extra packets, and the verdict.
pub mod Rules
pub mod Groups
pub mod Recorded
use proxyengine.Base.{
  ℕ, suc, ◌+◌, Bool, true, false, Option, none, some, List, [], ◌∷◌, ◌++◌, if◌then◌else◌, Result,
  ok, ◌>>=◌,
}
use proxyengine.Tcp.{TcpState, ReleaseCause, TcpStatistics, TcpStatistics-discrete}
use proxyengine.Packet.{Pdu, Endpoint}
use proxyengine.External.{RecStore, TimerWheel}
use proxyengine.Detailed.{Heap}
use proxyengine.Connection as Con
use proxyengine.Connection.{ProxyConnection}
use proxyengine.Allocator.{PduAllocator}
use proxyengine.Forward.{Me, FnSelectServer, FnPayload}
use mathlib.Core.Logic.{ite}

-- What `setup_delayed_proxy` fixes for the closure. `timeout_cycles` is
-- `timeouts.established.unwrap() * cpu_clock / 1000`.
pub record Setup : Type 0 where
  pub me : Me
  pub servers : List Endpoint
  pub f_select_server : FnSelectServer
  pub f_process_payload : FnPayload
  pub tcp_min_port : ℕ
  pub pipeline_ip : ℕ
  pub timeout_cycles : ℕ
  pub wheel_tick_reduction_factor : ℕ
  pub new_pdu_array : ℕ → Option (List Pdu)

-- TcpCounter, and `counter[s] += 1`.
abbrev pub Counter : Type 0
Counter = TcpStatistics → ℕ

abbrev pub bump : TcpStatistics → Counter → Counter
bump s c = λ t. ite (TcpStatistics-discrete s t) (suc (c t)) (c t)

-- The cycle counter's readings while one packet is handled, by the place that reads it: 0 seeds the
-- sequence number, 1 and 2 are the first and the second state that is pushed.
abbrev pub Readings : Type 0
Readings = ℕ → ℕ

module _ ⦃R : RecStore⦄ ⦃W : TimerWheel⦄ where
  pub record Flow : Type 0 where
    pub heap : Heap
    pub con : ProxyConnection
    pub pdu : Pdu
    pub wheel : W.Wheel
    pub counter_c : Counter
    pub counter_s : Counter
    pub allocator : PduAllocator
    pub sent : List Pdu
    pub group_index : ℕ
    pub release_connection : Option ℕ

  abbrev pub count_c : TcpStatistics → Flow → Flow
  count_c s x = record x { counter_c = bump s x.counter_c }

  abbrev pub count_s : TcpStatistics → Flow → Flow
  count_s s x = record x { counter_s = bump s x.counter_s }

  unfoldable pub c_push : TcpState → Flow → Result Flow
  c_push s x = do
    pushed ← Con.c_push_state x.heap x.con s
    ok (record x { heap = pushed.0; con = pushed.1 })

  unfoldable pub s_push : ℕ → TcpState → Flow → Result Flow
  s_push tsc s x = do
    pushed ← Con.s_push_state tsc x.heap x.con s
    ok (record x { heap = pushed.0; con = pushed.1 })

  unfoldable pub c_cause : ReleaseCause → Flow → Result Flow
  c_cause cause x = do h ← Con.set_release_cause x.heap x.con cause; ok (record x { heap = h })

  unfoldable pub s_cause : ReleaseCause → Flow → Result Flow
  s_cause cause x = do h ← Con.s_set_release_cause x.heap x.con cause; ok (record x { heap = h })

  unfoldable pub s_reset : Flow → Result Flow
  s_reset x = do h ← Con.s_init x.heap x.con; ok (record x { heap = h })

  abbrev pub to_group : ℕ → Flow → Flow
  to_group g x = record x { group_index = g }

  abbrev pub with_con : Flow → ProxyConnection → Flow
  with_con x c = record x { con = c }
