-- ===== src/Tcp.antt =====
-- The TCP vocabulary that src/nftcp.rs and src/cmanager.rs take from the crate netfcts: the
-- variants that they name. How netfcts numbers the states, which decides what `<` and `>=` mean
-- between two of them, is the parameter `StateOrder`.
use proxyengine.Base.{ℕ, ◌<◌, Bool, true, false, ltb, leb}

pub data TcpState : Type 0 where
  listen syn_received syn_sent established close_wait last_ack : TcpState
  fin_wait1 fin_wait2 closing closed : TcpState

pub data ReleaseCause : Type 0 where
  unknown timeout passive_close active_close active_rst : ReleaseCause

pub data TcpStatistics : Type 0 where
  recv_syn sent_syn recv_syn_ack sent_syn_ack recv_syn_ack2 sent_syn_ack2 : TcpStatistics
  recv_payload sent_payload recv_fin sent_fin recv_fin_pssv sent_fin_pssv : TcpStatistics
  recv_ack4_fin sent_ack4_fin recv_rst unexpected : TcpStatistics

pub TcpStatistics-discrete : Discrete TcpStatistics
TcpStatistics-discrete = hlevel

pub TcpState-discrete : Discrete TcpState
TcpState-discrete = hlevel

-- `==` between two states.
abbrev pub state_eq : TcpState → TcpState → Bool
state_eq listen listen = true
state_eq syn_received syn_received = true
state_eq syn_sent syn_sent = true
state_eq established established = true
state_eq close_wait close_wait = true
state_eq last_ack last_ack = true
state_eq fin_wait1 fin_wait1 = true
state_eq fin_wait2 fin_wait2 = true
state_eq closing closing = true
state_eq closed closed = true
state_eq _ _ = false

-- The derived PartialOrd of netfcts::tcp_common::TcpState: the discriminants, and the comparisons
-- between them on which the proxy's guards rest.
pub record StateOrder : Type 0 where
  pub rank : TcpState → ℕ
  pub listen_first : rank listen < rank syn_received
  pub received_early : rank syn_received < rank established
  pub sent_early : rank syn_sent < rank established
  pub established_early : rank established < rank close_wait
  pub wait_before_last_ack : rank close_wait < rank last_ack
  pub last_ack_early : rank last_ack < rank fin_wait1
  pub fin_wait1_early : rank fin_wait1 < rank fin_wait2
  pub closing_late : rank fin_wait1 < rank closing
  pub fin_wait2_open : rank fin_wait2 < rank closed
  pub closing_open : rank closing < rank closed

module _ ⦃order : StateOrder⦄ where
  -- `s >= t` and `s < t`.
  abbrev pub at_least : TcpState → TcpState → Bool
  at_least s t = leb (order.rank t) (order.rank s)

  abbrev pub before : TcpState → TcpState → Bool
  before s t = ltb (order.rank s) (order.rank t)
