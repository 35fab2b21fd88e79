-- ===== src/Server.antt =====
-- nftcp.rs, the closure's branch "server to client": one packet of a server on its connection.
pub mod Branches
pub mod Events
pub mod Packets
pub mod Groups
pub mod Recorded
use proxyengine.Base.{
  ℕ, ◌+◌, Bool, true, false, ◌&&◌, Option, none, some, List, ◌++◌, ◌==◌, if◌then◌else◌, Result, ok,
  ◌>>=◌,
}
use proxyengine.Base.Words.{wrapping_add}
use proxyengine.Tcp.{
  TcpState, syn_received, established, last_ack, fin_wait1, fin_wait2, closing, closed, state_eq,
  StateOrder, at_least, before, active_close, passive_close, recv_syn_ack, sent_syn_ack2,
  sent_payload, recv_fin, sent_fin, recv_fin_pssv, sent_fin_pssv, recv_ack4_fin, sent_ack4_fin,
}
use proxyengine.Packet.{TcpHeader}
use proxyengine.External.{RecStore, TimerWheel, PacketOps}
use proxyengine.Connection.{ProxyConnection}
use proxyengine.Forward.{server_synack_received, server_to_client}
use proxyengine.Flow.{
  Setup, Readings, Flow, count_c, count_s, c_push, s_push, c_cause, s_cause, to_group,
}
use proxyengine.Client.{check_closed}

module _ ⦃order : StateOrder⦄ ⦃R : RecStore⦄ ⦃W : TimerWheel⦄ ⦃O : PacketOps⦄ (u : Setup)
    (tsc : Readings) where
  unfoldable pub on_synack : TcpState → Flow → Result Flow
  on_synack old_s x =
      let x₀ = count_s recv_syn_ack x in
      if state_eq old_s syn_received
      then (do
        x₁ ← s_push (tsc 1) established x₀
        let answered = server_synack_received x₁.pdu x₁.con
        ok (
            to_group 0 (
              count_s sent_payload (
                count_s sent_syn_ack2 (record x₁ {
                  pdu = answered.0;
                  con = answered.1;
                  sent = x₁.sent ++ answered.2;
                })))))
      else ok (to_group 0 x₀)

  -- The server answers the client's FIN by its own.
  unfoldable pub on_fin_passive : Flow → Result Flow
  on_fin_passive x = do
    x₁ ← s_cause passive_close (
        count_c sent_ack4_fin
          (count_s recv_ack4_fin (count_c sent_fin_pssv (count_s recv_fin_pssv x))))
    s_push (tsc 1) last_ack x₁

  unfoldable pub on_fin_both : TcpState → Flow → Result Flow
  on_fin_both old_c x = do
    x₁ ← s_cause active_close (count_c sent_fin (count_s recv_fin x))
    x₂ ← s_push (tsc 1) closing x₁
    if state_eq old_c fin_wait1
        then c_push closing x₂
        else if state_eq old_c fin_wait2
        then c_push closed x₂
        else ok x₂

  -- The server closes first.
  unfoldable pub on_fin_active : Flow → Result Flow
  on_fin_active x = do
    x₁ ← s_push (tsc 1) fin_wait1 x
    x₂ ← s_cause active_close x₁
    ok (count_c sent_fin (count_s recv_fin x₂))

  unfoldable pub on_fin : TcpState → Flow → Result Flow
  on_fin old_c x =
      if at_least old_c fin_wait1
      then (if x.pdu.tcp.ack_flag && x.pdu.tcp.ack_num == wrapping_add x.con.seqn_fin_p2s 1
          then on_fin_passive x
          else on_fin_both old_c x)
      else on_fin_active x

  -- An ACK while the client side closes; it counts if it acknowledges the client's FIN.
  abbrev pub client_after_ack : TcpState → Flow → Result Flow
  client_after_ack last_ack x = c_push closed x >>= λ x₁. s_push (tsc 1) closed x₁
  client_after_ack fin_wait1 x = c_push fin_wait2 x
  client_after_ack closing x = c_push closed x
  client_after_ack _ x = ok x

  unfoldable pub on_ack_of_fin : TcpState → Flow → Result Flow
  on_ack_of_fin old_c x =
      if x.pdu.tcp.ack_num == wrapping_add x.con.seqn_fin_p2s 1
      then (do x₁ ← client_after_ack old_c x; ok (count_c sent_ack4_fin (count_s recv_ack4_fin x₁)))
      else ok x

  -- The chain of conditions; `true` says that the packet was not expected.
  unfoldable pub server_event : TcpState → TcpState → Flow → Result (Flow × Bool)
  server_event old_c old_s x =
      let t = x.pdu.tcp in
      if t.ack_flag && t.syn_flag
      then (do x₁ ← on_synack old_s x; ok (x₁, false))
      else if t.fin_flag
      then (do x₁ ← on_fin old_c x; ok (x₁, false))
      else if at_least old_c last_ack && t.ack_flag
      then (do x₁ ← on_ack_of_fin old_c x; ok (x₁, false))
      else ok (x, true)

  -- Once the two-way connection stands, the server's packets are always forwarded; elsewhere an
  -- unexpected one goes to the kernel.
  unfoldable pub forward_to_client : TcpState → TcpState → Flow × Bool → Result Flow
  forward_to_client old_c old_s (x, b_unexpected) =
      if at_least old_s established && (at_least old_c established && before old_c closed)
      then (do
        forwarded ← server_to_client u.me x.pdu x.con
        ok (to_group 1 (record x { pdu = forwarded.0; con = forwarded.1 })))
      else ok (if b_unexpected then to_group 2 x else x)

  unfoldable pub server_packet : Flow → Result Flow
  server_packet x = do
    let old_c = x.con.client_state
    let old_s = x.con.server_state
    handled ← server_event old_c old_s x
    forward_to_client old_c old_s (check_closed u tsc handled.0, handled.1)
