-- ===== src/Client.antt =====
-- nftcp.rs, the closure's branch "client to server": one packet of a client on its connection.
--
-- The nested conditions are one function; each branch is a function of its own. What the branch
-- does to the connection, its records and the counters stands in the source's order.
pub mod Branches
pub mod Closing
pub mod Acknowledged
pub mod Events
pub mod Passing
pub mod Packets
pub mod Unbound
pub mod Groups
pub mod Recorded
use proxyengine.Base.{
  ℕ, ◌+◌, Bool, true, false, not, ◌&&◌, ◌||◌, Option, none, some, ltb, ◌==◌, if◌then◌else◌, Result,
  ok, ◌>>=◌, unwrap,
}
use proxyengine.Base.Words.{wrapping_add}
use proxyengine.Tcp.{
  TcpState, listen, syn_received, syn_sent, established, close_wait, last_ack, fin_wait1, fin_wait2,
  closing, closed, state_eq, StateOrder, at_least, before, active_close, passive_close, active_rst,
  recv_syn, sent_syn_ack, recv_syn_ack2, recv_fin, sent_fin, recv_fin_pssv, sent_fin_pssv,
  recv_ack4_fin, sent_ack4_fin, recv_rst, recv_payload, sent_syn, unexpected,
}
use proxyengine.Packet.{TcpHeader}
use proxyengine.External.{RecStore, TimerWheel, PacketOps}
use proxyengine.Connection.{ProxyConnection}
use proxyengine.Allocator as Alloc
use proxyengine.Forward.{client_syn_received, client_to_server, select_server, with_tcp}
use proxyengine.Flow.{
  Setup, Readings, Flow, count_c, count_s, c_push, s_push, c_cause, s_cause, s_reset, to_group,
  with_con,
}

module _ ⦃order : StateOrder⦄ ⦃R : RecStore⦄ ⦃W : TimerWheel⦄ ⦃O : PacketOps⦄ (u : Setup)
    (tsc : Readings) where
  -- `wheel.schedule(..)` for the connection.
  abbrev scheduled : Flow → Flow
  scheduled x =
      let entry = W.schedule x.wheel u.timeout_cycles x.con.proxy_port in
      record x { con = record (x.con) { wheel_slot_and_index = entry.0 }; wheel = entry.1 }

  unfoldable pub on_syn : Flow → Result Flow
  on_syn x = do
    let replied = client_syn_received (tsc 0) x.pdu x.con
    x₁ ← c_push syn_sent (record x { pdu = replied.0; con = replied.1 })
    ok (to_group 1 (scheduled (count_c sent_syn_ack (count_c recv_syn x₁))))

  unfoldable pub on_ack_of_syn : Flow → Result Flow
  on_ack_of_syn x = do x₁ ← c_push established x; ok (count_c recv_syn_ack2 x₁)

  -- The client answers the server's FIN by its own.
  unfoldable pub on_fin_passive : Flow → Result Flow
  on_fin_passive x = do
    x₁ ← c_cause passive_close (
        count_s sent_ack4_fin
          (count_c recv_ack4_fin (count_s sent_fin_pssv (count_c recv_fin_pssv x))))
    x₂ ← c_push last_ack x₁
    ok (to_group 1 x₂)

  -- Both sides close at once.
  unfoldable pub on_fin_both : TcpState → Flow → Result Flow
  on_fin_both old_s x = do
    x₁ ← c_cause active_close (count_s sent_fin (count_c recv_fin x))
    x₂ ← c_push closing x₁
    x₃ ←
        (if state_eq old_s fin_wait1
          then s_push (tsc 1) closing x₂
          else if state_eq old_s fin_wait2
          then s_push (tsc 1) closed x₂
          else ok x₂)
    ok (to_group 1 x₃)

  -- The FIN-ACK with which the proxy itself answers, as there is no server yet.
  abbrev pub fin_ack : Flow → Flow
  fin_ack x =
      let reply = O.make_reply_packet x.pdu 1 in
      let seqn = wrapping_add x.con.c_seqn 1 in
      record x {
        pdu =
            O.prepare_checksum_and_ttl
              (with_tcp reply (record (reply.tcp) { ack_flag = true; seq_num = seqn }));
        con = record (x.con) { c_seqn = seqn };
      }

  unfoldable pub on_fin_unbound : Flow → Result Flow
  on_fin_unbound x = do
    x₁ ← s_push (tsc 1) last_ack (fin_ack x)
    x₂ ← s_cause passive_close x₁
    let x₃ = count_c sent_ack4_fin (count_c sent_fin_pssv x₂)
    ok (with_con x₃ (record (x₃.con) { seqn = wrapping_add x₃.con.c_seqn 1 }))

  -- The client closes first.
  unfoldable pub on_fin_active : TcpState → Flow → Result Flow
  on_fin_active old_s x = do
    x₁ ← c_cause active_close x
    x₂ ← c_push fin_wait1 (count_c recv_fin x₁)
    x₃ ← (if before old_s established then on_fin_unbound x₂ else ok (count_s sent_fin x₂))
    ok (to_group 1 x₃)

  unfoldable pub on_fin : TcpState → Flow → Result Flow
  on_fin old_s x =
      if at_least old_s fin_wait1
      then (if x.pdu.tcp.ack_flag && x.pdu.tcp.ack_num == x.con.seqn
          then on_fin_passive x
          else on_fin_both old_s x)
      else on_fin_active old_s x

  unfoldable pub on_rst : Flow → Result Flow
  on_rst x = do
    x₁ ← c_push closed (count_c recv_rst x)
    x₂ ← c_cause active_rst x₁
    ok (record x₂ { release_connection = some x₂.con.proxy_port })

  -- The ACK for the server's FIN.
  abbrev pub server_after_ack : TcpState → Flow → Result Flow
  server_after_ack fin_wait1 x = s_push (tsc 1) fin_wait2 x
  server_after_ack closing x = s_push (tsc 1) closed x
  server_after_ack _ x = ok x

  abbrev pub client_after_ack : TcpState → Flow → Result Flow
  client_after_ack established x = c_push close_wait x
  client_after_ack fin_wait1 x = c_push closing x
  client_after_ack fin_wait2 x = c_push closed x
  client_after_ack _ x = ok x

  unfoldable pub on_ack_of_fin : TcpState → TcpState → Flow → Result Flow
  on_ack_of_fin old_c old_s x = do
    x₁ ← server_after_ack old_s x
    x₂ ← client_after_ack old_c x₁
    ok (count_s sent_ack4_fin (count_c recv_ack4_fin x₂))

  -- The last ACK of a close that the client began.
  unfoldable pub on_final_ack : Flow → Result Flow
  on_final_ack x = do
    x₁ ← s_push (tsc 1) closed x
    x₂ ← c_push closed x₁
    ok (count_s sent_ack4_fin (count_c recv_ack4_fin x₂))

  unfoldable pub on_first_payload : Flow → Result Flow
  on_first_payload x = do
    let got = Alloc.get_pdu u.new_pdu_array x.allocator
    syn ← unwrap got.0
    opened ← select_server u.f_select_server u.me u.servers syn x.pdu x.con
    x₁ ← s_reset (record x { pdu = opened.0; con = opened.1; allocator = got.1 })
    x₂ ← s_push (tsc 1) syn_received x₁
    ok (to_group 1 (count_s sent_syn (count_c recv_payload x₂)))

  -- The chain of conditions, on the states as they were when the packet came in.
  unfoldable pub client_event : TcpState → TcpState → Flow → Result Flow
  client_event old_c old_s x =
      let t = x.pdu.tcp in
      if not (state_eq old_c closed) && ltb t.seq_num x.con.ackn_p2c
      then ok x
      else if t.syn_flag
      then (if state_eq old_c closed then on_syn x else ok x)
      else if t.ack_flag && state_eq old_c syn_sent
      then on_ack_of_syn x
      else if t.fin_flag
      then on_fin old_s x
      else if t.rst_flag
      then on_rst x
      else if t.ack_flag && (t.ack_num == x.con.seqn && at_least old_s fin_wait1)
      then on_ack_of_fin old_c old_s x
      else if state_eq old_s last_ack && (t.ack_flag && t.ack_num == x.con.seqn)
      then on_final_ack x
      else if state_eq old_c established && state_eq old_s listen
      then on_first_payload x
      else if before old_s syn_received || before old_c established
      then ok (to_group 2 (count_c unexpected x))
      else ok x

  -- A connection that is closed on both sides is released afterwards.
  abbrev pub check_closed : Flow → Flow
  check_closed x =
      if state_eq x.con.client_state closed && state_eq x.con.server_state closed
      then record x { release_connection = some x.con.proxy_port }
      else x

  -- Once the two-way connection stands, the client's packets are always forwarded.
  unfoldable pub forward_to_server : TcpState → TcpState → Flow → Result Flow
  forward_to_server old_c old_s x =
      if at_least old_s established && (before old_s closed && at_least old_c established)
      then (do
        forwarded ← client_to_server u.f_process_payload u.me u.servers x.pdu x.con
        ok (to_group 1 (record x { pdu = forwarded.0; con = forwarded.1 })))
      else ok x

  unfoldable pub client_packet : Flow → Result Flow
  client_packet x = do
    let old_c = x.con.client_state
    let old_s = x.con.server_state
    x₁ ← client_event old_c old_s x
    forward_to_server old_c old_s (check_closed x₁)
