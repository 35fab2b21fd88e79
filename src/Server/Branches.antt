-- ===== src/Server/Branches.antt =====
-- What the branches of the server side do to a connection: they return, move the states along
-- `ServerStep`, and keep the connection's port, socket and record.
use proxyengine.Base.{ℕ, ◌≡◌, refl, inl, inr, true, false, ◌&&◌, ◌==◌, arith, Option-cases}
use proxyengine.Base.Words.{wrapping_add}
use proxyengine.Tcp.{
  TcpState, syn_received, established, last_ack, fin_wait1, fin_wait2, closing, closed, state_eq,
  StateOrder, at_least, active_close, passive_close, recv_syn_ack,
}
use proxyengine.Packet.{Pdu, TcpHeader}
use proxyengine.External.{RecStore, TimerWheel, PacketOps}
use proxyengine.Connection.{ProxyConnection}
use proxyengine.Forward.{server_synack_received}
use proxyengine.Flow.{Setup, Readings, Flow, count_s, to_group}
use proxyengine.Flow.Rules.{Total, HasRoom, Total-bind, c_push-Total, s_push-Total, s_cause-Total}
use proxyengine.Server.{on_synack, on_fin_passive, on_fin_both, on_fin_active, on_fin}
use proxyengine.Client.Branches.{Kept, Total-if, state_eq_sound}

-- How a server's packet with header `t` moves the states of the client's and of the server's side;
-- `fin_ack` is the number that an ACK of the client's FIN has.
pub data ServerStep ⦃order : StateOrder⦄ (t : TcpHeader) (fin_ack : ℕ)
    : TcpState → TcpState → TcpState → TcpState → Type 0 where
  stays : {c s : TcpState} → ServerStep t fin_ack c s c s
  synack :
      {c : TcpState}
      → t.syn_flag ≡ true
      → t.ack_flag ≡ true
      → ServerStep t fin_ack c syn_received c established
  fin_passive :
      {c s : TcpState}
      → t.fin_flag ≡ true
      → at_least c fin_wait1 ≡ true
      → t.ack_num ≡ fin_ack
      → ServerStep t fin_ack c s c last_ack
  fin_both :
      {c s : TcpState}
      → t.fin_flag ≡ true
      → at_least c fin_wait1 ≡ true
      → ServerStep t fin_ack c s c closing
  fin_both_wait1 :
      {s : TcpState} → t.fin_flag ≡ true → ServerStep t fin_ack fin_wait1 s closing closing
  fin_both_wait2 :
      {s : TcpState} → t.fin_flag ≡ true → ServerStep t fin_ack fin_wait2 s closed closing
  fin_active :
      {c s : TcpState}
      → t.fin_flag ≡ true
      → at_least c fin_wait1 ≡ false
      → ServerStep t fin_ack c s c fin_wait1
  ack_last :
      {s : TcpState}
      → t.ack_flag ≡ true
      → t.ack_num ≡ fin_ack
      → ServerStep t fin_ack last_ack s closed closed
  ack_wait1 :
      {s : TcpState}
      → t.ack_flag ≡ true
      → t.ack_num ≡ fin_ack
      → ServerStep t fin_ack fin_wait1 s fin_wait2 s
  ack_closing :
      {s : TcpState}
      → t.ack_flag ≡ true
      → t.ack_num ≡ fin_ack
      → ServerStep t fin_ack closing s closed s

module _ ⦃order : StateOrder⦄ ⦃R : RecStore⦄ ⦃W : TimerWheel⦄ where
  -- One step of the connection, with no request to release it.
  pub record ServerMoved (x x' : Flow) : Type 0 where
    pub kept_con : Kept x.con x'.con
    pub step :
        ServerStep x.pdu.tcp
          (wrapping_add x.con.seqn_fin_p2s 1)
          x.con.client_state
          x.con.server_state
          x'.con.client_state
          x'.con.server_state
    pub released : x'.release_connection ≡ x.release_connection
    pub timer : (x'.wheel ≡ x.wheel) × (x'.con.wheel_slot_and_index ≡ x.con.wheel_slot_and_index)
    pub rest : (x'.con.server_index ≡ x.con.server_index) × (x'.allocator ≡ x.allocator)

pub synack_keeps :
    ⦃O : PacketOps⦄ (p : Pdu) (c : ProxyConnection)
    → Kept c (server_synack_received p c).1
      × ((server_synack_received p c).1.client_state ≡ c.client_state)
      × ((server_synack_received p c).1.server_state ≡ c.server_state)
      × ((server_synack_received p c).1.wheel_slot_and_index ≡ c.wheel_slot_and_index)
      × ((server_synack_received p c).1.server_index ≡ c.server_index)
unfolding server_synack_received
synack_keeps p c = elim (Option-cases c.payload_packet) [
  | inl e ↦
      rw (e, server_synack_received)
        (record { port = refl; socket = refl; details = refl }, refl, refl, refl, refl)
  | inr (d, e) ↦
      rw (e, server_synack_received)
        (record { port = refl; socket = refl; details = refl }, refl, refl, refl, refl)
]

module _ ⦃order : StateOrder⦄ ⦃R : RecStore⦄ ⦃W : TimerWheel⦄ ⦃O : PacketOps⦄ (u : Setup)
    (tsc : Readings) (x : Flow) where
  pub on_synack-Moved :
      HasRoom 1 x
      → x.pdu.tcp.syn_flag ≡ true
      → x.pdu.tcp.ack_flag ≡ true
      → Total (ServerMoved x) (on_synack u tsc x.con.server_state x)
  unfolding on_synack
  on_synack-Moved room syn ack =
      let k = synack_keeps x.pdu (record (x.con) { server_state = established }) in
      Total-if {P = ServerMoved x} (state_eq x.con.server_state syn_received) _ _
        (λ e. Total-bind (ServerMoved x) _ _ (
          s_push-Total _ 0 (count_s recv_syn_ack x) (tsc 1) established room λ h _. (
            _,
            refl,
            record {
              kept_con = record { port = k.0.port; socket = k.0.socket; details = k.0.details };
              step =
                  rw (k.1, k.2, state_eq_sound x.con.server_state syn_received e) (synack syn ack);
              released = refl;
              timer = (refl, k.3);
              rest = (k.4, refl);
            },
          )))
        (λ _. (
          to_group 0 (count_s recv_syn_ack x),
          refl,
          record {
            kept_con = record { port = refl; socket = refl; details = refl };
            step = stays;
            released = refl;
            timer = (refl, refl);
            rest = (refl, refl);
          },
        ))

  on_fin_passive-Moved :
      HasRoom 1 x
      → x.pdu.tcp.fin_flag ≡ true
      → at_least x.con.client_state fin_wait1 ≡ true
      → x.pdu.tcp.ack_num ≡ wrapping_add x.con.seqn_fin_p2s 1
      → Total (ServerMoved x) (on_fin_passive u tsc x)
  unfolding on_fin_passive
  on_fin_passive-Moved room fin late acked = Total-bind (ServerMoved x) _ _ (
      s_cause-Total _ 1 _ passive_close room λ h room₁.
        s_push-Total _ 0 _ (tsc 1) last_ack room₁ λ h₂ _. record {
          kept_con = record { port = refl; socket = refl; details = refl };
          step = fin_passive fin late acked;
          released = refl;
          timer = (refl, refl);
          rest = (refl, refl);
        })

  on_fin_both-Moved :
      HasRoom 1 x
      → x.pdu.tcp.fin_flag ≡ true
      → at_least x.con.client_state fin_wait1 ≡ true
      → Total (ServerMoved x) (on_fin_both u tsc x.con.client_state x)
  unfolding on_fin_both
  on_fin_both-Moved room fin late = Total-bind (ServerMoved x) _ _ (
      s_cause-Total _ 1 _ active_close room λ h room₁. Total-bind (ServerMoved x) _ _ (
        s_push-Total _ 0 _ (tsc 1) closing room₁ λ h₂ room₂.
          Total-if {P = ServerMoved x} (state_eq x.con.client_state fin_wait1) _ _
            (λ e. c_push-Total (ServerMoved x) 0 _ closing room₂ λ h₃ _. record {
              kept_con = record { port = refl; socket = refl; details = refl };
              step = rw (state_eq_sound x.con.client_state fin_wait1 e) (fin_both_wait1 fin);
              released = refl;
              timer = (refl, refl);
              rest = (refl, refl);
            })
            (λ _.
              Total-if {P = ServerMoved x} (state_eq x.con.client_state fin_wait2) _ _
                (λ e. c_push-Total (ServerMoved x) 0 _ closed room₂ λ h₃ _. record {
                  kept_con = record { port = refl; socket = refl; details = refl };
                  step = rw (state_eq_sound x.con.client_state fin_wait2 e) (fin_both_wait2 fin);
                  released = refl;
                  timer = (refl, refl);
                  rest = (refl, refl);
                })
                (λ _. (
                  _,
                  refl,
                  record {
                    kept_con = record { port = refl; socket = refl; details = refl };
                    step = fin_both fin late;
                    released = refl;
                    timer = (refl, refl);
                    rest = (refl, refl);
                  },
                )))))

  on_fin_active-Moved :
      HasRoom 1 x
      → x.pdu.tcp.fin_flag ≡ true
      → at_least x.con.client_state fin_wait1 ≡ false
      → Total (ServerMoved x) (on_fin_active u tsc x)
  unfolding on_fin_active
  on_fin_active-Moved room fin early = Total-bind (ServerMoved x) _ _ (
      s_push-Total _ 0 _ (tsc 1) fin_wait1 room λ h room₁. Total-bind (ServerMoved x) _ _ (
        s_cause-Total _ 0 _ active_close room₁ λ h₂ _. (
          _,
          refl,
          record {
            kept_con = record { port = refl; socket = refl; details = refl };
            step = fin_active fin early;
            released = refl;
            timer = (refl, refl);
            rest = (refl, refl);
          },
        )))

  pub on_fin-ServerMoved :
      HasRoom 1 x
      → x.pdu.tcp.fin_flag ≡ true
      → Total (ServerMoved x) (on_fin u tsc x.con.client_state x)
  unfolding on_fin
  on_fin-ServerMoved room fin =
      Total-if {P = ServerMoved x} (at_least x.con.client_state fin_wait1) _ _
        (λ late.
          Total-if {P = ServerMoved x}
            (x.pdu.tcp.ack_flag && x.pdu.tcp.ack_num == wrapping_add x.con.seqn_fin_p2s 1) _ _
            (λ e. on_fin_passive-Moved room fin late (ground (arith, e)))
            (λ _. on_fin_both-Moved room fin late))
        (λ early. on_fin_active-Moved room fin early)
