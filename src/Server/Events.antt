-- ===== src/Server/Events.antt =====
-- The ACK of the client's FIN, and the chain of conditions on a server's packet.
use proxyengine.Base.{
  ◌≡◌, refl, Bool, true, false, ◌&&◌, ◌==◌, ==_iff, arith, Result, ok, ◌>>=◌, if◌then◌else◌,
}
use proxyengine.Base.Words.{wrapping_add}
use proxyengine.Tcp.{
  TcpState, listen, syn_sent, close_wait, syn_received, established, last_ack, fin_wait1, fin_wait2,
  closing, closed, StateOrder, at_least, recv_ack4_fin, sent_ack4_fin,
}
use proxyengine.External.{RecStore, TimerWheel, PacketOps}
use proxyengine.Flow.{Setup, Readings, Flow, count_c, count_s}
use proxyengine.Flow.Rules.{Total, HasRoom, Total-bind, c_push-Total, s_push-Total}
use proxyengine.Server.{client_after_ack, on_ack_of_fin, server_event}
use proxyengine.Client.Branches.{kept, Total-if}
use proxyengine.Server.Branches.{
  stays, ack_last, ack_wait1, ack_closing, ServerMoved, on_synack-Moved, on_fin-ServerMoved,
}

module _ ⦃order : StateOrder⦄ ⦃R : RecStore⦄ ⦃W : TimerWheel⦄ ⦃O : PacketOps⦄ (u : Setup)
    (tsc : Readings) (x : Flow) where
  ignored : ServerMoved x x
  ignored = record {
    kept_con = kept x.con;
    step = stays;
    released = refl;
    timer = (refl, refl);
    rest = (refl, refl);
  }

  client_after_ack-Moved :
      (c : TcpState)
      → x.con.client_state ≡ c
      → HasRoom 1 x
      → x.pdu.tcp.ack_flag ≡ true
      → x.pdu.tcp.ack_num ≡ wrapping_add x.con.seqn_fin_p2s 1
      → Total (ServerMoved x) (client_after_ack u tsc c x)
  client_after_ack-Moved last_ack e room flag acked = Total-bind (ServerMoved x) _ _ (
      c_push-Total _ 1 _ closed room λ h room₁. s_push-Total _ 0 _ (tsc 1) closed room₁ λ h₂ _.
        record {
          kept_con = record { port = refl; socket = refl; details = refl };
          step = rw e (ack_last flag acked);
          released = refl;
          timer = (refl, refl);
          rest = (refl, refl);
        })
  client_after_ack-Moved fin_wait1 e room flag acked = c_push-Total _ 1 _ fin_wait2 room λ h _.
      record {
        kept_con = record { port = refl; socket = refl; details = refl };
        step = rw e (ack_wait1 flag acked);
        released = refl;
        timer = (refl, refl);
        rest = (refl, refl);
      }
  client_after_ack-Moved closing e room flag acked = c_push-Total _ 1 _ closed room λ h _. record {
    kept_con = record { port = refl; socket = refl; details = refl };
    step = rw e (ack_closing flag acked);
    released = refl;
    timer = (refl, refl);
    rest = (refl, refl);
  }
  client_after_ack-Moved listen e room flag acked = (x, refl, ignored)
  client_after_ack-Moved syn_received e room flag acked = (x, refl, ignored)
  client_after_ack-Moved syn_sent e room flag acked = (x, refl, ignored)
  client_after_ack-Moved established e room flag acked = (x, refl, ignored)
  client_after_ack-Moved close_wait e room flag acked = (x, refl, ignored)
  client_after_ack-Moved fin_wait2 e room flag acked = (x, refl, ignored)
  client_after_ack-Moved closed e room flag acked = (x, refl, ignored)

  on_ack_of_fin-ServerMoved :
      HasRoom 1 x
      → x.pdu.tcp.ack_flag ≡ true
      → Total (ServerMoved x) (on_ack_of_fin u tsc x.con.client_state x)
  unfolding on_ack_of_fin
  on_ack_of_fin-ServerMoved room flag =
      Total-if {P = ServerMoved x} (x.pdu.tcp.ack_num == wrapping_add x.con.seqn_fin_p2s 1) _ _
        (λ e.
          let (x₁, ran, m) =
            client_after_ack-Moved x.con.client_state refl room flag
              ((==_iff x.pdu.tcp.ack_num (wrapping_add x.con.seqn_fin_p2s 1)).0 e) in
          (
            count_c sent_ack4_fin (count_s recv_ack4_fin x₁),
            rw ran refl,
            record {
              kept_con = m.kept_con;
              step = m.step;
              released = m.released;
              timer = m.timer;
              rest = m.rest;
            },
          ))
        (λ _. (x, refl, ignored))

  -- The call returns a flow that `P` holds of, and a flag.
  abbrev pub Handled : Result (Flow × Bool) → Type 0
  Handled r = (x' : Flow) × (b : Bool) × (r ≡ ok (x', b)) × ServerMoved x x'

  Handled-if :
      (b : Bool) (m m' : Result (Flow × Bool))
      → (b ≡ true → Handled m)
      → (b ≡ false → Handled m')
      → Handled (if b then m else m')
  Handled-if true m m' yes_ no_ = yes_ refl
  Handled-if false m m' yes_ no_ = no_ refl

  expected : (m : Result Flow) → Total (ServerMoved x) m → Handled (m >>= λ y. ok (y, false))
  expected m (y, ran, moved) = (y, false, rw ran refl, moved)

  -- With room for one more state in the connection's record, no packet of a server makes the chain
  -- panic; the connection keeps its port, socket and record, its two states move by one
  -- `ServerStep` of the packet's flags, no release is requested, and its timer stays.
  pub server_event-Moved :
      HasRoom 1 x
      → (x' : Flow) × (b : Bool) × (server_event u tsc x.con.client_state x.con.server_state x
          ≡ ok (x', b))
        × ServerMoved x x'
  unfolding server_event
  server_event-Moved room =
      let t = x.pdu.tcp in
      let c = x.con.client_state in
      Handled-if (t.ack_flag && t.syn_flag) _ _
        (λ e. expected _ (on_synack-Moved u tsc x room (both e).1 (both e).0))
        λ _.
          Handled-if t.fin_flag _ _ (λ fin. expected _ (on_fin-ServerMoved u tsc x room fin))
            λ _.
              Handled-if (at_least c last_ack && t.ack_flag) _ _
                (λ e. expected _ (on_ack_of_fin-ServerMoved room (both e).1))
                (λ _. (x, true, refl, ignored))
    where
      both : {a b : Bool} → (a && b) ≡ true → (a ≡ true) × (b ≡ true)
      both {a} {b} e = ground arith
