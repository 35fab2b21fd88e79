-- ===== src/Client/Groups.antt =====
-- Where the closure puts a packet, on the client side.
use proxyengine.Base.{◌<◌, ◌≡◌, refl, inr, Bool, true, false, ◌&&◌, some, ok, if◌then◌else◌}
use proxyengine.Packet.{Pdu}
use proxyengine.Tcp.{
  StateOrder, TcpState, established, fin_wait1, closing, fin_wait2, closed, state_eq, at_least,
  before, unexpected,
}
use proxyengine.External.{RecStore, TimerWheel, PacketOps}
use proxyengine.Flow.{Setup, Readings, Flow, to_group, count_c}
use proxyengine.Flow.Groups.{
  Grouped, Grouped-ok, Grouped-call, Ends, Passed, Grouped-Passed, Passed-ok, Passed-if,
  Passed-bind, one-lt, steps,
}
use proxyengine.Client.{
  on_syn, on_ack_of_syn, on_fin_passive, on_fin_both, on_fin_unbound, on_fin_active, on_fin, on_rst,
  server_after_ack, client_after_ack, on_ack_of_fin, on_final_ack, on_first_payload, client_event,
  check_closed, forward_to_server, client_packet,
}

module _ ⦃order : StateOrder⦄ ⦃R : RecStore⦄ ⦃W : TimerWheel⦄ ⦃O : PacketOps⦄ (u : Setup)
    (tsc : Readings) where
  on_syn-Grouped : (x : Flow) → x.group_index < 2 → Grouped (on_syn u tsc x)
  unfolding on_syn
  on_syn-Grouped x h = search steps

  on_ack_of_syn-Grouped : (x : Flow) → x.group_index < 2 → Grouped (on_ack_of_syn u tsc x)
  unfolding on_ack_of_syn
  on_ack_of_syn-Grouped x h = search steps

  on_fin_passive-Grouped : (x : Flow) → x.group_index < 2 → Grouped (on_fin_passive u tsc x)
  unfolding on_fin_passive
  on_fin_passive-Grouped x h = search steps

  on_fin_both-Grouped :
      (s : TcpState) (x : Flow) → x.group_index < 2 → Grouped (on_fin_both u tsc s x)
  unfolding on_fin_both
  on_fin_both-Grouped s x h = search steps

  on_fin_unbound-Grouped : (x : Flow) → x.group_index < 2 → Grouped (on_fin_unbound u tsc x)
  unfolding on_fin_unbound
  on_fin_unbound-Grouped x h = search steps

  on_fin_active-Grouped :
      (s : TcpState) (x : Flow) → x.group_index < 2 → Grouped (on_fin_active u tsc s x)
  unfolding on_fin_active
  on_fin_active-Grouped s x h = search (steps, on_fin_unbound-Grouped)

  on_fin-Grouped : (s : TcpState) (x : Flow) → x.group_index < 2 → Grouped (on_fin u tsc s x)
  unfolding on_fin
  on_fin-Grouped s x h =
      search (steps, on_fin_passive-Grouped, on_fin_both-Grouped, on_fin_active-Grouped)

  on_rst-Grouped : (x : Flow) → x.group_index < 2 → Grouped (on_rst u tsc x)
  unfolding on_rst
  on_rst-Grouped x h = search steps

  on_final_ack-Grouped : (x : Flow) → x.group_index < 2 → Grouped (on_final_ack u tsc x)
  unfolding on_final_ack
  on_final_ack-Grouped x h = search steps

  on_first_payload-Grouped : (x : Flow) → x.group_index < 2 → Grouped (on_first_payload u tsc x)
  unfolding on_first_payload
  on_first_payload-Grouped x h = search steps depth 9

  server_after_ack-Grouped :
      (s : TcpState) (x : Flow) → x.group_index < 2 → Grouped (server_after_ack u tsc s x)
  server_after_ack-Grouped fin_wait1 x h = search steps
  server_after_ack-Grouped closing x h = search steps
  server_after_ack-Grouped _ x h = search steps

  client_after_ack-Grouped :
      (s : TcpState) (x : Flow) → x.group_index < 2 → Grouped (client_after_ack u tsc s x)
  client_after_ack-Grouped established x h = search steps
  client_after_ack-Grouped fin_wait1 x h = search steps
  client_after_ack-Grouped fin_wait2 x h = search steps
  client_after_ack-Grouped _ x h = search steps

  on_ack_of_fin-Grouped :
      (c s : TcpState) (x : Flow) → x.group_index < 2 → Grouped (on_ack_of_fin u tsc c s x)
  unfolding on_ack_of_fin
  on_ack_of_fin-Grouped c s x h = search (steps, server_after_ack-Grouped, client_after_ack-Grouped)

  to_kernel : (x : Flow) → Passed x.pdu (ok (to_group 2 (count_c unexpected x)))
  to_kernel x = Passed-ok x.pdu (to_group 2 (count_c unexpected x)) (inr (refl, refl))

  client_event-Passed :
      (c s : TcpState) (x : Flow) → x.group_index < 2 → Passed x.pdu (client_event u tsc c s x)
  unfolding client_event
  client_event-Passed c s x h =
      search
        (
          Passed-if, Grouped-Passed, Grouped-ok, to_kernel, on_syn-Grouped, on_ack_of_syn-Grouped,
          on_fin-Grouped, on_rst-Grouped, on_ack_of_fin-Grouped, on_final_ack-Grouped,
          on_first_payload-Grouped,
        )
        depth 16

  pub check_closed_out :
      (x : Flow)
      → ((check_closed u tsc x).group_index ≡ x.group_index) × ((check_closed u tsc x).pdu ≡ x.pdu)
  check_closed_out x =
      either (state_eq x.con.client_state closed && state_eq x.con.server_state closed)
    where
      asked : Flow
      asked = record x { release_connection = some x.con.proxy_port }

      either :
          (b : Bool)
          → ((if b then asked else x).group_index ≡ x.group_index)
            × ((if b then asked else x).pdu ≡ x.pdu)
      either true = (refl, refl)
      either false = (refl, refl)

  forward_to_server-Passed :
      (c s : TcpState) (p : Pdu) (x : Flow)
      → Ends p x.group_index x.pdu
      → Passed p (forward_to_server u tsc c s x)
  unfolding forward_to_server
  forward_to_server-Passed c s p x h =
      Passed-if p (at_least s established && (before s closed && at_least c established)) _ _
        (Grouped-Passed p _ (Grouped-call _ _ (λ passed. Grouped-ok _ one-lt))) (Passed-ok p x h)

  pub client_packet-Passed : (x : Flow) → x.group_index < 2 → Passed x.pdu (client_packet u tsc x)
  unfolding client_packet
  client_packet-Passed x h =
      Passed-bind x.pdu (client_event u tsc x.con.client_state x.con.server_state x)
        (λ y. forward_to_server u tsc x.con.client_state x.con.server_state (check_closed u tsc y))
        (client_event-Passed x.con.client_state x.con.server_state x h)
        (λ y k.
          let (group, pdu) = check_closed_out y in
          forward_to_server-Passed x.con.client_state x.con.server_state x.pdu
            (check_closed u tsc y) (rw (group, pdu) k))
