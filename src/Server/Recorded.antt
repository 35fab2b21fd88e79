-- ===== src/Server/Recorded.antt =====
-- The server side keeps the record of a connection in step with its server side's state.
use proxyengine.Base.{
  ◌≡◌, refl, sym, Bool, true, false, ◌&&◌, ◌++◌, subst, Result, ok, panic, ◌>>=◌, >>=-eq-ok,
  if◌then◌else◌, unwrap,
}
use proxyengine.Tcp.{
  StateOrder, TcpState, last_ack, fin_wait1, closing, closed, established, syn_received, state_eq,
  at_least, before, recv_syn_ack, sent_syn_ack2, sent_payload,
}
use proxyengine.Packet.{Pdu}
use proxyengine.External.{RecStore, TimerWheel, PacketOps}
use proxyengine.Connection.{ProxyConnection, sock}
use proxyengine.Forward.{Me, server_synack_received, server_to_client, returned}
use proxyengine.Flow.{Setup, Readings, Flow, s_push, count_s, to_group}
use proxyengine.Flow.Recorded.{
  Recorded, Records, Records-ok, Records-bind, Records-call, Records-if, s_push-Records, shown,
}
use proxyengine.Client.Recorded.{check_closed-Recorded}
use proxyengine.Server.Branches.{synack_keeps}
use proxyengine.Server.{
  on_synack, on_fin_passive, on_fin_both, on_fin_active, on_fin, client_after_ack, on_ack_of_fin,
  server_event, forward_to_client, server_packet,
}

module _ ⦃R : RecStore⦄ ⦃W : TimerWheel⦄ where
  -- The same for a step that also says whether the packet was unexpected.
  record RecordsEvent (r : Result (Flow × Bool)) : Type 0 where
    at : (x : Flow) (b : Bool) → r ≡ ok (x, b) → Recorded x

  RecordsEvent-ok : (x : Flow) (b : Bool) → Recorded x → RecordsEvent (ok (x, b))
  RecordsEvent-ok x b h = record { at = λ y d e. let same : x ≡ y = cc in subst Recorded same h }

  RecordsEvent-of : (m : Result Flow) (b : Bool) → Records m → RecordsEvent (m >>= λ x. ok (x, b))
  RecordsEvent-of panic b g = record { at = λ y d e. cc }
  RecordsEvent-of (ok x) b g = RecordsEvent-ok x b (g.at x refl)

  RecordsEvent-if :
      (b : Bool) (m n : Result (Flow × Bool))
      → RecordsEvent m
      → RecordsEvent n
      → RecordsEvent (if b then m else n)
  RecordsEvent-if true m n gm gn = gm
  RecordsEvent-if false m n gm gn = gn

  event_then :
      (m : Result (Flow × Bool)) (f : Flow × Bool → Result Flow)
      → RecordsEvent m
      → ((x : Flow) (b : Bool) → Recorded x → Records (f (x, b)))
      → Records (m >>= f)
  event_then panic f g k = record { at = λ y e. cc }
  event_then (ok (x, b)) f g k = k x b (g.at x b refl)

  to_kernel : (b : Bool) (x y : Flow) → Recorded x → Recorded y → Records (ok (if b then x else y))
  to_kernel true x y g h = Records-ok x g
  to_kernel false x y g h = Records-ok y h

module _ ⦃O : PacketOps⦄ where
  server_to_client-record :
      (me : Me) (p : Pdu) (c : ProxyConnection) (after : Pdu × ProxyConnection)
      → server_to_client me p c ≡ ok after
      → (after.1.detailed_c ≡ c.detailed_c) × (after.1.server_state ≡ c.server_state)
  unfolding server_to_client
  server_to_client-record me p c after e =
      let (s, _, e₁) = >>=-eq-ok (unwrap (sock c)) _ e in
      let same : returned me s p c ≡ after = cc in rw (sym same) (refl, refl)

module _ ⦃order : StateOrder⦄ ⦃R : RecStore⦄ ⦃W : TimerWheel⦄ ⦃O : PacketOps⦄ (u : Setup)
    (tsc : Readings) where
  -- The flow once the SYN-ACK is answered.
  abbrev answered_flow : Flow → Flow
  answered_flow x =
      let answered = server_synack_received x.pdu x.con in
      to_group 0 (
        count_s sent_payload (
          count_s sent_syn_ack2
            (record x { pdu = answered.0; con = answered.1; sent = x.sent ++ answered.2 })))

  on_synack-Records : (s : TcpState) (x : Flow) → Recorded x → Records (on_synack u tsc s x)
  unfolding on_synack
  on_synack-Records s x h =
      let counted = count_s recv_syn_ack x in
      Records-if (state_eq s syn_received)
        (s_push (tsc 1) established counted >>= λ y. ok (answered_flow y)) (ok (to_group 0 counted))
        (Records-bind (s_push (tsc 1) established counted) (λ y. ok (answered_flow y))
          (s_push-Records (tsc 1) established counted h)
          (λ y k.
            let (kept, _, same, _, _) = synack_keeps y.pdu y.con in
            Records-ok (answered_flow y) (rw (kept.details, same) k)))
        (Records-ok (to_group 0 counted) h)

  on_fin_passive-Records : (x : Flow) → Recorded x → Records (on_fin_passive u tsc x)
  unfolding on_fin_passive
  on_fin_passive-Records x h = search shown

  on_fin_both-Records : (c : TcpState) (x : Flow) → Recorded x → Records (on_fin_both u tsc c x)
  unfolding on_fin_both
  on_fin_both-Records c x h = search shown

  on_fin_active-Records : (x : Flow) → Recorded x → Records (on_fin_active u tsc x)
  unfolding on_fin_active
  on_fin_active-Records x h = search shown

  on_fin-Records : (c : TcpState) (x : Flow) → Recorded x → Records (on_fin u tsc c x)
  unfolding on_fin
  on_fin-Records c x h =
      search (shown, on_fin_passive-Records, on_fin_both-Records, on_fin_active-Records)

  client_after_ack-Records :
      (s : TcpState) (x : Flow) → Recorded x → Records (client_after_ack u tsc s x)
  client_after_ack-Records last_ack x h = search shown
  client_after_ack-Records fin_wait1 x h = search shown
  client_after_ack-Records closing x h = search shown
  client_after_ack-Records _ x h = search shown

  on_ack_of_fin-Records : (c : TcpState) (x : Flow) → Recorded x → Records (on_ack_of_fin u tsc c x)
  unfolding on_ack_of_fin
  on_ack_of_fin-Records c x h = search (shown, client_after_ack-Records)

  server_event-Records :
      (c s : TcpState) (x : Flow) → Recorded x → RecordsEvent (server_event u tsc c s x)
  unfolding server_event
  server_event-Records c s x h = search (
    RecordsEvent-ok, RecordsEvent-of, RecordsEvent-if, on_synack-Records, on_fin-Records,
    on_ack_of_fin-Records,
  )

  forward_to_client-Records :
      (c s : TcpState) (x : Flow) (b : Bool)
      → Recorded x
      → Records (forward_to_client u tsc c s (x, b))
  unfolding forward_to_client
  forward_to_client-Records c s x b h =
      Records-if (at_least s established && (at_least c established && before c closed)) _ _
        (Records-call (server_to_client u.me x.pdu x.con)
          (λ passed. ok (to_group 1 (record x { pdu = passed.0; con = passed.1 })))
          (λ passed ran.
            let (details, state) = server_to_client-record u.me x.pdu x.con passed ran in
            Records-ok (to_group 1 (record x { pdu = passed.0; con = passed.1 }))
              (rw (details, state) h)))
        (to_kernel b (to_group 2 x) x h h)

  pub server_packet-Records : (x : Flow) → Recorded x → Records (server_packet u tsc x)
  unfolding server_packet
  server_packet-Records x h =
      event_then _ _ (server_event-Records _ _ x h)
        (λ y b g. forward_to_client-Records _ _ _ b (check_closed-Recorded u tsc y g))
