-- ===== src/Client/Recorded.antt =====
-- The client side keeps the record of a connection in step with its server side's state.
use proxyengine.Base.{
  ◌≡◌, sym, Bool, true, false, Result, ok, >>=-eq-ok, ◌&&◌, if◌then◌else◌, unwrap, assert, ◌>>=◌,
  ◌>>◌, List, some, get_elem?,
}
use proxyengine.Tcp.{
  StateOrder, TcpState, syn_received, sent_syn, recv_payload, established, fin_wait1, closing,
  fin_wait2, closed, at_least, before,
}
use proxyengine.External.{RecStore, TimerWheel, PacketOps}
use proxyengine.Packet.{Pdu, Endpoint}
use proxyengine.Connection.{ProxyConnection}
use proxyengine.Forward.{
  Me, FnSelectServer, FnPayload, select_server, client_to_server, opening, processed, translated,
  client_syn_received,
}
use proxyengine.Allocator as Alloc
use proxyengine.Flow.{Setup, Readings, Flow, s_reset, s_push, to_group, count_c, count_s}
use proxyengine.Flow.Recorded.{
  Recorded, Records, Records-ok, Records-call, Records-if, IsRecorded-IsKept, s_reset_push-Records,
  shown,
}
use proxyengine.Client.Passing.{IsTame, is_over, processed-SameCon}
use proxyengine.Client.{
  on_syn, on_ack_of_syn, on_fin_passive, on_fin_both, on_fin_unbound, on_fin_active, on_fin, on_rst,
  server_after_ack, client_after_ack, on_ack_of_fin, on_final_ack, on_first_payload, client_event,
  check_closed, forward_to_server, client_packet,
}

-- The callback that selects a server leaves the connection's record to the proxy.
abbrev pub LeavesRecord : FnSelectServer → Type 0
LeavesRecord f = (c c' : ProxyConnection) → f c ≡ ok c' → c'.detailed_c ≡ c.detailed_c

-- What follows an assertion that holds.
asserted : {A : Type 0} (b : Bool) (m : Result A) (a : A) → (assert b >> m) ≡ ok a → m ≡ ok a
asserted true m a e = e
asserted false m a e = cc

module _ ⦃O : PacketOps⦄ where
  select_server-record :
      (f : FnSelectServer) (me : Me) (servers : List Endpoint) (syn p : Pdu) (c : ProxyConnection)
      (after : Pdu × ProxyConnection)
      → LeavesRecord f
      → select_server f me servers syn p c ≡ ok after
      → after.1.detailed_c ≡ c.detailed_c
  unfolding select_server
  select_server-record f me servers syn p c after leaves e =
      let (c₁, ran, e₁) = >>=-eq-ok (f (record c { payload_packet = some p })) _ e in
      let (edited, _, e₂) = >>=-eq-ok (unwrap c₁.payload_packet) _ e₁ in
      let (server, _, e₃) = >>=-eq-ok (unwrap (get_elem? servers c₁.server_index)) _ e₂ in
      let e₄ =
        asserted (O.push_headers syn) (ok (opening me server syn (O.tcp_payload_size p) edited c₁))
          after e₃ in
      let same : opening me server syn (O.tcp_payload_size p) edited c₁ ≡ after = cc in
      rw (sym same) (leaves (record c { payload_packet = some p }) c₁ ran)

  client_to_server-record :
      (f : FnPayload) (me : Me) (servers : List Endpoint) (p : Pdu) (c : ProxyConnection)
      (after : Pdu × ProxyConnection)
      → IsTame f
      → client_to_server f me servers p c ≡ ok after
      → (after.1.detailed_c ≡ c.detailed_c) × (after.1.server_state ≡ c.server_state)
  unfolding client_to_server
  client_to_server-record f me servers p c after tame e =
      let edited = processed f p c in
      let (server, _, e₁) = >>=-eq-ok (unwrap (get_elem? servers edited.1.server_index)) _ e in
      let same : translated me server edited.0 edited.1 ≡ after = cc in
      let kept = processed-SameCon f p c tame in
      rw (sym same) (kept.kept_con.details, kept.server_same)

module _ ⦃R : RecStore⦄ ⦃W : TimerWheel⦄ where
  recorded_if : (b : Bool) (x y : Flow) → Recorded x → Recorded y → Recorded (if b then x else y)
  recorded_if true x y g h = g
  recorded_if false x y g h = h

module _ ⦃order : StateOrder⦄ ⦃R : RecStore⦄ ⦃W : TimerWheel⦄ ⦃O : PacketOps⦄ (u : Setup)
    (tsc : Readings) where
  pub check_closed-Recorded : (x : Flow) → Recorded x → Recorded (check_closed u tsc x)
  check_closed-Recorded x h =
      recorded_if (is_over x.con) (record x { release_connection = some x.con.proxy_port }) x h h

module _ ⦃order : StateOrder⦄ ⦃R : RecStore⦄ ⦃W : TimerWheel⦄ ⦃O : PacketOps⦄ (u : Setup)
    (tsc : Readings) (leaves : LeavesRecord u.f_select_server)
    (tame : IsTame u.f_process_payload) where
  on_syn-Records : (x : Flow) → Recorded x → Records (on_syn u tsc x)
  unfolding on_syn client_syn_received
  on_syn-Records x h = search shown

  on_ack_of_syn-Records : (x : Flow) → Recorded x → Records (on_ack_of_syn u tsc x)
  unfolding on_ack_of_syn
  on_ack_of_syn-Records x h = search shown

  on_fin_passive-Records : (x : Flow) → Recorded x → Records (on_fin_passive u tsc x)
  unfolding on_fin_passive
  on_fin_passive-Records x h = search shown

  on_fin_both-Records : (s : TcpState) (x : Flow) → Recorded x → Records (on_fin_both u tsc s x)
  unfolding on_fin_both
  on_fin_both-Records s x h = search shown depth 9

  on_fin_unbound-Records : (x : Flow) → Recorded x → Records (on_fin_unbound u tsc x)
  unfolding on_fin_unbound
  on_fin_unbound-Records x h = search shown

  on_fin_active-Records : (s : TcpState) (x : Flow) → Recorded x → Records (on_fin_active u tsc s x)
  unfolding on_fin_active
  on_fin_active-Records s x h = search (shown, on_fin_unbound-Records)

  on_fin-Records : (s : TcpState) (x : Flow) → Recorded x → Records (on_fin u tsc s x)
  unfolding on_fin
  on_fin-Records s x h =
      search (shown, on_fin_passive-Records, on_fin_both-Records, on_fin_active-Records)

  on_rst-Records : (x : Flow) → Recorded x → Records (on_rst u tsc x)
  unfolding on_rst
  on_rst-Records x h = search shown

  on_final_ack-Records : (x : Flow) → Recorded x → Records (on_final_ack u tsc x)
  unfolding on_final_ack
  on_final_ack-Records x h = search shown

  -- The SYN to the server is counted and goes to the network.
  abbrev syn_out : Flow → Flow
  syn_out x = to_group 1 (count_s sent_syn (count_c recv_payload x))

  abbrev opened_flow : Flow → Pdu × ProxyConnection → Flow
  opened_flow x opened = record x {
    pdu = opened.0;
    con = opened.1;
    allocator = (Alloc.get_pdu u.new_pdu_array x.allocator).1;
  }

  abbrev opens : Flow → Pdu × ProxyConnection → Result Flow
  opens x opened =
      s_reset (opened_flow x opened) >>= λ y. s_push (tsc 1) syn_received y >>= λ z. ok (syn_out z)

  abbrev select : Flow → Pdu → Result (Pdu × ProxyConnection)
  select x syn = select_server u.f_select_server u.me u.servers syn x.pdu x.con

  opens-Records :
      (x : Flow) (syn : Pdu) (opened : Pdu × ProxyConnection)
      → Recorded x
      → select x syn ≡ ok opened
      → Records (opens x opened)
  opens-Records x syn opened h selected =
      let same =
        select_server-record u.f_select_server u.me u.servers syn x.pdu x.con opened leaves
          selected in
      s_reset_push-Records (tsc 1) syn_received (opened_flow x opened) (λ z. ok (syn_out z))
        (rw same (IsRecorded-IsKept x.heap x.con.detailed_c x.con.server_state h))
        λ z k. Records-ok (syn_out z) k

  on_first_payload-Records : (x : Flow) → Recorded x → Records (on_first_payload u tsc x)
  unfolding on_first_payload
  on_first_payload-Records x h =
      Records-call (unwrap (Alloc.get_pdu u.new_pdu_array x.allocator).0)
        (λ syn. select x syn >>= opens x)
        (λ syn _. Records-call (select x syn) (opens x) (λ o e. opens-Records x syn o h e))

  server_after_ack-Records :
      (s : TcpState) (x : Flow) → Recorded x → Records (server_after_ack u tsc s x)
  server_after_ack-Records fin_wait1 x h = search shown
  server_after_ack-Records closing x h = search shown
  server_after_ack-Records _ x h = search shown

  client_after_ack-Records :
      (s : TcpState) (x : Flow) → Recorded x → Records (client_after_ack u tsc s x)
  client_after_ack-Records established x h = search shown
  client_after_ack-Records fin_wait1 x h = search shown
  client_after_ack-Records fin_wait2 x h = search shown
  client_after_ack-Records _ x h = search shown

  on_ack_of_fin-Records :
      (c s : TcpState) (x : Flow) → Recorded x → Records (on_ack_of_fin u tsc c s x)
  unfolding on_ack_of_fin
  on_ack_of_fin-Records c s x h = search (shown, server_after_ack-Records, client_after_ack-Records)

  client_event-Records :
      (c s : TcpState) (x : Flow) → Recorded x → Records (client_event u tsc c s x)
  unfolding client_event
  client_event-Records c s x h =
      search
        (
          shown, on_syn-Records, on_ack_of_syn-Records, on_fin-Records, on_rst-Records,
          on_ack_of_fin-Records, on_final_ack-Records, on_first_payload-Records,
        )
        depth 14

  forward_to_server-Records :
      (c s : TcpState) (x : Flow) → Recorded x → Records (forward_to_server u tsc c s x)
  unfolding forward_to_server
  forward_to_server-Records c s x h =
      Records-if (at_least s established && (before s closed && at_least c established)) _ _
        (Records-call _ _ λ passed ran.
          let (details, state) =
            client_to_server-record u.f_process_payload u.me u.servers x.pdu x.con passed tame
              ran in
          Records-ok _ (rw (details, state) h))
        (Records-ok x h)

  pub client_packet-Records : (x : Flow) → Recorded x → Records (client_packet u tsc x)
  unfolding client_packet
  client_packet-Records x h =
      search (shown, client_event-Records, forward_to_server-Records, check_closed-Recorded u tsc)
