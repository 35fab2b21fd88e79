-- ===== src/Program/Unread.antt =====
-- A client's packet from which the program's callback reads no server.
use proxyengine.Base.{
  and_false, ℕ, ◌≡◌, refl, ap, ◌∙◌, inl, inr, false, Option, Option-cases, none, some, List, arith,
  panic, ltb, ◌==◌,
}
use proxyengine.Packet.{Pdu, Endpoint}
use proxyengine.Tcp.{StateOrder, TcpState, established, listen, fin_wait1, at_least}
use proxyengine.External.{RecStore, TimerWheel, PacketOps}
use proxyengine.Connection.{ProxyConnection}
use proxyengine.Allocator as Alloc
use proxyengine.Forward.{Me, FnSelectServer, select_server}
use proxyengine.Flow.{Setup, Readings, Flow}
use proxyengine.Client.{client_packet, client_event, on_first_payload}
use proxyengine.Program.{CData, f_by_payload}
use proxyengine.Program.Select.{f_by_payload_panics}

select_panics :
    ⦃O : PacketOps⦄
    → (f : FnSelectServer) (me : Me) (servers : List Endpoint) (syn p : Pdu) (c : ProxyConnection)
    → f (record c { payload_packet = some p }) ≡ panic
    → select_server f me servers syn p c ≡ panic
unfolding select_server
select_panics f me servers syn p c e = rw e refl

module _ ⦃order : StateOrder⦄ ⦃R : RecStore⦄ ⦃W : TimerWheel⦄ ⦃O : PacketOps⦄ (u : Setup)
    (tsc : Readings) (x : Flow) where
  -- The packet is no SYN, FIN or RST, and no earlier one than what the client has sent already.
  pub record IsPlain : Type 0 where
    pub new_number : ltb x.pdu.tcp.seq_num x.con.ackn_p2c ≡ false
    pub syn : x.pdu.tcp.syn_flag ≡ false
    pub fin : x.pdu.tcp.fin_flag ≡ false
    pub rst : x.pdu.tcp.rst_flag ≡ false

  early : at_least listen fin_wait1 ≡ false
  early = ground (
    arith, order.listen_first, order.received_early, order.established_early,
    order.wait_before_last_ack, order.last_ack_early,
  )

  event_first : IsPlain → client_event u tsc established listen x ≡ on_first_payload u tsc x
  unfolding client_event
  event_first plain =
      rw
        (
          plain.new_number,
          plain.syn,
          plain.fin,
          plain.rst,
          early,
          and_false (x.pdu.tcp.ack_num == x.con.seqn),
          and_false x.pdu.tcp.ack_flag,
        )
        refl

  unread_panics :
      u.f_select_server (record (x.con) { payload_packet = some x.pdu }) ≡ panic
      → on_first_payload u tsc x ≡ panic
  unfolding on_first_payload
  unread_panics e = elim (Option-cases (Alloc.get_pdu u.new_pdu_array x.allocator).0) [
    | inl none_left ↦ rw none_left refl
    | inr (syn, got) ↦
        rw (got, on_first_payload)
          (rw (select_panics u.f_select_server u.me u.servers syn x.pdu x.con e) refl)
  ]

  -- With the program's own callback, a client's plain packet on a connection that the client has
  -- established and that has no server yet panics the pipeline, if its payload does not
  -- deserialize; that a payload is there is not asked.
  pub client_packet_unread :
      (deserialize : List ℕ → Option CData)
      → u.f_select_server ≡ f_by_payload deserialize u.servers
      → x.con.client_state ≡ established
      → x.con.server_state ≡ listen
      → IsPlain
      → deserialize x.pdu.payload ≡ none
      → client_packet u tsc x ≡ panic
  unfolding client_packet
  client_packet_unread deserialize program bound unbound plain unread =
      let event =
        ap (λ (c : TcpState). client_event u tsc c x.con.server_state x) bound
        ∙ ap (λ (s : TcpState). client_event u tsc established s x) unbound
        ∙ event_first plain in
      let ends =
        event
        ∙ unread_panics (
            rw program (
              f_by_payload_panics deserialize u.servers
                (record (x.con) { payload_packet = some x.pdu }) x.pdu refl unread)) in
      rw ends refl
