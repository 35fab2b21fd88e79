-- ===== src/Client/Unbound.antt =====
-- A client that closes before it has sent a payload: the proxy answers its FIN by itself, and what
-- becomes of the client's last ACK.
use proxyengine.Base.{
  and_false, ℕ, ◌≡◌, refl, sym, ap, ◌∙◌, inl, true, false, none, some, arith, ltb, ◌==◌, ==_iff,
  get_elem?, ok,
}
use proxyengine.Base.Words.{wrapping_add}
use proxyengine.Tcp.{
  TcpState, listen, established, last_ack, fin_wait1, closed, StateOrder, at_least, before,
  active_close, passive_close,
}
use proxyengine.Packet.{Pdu, Endpoint}
use proxyengine.External.{RecStore, TimerWheel, PacketOps}
use proxyengine.Connection.{ProxyConnection}
use proxyengine.Forward.{client_to_server, processed, translated}
use proxyengine.Flow.{Setup, Readings, Flow}
use proxyengine.Flow.Rules.{
  Total, HasRoom, Total-bind, c_push-Total, s_push-Total, c_cause-Total, s_cause-Total,
}
use proxyengine.Client.{
  on_fin, on_fin_active, on_fin_unbound, on_final_ack, client_event, check_closed,
  forward_to_server, client_packet,
}
use proxyengine.Client.Closing.{on_final_ack-Moved}
use proxyengine.Client.Passing.{IsTame, check_closed_lem, processed-SameCon}

module _ ⦃order : StateOrder⦄ where
  late : (at_least listen fin_wait1 ≡ false) × (at_least listen established ≡ false)
  late = (
    ground (
      arith, order.listen_first, order.received_early, order.established_early,
      order.wait_before_last_ack, order.last_ack_early,
    ),
    ground (arith, order.listen_first, order.received_early),
  )

  early : before listen established ≡ true
  early = ground (arith, order.listen_first, order.received_early)

  between :
      (at_least last_ack fin_wait1 ≡ false)
      × (at_least last_ack established ≡ true)
      × (before last_ack closed ≡ true)
      × (at_least fin_wait1 established ≡ true)
  between =
      let a = order.established_early in
      let b = order.wait_before_last_ack in
      let c = order.last_ack_early in
      let d = order.closing_late in
      let e = order.closing_open in
      (ground (arith, c), ground (arith, a, b), ground (arith, c, d, e), ground (arith, a, b, c))

module _ ⦃order : StateOrder⦄ ⦃R : RecStore⦄ ⦃W : TimerWheel⦄ ⦃O : PacketOps⦄ (u : Setup)
    (tsc : Readings) where
  -- What the FIN of such a client leaves.
  pub record Unbound (x x' : Flow) : Type 0 where
    pub client : x'.con.client_state ≡ fin_wait1
    pub server : x'.con.server_state ≡ last_ack
    pub index : x'.con.server_index ≡ x.con.server_index
    pub details : x'.con.detailed_c ≡ x.con.detailed_c
    pub number : x'.con.ackn_p2c ≡ x.con.ackn_p2c
    pub next : x'.con.seqn ≡ wrapping_add (wrapping_add x.con.c_seqn 1) 1

  fin_active-Unbound : (x : Flow) → HasRoom 1 x → Total (Unbound x) (on_fin_active u tsc listen x)
  unfolding on_fin_active on_fin_unbound
  fin_active-Unbound x room = rw early (
      Total-bind (Unbound x) _ _ (
        c_cause-Total _ 1 _ active_close room λ h room₁. Total-bind (Unbound x) _ _ (
          c_push-Total _ 1 _ fin_wait1 room₁ λ h₂ room₂. Total-bind (Unbound x) _ _ (
            Total-bind _ _ _ (
              s_push-Total _ 0 _ (tsc 1) last_ack room₂ λ h₃ room₃. Total-bind _ _ _ (
                s_cause-Total _ 0 _ passive_close room₃ λ h₄ _. (
                  _,
                  refl,
                  (
                    _,
                    refl,
                    record {
                      client = refl;
                      server = refl;
                      index = refl;
                      details = refl;
                      number = refl;
                      next = refl;
                    },
                  ),
                )))))))

  -- The FIN of a client that has established its side, and has no server.
  first_packet :
      (x : Flow)
      → x.con.client_state ≡ established
      → x.con.server_state ≡ listen
      → ltb x.pdu.tcp.seq_num x.con.ackn_p2c ≡ false
      → x.pdu.tcp.syn_flag ≡ false
      → x.pdu.tcp.fin_flag ≡ true
      → client_event u tsc x.con.client_state x.con.server_state x ≡ on_fin_active u tsc listen x
  unfolding client_event on_fin
  first_packet x bound unbound new syn fin =
      ap (λ (c : TcpState). client_event u tsc c x.con.server_state x) bound
      ∙ ap (λ (s : TcpState). client_event u tsc established s x) unbound
      ∙ rw (new, syn, fin, and_false x.pdu.tcp.ack_flag) (rw late.0 refl)

  -- The ACK of the proxy's own FIN.
  last_packet :
      (x : Flow)
      → x.con.client_state ≡ fin_wait1
      → x.con.server_state ≡ last_ack
      → ltb x.pdu.tcp.seq_num x.con.ackn_p2c ≡ false
      → x.pdu.tcp.syn_flag ≡ false
      → x.pdu.tcp.fin_flag ≡ false
      → x.pdu.tcp.rst_flag ≡ false
      → x.pdu.tcp.ack_flag ≡ true
      → (x.pdu.tcp.ack_num == x.con.seqn) ≡ true
      → client_event u tsc x.con.client_state x.con.server_state x ≡ on_final_ack u tsc x
  unfolding client_event
  last_packet x bound unbound new syn fin rst ack acked =
      ap (λ (c : TcpState). client_event u tsc c x.con.server_state x) bound
      ∙ ap (λ (s : TcpState). client_event u tsc fin_wait1 s x) unbound
      ∙ rw (new, syn, fin, rst, ack, acked, between.0) refl

  -- The translation of a packet for the server of the connection's index.
  sent_on :
      (c s : TcpState) (y : Flow) (srv : Endpoint)
      → IsTame u.f_process_payload
      → at_least s established ≡ true
      → before s closed ≡ true
      → at_least c established ≡ true
      → get_elem? u.servers y.con.server_index ≡ some srv
      → Total
          (λ x'. (x'.group_index ≡ 1) × (x'.pdu.ip.dst ≡ srv.ip) × (x'.pdu.tcp.dst_port ≡ srv.port))
          (forward_to_server u tsc c s y)
  unfolding forward_to_server client_to_server
  sent_on c s y srv tame late_s open_s late_c chosen =
      let same = processed-SameCon u.f_process_payload y.pdu y.con tame in
      let edited = processed u.f_process_payload y.pdu y.con in
      let out = translated u.me srv edited.0 edited.1 in
      (
        record y { pdu = out.0; con = out.1; group_index = 1 },
        rw (late_s, open_s, late_c) (rw same.index (rw chosen refl)),
        (
          refl,
          (O.prepare_keeps _).2
              ∙ (O.set_header_ip srv edited.1.proxy_port edited.0 u.me.l234.mac u.me.ip_s).1,
          ap (λ t. t.dst_port) (O.prepare_keeps _).0
              ∙ ap (λ t. t.dst_port)
                  (O.set_header_tcp srv edited.1.proxy_port edited.0 u.me.l234.mac u.me.ip_s),
        ),
      )

  stays_here :
      (c s : TcpState) (y : Flow)
      → at_least s established ≡ false
      → forward_to_server u tsc c s y ≡ ok y
  unfolding forward_to_server
  stays_here c s y e = rw e refl

  fin_handled :
      (x : Flow)
      → x.con.client_state ≡ established
      → x.con.server_state ≡ listen
      → x.con.detailed_c ≡ none
      → ltb x.pdu.tcp.seq_num x.con.ackn_p2c ≡ false
      → x.pdu.tcp.syn_flag ≡ false
      → x.pdu.tcp.fin_flag ≡ true
      → Total (Unbound x) (client_packet u tsc x)
  unfolding client_packet
  fin_handled x bound unbound bare new syn fin =
      let (y, ran, a) = fin_active-Unbound x (inl bare) in
      let here =
        stays_here x.con.client_state x.con.server_state (check_closed u tsc y)
          (ap (λ (s : TcpState). at_least s established) unbound ∙ late.1) in
      let con = (check_closed_lem u tsc y).0 in
      (
        check_closed u tsc y,
        rw (first_packet x bound unbound new syn fin ∙ ran) here,
        record {
          client = ap (λ (t : ProxyConnection). t.client_state) con ∙ a.client;
          server = ap (λ (t : ProxyConnection). t.server_state) con ∙ a.server;
          index = ap (λ (t : ProxyConnection). t.server_index) con ∙ a.index;
          details = ap (λ (t : ProxyConnection). t.detailed_c) con ∙ a.details;
          number = ap (λ (t : ProxyConnection). t.ackn_p2c) con ∙ a.number;
          next = ap (λ (t : ProxyConnection). t.seqn) con ∙ a.next;
        },
      )

  -- A packet that goes out, to one server.
  abbrev pub SentTo : Endpoint → Flow → Type 0
  SentTo srv x' = (x'.group_index ≡ 1) × (x'.pdu.ip.dst ≡ srv.ip) × (x'.pdu.tcp.dst_port ≡ srv.port)

  -- A plain ACK, with the given number.
  pub record IsAck (expected number : ℕ) (p : Pdu) : Type 0 where
    pub new : ltb p.tcp.seq_num expected ≡ false
    pub syn : p.tcp.syn_flag ≡ false
    pub fin : p.tcp.fin_flag ≡ false
    pub rst : p.tcp.rst_flag ≡ false
    pub ack : p.tcp.ack_flag ≡ true
    pub acks : p.tcp.ack_num ≡ number

  -- A client that has no server yet, on a connection without a record, closes: the proxy takes
  -- both sides to FinWait1 and LastAck by itself, and the client's ACK for that is sent out to the
  -- server with the connection's index, although none was selected. The payload callback keeps to
  -- its part, that index is in range, the FIN is no SYN and no earlier packet, and the ACK is a
  -- plain one.
  pub unbound_close :
      (x : Flow) (p : Pdu) (srv : Endpoint)
      → IsTame u.f_process_payload
      → x.con.client_state ≡ established
      → x.con.server_state ≡ listen
      → x.con.detailed_c ≡ none
      → ltb x.pdu.tcp.seq_num x.con.ackn_p2c ≡ false
      → x.pdu.tcp.syn_flag ≡ false
      → x.pdu.tcp.fin_flag ≡ true
      → IsAck x.con.ackn_p2c (wrapping_add (wrapping_add x.con.c_seqn 1) 1) p
      → get_elem? u.servers x.con.server_index ≡ some srv
      → (x₁ : Flow) × (client_packet u tsc x ≡ ok x₁)
        × (x₁.con.client_state ≡ fin_wait1)
        × (x₁.con.server_state ≡ last_ack)
        × (x₂ : Flow) × (client_packet u tsc (record x₁ { pdu = p }) ≡ ok x₂)
        × SentTo srv x₂
  unfolding client_packet
  unbound_close x p srv tame bound unbound bare new syn fin a chosen =
      let (x₁, ran, b) = fin_handled x bound unbound bare new syn fin in
      let y : Flow = record x₁ { pdu = p } in
      let acked : p.tcp.ack_num ≡ x₁.con.seqn = a.acks ∙ sym b.next in
      let event =
        last_packet y b.client b.server (ap (λ n. ltb p.tcp.seq_num n) b.number ∙ a.new) a.syn a.fin
          a.rst a.ack ((==_iff p.tcp.ack_num x₁.con.seqn).1 acked) in
      let (w, ran', m) = on_final_ack-Moved u tsc y (inl (b.details ∙ bare)) a.ack acked b.server in
      let open_ = ap (λ (s : TcpState). at_least s established) b.server ∙ between.1 in
      let index =
        ap (λ (t : ProxyConnection). t.server_index) (check_closed_lem u tsc w).0
        ∙ m.index open_
        ∙ b.index in
      let (x₂, sent, to) =
        sent_on x₁.con.client_state x₁.con.server_state (check_closed u tsc w) srv tame open_
          (ap (λ (s : TcpState). before s closed) b.server ∙ between.2)
          (ap (λ (c : TcpState). at_least c established) b.client ∙ between.3)
          (ap (get_elem? u.servers) index ∙ chosen) in
      (x₁, ran, b.client, b.server, x₂, rw (event ∙ ran') sent, to)
