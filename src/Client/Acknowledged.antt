-- ===== src/Client/Acknowledged.antt =====
-- What the client side's branches do for the ACK of the server's FIN, and for the first payload.
use proxyengine.Base.{arith, ℕ, ◌≡◌, refl, ap, ◌∙◌, inl, inr, true, some, ok}
use proxyengine.Tcp.{
  TcpState, listen, syn_received, syn_sent, established, close_wait, last_ack, fin_wait1, fin_wait2,
  closing, closed, StateOrder, at_least, recv_ack4_fin, sent_ack4_fin,
}
use proxyengine.Packet.{Pdu}
use proxyengine.External.{RecStore, TimerWheel, PacketOps}
use proxyengine.Detailed.{Heap}
use proxyengine.Connection.{ProxyConnection, client_sock}
use proxyengine.Allocator as Alloc
use proxyengine.Allocator.Supply.{Stocked-drawn}
use proxyengine.Forward.Handshake.{Selects, select_server_lem}
use proxyengine.Flow.{Setup, Readings, Flow, count_c, count_s, c_push}
use proxyengine.Flow.Rules.{
  Total, Room, HasRoom, Total-bind, c_push-Total, s_push-Total, s_reset-Total,
}
use proxyengine.Client.{server_after_ack, client_after_ack, on_ack_of_fin, on_first_payload}
use proxyengine.Client.Branches.{
  Kept, kept, ack_of_fin, first_payload, server_next, client_next, Moved, less_room,
}

module _ ⦃R : RecStore⦄ ⦃W : TimerWheel⦄ where
  -- The connection in states `c` and `s`, otherwise kept, with room for `n` more.
  abbrev In : ℕ → Flow → TcpState → TcpState → Flow → Type 0
  In n y c s y' =
      Kept y.con y'.con
      × (y'.con.client_state ≡ c)
      × (y'.con.server_state ≡ s)
      × (y'.release_connection ≡ y.release_connection)
      × HasRoom n y'
      × (y'.con.server_index ≡ y.con.server_index)
      × (y'.wheel ≡ y.wheel)
      × (y'.con.wheel_slot_and_index ≡ y.con.wheel_slot_and_index)
      × (y'.allocator ≡ y.allocator)

module _ ⦃order : StateOrder⦄ ⦃R : RecStore⦄ ⦃W : TimerWheel⦄ ⦃O : PacketOps⦄ (u : Setup)
    (tsc : Readings) where
  server_stays :
      (s : TcpState) (y : Flow)
      → y.con.server_state ≡ s
      → HasRoom 1 y
      → Total (In 0 y y.con.client_state s) (ok y)
  server_stays s y e room =
      (y, refl, (kept y.con, refl, e, refl, less_room y room, refl, refl, refl, refl))

  server_after_ack-In :
      (s : TcpState) (y : Flow)
      → y.con.server_state ≡ s
      → HasRoom 1 y
      → Total (In 0 y y.con.client_state (server_next s)) (server_after_ack u tsc s y)
  server_after_ack-In fin_wait1 y e room = s_push-Total _ 0 y (tsc 1) fin_wait2 room λ h room₁. (
    record { port = refl; socket = refl; details = refl },
    refl,
    refl,
    refl,
    room₁,
    refl,
    refl,
    refl,
    refl,
  )
  server_after_ack-In closing y e room = s_push-Total _ 0 y (tsc 1) closed room λ h room₁. (
    record { port = refl; socket = refl; details = refl },
    refl,
    refl,
    refl,
    room₁,
    refl,
    refl,
    refl,
    refl,
  )
  server_after_ack-In listen y e room = server_stays listen y e room
  server_after_ack-In syn_received y e room = server_stays syn_received y e room
  server_after_ack-In syn_sent y e room = server_stays syn_sent y e room
  server_after_ack-In established y e room = server_stays established y e room
  server_after_ack-In close_wait y e room = server_stays close_wait y e room
  server_after_ack-In last_ack y e room = server_stays last_ack y e room
  server_after_ack-In fin_wait2 y e room = server_stays fin_wait2 y e room
  server_after_ack-In closed y e room = server_stays closed y e room

  client_stays :
      (c : TcpState) (y : Flow)
      → y.con.client_state ≡ c
      → HasRoom 0 y
      → Total (In 0 y c y.con.server_state) (ok y)
  client_stays c y e room = (y, refl, (kept y.con, e, refl, refl, room, refl, refl, refl, refl))

  client_pushed :
      (c : TcpState) (y : Flow) → HasRoom 0 y → Total (In 0 y c y.con.server_state) (c_push c y)
  client_pushed c y room = c_push-Total _ 0 y c room λ h room₁. (
    record { port = refl; socket = refl; details = refl },
    refl,
    refl,
    refl,
    room₁,
    refl,
    refl,
    refl,
    refl,
  )

  client_after_ack-In :
      (c : TcpState) (y : Flow)
      → y.con.client_state ≡ c
      → HasRoom 0 y
      → Total (In 0 y (client_next c) y.con.server_state) (client_after_ack u tsc c y)
  client_after_ack-In established y e room = client_pushed close_wait y room
  client_after_ack-In fin_wait1 y e room = client_pushed closing y room
  client_after_ack-In fin_wait2 y e room = client_pushed closed y room
  client_after_ack-In listen y e room = client_stays listen y e room
  client_after_ack-In syn_received y e room = client_stays syn_received y e room
  client_after_ack-In syn_sent y e room = client_stays syn_sent y e room
  client_after_ack-In close_wait y e room = client_stays close_wait y e room
  client_after_ack-In last_ack y e room = client_stays last_ack y e room
  client_after_ack-In closing y e room = client_stays closing y e room
  client_after_ack-In closed y e room = client_stays closed y e room

  pub on_ack_of_fin-Moved :
      (x : Flow)
      → HasRoom 1 x
      → x.pdu.tcp.ack_flag ≡ true
      → x.pdu.tcp.ack_num ≡ x.con.seqn
      → at_least x.con.server_state fin_wait1 ≡ true
      → Total (Moved u x) (on_ack_of_fin u tsc x.con.client_state x.con.server_state x)
  unfolding on_ack_of_fin
  on_ack_of_fin-Moved x room flag acked late =
      let (x₁, ran₁, (k₁, c₁, s₁, r₁, room₁, i₁, w₁, t₁, a₁)) =
        server_after_ack-In x.con.server_state x refl room in
      let (x₂, ran₂, (k₂, c₂, s₂, r₂, _, i₂, w₂, t₂, a₂)) =
        client_after_ack-In x.con.client_state x₁ c₁ room₁ in
      (
        count_s sent_ack4_fin (count_c recv_ack4_fin x₂),
        rw ran₁ (rw ran₂ refl),
        record {
          kept_con = record {
            port = k₂.port ∙ k₁.port;
            socket = k₂.socket ∙ k₁.socket;
            details = k₂.details ∙ k₁.details;
          };
          step = rw (c₂, s₂, s₁) (ack_of_fin flag acked late);
          released = inl (r₂ ∙ r₁);
          index = λ _. i₂ ∙ i₁;
          aside = record {
            timer = inl (w₂ ∙ w₁, t₂ ∙ t₁);
            in_range = λ r. (r.0, rw (i₂, i₁) r.1);
            supply = λ _ b. (b.0, rw (a₂, a₁) b.1, b.2);
          };
        },
      )

  Room-details :
      (n : ℕ) (h : Heap) (c c' : ProxyConnection)
      → c'.detailed_c ≡ c.detailed_c
      → Room n h c
      → Room n h c'
  Room-details n h c c' same (inl e) = inl (same ∙ e)
  Room-details n h c c' same (inr (slot, r, e, room)) = inr (slot, r, same ∙ e, room)

  -- A packet for the SYN is at hand, and the callback selects one of the servers.
  pub record CanOpen (x : Flow) : Type 0 where
    pub syn : Pdu
    pub has_syn : (Alloc.get_pdu u.new_pdu_array x.allocator).0 ≡ some syn
    pub has_room : O.push_headers syn ≡ true
    pub selects : Selects u.f_select_server u.servers x.pdu x.con

  pub on_first_payload-Moved :
      (x : Flow)
      → HasRoom 0 x
      → CanOpen x
      → x.con.client_state ≡ established
      → x.con.server_state ≡ listen
      → Total (Moved u x) (on_first_payload u tsc x)
  unfolding on_first_payload
  on_first_payload-Moved x room can c_is s_is =
      let (syn, con, ran, opens, selected) =
        select_server_lem u.f_select_server u.me u.servers can.syn x.pdu x.con can.selects
          can.has_room in
      let state = ap (λ (t : ProxyConnection). t.client_state) opens.same in
      let details = ap (λ (t : ProxyConnection). t.detailed_c) opens.same in
      rw (can.has_syn, on_first_payload)
        (rw (ran, on_first_payload)
          (Total-bind (Moved u x) _ _ (
            s_reset-Total _ 0 _ (Room-details 0 x.heap x.con con details room) λ h room₁.
              Total-bind (Moved u x) _ _ (
                s_push-Total _ 6 _ (tsc 1) syn_received room₁ λ h₂ _. (
                  _,
                  refl,
                  record {
                    kept_con = record {
                      port = opens.port;
                      socket = ap client_sock opens.same;
                      details = details;
                    };
                    step = rw (state, c_is, s_is) first_payload;
                    released = inl refl;
                    index = λ late. absurd (not_late late);
                    aside = record {
                      timer =
                          inl
                            (refl, ap (λ (t : ProxyConnection). t.wheel_slot_and_index) opens.same);
                      in_range = λ _. (can.selects.server, selected);
                      supply = λ brings b.
                          let (_, _, _, left) =
                            Stocked-drawn u.new_pdu_array x.allocator brings b in
                          left;
                    };
                  },
                )))))
    where
      not_late : at_least x.con.server_state established ≡ true → ⊥
      not_late late = ground (arith, s_is, order.listen_first, order.received_early)
