-- ===== src/Client/Events.antt =====
-- The chain of conditions on a client's packet: every packet is handled without a panic, and moves
-- the two states along `Step`.
use proxyengine.Base.{◌≡◌, refl, inl, Bool, true, not, ◌&&◌, ◌||◌, ltb, ◌==◌, ==_iff, arith}
use proxyengine.Tcp.{
  listen, syn_received, syn_sent, established, last_ack, fin_wait1, closed, state_eq, StateOrder,
  at_least, before, unexpected,
}
use proxyengine.External.{RecStore, TimerWheel, PacketOps}
use proxyengine.Flow.{Setup, Readings, Flow, to_group, count_c}
use proxyengine.Flow.Rules.{Total, HasRoom}
use proxyengine.Client.{on_syn, client_event}
use proxyengine.Client.Branches.{
  kept, stays, Moved, Total-if, less_room, state_eq_sound, on_syn-Moved, on_ack_of_syn-Moved,
  on_rst-Moved,
}
use proxyengine.Client.Closing.{on_fin-Moved, on_final_ack-Moved}
use proxyengine.Client.Acknowledged.{CanOpen, on_ack_of_fin-Moved, on_first_payload-Moved}

module _ ⦃order : StateOrder⦄ ⦃R : RecStore⦄ ⦃W : TimerWheel⦄ ⦃O : PacketOps⦄ (u : Setup)
    (tsc : Readings) (x : Flow) where
  ignored : Moved u x x
  ignored = record {
    kept_con = kept x.con;
    step = stays;
    released = inl refl;
    index = λ _. refl;
    aside = record { timer = inl (refl, refl); in_range = λ r. r; supply = λ _ b. b };
  }

  ignored_to_kernel : Moved u x (to_group 2 (count_c unexpected x))
  ignored_to_kernel = record {
    kept_con = kept x.con;
    step = stays;
    released = inl refl;
    index = λ _. refl;
    aside = record { timer = inl (refl, refl); in_range = λ r. r; supply = λ _ b. b };
  }

  -- With room for one more state in the connection's record, and a server and a packet with room
  -- for the SYN to be had for a first payload, no packet of a client makes the client side panic;
  -- the connection keeps its port, socket and record, its two states move by one Step of the
  -- packet's flags, and a release is requested for no other port.
  pub client_event-Moved :
      HasRoom 1 x
      → (x.con.client_state ≡ established → x.con.server_state ≡ listen → CanOpen u tsc x)
      → Total (Moved u x) (client_event u tsc x.con.client_state x.con.server_state x)
  unfolding client_event
  client_event-Moved room can =
      let t = x.pdu.tcp in
      let c = x.con.client_state in
      let s = x.con.server_state in
      Total-if {P = Moved u x} (not (state_eq c closed) && ltb t.seq_num x.con.ackn_p2c) _ _
        (λ _. (x, refl, ignored))
        λ _.
          Total-if {P = Moved u x} t.syn_flag _ _
            (λ syn.
              Total-if {P = Moved u x} (state_eq c closed) _ _
                (λ e. on_syn-Moved u tsc x (less_room x room) syn (state_eq_sound c closed e))
                (λ _. (x, refl, ignored)))
            λ _.
              Total-if {P = Moved u x} (t.ack_flag && state_eq c syn_sent) _ _
                (λ e.
                  on_ack_of_syn-Moved u tsc x (less_room x room) (both e).0
                    (state_eq_sound c syn_sent (both e).1))
                λ _.
                  Total-if {P = Moved u x} t.fin_flag _ _ (λ fin. on_fin-Moved u tsc x room fin)
                    λ _.
                      Total-if {P = Moved u x} t.rst_flag _ _
                        (λ rst. on_rst-Moved u tsc x (less_room x room) rst)
                        λ _.
                          Total-if {P = Moved u x}
                            (t.ack_flag && (t.ack_num == x.con.seqn && at_least s fin_wait1)) _ _
                            (λ e.
                              on_ack_of_fin-Moved u tsc x room (both e).0
                                ((==_iff t.ack_num x.con.seqn).0 (both (both e).1).0)
                                (both (both e).1).1)
                            λ _.
                              Total-if {P = Moved u x}
                                (state_eq s last_ack && (t.ack_flag && t.ack_num == x.con.seqn)) _ _
                                (λ e.
                                  on_final_ack-Moved u tsc x room (both (both e).1).0
                                    ((==_iff t.ack_num x.con.seqn).0 (both (both e).1).1)
                                    (state_eq_sound s last_ack (both e).0))
                                λ _.
                                  Total-if {P = Moved u x}
                                    (state_eq c established && state_eq s listen) _ _
                                    (λ e.
                                      let c_is = state_eq_sound c established (both e).0 in
                                      let s_is = state_eq_sound s listen (both e).1 in
                                      on_first_payload-Moved u tsc x (less_room x room)
                                        (can c_is s_is) c_is s_is)
                                    λ _.
                                      Total-if {P = Moved u x}
                                        (before s syn_received || before c established) _ _
                                        (λ _. (
                                          to_group 2 (count_c unexpected x),
                                          refl,
                                          ignored_to_kernel,
                                        ))
                                        (λ _. (x, refl, ignored))
    where
      both : {a b : Bool} → (a && b) ≡ true → (a ≡ true) × (b ≡ true)
      both {a} {b} e = ground arith

  -- For a closed client side a SYN is the first of a handshake, whatever its number.
  pub client_event_syn :
      x.con.client_state ≡ closed
      → x.pdu.tcp.syn_flag ≡ true
      → client_event u tsc x.con.client_state x.con.server_state x ≡ on_syn u tsc x
  unfolding client_event
  client_event_syn state flag = rw state (rw flag refl)
