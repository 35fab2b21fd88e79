-- ===== src/Client/Closing.antt =====
-- What the branches of the client side do that take part in closing a connection.
use proxyengine.Base.{◌≡◌, refl, inl, true, false, arith, ok, ◌==◌, ◌&&◌}
use proxyengine.Tcp.{
  established, last_ack, fin_wait1, fin_wait2, closing, closed, state_eq, StateOrder, at_least,
  before, active_close, passive_close,
}
use proxyengine.External.{RecStore, TimerWheel, PacketOps}
use proxyengine.Flow.{Setup, Readings, Flow, to_group}
use proxyengine.Flow.Rules.{
  Total, HasRoom, Total-bind, c_push-Total, s_push-Total, c_cause-Total, s_cause-Total,
}
use proxyengine.Client.{
  on_fin_passive, on_fin_both, on_fin_unbound, on_fin_active, on_fin, on_final_ack,
}
use proxyengine.Client.Branches.{
  Kept, fin_passive, fin_both, fin_both_wait1, fin_both_wait2, fin_active, fin_unbound, final_ack,
  Moved, Total-if, less_room, state_eq_sound,
}

module _ ⦃order : StateOrder⦄ ⦃R : RecStore⦄ ⦃W : TimerWheel⦄ ⦃O : PacketOps⦄ (u : Setup)
    (tsc : Readings) (x : Flow) where
  abbrev Grouped : Flow → Type 0
  Grouped y = Total (Moved u x) (ok (to_group 1 y))

  on_fin_passive-Moved :
      HasRoom 0 x
      → x.pdu.tcp.fin_flag ≡ true
      → at_least x.con.server_state fin_wait1 ≡ true
      → x.pdu.tcp.ack_num ≡ x.con.seqn
      → Total (Moved u x) (on_fin_passive u tsc x)
  unfolding on_fin_passive
  on_fin_passive-Moved room flag late acked = Total-bind (Moved u x) _ _ (
      c_cause-Total _ 0 _ passive_close room λ h room₁. Total-bind (Moved u x) _ _ (
        c_push-Total _ 0 _ last_ack room₁ λ h₂ _. (
          _,
          refl,
          record {
            kept_con = record { port = refl; socket = refl; details = refl };
            step = fin_passive flag late acked;
            released = inl refl;
            index = λ _. refl;
            aside = record { timer = inl (refl, refl); in_range = λ r. r; supply = λ _ b. b };
          },
        )))

  on_fin_both-Moved :
      HasRoom 1 x
      → x.pdu.tcp.fin_flag ≡ true
      → at_least x.con.server_state fin_wait1 ≡ true
      → Total (Moved u x) (on_fin_both u tsc x.con.server_state x)
  unfolding on_fin_both
  on_fin_both-Moved room flag late = Total-bind (Moved u x) _ _ (
      c_cause-Total _ 1 _ active_close room λ h room₁. Total-bind (Moved u x) _ _ (
        c_push-Total _ 1 _ closing room₁ λ h₂ room₂. Total-bind (Moved u x) _ _ (
          Total-if {P = Grouped} (state_eq x.con.server_state fin_wait1) _ _
            (λ e. s_push-Total Grouped 0 _ (tsc 1) closing room₂ λ h₃ _. (
              _,
              refl,
              record {
                kept_con = record { port = refl; socket = refl; details = refl };
                step = rw (state_eq_sound x.con.server_state fin_wait1 e) (fin_both_wait1 flag);
                released = inl refl;
                index = λ _. refl;
                aside = record { timer = inl (refl, refl); in_range = λ r. r; supply = λ _ b. b };
              },
            ))
            (λ _.
              Total-if {P = Grouped} (state_eq x.con.server_state fin_wait2) _ _
                (λ e. s_push-Total Grouped 0 _ (tsc 1) closed room₂ λ h₃ _. (
                  _,
                  refl,
                  record {
                    kept_con = record { port = refl; socket = refl; details = refl };
                    step = rw (state_eq_sound x.con.server_state fin_wait2 e) (fin_both_wait2 flag);
                    released = inl refl;
                    index = λ _. refl;
                    aside = record {
                      timer = inl (refl, refl);
                      in_range = λ r. r;
                      supply = λ _ b. b;
                    };
                  },
                ))
                (λ _. (
                  _,
                  refl,
                  (
                    _,
                    refl,
                    record {
                      kept_con = record { port = refl; socket = refl; details = refl };
                      step = fin_both flag late;
                      released = inl refl;
                      index = λ _. refl;
                      aside = record {
                        timer = inl (refl, refl);
                        in_range = λ r. r;
                        supply = λ _ b. b;
                      };
                    },
                  ),
                ))))))

  pub on_final_ack-Moved :
      HasRoom 1 x
      → x.pdu.tcp.ack_flag ≡ true
      → x.pdu.tcp.ack_num ≡ x.con.seqn
      → x.con.server_state ≡ last_ack
      → Total (Moved u x) (on_final_ack u tsc x)
  unfolding on_final_ack
  on_final_ack-Moved room flag acked state = Total-bind (Moved u x) _ _ (
      s_push-Total _ 0 _ (tsc 1) closed room λ h room₁. Total-bind (Moved u x) _ _ (
        c_push-Total _ 0 _ closed room₁ λ h₂ _. (
          _,
          refl,
          record {
            kept_con = record { port = refl; socket = refl; details = refl };
            step = rw state (final_ack flag acked);
            released = inl refl;
            index = λ _. refl;
            aside = record { timer = inl (refl, refl); in_range = λ r. r; supply = λ _ b. b };
          },
        )))

  -- The continuation sees what matters of the connection after the proxy's own FIN-ACK.
  on_fin_unbound-Total :
      (P : Flow → Type 0) (y : Flow)
      → HasRoom 1 y
      → ((y' : Flow)
          → Kept y.con y'.con
          → y'.con.client_state ≡ y.con.client_state
          → y'.con.server_state ≡ last_ack
          → y'.release_connection ≡ y.release_connection
          → y'.con.server_index ≡ y.con.server_index
          → (y'.wheel ≡ y.wheel) × (y'.con.wheel_slot_and_index ≡ y.con.wheel_slot_and_index)
          → y'.allocator ≡ y.allocator
          → P y')
      → Total P (on_fin_unbound u tsc y)
  unfolding on_fin_unbound
  on_fin_unbound-Total P y room k = Total-bind P _ _ (
      s_push-Total _ 0 _ (tsc 1) last_ack room λ h room₁. Total-bind P _ _ (
        s_cause-Total _ 0 _ passive_close room₁ λ h₂ _. (
          _,
          refl,
          k _ (record { port = refl; socket = refl; details = refl }) refl refl refl refl
              (refl, refl) refl,
        )))

  on_fin_active-Moved :
      HasRoom 1 x
      → x.pdu.tcp.fin_flag ≡ true
      → at_least x.con.server_state fin_wait1 ≡ false
      → Total (Moved u x) (on_fin_active u tsc x.con.server_state x)
  unfolding on_fin_active
  on_fin_active-Moved room flag early = Total-bind (Moved u x) _ _ (
      c_cause-Total _ 1 _ active_close room λ h room₁. Total-bind (Moved u x) _ _ (
        c_push-Total _ 1 _ fin_wait1 room₁ λ h₂ room₂. Total-bind (Moved u x) _ _ (
          Total-if {P = Grouped} (before x.con.server_state established) _ _
            (λ e. on_fin_unbound-Total Grouped _ room₂ λ y' k ec es er ei et ea. (
              _,
              refl,
              record {
                kept_con = record { port = k.port; socket = k.socket; details = k.details };
                step = rw (ec, es) (fin_unbound flag e);
                released = inl er;
                index = λ _. ei;
                aside = record {
                  timer = inl et;
                  in_range = λ r. (r.0, rw ei r.1);
                  supply = λ _ b. (b.0, rw ea b.1, b.2);
                };
              },
            ))
            (λ e. (
              _,
              refl,
              (
                _,
                refl,
                record {
                  kept_con = record { port = refl; socket = refl; details = refl };
                  step = fin_active flag (ground (arith, e));
                  released = inl refl;
                  index = λ _. refl;
                  aside = record { timer = inl (refl, refl); in_range = λ r. r; supply = λ _ b. b };
                },
              ),
            )))))

  pub on_fin-Moved :
      HasRoom 1 x
      → x.pdu.tcp.fin_flag ≡ true
      → Total (Moved u x) (on_fin u tsc x.con.server_state x)
  unfolding on_fin
  on_fin-Moved room flag =
      Total-if {P = Moved u x} (at_least x.con.server_state fin_wait1) _ _
        (λ late.
          Total-if {P = Moved u x} (x.pdu.tcp.ack_flag && x.pdu.tcp.ack_num == x.con.seqn) _ _
            (λ e. on_fin_passive-Moved (less_room x room) flag late (ground (arith, e)))
            (λ _. on_fin_both-Moved room flag late))
        (λ early. on_fin_active-Moved room flag early)
