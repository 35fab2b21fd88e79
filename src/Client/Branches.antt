-- ===== src/Client/Branches.antt =====
-- What each branch of the client side does to a connection: it returns, moves the states along
-- `Step`, and keeps the connection's port, socket and record.
use proxyengine.Base.{
  List, get_elem?, ℕ, ◌≡◌, refl, ◌⊎◌, inl, inr, Bool, true, false, some, arith, Result,
  if◌then◌else◌,
}
use proxyengine.Tcp.{
  TcpState, listen, syn_received, syn_sent, established, close_wait, last_ack, fin_wait1, fin_wait2,
  closing, closed, state_eq, StateOrder, at_least, before, active_rst,
}
use proxyengine.Packet.{TcpHeader}
use proxyengine.External.{RecStore, TimerWheel, PacketOps}
use proxyengine.Packet.{Endpoint}
use proxyengine.Allocator.Supply.{Brings, Stocked}
use proxyengine.Connection.{ProxyConnection, client_sock}
use proxyengine.Forward.{client_syn_received}
use proxyengine.Flow.{Setup, Readings, Flow}
use proxyengine.Flow.Rules.{Total, HasRoom, Total-bind, c_push-Total, c_cause-Total}
use proxyengine.Client.{on_syn, on_ack_of_syn, on_rst}

-- What no event changes of the connection.
pub record Kept (c c' : ProxyConnection) : Type 0 where
  pub port : c'.proxy_port ≡ c.proxy_port
  pub socket : client_sock c' ≡ client_sock c
  pub details : c'.detailed_c ≡ c.detailed_c

abbrev pub kept : (c : ProxyConnection) → Kept c c
kept c = record { port = refl; socket = refl; details = refl }

pub state_eq_sound : (s t : TcpState) → state_eq s t ≡ true → s ≡ t
state_eq_sound s t e = ground arith

-- What the ACK of the server's FIN makes of the states.
abbrev pub server_next : TcpState → TcpState
server_next fin_wait1 = fin_wait2
server_next closing = closed
server_next s = s

abbrev pub client_next : TcpState → TcpState
client_next established = close_wait
client_next fin_wait1 = closing
client_next fin_wait2 = closed
client_next c = c

-- How a client's packet with header `t` moves the two states, of the client's and of the server's
-- side; `seqn` is the number that an ACK of the server's FIN has.
pub data Step ⦃order : StateOrder⦄ (t : TcpHeader) (seqn : ℕ)
    : TcpState → TcpState → TcpState → TcpState → Type 0 where
  stays : {c s : TcpState} → Step t seqn c s c s
  syn : {s : TcpState} → t.syn_flag ≡ true → Step t seqn closed s syn_sent s
  ack_of_syn : {s : TcpState} → t.ack_flag ≡ true → Step t seqn syn_sent s established s
  fin_passive :
      {c s : TcpState}
      → t.fin_flag ≡ true
      → at_least s fin_wait1 ≡ true
      → t.ack_num ≡ seqn
      → Step t seqn c s last_ack s
  fin_both :
      {c s : TcpState} → t.fin_flag ≡ true → at_least s fin_wait1 ≡ true → Step t seqn c s closing s
  fin_both_wait1 : {c : TcpState} → t.fin_flag ≡ true → Step t seqn c fin_wait1 closing closing
  fin_both_wait2 : {c : TcpState} → t.fin_flag ≡ true → Step t seqn c fin_wait2 closing closed
  fin_active :
      {c s : TcpState}
      → t.fin_flag ≡ true
      → at_least s established ≡ true
      → Step t seqn c s fin_wait1 s
  fin_unbound :
      {c s : TcpState}
      → t.fin_flag ≡ true
      → before s established ≡ true
      → Step t seqn c s fin_wait1 last_ack
  rst : {c s : TcpState} → t.rst_flag ≡ true → Step t seqn c s closed s
  ack_of_fin :
      {c s : TcpState}
      → t.ack_flag ≡ true
      → t.ack_num ≡ seqn
      → at_least s fin_wait1 ≡ true
      → Step t seqn c s (client_next c) (server_next s)
  final_ack :
      {c : TcpState} → t.ack_flag ≡ true → t.ack_num ≡ seqn → Step t seqn c last_ack closed closed
  first_payload : Step t seqn established listen established syn_received

-- One of the servers is selected.
abbrev pub InRange : List Endpoint → ProxyConnection → Type 0
InRange servers c = (srv : Endpoint) × (get_elem? servers c.server_index ≡ some srv)

module _ ⦃order : StateOrder⦄ ⦃R : RecStore⦄ ⦃W : TimerWheel⦄ ⦃O : PacketOps⦄ (u : Setup) where
  -- The connection's timer is started anew, for a SYN.
  abbrev pub Rescheduled : Flow → Flow → Type 0
  Rescheduled x x' =
      (x'.con.client_state ≡ syn_sent)
      × (x'.wheel ≡ (W.schedule x.wheel u.timeout_cycles x.con.proxy_port).1)
      × (x'.con.wheel_slot_and_index ≡ (W.schedule x.wheel u.timeout_cycles x.con.proxy_port).0)

  -- What happens to the timer, the selected server and the packet allocator.
  pub record Aside (x x' : Flow) : Type 0 where
    pub timer :
        ((x'.wheel ≡ x.wheel) × (x'.con.wheel_slot_and_index ≡ x.con.wheel_slot_and_index))
        ⊎ Rescheduled x x'
    pub in_range : InRange u.servers x.con → InRange u.servers x'.con
    pub supply : Brings u.new_pdu_array → Stocked x.allocator → Stocked x'.allocator

  -- One step of the connection, with at most a request to release it.
  pub record Moved (x x' : Flow) : Type 0 where
    pub kept_con : Kept x.con x'.con
    pub step :
        Step x.pdu.tcp x.con.seqn x.con.client_state x.con.server_state x'.con.client_state
          x'.con.server_state
    pub released :
        (x'.release_connection ≡ x.release_connection)
        ⊎ ((x'.release_connection ≡ some x.con.proxy_port) × (x'.con.client_state ≡ closed))
    pub index :
        at_least x.con.server_state established ≡ true → x'.con.server_index ≡ x.con.server_index
    pub aside : Aside x x'

module _ ⦃order : StateOrder⦄ ⦃R : RecStore⦄ ⦃W : TimerWheel⦄ where
  pub less_room : (x : Flow) → HasRoom 1 x → HasRoom 0 x
  less_room x (inl e) = inl e
  less_room x (inr (slot, r, e, room)) = inr (slot, r, e, omega arith)

  pub Total-if :
      {P : Flow → Type 0} (b : Bool) (m m' : Result Flow)
      → (b ≡ true → Total P m)
      → (b ≡ false → Total P m')
      → Total P (if b then m else m')
  Total-if true m m' yes_ no_ = yes_ refl
  Total-if false m m' yes_ no_ = no_ refl

module _ ⦃order : StateOrder⦄ ⦃R : RecStore⦄ ⦃W : TimerWheel⦄ ⦃O : PacketOps⦄ (u : Setup)
    (tsc : Readings) (x : Flow) where
  -- A SYN starts the timer, and asks for no release.
  abbrev pub Anew : Flow → Type 0
  Anew x' = Moved u x x' × Rescheduled u x x' × (x'.release_connection ≡ x.release_connection)

  pub on_syn-Anew :
      HasRoom 0 x
      → x.pdu.tcp.syn_flag ≡ true
      → x.con.client_state ≡ closed
      → Total Anew (on_syn u tsc x)
  unfolding on_syn client_syn_received
  on_syn-Anew room flag state = Total-bind Anew _ _ (
      c_push-Total _ 0 _ syn_sent room λ h _. (
        _,
        refl,
        (
          record {
            kept_con = record { port = refl; socket = refl; details = refl };
            step = rw state (syn flag);
            released = inl refl;
            index = λ _. refl;
            aside = record { timer = inr (refl, refl, refl); in_range = λ r. r; supply = λ _ b. b };
          },
          (refl, refl, refl),
          refl,
        ),
      ))

  pub on_syn-Moved :
      HasRoom 0 x
      → x.pdu.tcp.syn_flag ≡ true
      → x.con.client_state ≡ closed
      → Total (Moved u x) (on_syn u tsc x)
  on_syn-Moved room flag state = let (x', ran, m) = on_syn-Anew room flag state in (x', ran, m.0)

  pub on_ack_of_syn-Moved :
      HasRoom 0 x
      → x.pdu.tcp.ack_flag ≡ true
      → x.con.client_state ≡ syn_sent
      → Total (Moved u x) (on_ack_of_syn u tsc x)
  unfolding on_ack_of_syn
  on_ack_of_syn-Moved room flag state = Total-bind (Moved u x) _ _ (
      c_push-Total _ 0 _ established room λ h _. (
        _,
        refl,
        record {
          kept_con = record { port = refl; socket = refl; details = refl };
          step = rw state (ack_of_syn flag);
          released = inl refl;
          index = λ _. refl;
          aside = record { timer = inl (refl, refl); in_range = λ r. r; supply = λ _ b. b };
        },
      ))

  pub on_rst-Moved : HasRoom 0 x → x.pdu.tcp.rst_flag ≡ true → Total (Moved u x) (on_rst u tsc x)
  unfolding on_rst
  on_rst-Moved room flag = Total-bind (Moved u x) _ _ (
      c_push-Total _ 0 _ closed room λ h room₁. Total-bind (Moved u x) _ _ (
        c_cause-Total _ 0 _ active_rst room₁ λ h₂ _. (
          _,
          refl,
          record {
            kept_con = record { port = refl; socket = refl; details = refl };
            step = rst flag;
            released = inr (refl, refl);
            index = λ _. refl;
            aside = record { timer = inl (refl, refl); in_range = λ r. r; supply = λ _ b. b };
          },
        )))
