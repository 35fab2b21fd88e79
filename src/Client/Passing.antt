-- ===== src/Client/Passing.antt =====
-- The end of a client's packet: the release of a closed connection, and the translation.
use proxyengine.Base.{
  ℕ, ◌≡◌, refl, inl, inr, Bool, true, ◌&&◌, some, List, arith, if◌then◌else◌, Bool-cases, get_elem?,
  ltb,
}
use proxyengine.Tcp.{closed, established, state_eq, TcpState, StateOrder, at_least, before}
use proxyengine.Packet.{Pdu, Endpoint}
use proxyengine.External.{RecStore, TimerWheel, PacketOps}
use proxyengine.Connection.{ProxyConnection}
use proxyengine.Forward.{FnPayload, client_to_server, processed, translated}
use proxyengine.Flow.{Setup, Readings, Flow, to_group}
use proxyengine.Flow.Rules.{Total}
use proxyengine.Client.{check_closed, forward_to_server}
use proxyengine.Client.Branches.{Kept, kept, Total-if}

-- Whether the connection is closed on both sides.
abbrev pub is_over : ProxyConnection → Bool
is_over c = state_eq c.client_state closed && state_eq c.server_state closed

-- What the translation leaves alone of a connection.
pub record SameCon (c c' : ProxyConnection) : Type 0 where
  pub kept_con : Kept c c'
  pub client_same : c'.client_state ≡ c.client_state
  pub server_same : c'.server_state ≡ c.server_state
  pub slot : c'.wheel_slot_and_index ≡ c.wheel_slot_and_index
  pub index : c'.server_index ≡ c.server_index

-- A payload callback that leaves them alone too.
abbrev pub IsTame : FnPayload → Type 0
IsTame f = (c : ProxyConnection) (xs : List ℕ) (room : ℕ) → SameCon c (f c xs room).0

pub same_con : (c : ProxyConnection) → SameCon c c
same_con c = record {
  kept_con = kept c;
  client_same = refl;
  server_same = refl;
  slot = refl;
  index = refl;
}

module _ ⦃O : PacketOps⦄ where
  pub processed-SameCon :
      (f : FnPayload) (p : Pdu) (c : ProxyConnection) → IsTame f → SameCon c (processed f p c).1
  processed-SameCon f p c tame = elim (Bool-cases (ltb 0 (O.tcp_payload_size p))) [
    | inl some_ ↦ rw some_ (tame c p.payload (O.get_tailroom p))
    | inr none_ ↦ rw none_ (same_con c)
  ]

module _ ⦃R : RecStore⦄ ⦃W : TimerWheel⦄ where
  -- The flow after the translation.
  pub record Passed (y x' : Flow) : Type 0 where
    pub same : SameCon y.con x'.con
    pub released : x'.release_connection ≡ y.release_connection
    pub wheel_same : x'.wheel ≡ y.wheel
    pub pool_same : x'.allocator ≡ y.allocator

module _ ⦃order : StateOrder⦄ ⦃R : RecStore⦄ ⦃W : TimerWheel⦄ ⦃O : PacketOps⦄ (u : Setup)
    (tsc : Readings) where
  pub forward_to_server-Total :
      (c s : TcpState) (y : Flow)
      → IsTame u.f_process_payload
      → (at_least s established ≡ true
          → (srv : Endpoint) × (get_elem? u.servers y.con.server_index ≡ some srv))
      → Total (Passed y) (forward_to_server u tsc c s y)
  unfolding forward_to_server client_to_server
  forward_to_server-Total c s y tame has_server =
      Total-if {P = Passed y}
        (at_least s established && (before s closed && at_least c established)) _ _
        (λ e.
          let (srv, chosen) = has_server (ground (arith, e)) in
          let same = processed-SameCon u.f_process_payload y.pdu y.con tame in
          let edited = processed u.f_process_payload y.pdu y.con in
          let out = translated u.me srv edited.0 edited.1 in
          (
            to_group 1 (record y { pdu = out.0; con = out.1 }),
            rw same.index (rw chosen refl),
            record {
              same = record {
                kept_con = record {
                  port = same.kept_con.port;
                  socket = same.kept_con.socket;
                  details = same.kept_con.details;
                };
                client_same = same.client_same;
                server_same = same.server_same;
                slot = same.slot;
                index = same.index;
              };
              released = refl;
              wheel_same = refl;
              pool_same = refl;
            },
          ))
        (λ _. (
          y,
          refl,
          record { same = same_con y.con; released = refl; wheel_same = refl; pool_same = refl },
        ))

  pub check_closed_lem :
      (y : Flow)
      → ((check_closed u tsc y).con ≡ y.con)
        × ((check_closed u tsc y).wheel ≡ y.wheel)
        × ((check_closed u tsc y).allocator ≡ y.allocator)
        × ((check_closed u tsc y).release_connection
            ≡ (if is_over y.con then some y.con.proxy_port else y.release_connection))
  check_closed_lem y = elim (Bool-cases (is_over y.con)) [
    | inl over ↦ rw over (refl, refl, refl, refl)
    | inr open_ ↦ rw open_ (refl, refl, refl, refl)
  ]
