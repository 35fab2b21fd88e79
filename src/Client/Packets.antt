-- ===== src/Client/Packets.antt =====
-- A packet of a client as a whole: the event, the release of a closed connection, the translation.
use proxyengine.Base.{
  ◌≡◌, refl, ap, ◌∙◌, ◌⊎◌, inl, inr, true, some, arith, if◌then◌else◌, Bool-cases, get_elem?, false,
  ok,
}
use proxyengine.Tcp.{closed, syn_sent, established, listen, StateOrder, at_least}
use proxyengine.Packet.{Endpoint}
use proxyengine.External.{RecStore, TimerWheel, PacketOps}
use proxyengine.Connection.{ProxyConnection, client_sock}
use proxyengine.Flow.{Setup, Readings, Flow}
use proxyengine.Flow.Rules.{Total, HasRoom}
use proxyengine.Client.{check_closed, client_packet, client_event}
use proxyengine.Client.Branches.{
  Aside, Kept, Step, Moved, Rescheduled, state_eq_sound, less_room, on_syn-Anew,
}
use proxyengine.Client.Acknowledged.{CanOpen}
use proxyengine.Client.Events.{client_event-Moved, client_event_syn}
use proxyengine.Client.Passing.{is_over, IsTame, Passed, forward_to_server-Total, check_closed_lem}

module _ ⦃order : StateOrder⦄ ⦃R : RecStore⦄ ⦃W : TimerWheel⦄ ⦃O : PacketOps⦄ (u : Setup)
    (tsc : Readings) where
  -- What a client's packet makes of the connection, and when its release is requested.
  pub record Carried (x x' : Flow) : Type 0 where
    pub kept_con : Kept x.con x'.con
    pub step :
        Step x.pdu.tcp x.con.seqn x.con.client_state x.con.server_state x'.con.client_state
          x'.con.server_state
    pub released :
        (x'.release_connection ≡ x.release_connection)
        ⊎ ((x'.release_connection ≡ some x.con.proxy_port) × (x'.con.client_state ≡ closed))
    pub over : is_over x'.con ≡ true → x'.release_connection ≡ some x.con.proxy_port
    pub aside : Aside u x x'

  over_closed : (c : ProxyConnection) → is_over c ≡ true → c.client_state ≡ closed
  over_closed c over = state_eq_sound c.client_state closed (ground (arith, over))

  checked :
      (x x₁ : Flow)
      → Moved u x x₁
      → ((if is_over x₁.con then some x₁.con.proxy_port else x₁.release_connection)
          ≡ x.release_connection)
        ⊎ (((if is_over x₁.con then some x₁.con.proxy_port else x₁.release_connection)
              ≡ some x.con.proxy_port)
            × (x₁.con.client_state ≡ closed))
  checked x x₁ m = elim (Bool-cases (is_over x₁.con)) [
    | inl over ↦ inr (rw over (ap some m.kept_con.port), over_closed x₁.con over)
    | inr open_ ↦ rw open_ m.released
  ]

  Passed-Aside :
      (x x₁ y x' : Flow)
      → Aside u x x₁
      → y.con ≡ x₁.con
      → y.wheel ≡ x₁.wheel
      → y.allocator ≡ x₁.allocator
      → Passed y x'
      → Aside u x x'
  Passed-Aside x x₁ y x' a con wheel pool f =
      let slot = f.same.slot ∙ ap (λ (t : ProxyConnection). t.wheel_slot_and_index) con in
      let index = f.same.index ∙ ap (λ (t : ProxyConnection). t.server_index) con in
      let client = f.same.client_same ∙ ap (λ (t : ProxyConnection). t.client_state) con in
      record {
        timer = rw (f.wheel_same, wheel, slot, client) a.timer;
        in_range = λ r. let (srv, chosen) = a.in_range r in (srv, rw index chosen);
        supply = λ brings b.
            let (batch, held, roomy) = a.supply brings b in
            (batch, rw (f.pool_same, pool) held, roomy);
      }

  carried :
      (x x₁ y x' : Flow)
      → Moved u x x₁
      → y.con ≡ x₁.con
      → y.wheel ≡ x₁.wheel
      → y.allocator ≡ x₁.allocator
      → y.release_connection
        ≡ (if is_over x₁.con then some x₁.con.proxy_port else x₁.release_connection)
      → Passed y x'
      → Carried x x'
  carried x x₁ y x' m con wheel pool released f =
      let client : x'.con.client_state ≡ x₁.con.client_state =
        f.same.client_same ∙ ap (λ (t : ProxyConnection). t.client_state) con in
      let server : x'.con.server_state ≡ x₁.con.server_state =
        f.same.server_same ∙ ap (λ (t : ProxyConnection). t.server_state) con in
      let request = f.released ∙ released in
      record {
        kept_con = record {
          port =
              f.same.kept_con.port
              ∙ ap (λ (t : ProxyConnection). t.proxy_port) con
              ∙ m.kept_con.port;
          socket = f.same.kept_con.socket ∙ ap client_sock con ∙ m.kept_con.socket;
          details =
              f.same.kept_con.details
              ∙ ap (λ (t : ProxyConnection). t.detailed_c) con
              ∙ m.kept_con.details;
        };
        step = rw (client, server) m.step;
        released = rw (request, client) (checked x x₁ m);
        over = λ e.
            let over₁ : is_over x₁.con ≡ true = rw⁻¹ (client, server) e in
            request ∙ rw over₁ (ap some m.kept_con.port);
        aside = Passed-Aside x x₁ y x' m.aside con wheel pool f;
      }

  -- The packet is translated for a selected server once the connection stands on both sides.
  abbrev pub HasServer : Flow → Type 0
  HasServer x =
      at_least x.con.server_state established ≡ true
      → (srv : Endpoint) × (get_elem? u.servers x.con.server_index ≡ some srv)

  -- From what the event has come to.
  forwarded-Carried :
      (x x₁ : Flow)
      → IsTame u.f_process_payload
      → HasServer x
      → client_event u tsc x.con.client_state x.con.server_state x ≡ ok x₁
      → Moved u x x₁
      → Total (λ x'. Carried x x' × Passed (check_closed u tsc x₁) x') (client_packet u tsc x)
  unfolding client_packet
  forwarded-Carried x x₁ tame has_server ran m =
      let (con, wheel, pool, released) = check_closed_lem u tsc x₁ in
      let index = λ (late : at_least x.con.server_state established ≡ true).
        ap (λ (t : ProxyConnection). t.server_index) con ∙ m.index late in
      let (x', ran', f) =
        forward_to_server-Total u tsc x.con.client_state x.con.server_state (check_closed u tsc x₁)
          tame (λ late. let (srv, chosen) = has_server late in (srv, rw (index late) chosen)) in
      (x', rw ran ran', (carried x x₁ (check_closed u tsc x₁) x' m con wheel pool released f, f))

  pub client_packet-Carried :
      (x : Flow)
      → IsTame u.f_process_payload
      → HasServer x
      → (x.con.client_state ≡ established → x.con.server_state ≡ listen → CanOpen u tsc x)
      → HasRoom 1 x
      → Total (Carried x) (client_packet u tsc x)
  client_packet-Carried x tame has_server can room =
      let (x₁, ran, m) = client_event-Moved u tsc x room can in
      let (x', ran', (a, _)) = forwarded-Carried x x₁ tame has_server ran m in (x', ran', a)

  open_syn_sent : (c : ProxyConnection) → c.client_state ≡ syn_sent → is_over c ≡ false
  open_syn_sent c e = rw e refl

  -- A SYN to a closed client side starts the connection's timer, and frees no port.
  pub client_packet-Anew :
      (x : Flow)
      → IsTame u.f_process_payload
      → HasServer x
      → x.con.client_state ≡ closed
      → x.pdu.tcp.syn_flag ≡ true
      → HasRoom 1 x
      → Total
          (λ x'. Carried x x' × Rescheduled u x x' × (x'.release_connection ≡ x.release_connection))
          (client_packet u tsc x)
  client_packet-Anew x tame has_server state flag room =
      let (x₁, ran, ev) = on_syn-Anew u tsc x (less_room x room) flag state in
      let (m, anew, unasked) = ev in
      let (x', ran', both) =
        forwarded-Carried x x₁ tame has_server (client_event_syn u tsc x state flag ∙ ran) m in
      let (a, f) = both in
      let (con, wheel, _, released) = check_closed_lem u tsc x₁ in
      (
        x',
        ran',
        (
          a,
          (
            f.same.client_same ∙ ap (λ (t : ProxyConnection). t.client_state) con ∙ anew.0,
            f.wheel_same ∙ wheel ∙ anew.1,
            f.same.slot ∙ ap (λ (t : ProxyConnection). t.wheel_slot_and_index) con ∙ anew.2,
          ),
          f.released ∙ released ∙ rw (open_syn_sent x₁.con anew.0) unasked,
        ),
      )
