-- ===== src/Server/Packets.antt =====
-- A packet of a server as a whole: the event, the release of a closed connection, the translation.
use proxyengine.Base.{
  ◌<◌, ◌≡◌, refl, sym, ap, subst, ◌∙◌, Bool, true, false, ◌&&◌, some, if◌then◌else◌,
}
use proxyengine.Tcp.{closed, established, TcpState, StateOrder, at_least, before}
use proxyengine.Packet.{Sock}
use proxyengine.External.{RecStore, TimerWheel, PacketOps}
use proxyengine.Connection.{ProxyConnection, client_sock}
use proxyengine.Forward.Translate.{server_to_client_lem}
use proxyengine.Flow.{Setup, Readings, Flow, to_group}
use proxyengine.Flow.Rules.{Total, HasRoom}
use proxyengine.Client.{check_closed}
use proxyengine.Client.Passing.{is_over, check_closed_lem}
use proxyengine.Client.Branches.{Kept, kept, Total-if}
use proxyengine.Server.{forward_to_client, server_packet}
use proxyengine.Server.Branches.{ServerStep, ServerMoved}
use proxyengine.Server.Events.{server_event-Moved}
use proxyengine.Base.Words.{wrapping_add}

module _ ⦃order : StateOrder⦄ ⦃R : RecStore⦄ ⦃W : TimerWheel⦄ ⦃O : PacketOps⦄ (u : Setup)
    (tsc : Readings) where
  -- What the translation leaves alone.
  record Passed (y x' : Flow) : Type 0 where
    pub kept_con : Kept y.con x'.con
    pub client_same : x'.con.client_state ≡ y.con.client_state
    pub server_same : x'.con.server_state ≡ y.con.server_state
    pub released : x'.release_connection ≡ y.release_connection
    pub timer : (x'.wheel ≡ y.wheel) × (x'.con.wheel_slot_and_index ≡ y.con.wheel_slot_and_index)
    pub rest : (x'.con.server_index ≡ y.con.server_index) × (x'.allocator ≡ y.allocator)

  to_kernel : (y : Flow) (b : Bool) → Passed y (if b then to_group 2 y else y)
  to_kernel y true = record {
    kept_con = kept y.con;
    client_same = refl;
    server_same = refl;
    released = refl;
    timer = (refl, refl);
    rest = (refl, refl);
  }
  to_kernel y false = record {
    kept_con = kept y.con;
    client_same = refl;
    server_same = refl;
    released = refl;
    timer = (refl, refl);
    rest = (refl, refl);
  }

  forward_to_client-Total :
      (c s : TcpState) (y : Flow) (b : Bool)
      → 0 < y.con.client_ip
      → Total (Passed y) (forward_to_client u tsc c s (y, b))
  unfolding forward_to_client
  forward_to_client-Total c s y b address =
      let (p', con, ran, to_client) = server_to_client_lem u.me y.pdu y.con address in
      let same = to_client.same in
      Total-if {P = Passed y}
        (at_least s established && (at_least c established && before c closed)) _ _
        (λ _. (
          to_group 1 (record y { pdu = p'; con = con }),
          rw ran refl,
          record {
            kept_con = record {
              port = ap (λ (t : ProxyConnection). t.proxy_port) same;
              socket = ap client_sock same;
              details = ap (λ (t : ProxyConnection). t.detailed_c) same;
            };
            client_same = ap (λ (t : ProxyConnection). t.client_state) same;
            server_same = ap (λ (t : ProxyConnection). t.server_state) same;
            released = refl;
            timer = (refl, ap (λ (t : ProxyConnection). t.wheel_slot_and_index) same);
            rest = (ap (λ (t : ProxyConnection). t.server_index) same, refl);
          },
        ))
        (λ _. (if b then to_group 2 y else y, refl, to_kernel y b))

  -- What a server's packet makes of the connection, and when its release is requested.
  pub record Answered (x x' : Flow) : Type 0 where
    pub kept_con : Kept x.con x'.con
    pub step :
        ServerStep x.pdu.tcp
          (wrapping_add x.con.seqn_fin_p2s 1)
          x.con.client_state
          x.con.server_state
          x'.con.client_state
          x'.con.server_state
    pub released :
        x'.release_connection
        ≡ (if is_over x'.con then some x.con.proxy_port else x.release_connection)
    pub timer : (x'.wheel ≡ x.wheel) × (x'.con.wheel_slot_and_index ≡ x.con.wheel_slot_and_index)
    pub rest : (x'.con.server_index ≡ x.con.server_index) × (x'.allocator ≡ x.allocator)

  answered :
      (x x₁ y x' : Flow)
      → ServerMoved x x₁
      → y.con ≡ x₁.con
      → y.wheel ≡ x₁.wheel
      → y.allocator ≡ x₁.allocator
      → y.release_connection
        ≡ (if is_over x₁.con then some x₁.con.proxy_port else x₁.release_connection)
      → Passed y x'
      → Answered x x'
  answered x x₁ y x' m con wheel pool released f = record {
    kept_con = record {
      port = f.kept_con.port ∙ ap (λ (t : ProxyConnection). t.proxy_port) con ∙ m.kept_con.port;
      socket = f.kept_con.socket ∙ ap client_sock con ∙ m.kept_con.socket;
      details =
          f.kept_con.details ∙ ap (λ (t : ProxyConnection). t.detailed_c) con ∙ m.kept_con.details;
    };
    step = rw (f.client_same, f.server_same, con) m.step;
    released =
        f.released
        ∙ released
        ∙ rw (f.client_same, f.server_same, con, m.kept_con.port, m.released) refl;
    timer = (
      f.timer.0 ∙ wheel ∙ m.timer.0,
      f.timer.1 ∙ ap (λ (t : ProxyConnection). t.wheel_slot_and_index) con ∙ m.timer.1,
    );
    rest = (
      f.rest.0 ∙ ap (λ (t : ProxyConnection). t.server_index) con ∙ m.rest.0,
      f.rest.1 ∙ pool ∙ m.rest.1,
    );
  }

  -- For a client with an address, and with room for one more state in the connection's record, no
  -- packet of a server makes the server side panic; the connection keeps its port, socket, record
  -- and timer, its two states move by one ServerStep, and its release is requested exactly if it
  -- is closed on both sides then, or had been requested before.
  pub server_packet-Answered :
      (x : Flow) → 0 < x.con.client_ip → HasRoom 1 x → Total (Answered x) (server_packet u tsc x)
  unfolding server_packet
  server_packet-Answered x address room =
      let (x₁, b, ran, m) = server_event-Moved u tsc x room in
      let (con, wheel, pool, released) = check_closed_lem u tsc x₁ in
      let ip =
        ap (λ (t : ProxyConnection). t.client_ip) con ∙ ap (λ (t : Sock). t.0) m.kept_con.socket in
      let (x', ran', f) =
        forward_to_client-Total x.con.client_state x.con.server_state (check_closed u tsc x₁) b
          (subst (λ i. 0 < i) (sym ip) address) in
      (x', rw ran ran', answered x x₁ (check_closed u tsc x₁) x' m con wheel pool released f)
