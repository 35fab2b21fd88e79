-- ===== src/Connection.antt =====
-- cmanager.rs, `ProxyConnection`.
--
-- `client_state` and `server_state` hold the variant whose
-- discriminant the source keeps in a byte. The union `Seqn` is one word: `f_seqn` and
-- `ack_for_fin_p2c` are the same field `seqn`.
pub mod Laws
use proxyengine.Base.{
  ℕ, ◌≡◌, Bool, true, false, not, Option, none, some, List, [], if◌then◌else◌, ◌==◌, Result, ok,
  panic, ◌>>=◌, unwrap,
}
use mathlib.Core.Option as Opt
use proxyengine.Base.Words.{ℤ, pos}
use proxyengine.Tcp.{TcpState, listen, closed, ReleaseCause}
use proxyengine.Packet.{Sock, Pdu}
use proxyengine.Detailed
use proxyengine.Detailed.{DetailedConnection, Heap}
use proxyengine.External.{RecStore}

pub record ProxyConnection : Type 0 where
  pub payload_packet : Option Pdu
  pub detailed_c : Option DetailedConnection
  pub client_mac : ℕ
  pub client_port : ℕ
  pub client_ip : ℕ
  pub c_seqn : ℕ
  pub ackn_p2s : ℕ
  pub ackn_p2c : ℕ
  pub seqn : ℕ
  pub c2s_inserted_bytes : ℤ
  pub seqn_fin_p2s : ℕ
  pub proxy_port : ℕ
  pub wheel_slot_and_index : ℕ × ℕ
  pub client_state : TcpState
  pub server_state : TcpState
  pub server_index : ℕ

unfoldable pub new : ProxyConnection
new = record {
  payload_packet = none;
  detailed_c = none;
  client_mac = 0;
  client_port = 0;
  client_ip = 0;
  c_seqn = 0;
  ackn_p2s = 0;
  ackn_p2c = 0;
  seqn = 0;
  c2s_inserted_bytes = pos 0;
  seqn_fin_p2s = 0;
  proxy_port = 0;
  wheel_slot_and_index = (0, 0);
  client_state = closed;
  server_state = listen;
  server_index = 0;
}

unfoldable pub initialize : ProxyConnection → Sock → ℕ → ProxyConnection
initialize c client_sock proxy_port = record c {
  payload_packet = none;
  client_mac = 0;
  c_seqn = 0;
  seqn = 0;
  ackn_p2s = 0;
  ackn_p2c = 0;
  c2s_inserted_bytes = pos 0;
  seqn_fin_p2s = 0;
  wheel_slot_and_index = (0, 0);
  client_ip = client_sock.0;
  client_port = client_sock.1;
  proxy_port = proxy_port;
  server_index = 0;
  client_state = closed;
  server_state = listen;
}

abbrev pub in_use : ProxyConnection → Bool
in_use c = not (c.proxy_port == 0)

-- The client's socket as stored, and `sock()`, which takes address 0 for "none".
abbrev pub client_sock : ProxyConnection → Sock
client_sock c = (c.client_ip, c.client_port)

abbrev pub sock : ProxyConnection → Option Sock
sock c = if c.client_ip == 0 then none else some (client_sock c)

unfoldable pub set_server_index : ProxyConnection → ℕ → ProxyConnection
set_server_index c index = record c { server_index = index }

unfoldable pub release : ProxyConnection → ProxyConnection
unfolding Detailed.release
release c = record c { proxy_port = 0; detailed_c = Opt.map Detailed.release c.detailed_c }

module _ ⦃R : RecStore⦄ where
  -- What a call does to the heap: nothing on a connection without details.
  abbrev with_details : Heap → ProxyConnection → (DetailedConnection → Result Heap) → Result Heap
  with_details h c f = elim c.detailed_c [ none ↦ ok h | some d ↦ f d ]

  unfoldable pub initialize_with_details :
      Heap → ProxyConnection → Sock → ℕ → ℕ → Result (Heap × ProxyConnection)
  unfolding initialize Detailed.re_new Detailed.initialize
  initialize_with_details h c client_sock proxy_port store = do
    let renewed = Detailed.re_new h store
    h' ← Detailed.initialize renewed.0 renewed.1 client_sock proxy_port
    ok (h', record (initialize c client_sock proxy_port) { detailed_c = some renewed.1 })

  unfoldable pub c_push_state : Heap → ProxyConnection → TcpState → Result (Heap × ProxyConnection)
  c_push_state h c state = do
    h' ← with_details h c (λ d. Detailed.c_push_state h d state)
    ok (h', record c { client_state = state })

  unfoldable pub s_push_state :
      ℕ → Heap → ProxyConnection → TcpState → Result (Heap × ProxyConnection)
  s_push_state tsc h c state = do
    h' ← with_details h c (λ d. Detailed.s_push_state tsc h d state)
    ok (h', record c { server_state = state })

  unfoldable pub s_set_release_cause : Heap → ProxyConnection → ReleaseCause → Result Heap
  s_set_release_cause h c cause = with_details h c (λ d. Detailed.s_set_release_cause h d cause)

  unfoldable pub s_init : Heap → ProxyConnection → Result Heap
  s_init h c = with_details h c (λ d. Detailed.s_init h d)

  unfoldable pub set_release_cause : Heap → ProxyConnection → ReleaseCause → Result Heap
  set_release_cause h c cause = with_details h c (λ d. Detailed.set_release_cause h d cause)

  unfoldable pub s_states : Heap → ProxyConnection → Result (List TcpState)
  s_states h c = elim c.detailed_c [ none ↦ ok [] | some d ↦ Detailed.s_states h d ]

  unfoldable pub c_states : Heap → ProxyConnection → Result (List TcpState)
  c_states h c = elim c.detailed_c [ none ↦ ok [] | some d ↦ Detailed.c_states h d ]
