-- ===== src/Samples/Served.antt =====
-- A server's packet, and the client's SYN once more, in a pipeline with one connection.
use proxyengine.Base.{◌↔◌, ◌⊎◌, ℕ, ◌<◌, ◌≡◌, refl, inr, true, false, none, some, [], arith, ok}
use proxyengine.Packet.{Pdu}
use proxyengine.Record as Ext
use proxyengine.Connection as Con
use proxyengine.Flow.Rules.{HasRoom, Total}
use proxyengine.Client.{client_packet}
use proxyengine.Server.{server_packet}
use proxyengine.Pipeline.Roles.{HasRoles, KeepsRoles, packets-HasRoles}
use proxyengine.Manager as Man
use proxyengine.Manager.{owns_tcp_port}
use proxyengine.Tcp.{closed, listen, established}
use proxyengine.Client.Acknowledged.{CanOpen}
use proxyengine.Client.Passing.{IsTame}
use proxyengine.Client.Packets.{HasServer}
use proxyengine.Pipeline.{Pipeline, enter, server_side, client_side, early_return}
use proxyengine.Pipeline.Entry.{IsAddressed, early_return-none_iff}
use proxyengine.Pipeline.Clients.{Turned, client_side-Turned}
use proxyengine.Pipeline.Servers.{Served, server_side-Served}
use proxyengine.Samples.{order, store, ops}
use proxyengine.Samples.Wheels.{wheel, loaded}
use proxyengine.Samples.Forwarded.{segment, append_byte}
use proxyengine.Samples.Handled.{setup, readings}
use proxyengine.Samples.Manage.{stores, one_open, one_open_ok, talk, talk-Live, talk-Scheduled}

abbrev pipeline : Pipeline
pipeline = record {
  cm = one_open;
  heap = stores;
  wheel = loaded;
  counter_c = λ _. 0;
  counter_s = λ _. 0;
  allocator = record { pdu_batch = none; calls = 0 };
  ticks = 0;
  sent = [];
  answers = [];
}

-- The server's FIN, to the port of the connection.
abbrev server_fin : Pdu
server_fin = record (segment 500 0) {
  tcp = record ((segment 500 0).tcp) { dst_port = 4000; fin_flag = true };
}

talk-HasRoom : HasRoom 1 (enter pipeline talk server_fin)
unfolding Ext.new Man.get_mut_or_insert Man.new Con.new Con.initialize_with_details
talk-HasRoom = inr (0, 0, refl, omega arith)

owned : owns_tcp_port one_open 4000 ≡ true
unfolding owns_tcp_port Man.get_mut_or_insert Man.new Con.new Con.initialize_with_details
owned = refl

server_side-Served_example :
    (g : ℕ) × (p' : Pdu) × (s' : Pipeline) × (server_side setup readings server_fin pipeline
      ≡ ok (g, p', s'))
    × Served setup readings server_fin pipeline talk s'
server_side-Served_example =
    server_side-Served setup readings server_fin pipeline talk one_open_ok.0 owned talk-Live.0
      talk-Scheduled talk-HasRoom

-- The client's SYN.
abbrev client_syn : Pdu
client_syn = record (segment 300 0) {
  tcp = record ((segment 300 0).tcp) { syn_flag = true; ack_flag = false };
}

talk_states : (talk.client_state ≡ closed) × (talk.server_state ≡ listen)
unfolding Man.get_mut_or_insert Man.new Con.new Con.initialize_with_details
talk_states = (refl, refl)

talk-HasServer : HasServer setup readings (enter pipeline talk client_syn)
talk-HasServer late = absurd (ground (arith, late, talk_states.1))

talk_mapped : one_open.sock2port (7, 1080) ≡ some 4000
unfolding Man.get_mut_or_insert Man.new Con.new Con.initialize_with_details
talk_mapped = refl

first_server-IsTame : IsTame append_byte
first_server-IsTame c xs room = record {
  kept_con = record { port = refl; socket = refl; details = refl };
  client_same = refl;
  server_same = refl;
  slot = refl;
  index = refl;
}

not_established :
    talk.client_state ≡ established
    → talk.server_state ≡ listen
    → CanOpen setup readings (enter pipeline talk client_syn)
not_established e _ = absurd (ground (arith, e, talk_states.0))

client_side-Turned_example :
    (g : ℕ) × (p' : Pdu) × (s' : Pipeline) × (client_side setup readings client_syn pipeline
      ≡ ok (g, p', s'))
    × Turned setup readings client_syn pipeline 4000 talk s'
client_side-Turned_example =
    client_side-Turned setup readings client_syn pipeline 4000 talk first_server-IsTame
      talk-HasServer not_established one_open_ok.0 talk_mapped talk-Live.0 talk-Scheduled
      talk-HasRoom

early_return-none_iff_example :
    (early_return setup client_syn ≡ none)
    ↔ ((ops.private_etype client_syn.mac.etype ≡ true) ⊎ IsAddressed setup client_syn)
early_return-none_iff_example = early_return-none_iff setup client_syn

talk_address : 0 < talk.client_ip
unfolding Man.get_mut_or_insert Man.new Con.new Con.initialize_with_details
talk_address = omega arith

talk-HasRoles : HasRoles talk
unfolding Man.get_mut_or_insert Man.new Con.new Con.initialize_with_details
talk-HasRoles = ((λ e. cc, λ e. cc), (λ e. cc, λ e. cc))

packets-HasRoles_example :
    Total
      (KeepsRoles setup readings (enter pipeline talk client_syn))
      (client_packet setup readings (enter pipeline talk client_syn))
    × Total
        (KeepsRoles setup readings (enter pipeline talk client_syn))
        (server_packet setup readings (enter pipeline talk client_syn))
packets-HasRoles_example =
    packets-HasRoles setup readings (enter pipeline talk client_syn) talk-HasRoles talk-HasRoom
      first_server-IsTame talk-HasServer not_established talk_address
