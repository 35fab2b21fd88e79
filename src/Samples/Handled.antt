-- ===== src/Samples/Handled.antt =====
-- The theorems on one packet's handling, on an established connection that keeps a record: the
-- client's FIN, and the server's.
use proxyengine.Base.{refl, inr, true, false, some, none, [], ◌∷◌, arith}
use proxyengine.Tcp.{established}
use proxyengine.Packet.{Pdu}
use proxyengine.Record as Ext
use proxyengine.Connection.{ProxyConnection}
use proxyengine.Flow.{Setup, Readings, Flow}
use proxyengine.Flow.Rules.{Total, HasRoom}
use proxyengine.Client.{client_event}
use proxyengine.Client.Branches.{Moved}
use proxyengine.Client.Events.{client_event-Moved}
use proxyengine.Server.{server_packet}
use proxyengine.Server.Packets.{Answered, server_packet-Answered}
use proxyengine.Samples.{order, store, ops}
use proxyengine.Samples.Wheels.{wheel, loaded}
use proxyengine.Samples.Forwarded.{engine, target, segment, talk, append_byte, first_server}

abbrev pub setup : Setup
setup = record {
  me = engine;
  servers = target ∷ [];
  f_select_server = first_server;
  f_process_payload = append_byte;
  tcp_min_port = 4000;
  pipeline_ip = 9;
  timeout_cycles = 100;
  wheel_tick_reduction_factor = 10;
  new_pdu_array = λ _. some (segment 0 0 ∷ []);
}

abbrev pub readings : Readings
readings i = 1000

abbrev pub fin : Pdu
fin = record (segment 500 0) {
  tcp = record ((segment 500 0).tcp) { fin_flag = true; psh_flag = false };
}

-- The connection, established on both sides, on slot 0 of store 0.
abbrev busy : ProxyConnection
busy = record talk {
  client_state = established;
  server_state = established;
  detailed_c = some (record { con_rec = some 0; store = some 0 });
}

abbrev pub entered : Flow
entered = record {
  heap = λ _. ([], Ext.new);
  con = busy;
  pdu = fin;
  wheel = loaded;
  counter_c = λ _. 0;
  counter_s = λ _. 0;
  allocator = record { pdu_batch = none; calls = 0 };
  sent = [];
  group_index = 0;
  release_connection = none;
}

entered-HasRoom : HasRoom 1 entered
unfolding Ext.new
entered-HasRoom = inr (0, 0, refl, omega arith)

client_event-Moved_example :
    Total (Moved setup entered) (client_event setup readings established established entered)
client_event-Moved_example = client_event-Moved setup readings entered entered-HasRoom λ _ e. cc

server_packet-Answered_example :
    Total (Answered setup readings entered) (server_packet setup readings entered)
server_packet-Answered_example =
    server_packet-Answered setup readings entered (omega arith) entered-HasRoom
