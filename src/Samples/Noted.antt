-- ===== src/Samples/Noted.antt =====
-- The record of a connection whose client sends its first payload, with the program's own callbacks.
use proxyengine.Base.{[], ◌∷◌, some, refl, inr, arith}
use proxyengine.Tcp.{listen}
use proxyengine.Record as Ext
use proxyengine.Record.Laws.{new-IsValid}
use proxyengine.Connection.{ProxyConnection}
use proxyengine.Flow.{Flow}
use proxyengine.Allocator.{get_pdu}
use proxyengine.Flow.Rules.{Total, HasRoom}
use proxyengine.Flow.Recorded.{Recorded}
use proxyengine.Client.{client_packet}
use proxyengine.Client.Acknowledged.{CanOpen}
use proxyengine.Client.Packets.{HasServer}
use proxyengine.Server.{server_packet}
use proxyengine.Pipeline.Records.{packets-Recorded}
use proxyengine.Samples.{order, store, ops}
use proxyengine.Samples.Wheels.{wheel}
use proxyengine.Samples.Forwarded.{segment, target}
use proxyengine.Samples.Handled.{readings, entered}
use proxyengine.Samples.Begun.{given, deserialize}
use proxyengine.Program.Select.{
  f_by_payload-Selects, f_by_payload-LeavesRecord, f_process_payload_c_s-IsTame,
}

abbrev unbound : ProxyConnection
unbound = record (entered.con) { server_state = listen }

abbrev asking : Flow
asking = record entered {
  con = unbound;
  pdu = segment 500 0;
  allocator = record { pdu_batch = some (segment 0 0 ∷ []); calls = 1 };
}

asking-HasRoom : HasRoom 1 asking
unfolding Ext.new
asking-HasRoom = inr (0, 0, refl, omega arith)

asking-Recorded : Recorded asking
unfolding Ext.new Ext.last_state
asking-Recorded = inr (0, 0, refl, new-IsValid, refl)

asking-HasServer : HasServer given readings asking
asking-HasServer late = (target, refl)

asking-CanOpen : CanOpen given readings asking
unfolding get_pdu
asking-CanOpen = record {
  syn = segment 0 0;
  has_syn = refl;
  has_room = refl;
  selects =
      f_by_payload-Selects deserialize (target ∷ []) (segment 500 0) unbound
        (record { reply_ip = 1; reply_port = 2 }) refl (target, refl);
}

packets-Recorded_example :
    Total Recorded (client_packet given readings asking)
    × Total Recorded (server_packet given readings asking)
packets-Recorded_example =
    packets-Recorded given readings asking asking-Recorded asking-HasRoom
      (f_by_payload-LeavesRecord deserialize (target ∷ [])) f_process_payload_c_s-IsTame
      asking-HasServer (λ _ _. asking-CanOpen) (omega arith)
