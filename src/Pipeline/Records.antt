-- ===== src/Pipeline/Records.antt =====
-- What a packet does to the record of its connection: the record shows the server side's state.
use proxyengine.Base.{◌<◌, ◌≡◌}
use proxyengine.Tcp.{StateOrder, established, listen}
use proxyengine.External.{RecStore, TimerWheel, PacketOps}
use proxyengine.Client.{client_packet}
use proxyengine.Client.Acknowledged.{CanOpen}
use proxyengine.Client.Passing.{IsTame}
use proxyengine.Client.Packets.{HasServer, client_packet-Carried}
use proxyengine.Client.Recorded.{LeavesRecord, client_packet-Records}
use proxyengine.Server.{server_packet}
use proxyengine.Server.Packets.{server_packet-Answered}
use proxyengine.Server.Recorded.{server_packet-Records}
use proxyengine.Flow.{Setup, Readings, Flow}
use proxyengine.Flow.Rules.{Total, HasRoom}
use proxyengine.Flow.Recorded.{Recorded}

module _ ⦃order : StateOrder⦄ ⦃R : RecStore⦄ ⦃W : TimerWheel⦄ ⦃O : PacketOps⦄ (u : Setup)
    (tsc : Readings) (x : Flow) where
  -- If the record of a connection, where it keeps one, is valid and shows the server side's state
  -- as its last, then after a client's packet and after a server's, neither of which panics, it is
  -- valid and shows the new state as its last; the first payload's packet, which empties the
  -- record, is no exception. There is room for one more state in the record, the callback that
  -- selects servers leaves the record's place alone, and the payload callback keeps to its part;
  -- an established server side has its server, for a first payload there are a server and a packet
  -- with room for the SYN, and the client has an address.
  pub packets-Recorded :
      Recorded x
      → HasRoom 1 x
      → LeavesRecord u.f_select_server
      → IsTame u.f_process_payload
      → HasServer u tsc x
      → (x.con.client_state ≡ established → x.con.server_state ≡ listen → CanOpen u tsc x)
      → 0 < x.con.client_ip
      → Total Recorded (client_packet u tsc x) × Total Recorded (server_packet u tsc x)
  packets-Recorded shown room leaves tame has_server can address =
      let (y, ran, _) = client_packet-Carried u tsc x tame has_server can room in
      let (z, ran', _) = server_packet-Answered u tsc x address room in
      (
        (y, ran, (client_packet-Records u tsc leaves tame x shown).at y ran),
        (z, ran', (server_packet-Records u tsc x shown).at z ran'),
      )
