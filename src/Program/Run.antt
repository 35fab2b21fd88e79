-- ===== src/Program/Run.antt =====
-- The program as it is put together: the set-up of a pipeline with the program's own callbacks, and
-- then any sequence of packets and ticks; and a client's packet that no server can be found for.
use proxyengine.Base.{
  none, ℕ, ◌<◌, ◌≡◌, ◌≢◌, Bool, true, false, Option, some, List, [], ◌∷◌, ok, ◌==◌,
}
use proxyengine.Base.Words.{u16_mod}
use proxyengine.Packet.{Pdu}
use proxyengine.Tcp.{StateOrder, established, listen}
use proxyengine.External.{RecStore, TimerWheel, PacketOps}
use proxyengine.Connection.{ProxyConnection, client_sock}
use proxyengine.Manager.Invariant.{Live}
use proxyengine.Flow.{Setup}
use proxyengine.Pipeline.{Channels, fetch_c_recs, Pipeline, handle}
use proxyengine.Pipeline.Runs.{Call}
use proxyengine.Pipeline.Rooms.{Roomy}
use proxyengine.Program.{CData}

-- What is asked of a packet: it is addressed if it is not a timer's, goes to a u16 port, and has a
-- payload that deserializes if it is the first one of a client's connection. With detailed records,
-- its connection's record has room, and no message asks for the records. If a message waits, the
-- run time still has the other end of the channel for the answer.
module _ ⦃order : StateOrder⦄ ⦃R : RecStore⦄ ⦃W : TimerWheel⦄ ⦃O : PacketOps⦄ (u : Setup)
    (mode : Bool) (deserialize : List ℕ → Option CData) where
  pub record IsClean (channels : Channels) (p : Pdu) (s : Pipeline) : Type 0 where
    pub addressed :
        (p.mac.etype == O.private_etype_packet) ≡ false
        → (p.mac.etype == O.private_etype_timer) ≡ false
        → 0 < p.ip.src
    pub port : p.tcp.dst_port < u16_mod
    pub reads :
        (port : ℕ) (c : ProxyConnection)
        → Live s.cm port c
        → client_sock c ≡ (p.ip.src, p.tcp.src_port)
        → c.client_state ≡ established
        → c.server_state ≡ listen
        → (cdata : CData) × (deserialize p.payload ≡ some cdata)
    pub roomy : mode ≡ true → Roomy p s
    pub unfetched : mode ≡ true → channels.waiting ≢ some fetch_c_recs
    pub connected : channels.waiting ≢ none → channels.connected ≡ true

  -- Each packet is so in the pipeline that the ones before have led to.
  abbrev pub AllClean : List Call → Pipeline → Type 0
  AllClean [] s = Unit {0}
  AllClean (c ∷ cs) s =
      IsClean c.channels c.pdu s
      × ((g : ℕ) (p : Pdu) (s' : Pipeline)
          → handle u c.tsc c.channels c.now c.pdu s ≡ ok (g, p, s')
          → AllClean cs s')
