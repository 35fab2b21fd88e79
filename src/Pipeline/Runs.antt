-- ===== src/Pipeline/Runs.antt =====
-- The closure as a whole, and any sequence of its calls: a pipeline in order stays so.
use proxyengine.Base.{
  ℕ, ◌<◌, ◌≡◌, Bool, ◌≢◌, true, false, none, some, List, [], ◌∷◌, ◌==◌, Result, ok, ◌>>=◌,
}
use proxyengine.Base.Words.{u16_mod}
use proxyengine.Packet.{Pdu}
use proxyengine.Tcp.{StateOrder}
use proxyengine.External.{RecStore, TimerWheel, PacketOps}
use proxyengine.Connection.{ProxyConnection, client_sock}
use proxyengine.Manager.Invariant.{Live}
use proxyengine.Flow.{Setup, Readings}
use proxyengine.Pipeline.{fetch_c_recs, Channels, Pipeline, handle}
use proxyengine.Pipeline.Rooms.{Roomy}
use proxyengine.Pipeline.Ready.{Readable}

-- One call of the closure: the cycle counter's readings, the channels to the run time, the cycle
-- counter at the time-outs, and the packet.
pub record Call : Type 0 where
  pub tsc : Readings
  pub channels : Channels
  pub now : ℕ
  pub pdu : Pdu

module _ ⦃order : StateOrder⦄ ⦃R : RecStore⦄ ⦃W : TimerWheel⦄ ⦃O : PacketOps⦄ (u : Setup) where
  -- The closure, called on one packet after the other: each one's group, and the packet as it goes
  -- out.
  unfoldable pub run : List Call → Pipeline → Result (List (ℕ × Pdu) × Pipeline)
  run [] s = ok ([], s)
  run (c ∷ cs) s = do
    done ← handle u c.tsc c.channels c.now c.pdu s
    rest ← run cs done.2
    ok ((done.0, done.1) ∷ rest.0, rest.1)

module _ ⦃order : StateOrder⦄ ⦃R : RecStore⦄ ⦃W : TimerWheel⦄ ⦃O : PacketOps⦄ (u : Setup)
    (mode : Bool) where
  -- What is asked of a call, its packet first: it comes from an address, if it is not one of the
  -- timer's own, the port that it goes to is a u16, and the callback that selects the server can
  -- read it, if it is the first payload packet of its client's connection. With detailed records,
  -- the record that it concerns has room, and the records are not fetched. If a message waits, the
  -- run time still has the other end of the channel for the answer.
  pub record IsWire (channels : Channels) (p : Pdu) (s : Pipeline) : Type 0 where
    pub addressed :
        (p.mac.etype == O.private_etype_packet) ≡ false
        → (p.mac.etype == O.private_etype_timer) ≡ false
        → 0 < p.ip.src
    pub port : p.tcp.dst_port < u16_mod
    pub readable :
        (port : ℕ) (c : ProxyConnection)
        → Live s.cm port c
        → client_sock c ≡ (p.ip.src, p.tcp.src_port)
        → Readable u p c
    pub roomy : mode ≡ true → Roomy p s
    pub unfetched : mode ≡ true → channels.waiting ≢ some fetch_c_recs
    pub connected : channels.waiting ≢ none → channels.connected ≡ true

  -- Each call is with such a packet, in the pipeline that the calls before have led to.
  abbrev pub AllWire : List Call → Pipeline → Type 0
  AllWire [] s = Unit {0}
  AllWire (c ∷ cs) s =
      IsWire c.channels c.pdu s
      × ((g : ℕ) (p : Pdu) (s' : Pipeline)
          → handle u c.tsc c.channels c.now c.pdu s ≡ ok (g, p, s')
          → AllWire cs s')
