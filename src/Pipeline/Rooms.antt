-- ===== src/Pipeline/Rooms.antt =====
-- What is asked of the records of a pipeline that keeps them: room for the server state that a
-- packet may push.
use proxyengine.Base.{ℕ, ◌≡◌, refl, ◌⊎◌, inl, Bool, true, false, some, ok}
use proxyengine.Packet.{Pdu}
use proxyengine.Tcp.{StateOrder}
use proxyengine.External.{RecStore, TimerWheel, PacketOps}
use proxyengine.Detailed.{Heap}
use proxyengine.Connection.{ProxyConnection, client_sock}
use proxyengine.Manager.{ConnectionManager, get_mut_or_insert}
use proxyengine.Manager.Invariant.{Live}
use proxyengine.Manager.Shut.{IsSound}
use proxyengine.Flow.Rules.{Room}
use proxyengine.Pipeline.{Pipeline}

module _ ⦃order : StateOrder⦄ ⦃R : RecStore⦄ ⦃W : TimerWheel⦄ ⦃O : PacketOps⦄ where
  -- The record of the connection that the packet is for has room for one more state, and so has the
  -- one that the store hands out for a connection that the packet opens.
  pub record Roomy (p : Pdu) (s : Pipeline) : Type 0 where
    pub live :
        (port : ℕ) (c : ProxyConnection)
        → Live s.cm port c
        → ((port ≡ p.tcp.dst_port) ⊎ (client_sock c ≡ (p.ip.src, p.tcp.src_port)))
        → Room 1 s.heap c
    pub opened :
        (port : ℕ) (c : ProxyConnection) (h : Heap) (m : ConnectionManager)
        → get_mut_or_insert s.heap s.cm (p.ip.src, p.tcp.src_port) ≡ ok (some (port, c), h, m)
        → Room 1 h c

  -- Without detailed records there is always room.
  pub room_in :
      (mode : Bool) (m : ConnectionManager) (h : Heap) (port : ℕ) (c : ProxyConnection)
      → IsSound m
      → m.detailed_records ≡ mode
      → Live m port c
      → (mode ≡ true → Room 1 h c)
      → Room 1 h c
  room_in true m h port c sound same live room = room refl
  room_in false m h port c sound same live room = inl (sound.plain port c same live.0)
