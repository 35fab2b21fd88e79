-- ===== src/Pipeline/Entry.antt =====
-- Which packets the closure takes for the proxy's.
use proxyengine.Base.{◌≤◌, ◌≡◌, ◌↔◌, ◌⊎◌, true, none, arith}
use proxyengine.Packet.{Pdu}
use proxyengine.External.{PacketOps}
use proxyengine.Flow.{Setup}
use proxyengine.Pipeline.{early_return}

module _ ⦃O : PacketOps⦄ (u : Setup) (p : Pdu) where
  -- The frame is for this interface, or for all; it is a TCP segment for one of the proxy's
  -- addresses; and its port is the clients' or one of those that the pipelines own.
  abbrev pub IsAddressed : Type 0
  IsAddressed =
      ((p.mac.dst ≡ u.me.l234.mac)
        ⊎ (O.is_multicast p.mac.dst ≡ true)
        ⊎ (O.is_broadcast p.mac.dst ≡ true))
      × (p.mac.etype ≡ 0x0800)
      × (p.ip.protocol ≡ 6)
      × ((p.ip.dst ≡ u.pipeline_ip) ⊎ (p.ip.dst ≡ u.me.l234.ip))
      × ((p.tcp.dst_port ≡ u.me.l234.port) ⊎ (u.tcp_min_port ≤ p.tcp.dst_port))

  -- The closure goes on with a packet exactly if its Ethernet type is a private one, or it is a
  -- TCP segment in an IPv4 frame for this interface, a multicast or a broadcast address, to one of
  -- the proxy's addresses and to the clients' port or a port from the lowest of the pipelines' on.
  pub early_return-none_iff :
      (early_return u p ≡ none) ↔ ((O.private_etype p.mac.etype ≡ true) ⊎ IsAddressed)
  unfolding early_return
  early_return-none_iff = ground arith
