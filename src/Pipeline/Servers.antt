-- ===== src/Pipeline/Servers.antt =====
-- A server's packet in the pipeline, from the lookup of its connection to the verdict.
use proxyengine.Base.{
  ℕ, ◌≡◌, refl, ap, ◌∙◌, inl, inr, true, false, none, some, ok, Bool-cases, ◌++◌, [], ◌∷◌,
}
use proxyengine.Base.Words.{wrapping_add}
use proxyengine.Packet.{Pdu}
use proxyengine.Tcp.{StateOrder}
use proxyengine.External.{RecStore, TimerWheel, PacketOps}
use proxyengine.Connection.{ProxyConnection, client_sock}
use proxyengine.Manager.{ConnectionManager, get_mut_by_port, owns_tcp_port}
use proxyengine.Manager.Invariant.{IsValid, Live}
use proxyengine.Manager.Release.{Scheduled}
use proxyengine.Client.Branches.{Kept}
use proxyengine.Flow.{Setup, Readings, Flow}
use proxyengine.Flow.Rules.{HasRoom}
use proxyengine.Server.Branches.{ServerStep}
use proxyengine.Client.Passing.{is_over}
use proxyengine.Server.Packets.{Answered, server_packet-Answered}
use proxyengine.Pipeline.{Pipeline, enter, server_side}
use proxyengine.Pipeline.Leaving.{Left, leave-keeps, leave-releases}

found_by_port :
    (m : ConnectionManager) (p : ℕ) (c : ProxyConnection)
    → owns_tcp_port m p ≡ true
    → Live m p c
    → get_mut_by_port m p ≡ ok (some (p, c))
unfolding get_mut_by_port
found_by_port m p c owned live = rw (owned, get_mut_by_port) (rw live.0 (rw live.1 refl))

module _ ⦃order : StateOrder⦄ ⦃R : RecStore⦄ ⦃W : TimerWheel⦄ ⦃O : PacketOps⦄ (u : Setup)
    (tsc : Readings) (p : Pdu) (s : Pipeline) (c : ProxyConnection) where
  -- What a server's packet has made of the connection `c` on its port: another one, `c'`, in states
  -- that one step leads to, which is live still, or freed if it is closed on both sides.
  pub record Served (s' : Pipeline) : Type 0 where
    pub con : ProxyConnection
    pub kept_con : Kept c con
    pub step :
        ServerStep p.tcp
          (wrapping_add c.seqn_fin_p2s 1)
          c.client_state
          c.server_state
          con.client_state
          con.server_state
    pub valid : IsValid s'.cm
    pub live : is_over con ≡ false → Live s'.cm p.tcp.dst_port con
    pub freed :
        is_over con ≡ true
        → (s'.cm.free_ports ≡ s.cm.free_ports ++ p.tcp.dst_port ∷ [])
          × (s'.cm.sock2port (client_sock c) ≡ none)

  leaving :
      (x : Flow)
      → IsValid s.cm
      → Live s.cm p.tcp.dst_port c
      → Scheduled s.wheel p.tcp.dst_port c
      → Answered u tsc (enter s c p) x
      → (s' : Pipeline) × Left s p.tcp.dst_port c x (is_over x.con) s'
  leaving x v live entry a = elim (Bool-cases (is_over x.con)) [
    | inl over ↦ rw over (
        leave-releases s p.tcp.dst_port c x v live a.kept_con
          (a.released ∙ rw over (ap some (v.keyed p.tcp.dst_port c live)))
          (rw (a.timer.0, a.timer.1) entry))
    | inr open_ ↦
        rw open_ (leave-keeps s p.tcp.dst_port c x v live a.kept_con (a.released ∙ rw open_ refl))
  ]

  -- In a pipeline with a valid manager, a server's packet on a live connection's port, which the
  -- manager's mask owns, and whose timer is its own and whose record has room for one more state,
  -- panics nowhere: the manager stays valid, the connection's states move by one ServerStep, and
  -- its port is freed exactly if it is closed on both sides then.
  pub server_side-Served :
      IsValid s.cm
      → owns_tcp_port s.cm p.tcp.dst_port ≡ true
      → Live s.cm p.tcp.dst_port c
      → Scheduled s.wheel p.tcp.dst_port c
      → HasRoom 1 (enter s c p)
      → (g : ℕ) × (p' : Pdu) × (s' : Pipeline) × (server_side u tsc p s ≡ ok (g, p', s'))
        × Served s'
  unfolding server_side
  server_side-Served v owned live entry room =
      let (x, ran, a) =
        server_packet-Answered u tsc (enter s c p) (v.live_mapped p.tcp.dst_port c live).1 room in
      let (s', left) = leaving x v live entry a in
      (
        x.group_index,
        x.pdu,
        s',
        rw (found_by_port s.cm p.tcp.dst_port c owned live) (rw ran left.returns),
        record {
          con = x.con;
          kept_con = a.kept_con;
          step = a.step;
          valid = left.valid;
          live = left.live;
          freed = left.freed;
        },
      )
