-- ===== src/Pipeline/Leaving.antt =====
-- The end of a packet's handling: the connection is written back, and its port released if the
-- branch asked for that.
use proxyengine.Base.{
  ℕ, ◌≡◌, refl, sym, ap, ◌∙◌, Bool, true, false, none, some, [], ◌∷◌, ◌++◌, arith, ok,
}
use proxyengine.Tcp.{StateOrder}
use proxyengine.External.{RecStore, TimerWheel, PacketOps}
use proxyengine.Connection.{ProxyConnection, client_sock}
use proxyengine.Manager.{ConnectionManager, in_port, put_con}
use proxyengine.Manager.Lookup.{in_port-put_con}
use proxyengine.Manager.Invariant.{IsValid, Live}
use proxyengine.Manager.Ports
use proxyengine.Manager.Release.{Scheduled, release_port-IsValid}
use proxyengine.Client.Branches.{Kept}
use proxyengine.Flow.{Flow}
use proxyengine.Pipeline.{Pipeline, leave}

-- Writing a connection back under its own port and socket.
pub put_con-IsValid :
    (m : ConnectionManager) (p : ℕ) (c c' : ProxyConnection)
    → IsValid m
    → Live m p c
    → Kept c c'
    → IsValid (put_con m p c') × Live (put_con m p c') p c'
put_con-IsValid m p c c' v live k = (
  Ports.rewritten (in_port m) (in_port (put_con m p c')) m.sock2port m.free_ports v p c'
      (λ q. in_port-put_con m p q c' live.0) c live k.port k.socket,
  (in_port-put_con m p p c' live.0 ∙ ground arith, ground (arith, live.1, k.port)),
)

module _ ⦃order : StateOrder⦄ ⦃R : RecStore⦄ ⦃W : TimerWheel⦄ ⦃O : PacketOps⦄ (s : Pipeline)
    (port : ℕ) (c : ProxyConnection) (x : Flow) where
  abbrev pub after : ConnectionManager → W.Wheel → Pipeline
  after m wheel = record s {
    cm = m;
    wheel = wheel;
    heap = x.heap;
    counter_c = x.counter_c;
    counter_s = x.counter_s;
    allocator = x.allocator;
    sent = x.sent;
  }

  -- The verdict, and the manager that goes with it.
  pub record Left (released : Bool) (s' : Pipeline) : Type 0 where
    pub returns : leave s port x ≡ ok (x.group_index, x.pdu, s')
    pub valid : IsValid s'.cm
    pub live : released ≡ false → Live s'.cm port x.con
    pub freed :
        released ≡ true
        → (s'.cm.free_ports ≡ s.cm.free_ports ++ port ∷ [])
          × (s'.cm.sock2port (client_sock c) ≡ none)

  pub leave-keeps :
      IsValid s.cm
      → Live s.cm port c
      → Kept c x.con
      → x.release_connection ≡ none
      → (s' : Pipeline) × Left false s'
  unfolding leave
  leave-keeps v live k e =
      let (v', live') = put_con-IsValid s.cm port c x.con v live k in
      (
        after (put_con s.cm port x.con) x.wheel,
        record { returns = rw e refl; valid = v'; live = λ _. live'; freed = λ b. cc },
      )

  pub leave-releases :
      IsValid s.cm
      → Live s.cm port c
      → Kept c x.con
      → x.release_connection ≡ some port
      → Scheduled x.wheel port x.con
      → (s' : Pipeline) × Left true s'
  unfolding leave
  leave-releases v live k e entry =
      let (v', live') = put_con-IsValid s.cm port c x.con v live k in
      let (m, wheel, ran, v'', gone, _) =
        release_port-IsValid (put_con s.cm port x.con) port x.wheel x.con v' live' entry in
      (
        after m wheel,
        record {
          returns = rw e (rw ran refl);
          valid = v'';
          live = λ b. cc;
          freed = λ _. (gone.queued, ap m.sock2port (sym k.socket) ∙ gone.forgotten);
        },
      )
