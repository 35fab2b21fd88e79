-- ===== src/Manager/Release.antt =====
-- `release_port` on a valid manager.
use proxyengine.Base.{
  ℕ, ◌≡◌, ◌≢◌, refl, ap, ◌∙◌, true, false, none, some, [], ◌∷◌, ◌++◌, arith, ◌==◌, ok,
  if◌then◌else◌,
}
use proxyengine.Packet.{Sock}
use proxyengine.External.{TimerWheel}
use proxyengine.Connection as Con
use proxyengine.Connection.{ProxyConnection, in_use, client_sock, sock}
use proxyengine.Manager.{ConnectionManager, in_port, put_con, forget, agrees, release_port}
use proxyengine.Manager.Lookup.{in_port-put_con}
use proxyengine.Manager.Invariant.{IsValid, Live}
use proxyengine.Manager.Ports

-- The manager after the connection on port `p`, last seen as `c`, gave the port back.
abbrev pub freed : ConnectionManager → ℕ → ProxyConnection → ConnectionManager
freed m p c = record m {
  free_ports = m.free_ports ++ p ∷ [];
  sock2port = forget (sock c) m.sock2port;
  port2con = (put_con m p (Con.release c)).port2con;
}

-- What a freed port looks like.
pub record IsFreed (m m' : ConnectionManager) (p : ℕ) (c : ProxyConnection) : Type 0 where
  pub queued : m'.free_ports ≡ m.free_ports ++ p ∷ []
  pub forgotten : m'.sock2port (client_sock c) ≡ none
  pub idle : (in_port m' p ≡ some (Con.release c)) × (in_use (Con.release c) ≡ false)
  pub others : (q : ℕ) → p ≢ q → in_port m' q ≡ in_port m q

pub release_idle : (c : ProxyConnection) → in_use (Con.release c) ≡ false
unfolding Con.release
release_idle c = refl

-- `c` may differ from the connection `old` that the tables show, but not in its port and socket.
pub freed-IsValid :
    (m : ConnectionManager) (p : ℕ) (old c : ProxyConnection)
    → IsValid m
    → Live m p old
    → client_sock c ≡ client_sock old
    → IsValid (freed m p c) × IsFreed m (freed m p c) p c
freed-IsValid m p old c v live same = (
  rw (same_forget) (
      Ports.closed (in_port m) (in_port (put_con m p (Con.release c))) m.sock2port m.free_ports v p
        (Con.release c) (λ q. in_port-put_con m p q (Con.release c) live.0) old live
        (release_idle c)),
  record {
    queued = refl;
    forgotten = ground (arith, (v.live_mapped p old live).1, ap (λ (t : Sock). t.0) same);
    idle = (in_port-put_con m p p (Con.release c) live.0 ∙ ground arith, release_idle c);
    others = λ q ne. in_port-put_con m p q (Con.release c) live.0 ∙ ground arith;
  },
)
  where
    same_forget : forget (sock c) m.sock2port ≡ forget (sock old) m.sock2port
    same_forget = ap (λ (t : Sock). forget (if t.0 == 0 then none else some t) m.sock2port) same

module _ ⦃W : TimerWheel⦄ where
  open W use {Wheel}

  -- The wheel's entry at the connection's place is the port's, or none.
  abbrev pub Scheduled : Wheel → ℕ → ProxyConnection → Type 0
  Scheduled wheel p c = agrees (W.replace wheel c.wheel_slot_and_index 0).0 p ≡ true

  pub release_port_ok :
      (m : ConnectionManager) (p : ℕ) (wheel : Wheel) (c : ProxyConnection)
      → IsValid m
      → Live m p c
      → Scheduled wheel p c
      → release_port m p wheel ≡ ok (freed m p c, (W.replace wheel c.wheel_slot_and_index 0).1)
  unfolding release_port
  release_port_ok m p wheel c v live entry =
      ground (arith, v.keyed p c, v.live_mapped p c, live, entry)

  pub release_port_idle :
      (m : ConnectionManager) (p : ℕ) (wheel : Wheel) (c : ProxyConnection)
      → in_port m p ≡ some c
      → in_use c ≡ false
      → release_port m p wheel ≡ ok (m, wheel)
  unfolding release_port
  release_port_idle m p wheel c found idle = ground (arith, found, idle)

  -- Releasing the port of a live connection of a valid manager, whose entry in the wheel is its
  -- own or gone, fails no assertion, keeps the manager valid, queues the port last, forgets the
  -- socket and leaves every other port as it was; releasing the port again changes nothing.
  pub release_port-IsValid :
      (m : ConnectionManager) (p : ℕ) (wheel : Wheel) (c : ProxyConnection)
      → IsValid m
      → Live m p c
      → Scheduled wheel p c
      → (m' : ConnectionManager) × (wheel' : Wheel) × (release_port m p wheel ≡ ok (m', wheel'))
        × IsValid m'
        × IsFreed m m' p c
        × (release_port m' p wheel' ≡ ok (m', wheel'))
  release_port-IsValid m p wheel c v live entry =
      let (v', gone) = freed-IsValid m p c c v live refl in
      (
        freed m p c,
        (W.replace wheel c.wheel_slot_and_index 0).1,
        release_port_ok m p wheel c v live entry,
        v',
        gone,
        release_port_idle (freed m p c) p _ (Con.release c) gone.idle.0 gone.idle.1,
      )
