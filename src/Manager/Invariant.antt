-- ===== src/Manager/Invariant.antt =====
-- The invariant of the manager: every usable port is either free, once, or carries one connection,
-- and the map from sockets to ports is exactly the connections' own sockets. It is a statement
-- about three tables: the connection on each port, the map, and the queue of free ports.
use proxyengine.Base.{ℕ, ◌<◌, ◌≡◌, ◌≢◌, true, false, Option, some, List, contains, Distinct}
use proxyengine.Packet.{Sock}
use proxyengine.Connection.{ProxyConnection, in_use, client_sock}
use proxyengine.Manager.{ConnectionManager, in_port}

-- The connection on port `p` is `c`, and is in use; or is not.
abbrev pub LiveIn : (ℕ → Option ProxyConnection) → ℕ → ProxyConnection → Type 0
LiveIn on p c = (on p ≡ some c) × (in_use c ≡ true)

abbrev pub IdleIn : (ℕ → Option ProxyConnection) → ℕ → ProxyConnection → Type 0
IdleIn on p c = (on p ≡ some c) × (in_use c ≡ false)

pub record Tables (on : ℕ → Option ProxyConnection) (map : Sock → Option ℕ) (free : List ℕ)
    : Type 0 where
  pub keyed : (p : ℕ) (c : ProxyConnection) → LiveIn on p c → c.proxy_port ≡ p
  pub free_idle : (p : ℕ) → contains free p ≡ true → (c : ProxyConnection) × IdleIn on p c
  pub free_distinct : Distinct free
  pub free_nonzero : contains free 0 ≡ false
  pub idle_free : (p : ℕ) (c : ProxyConnection) → IdleIn on p c → p ≢ 0 → contains free p ≡ true
  pub mapped_live :
      (s : Sock) (p : ℕ)
      → map s ≡ some p
      → (c : ProxyConnection) × LiveIn on p c × (client_sock c ≡ s)
  pub live_mapped :
      (p : ℕ) (c : ProxyConnection)
      → LiveIn on p c
      → (map (client_sock c) ≡ some p) × (0 < c.client_ip)

abbrev pub IsValid : ConnectionManager → Type 0
IsValid m = Tables (in_port m) m.sock2port m.free_ports

abbrev pub Live : ConnectionManager → ℕ → ProxyConnection → Type 0
Live m = LiveIn (in_port m)
