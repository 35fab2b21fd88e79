-- ===== src/Manager/Lookup.antt =====
-- Reading `port2con` after a write, and sockets as keys.
use native.Mathlib.Decide.{dec_lt, ℕ_discrete}
use proxyengine.Base.{
  ℕ, ◌-◌, ◌≤◌, ◌≡◌, ◌≢◌, ◌↔◌, true, false, none, some, arith, ◌==◌, if◌then◌else◌, get_elem?,
  get_elem?-lt, get_elem?-set_self, get_elem?-set_ne, ==_iff, lt→ltb, le→ltb_not,
}
use proxyengine.Packet.{Sock}
use proxyengine.Connection.{ProxyConnection}
use proxyengine.Manager.{ConnectionManager, in_port, put_con, sock_eq}

-- A connection is found on a port exactly at or above the base, at its distance from it.
pub in_port_inv :
    (m : ConnectionManager) (p : ℕ) {c : ProxyConnection}
    → in_port m p ≡ some c
    → (m.tcp_port_base ≤ p) × (get_elem? m.port2con (p - m.tcp_port_base) ≡ some c)
in_port_inv m p h = elim (dec_lt p m.tcp_port_base) [
  | yes low ↦ absurd (never (rw (lt→ltb p m.tcp_port_base low) at h))
  | no high ↦ (omega arith, rw (le→ltb_not p m.tcp_port_base (omega arith)) at h)
]
  where
    never : {c : ProxyConnection} → none ≡ some c → ⊥
    never e = cc

in_port-put_ne :
    (m : ConnectionManager) (p q : ℕ) (c : ProxyConnection)
    → m.tcp_port_base ≤ p
    → p ≢ q
    → in_port (put_con m p c) q ≡ in_port m q
in_port-put_ne m p q c le ne = elim (dec_lt q m.tcp_port_base) [
  | yes low ↦ rw (lt→ltb q m.tcp_port_base low)
  | no high ↦ rw (le→ltb_not q m.tcp_port_base (omega arith)) (
      get_elem?-set_ne m.port2con (p - m.tcp_port_base) (q - m.tcp_port_base) c
        (λ e. ne (omega arith)))
]

-- A write through a reference is seen on its port alone.
pub in_port-put_con :
    (m : ConnectionManager) (p q : ℕ) (c : ProxyConnection) {c₀ : ProxyConnection}
    → in_port m p ≡ some c₀
    → in_port (put_con m p c) q ≡ (if p == q then some c else in_port m q)
in_port-put_con m p q c h = elim (ℕ_discrete p q) [
  | yes e ↦ rw ((==_iff p q).1 e) (
      rw (← e) (
        rw (le→ltb_not p m.tcp_port_base (in_port_inv m p h).0) (
          get_elem?-set_self m.port2con (p - m.tcp_port_base) c
            (get_elem?-lt m.port2con (p - m.tcp_port_base) (in_port_inv m p h).1))))
  | no e ↦ rw (neq p q e) (in_port-put_ne m p q c (in_port_inv m p h).0 e)
]
  where
    neq : (a b : ℕ) → a ≢ b → (a == b) ≡ false
    neq a b h = ground arith

pub sock_eq_iff : (s t : Sock) → (sock_eq s t ≡ true) ↔ (s ≡ t)
sock_eq_iff (a, b) (c, d) = ground arith
