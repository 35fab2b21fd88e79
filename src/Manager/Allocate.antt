-- ===== src/Manager/Allocate.antt =====
-- `get_mut_or_insert` and `get_mut_by_sock` on a valid manager.
use proxyengine.Base.{
  ℕ, ◌<◌, ◌≡◌, ◌≢◌, refl, sym, subst, ◌∙◌, inl, inr, false, Option, none, some, List, [], ◌∷◌,
  arith, Bool-cases, Option-cases, ok,
}
use proxyengine.Packet.{Sock}
use proxyengine.Tcp.{listen, closed}
use proxyengine.External.{RecStore}
use proxyengine.Detailed.{Heap}
use proxyengine.Connection as Con
use proxyengine.Connection.{ProxyConnection, in_use, client_sock}
use proxyengine.Manager.{
  ConnectionManager, Ref, in_port, put_con, insert, open_con, get_mut_or_insert,
}
use proxyengine.Manager.Lookup.{in_port-put_con}
use proxyengine.Manager.Invariant.{Tables, IsValid, Live}
use proxyengine.Manager.Ports
use proxyengine.Manager.Shut.{IsSound, put-IsSound}
use proxyengine.Connection.Laws.{HasPlace}

-- A connection as it is when its port has just been given to `s`.
pub record IsFresh (s : Sock) (p : ℕ) (c : ProxyConnection) : Type 0 where
  pub port : c.proxy_port ≡ p
  pub socket : client_sock c ≡ s
  pub client_closed : c.client_state ≡ closed
  pub server_listens : c.server_state ≡ listen
  pub no_payload : c.payload_packet ≡ none
  pub first_server : c.server_index ≡ 0

-- The manager after port `p` was given to `c`, the connection of socket `s`.
abbrev given : ConnectionManager → Sock → ℕ → List ℕ → ProxyConnection → ConnectionManager
given m s p rest c = record m {
  free_ports = rest;
  port2con = (put_con m p c).port2con;
  sock2port = insert s p m.sock2port;
}

given-IsValid :
    (m : ConnectionManager) (s : Sock) (p : ℕ) (rest : List ℕ) (old c : ProxyConnection)
    → IsValid m
    → 0 < s.0
    → m.free_ports ≡ p ∷ rest
    → m.sock2port s ≡ none
    → in_port m p ≡ some old
    → IsFresh s p c
    → IsValid (given m s p rest c) × Live (given m s p rest c) p c
given-IsValid m s p rest old c v ip free new found fresh = (
  subst (λ t. Tables (in_port (put_con m p c)) (insert t p m.sock2port) rest) fresh.socket
      (Ports.opened (in_port m) (in_port (put_con m p c)) m.sock2port m.free_ports v p c
        (λ q. in_port-put_con m p q c found) rest free (rw fresh.socket new) fresh.port
        (subst (λ (t : Sock). 0 < t.0) (sym fresh.socket) ip)),
  (in_port-put_con m p p c found ∙ ground arith, ground (arith, fresh.port, v.free_nonzero, free)),
)

module _ ⦃R : RecStore⦄ where
  open_con_ok :
      (h : Heap) (m : ConnectionManager) (c : ProxyConnection) (s : Sock) (p : ℕ)
      → (o : Heap × ProxyConnection) × (open_con h m c s p ≡ ok o)
        × IsFresh s p o.1
        × ((m.detailed_records ≡ false → c.detailed_c ≡ none)
            → HasPlace o.1 × (m.detailed_records ≡ false → o.1.detailed_c ≡ none))
  unfolding open_con Con.initialize_with_details
  open_con_ok h m c s p = elim (Bool-cases m.detailed_records) [
    | inl details ↦ rw details (
      _,
      refl,
      record {
        port = refl;
        socket = refl;
        client_closed = refl;
        server_listens = refl;
        no_payload = refl;
        first_server = refl;
      },
      λ _. (inr (_, _, refl), λ off. cc),
    )
    | inr plain ↦ rw plain (
      _,
      refl,
      record {
        port = refl;
        socket = refl;
        client_closed = refl;
        server_listens = refl;
        no_payload = refl;
        first_server = refl;
      },
      λ bare. (inl (bare refl), bare),
    )
  ]

  given-IsSound :
      (h : Heap) (m : ConnectionManager) (s : Sock) (p : ℕ) (rest : List ℕ)
      (old c : ProxyConnection)
      → in_port m p ≡ some old
      → ((m.detailed_records ≡ false → old.detailed_c ≡ none)
          → HasPlace c × (m.detailed_records ≡ false → c.detailed_c ≡ none))
      → IsSound m
      → IsSound (given m s p rest c)
  given-IsSound h m s p rest old c found details sound =
      let (placed, bare) = details (λ off. sound.plain p old off found) in
      put-IsSound m _ rest p c old sound found (λ _. placed) bare

  -- What `get_mut_or_insert` answers for socket `s`: the connection that has it, a fresh one on the
  -- first free port, or None, when all ports are taken.
  pub data Answer (m : ConnectionManager) (s : Sock) : Option Ref → ConnectionManager → Type 0 where
    known :
        (p : ℕ) (c : ProxyConnection) → Live m p c → client_sock c ≡ s → Answer m s (some (p, c)) m
    opens :
        (p : ℕ) (rest : List ℕ) (c : ProxyConnection) (m' : ConnectionManager)
        → m.sock2port s ≡ none
        → m.free_ports ≡ p ∷ rest
        → IsFresh s p c
        → Live m' p c
        → m'.free_ports ≡ rest
        → ((q : ℕ) → p ≢ q → in_port m' q ≡ in_port m q)
        → m'.detailed_records ≡ m.detailed_records
        → Answer m s (some (p, c)) m'
    refuses : m.sock2port s ≡ none → m.free_ports ≡ [] → Answer m s none m

  opens_ok :
      (h : Heap) (m : ConnectionManager) (s : Sock) (p : ℕ) (rest : List ℕ) (old : ProxyConnection)
      (o : Heap × ProxyConnection)
      → m.free_ports ≡ p ∷ rest
      → m.sock2port s ≡ none
      → in_port m p ≡ some old
      → in_use old ≡ false
      → open_con h m old s p ≡ ok o
      → get_mut_or_insert h m s ≡ ok (some (p, o.1), o.0, given m s p rest o.1)
  unfolding get_mut_or_insert
  opens_ok h m s p rest old o free new found idle opens_c = ground arith

  -- On a valid manager, and for a socket with an address, get_mut_or_insert fails no assertion and
  -- keeps the manager valid, and sound if it was; it answers the live connection that has the
  -- socket, or a fresh one on the first free port, or None when no port is free.
  pub get_mut_or_insert-IsValid :
      (h : Heap) (m : ConnectionManager) (s : Sock)
      → IsValid m
      → 0 < s.0
      → (r : Option Ref) × (h' : Heap) × (m' : ConnectionManager) × (get_mut_or_insert h m s
          ≡ ok (r, h', m'))
        × IsValid m'
        × (IsSound m → IsSound m')
        × Answer m s r m'
  unfolding get_mut_or_insert
  get_mut_or_insert-IsValid h m s v ip = elim (Option-cases (m.sock2port s)) [
    | inr (p, found) ↦
        let (c, live, same) = v.mapped_live s p found in
        (
          some (p, c),
          h,
          m,
          rw (found, get_mut_or_insert) (rw live.0 (rw live.1)),
          v,
          (λ sound. sound),
          known p c live same,
        )
    | inl new ↦ taken m.free_ports refl new
  ]
    where
      taken :
          (free : List ℕ)
          → m.free_ports ≡ free
          → m.sock2port s ≡ none
          → (r : Option Ref) × (h' : Heap) × (m' : ConnectionManager) × (get_mut_or_insert h m s
              ≡ ok (r, h', m'))
            × IsValid m'
            × (IsSound m → IsSound m')
            × Answer m s r m'
      taken [] e new = (none, h, m, ground (arith, e, new), v, (λ sound. sound), refuses new e)
      taken (p ∷ rest) e new =
          let (old, idle) = v.free_idle p (ground (arith, e)) in
          let (o, opens_c, fresh, details) = open_con_ok h m old s p in
          let (v', live) = given-IsValid m s p rest old o.1 v ip e new idle.0 fresh in
          (
            some (p, o.1),
            o.0,
            given m s p rest o.1,
            opens_ok h m s p rest old o e new idle.0 idle.1 opens_c,
            v',
            given-IsSound h m s p rest old o.1 idle.0 details,
            opens p rest o.1 _ new e fresh live refl
                (λ q ne. in_port-put_con m p q o.1 idle.0 ∙ ground arith) refl,
          )
