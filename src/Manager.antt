-- ===== src/Manager.antt =====
-- cmanager.rs, `ConnectionManager`: the ports of one pipeline, the connections on them, and the map
-- from client sockets to ports.
--
-- A `&mut ProxyConnection` is the port of its place in `port2con` with the connection read there;
-- writing through it is `put_con`. The wheel and the heap of record stores are passed along.
-- `sock2port` is a function into Option. `shuffle_ports` is the parameter of `new`.
pub mod Lookup
pub mod Invariant
pub mod Ports
pub mod Allocate
pub mod Release
pub mod Shut
pub mod New
pub mod Timeouts
pub mod Fetch
pub mod Pool
pub mod Queue
use mathlib.Core.List as List
use proxyengine.Base.{
  ℕ, zero, suc, ◌+◌, ◌-◌, ◌%◌, Bool, true, false, not, ◌&&◌, Option, none, some, List, [], ◌∷◌,
  ◌++◌, map, ltb, ◌==◌, if◌then◌else◌, get_elem?, set, replicate, Result, ok, panic, ◌>>=◌, ◌>>◌,
  assert, unwrap,
}
use proxyengine.Base.Words.{u16_mod}
use Prim.Native.Nat.{bit_and}
use proxyengine.Tcp.{closed, timeout as timed_out}
use proxyengine.Packet.{Sock}
use proxyengine.External.{RecStore, TimerWheel}
use proxyengine.Detailed.{DetailedConnection, Heap, update}
use proxyengine.Connection as Con
use proxyengine.Connection.{ProxyConnection, in_use, sock}

pub record ConnectionManager : Type 0 where
  pub record_store : ℕ
  pub sock2port : Sock → Option ℕ
  pub free_ports : List ℕ
  pub port2con : List ProxyConnection
  pub tcp_dst_port_mask : ℕ
  pub tcp_port_base : ℕ
  pub ip : ℕ
  pub detailed_records : Bool

-- `!port_mask` on a u16.
abbrev pub complement : ℕ → ℕ
complement mask = 65535 - mask

abbrev pub max_tcp_port : ℕ → ℕ → ℕ
max_tcp_port base mask = (base + complement mask) % u16_mod

-- The ports from `base` (port 0 is skipped) up to the last but one shuffled, and the last behind.
unfoldable pub initial_ports : (ℕ → ℕ → List ℕ) → ℕ → ℕ → List ℕ
initial_ports shuffle_ports base mask =
    let last = max_tcp_port base mask in
    shuffle_ports (if base == 0 then 1 else base) ((last + 65535) % u16_mod) ++ last ∷ []

unfoldable pub new : (ℕ → ℕ → List ℕ) → ℕ → ℕ → ℕ → Bool → ConnectionManager
unfolding initial_ports
new shuffle_ports mask ip base detailed_records = record {
  record_store = 0;
  sock2port = λ _. none;
  free_ports = initial_ports shuffle_ports base mask;
  port2con = replicate (complement mask + 1) Con.new;
  tcp_dst_port_mask = mask;
  tcp_port_base = base;
  ip = ip;
  detailed_records = detailed_records;
}

-- `port2con[(p - tcp_port_base) as usize]`. For p below the base the u16 difference underflows:
-- a panic, or an index past the end.
abbrev pub in_port : ConnectionManager → ℕ → Option ProxyConnection
in_port m p = if ltb p m.tcp_port_base then none else get_elem? m.port2con (p - m.tcp_port_base)

unfoldable pub get_mut_con : ConnectionManager → ℕ → Result ProxyConnection
get_mut_con m p = unwrap (in_port m p)

abbrev pub put_con : ConnectionManager → ℕ → ProxyConnection → ConnectionManager
put_con m p c = record m { port2con = set m.port2con (p - m.tcp_port_base) c }

unfoldable pub owns_tcp_port : ConnectionManager → ℕ → Bool
owns_tcp_port m tcp_port = bit_and tcp_port m.tcp_dst_port_mask == m.tcp_port_base

-- A reference to the connection on a port.
abbrev pub Ref : Type 0
Ref = ℕ × ProxyConnection

unfoldable pub get_mut_by_port : ConnectionManager → ℕ → Result (Option Ref)
unfolding get_mut_con owns_tcp_port
get_mut_by_port m port =
    if owns_tcp_port m port
    then (do c ← get_mut_con m port; ok (if in_use c then some (port, c) else none))
    else ok none

unfoldable pub get_mut_by_sock : ConnectionManager → Sock → Result (Option Ref)
unfolding get_mut_con
get_mut_by_sock m s = elim (m.sock2port s) [
  | none ↦ ok none
  | some port ↦ do c ← get_mut_con m port; ok (some (port, c))
]

abbrev pub sock_eq : Sock → Sock → Bool
sock_eq s t = s.0 == t.0 && s.1 == t.1

-- BTreeMap::insert and BTreeMap::remove.
abbrev pub insert : Sock → ℕ → (Sock → Option ℕ) → Sock → Option ℕ
insert s p m t = if sock_eq s t then some p else m t

abbrev pub remove : Sock → (Sock → Option ℕ) → Sock → Option ℕ
remove s m t = if sock_eq s t then none else m t

-- `self.sock2port.remove` of the connection's socket, if it has one.
abbrev pub forget : Option Sock → (Sock → Option ℕ) → Sock → Option ℕ
forget none m = m
forget (some s) m = remove s m

-- `if o.is_some() { assert_eq!(o.unwrap(), p) }`
abbrev pub agrees : Option ℕ → ℕ → Bool
agrees none p = true
agrees (some q) p = q == p

-- The port that the map has for the connection's socket, where there is a socket.
abbrev pub mapped : Option Sock → (Sock → Option ℕ) → Option ℕ
mapped none m = none
mapped (some s) m = m s

module _ ⦃R : RecStore⦄ where
  -- Sets up the connection that is given a port.
  unfoldable pub open_con :
      Heap → ConnectionManager → ProxyConnection → Sock → ℕ → Result (Heap × ProxyConnection)
  unfolding Con.initialize
  open_con h m c s port =
      if m.detailed_records
      then Con.initialize_with_details h c s port m.record_store
      else ok (h, Con.initialize c s port)

  -- `none` in the result is the answer None: no port is left.
  unfoldable pub get_mut_or_insert :
      Heap → ConnectionManager → Sock → Result (Option Ref × Heap × ConnectionManager)
  unfolding get_mut_con open_con
  get_mut_or_insert h m s = elim (m.sock2port s) [
    | some port ↦ do c ← get_mut_con m port; assert (in_use c); ok (some (port, c), h, m)
    | none ↦ elim m.free_ports [
      | [] ↦ ok (none, h, m)
      | port ∷ rest ↦ do
        c ← get_mut_con m port
        assert (not (in_use c))
        opened ← open_con h m c s port
        ok (
          some (port, opened.1),
          opened.0,
          record m {
            free_ports = rest;
            port2con = (put_con m port opened.1).port2con;
            sock2port = insert s port m.sock2port;
          },
        )
    ]
  ]

  unfoldable pub timeout : Heap → ConnectionManager → ℕ → Result (Heap × ConnectionManager)
  unfolding get_mut_by_port Con.set_release_cause Con.c_push_state Con.release
  timeout h m port = do
    found ← get_mut_by_port m port
    elim found [
      | none ↦ ok (h, m)
      | some (_, c) ↦ do
        h₁ ← Con.set_release_cause h c timed_out
        pushed ← Con.c_push_state h₁ c closed
        ok (
          pushed.0,
          record m {
            port2con = (put_con m port (Con.release pushed.1)).port2con;
            free_ports = m.free_ports ++ port ∷ [];
            sock2port = forget (sock pushed.1) m.sock2port;
          },
        )
    ]

  -- The inner loop of `release_timeouts`: 0 marks an entry that was overwritten.
  unfoldable pub time_out_all :
      Heap → ConnectionManager → List ℕ → Result (Heap × ConnectionManager)
  time_out_all h m [] = ok (h, m)
  time_out_all h m (p ∷ ps) = do
    after ← (if p == 0 then ok (h, m) else timeout h m p)
    time_out_all after.0 after.1 ps

module _ ⦃W : TimerWheel⦄ where
  open W use {Wheel}

  unfoldable pub release_port : ConnectionManager → ℕ → Wheel → Result (ConnectionManager × Wheel)
  unfolding get_mut_con Con.release
  release_port m port wheel = do
    c ← get_mut_con m port
    let released = do
      let replaced = W.replace wheel c.wheel_slot_and_index 0
      assert (port == c.proxy_port)
      assert (agrees replaced.0 port)
      assert (agrees (mapped (sock c) m.sock2port) c.proxy_port)
      ok (
        record m {
          free_ports = m.free_ports ++ port ∷ [];
          sock2port = forget (sock c) m.sock2port;
          port2con = (put_con m port (Con.release c)).port2con;
        },
        replaced.1,
      )
    if in_use c then released else ok (m, wheel)

module _ ⦃R : RecStore⦄ ⦃W : TimerWheel⦄ where
  open W use {Wheel}

  abbrev drained : Heap → ConnectionManager → Option (List ℕ) → Result (Heap × ConnectionManager)
  drained h m none = ok (h, m)
  drained h m (some ports) = time_out_all h m ports

  -- `none`: the fuel ran out.
  unfoldable pub release_timeouts :
      ℕ → Heap → ConnectionManager → Wheel → ℕ → Option (Result (Heap × ConnectionManager × Wheel))
  release_timeouts zero h m wheel now = none
  release_timeouts (suc fuel) h m wheel now =
      let ticked = W.tick wheel now in
      elim (drained h m ticked.0) [
        | panic ↦ some panic
        | ok (h', m') ↦ elim ticked.1 [
          | true ↦ release_timeouts fuel h' m' ticked.2 now
          | false ↦ some (ok (h', m', ticked.2))
        ]
      ]

-- Whether the connection holds a reference to store `r`.
abbrev pub holds : ℕ → ProxyConnection → Bool
holds r c = elim c.detailed_c [
  | none ↦ false
  | some d ↦ elim d.store [ none ↦ false | some q ↦ q == r ]
]

abbrev pub count_holders : ℕ → List ProxyConnection → ℕ
count_holders r [] = 0
count_holders r (c ∷ cs) = (if holds r c then 1 else 0) + count_holders r cs

module _ ⦃R : RecStore⦄ where
  open R use {Store}

  abbrev pub max_records : ℕ
  max_records = 0x3FFFF

  -- The old store, and the manager with a new one. Rc::strong_count is 1 for `old_store` itself
  -- and one more for each connection that holds the store.
  unfoldable pub fetch_c_records :
      Heap → ConnectionManager → Option Store × Heap × ConnectionManager
  unfolding Con.release
  fetch_c_records h m =
      let fresh = suc m.record_store in
      let h' = update h fresh (R.with_capacity max_records) in
      let cons =
        if ltb 1 (1 + count_holders m.record_store m.port2con)
        then map Con.release m.port2con
        else m.port2con in
      (
        (if 1 + count_holders m.record_store cons == 1 then some (h m.record_store) else none),
        h',
        record m { record_store = fresh; port2con = cons },
      )
