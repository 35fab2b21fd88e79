-- ===== src/Manager/Pool.antt =====
-- What a manager is for its clients: a pool of ports, each held by one socket or waiting in a
-- queue. Each call of the manager is a step of such a pool.
use proxyengine.Base.{
  ℕ, ◌<◌, ◌≡◌, refl, sym, ap, subst, ◌∙◌, inl, inr, Bool-cases, true, Option, none, some, List, [],
  ◌∷◌, ◌++◌, arith, ◌==◌, ==_iff, if◌then◌else◌, ok,
}
use proxyengine.Packet.{Sock}
use proxyengine.External.{RecStore, TimerWheel}
use proxyengine.Detailed.{Heap}
use proxyengine.Connection.{ProxyConnection, in_use, client_sock}
use proxyengine.Manager.{ConnectionManager, Ref, in_port, get_mut_or_insert, release_port}
use proxyengine.Manager.Invariant.{IsValid, Live}
use proxyengine.Manager.Allocate.{Answer, known, opens, refuses, get_mut_or_insert-IsValid}
use proxyengine.Manager.Release.{Scheduled, IsFreed, release_port-IsValid}

pub record Pool : Type 0 where
  pub holder : ℕ → Option Sock
  pub queue : List ℕ

-- The holder of the ports after `p` has another one.
abbrev pub hold : ℕ → Option Sock → (ℕ → Option Sock) → ℕ → Option Sock
hold p o holder q = if p == q then o else holder q

-- What is asked of a pool, and what it answers.
pub data Event : Type 0 where
  borrow : Sock → Option ℕ → Event
  give_back : ℕ → Event

abbrev pub NoPort : Pool → Sock → Type 0
NoPort b s = (q : ℕ) → b.holder q ≡ some s → ⊥

-- A socket that holds a port gets it again; another one gets the first of the queue, or none; a
-- port that is given back is the last of the queue.
pub data PoolStep (b : Pool) : Event → Pool → Type 0 where
  again : (s : Sock) (p : ℕ) → b.holder p ≡ some s → PoolStep b (borrow s (some p)) b
  takes :
      (s : Sock) (p : ℕ) (rest : List ℕ) (b' : Pool)
      → NoPort b s
      → b.queue ≡ p ∷ rest
      → b.holder p ≡ none
      → b'.queue ≡ rest
      → ((q : ℕ) → b'.holder q ≡ hold p (some s) b.holder q)
      → PoolStep b (borrow s (some p)) b'
  full : (s : Sock) → NoPort b s → b.queue ≡ [] → PoolStep b (borrow s none) b
  returns :
      (s : Sock) (p : ℕ) (b' : Pool)
      → b.holder p ≡ some s
      → b'.queue ≡ b.queue ++ p ∷ []
      → ((q : ℕ) → b'.holder q ≡ hold p none b.holder q)
      → PoolStep b (give_back p) b'

pub data PoolRuns : Pool → List Event → Pool → Type 0 where
  still : {b : Pool} → PoolRuns b [] b
  next :
      {a b c : Pool} {e : Event} {es : List Event}
      → PoolStep a e b
      → PoolRuns b es c
      → PoolRuns a (e ∷ es) c

abbrev pub held_by : Option ProxyConnection → Option Sock
held_by none = none
held_by (some c) = if in_use c then some (client_sock c) else none

-- The manager as a pool: nothing is left of it but who holds a port, and the queue.
abbrev pub pool : ConnectionManager → Pool
pool m = record { holder = λ p. held_by (in_port m p); queue = m.free_ports }

abbrev pub port_of : Option Ref → Option ℕ
port_of none = none
port_of (some (p, c)) = some p

-- The calls of a manager, for sockets with an address and live connections with their own timers.
pub data ManagerStep ⦃R : RecStore⦄ ⦃W : TimerWheel⦄ (m : ConnectionManager)
    : Event → ConnectionManager → Type 0 where
  borrows :
      (h h' : Heap) (s : Sock) (r : Option Ref) (m' : ConnectionManager)
      → 0 < s.0
      → get_mut_or_insert h m s ≡ ok (r, h', m')
      → ManagerStep m (borrow s (port_of r)) m'
  gives_back :
      (p : ℕ) (c : ProxyConnection) (w w' : W.Wheel) (m' : ConnectionManager)
      → Live m p c
      → Scheduled w p c
      → release_port m p w ≡ ok (m', w')
      → ManagerStep m (give_back p) m'

pub data ManagerRuns ⦃R : RecStore⦄ ⦃W : TimerWheel⦄
    : ConnectionManager → List Event → ConnectionManager → Type 0 where
  rests : {m : ConnectionManager} → ManagerRuns m [] m
  calls :
      {l m n : ConnectionManager} {e : Event} {es : List Event}
      → ManagerStep l e m
      → ManagerRuns m es n
      → ManagerRuns l (e ∷ es) n

held-Live :
    (m : ConnectionManager) (p : ℕ) (c : ProxyConnection)
    → Live m p c
    → held_by (in_port m p) ≡ some (client_sock c)
held-Live m p c live = rw (live.0, live.1) refl

held_inv :
    (o : Option ProxyConnection) (s : Sock)
    → held_by o ≡ some s
    → (d : ProxyConnection) × (o ≡ some d) × (in_use d ≡ true) × (client_sock d ≡ s)
held_inv none s e = cc
held_inv (some d) s e = elim (Bool-cases (in_use d)) [
  | inl used ↦ (d, refl, used, inside (rw used at e))
  | inr idle ↦ absurd (never (rw idle at e))
]
  where
    inside : {a b : Sock} → some a ≡ some b → a ≡ b
    inside e = cc

    never : none ≡ some s → ⊥
    never e = cc

unknown-NoPort :
    (m : ConnectionManager) (s : Sock) → IsValid m → m.sock2port s ≡ none → NoPort (pool m) s
unknown-NoPort m s v unknown q e =
    let (d, there, used, same) = held_inv (in_port m q) s e in
    clash (sym unknown ∙ ap m.sock2port (sym same) ∙ (v.live_mapped q d (there, used)).0)
  where
    clash : none ≡ some q → ⊥
    clash e = cc

module _ ⦃R : RecStore⦄ ⦃W : TimerWheel⦄ where
  Answer-PoolStep :
      (m m' : ConnectionManager) (s : Sock) (r : Option Ref)
      → IsValid m
      → Answer m s r m'
      → PoolStep (pool m) (borrow s (port_of r)) (pool m')
  Answer-PoolStep m _ s _ v (known p c live same) = again s p (held-Live m p c live ∙ ap some same)
  Answer-PoolStep m m' s _ v (opens p rest c _ new free fresh live left others _) =
      let (old, waits) = v.free_idle p (ground (arith, free)) in
      let (there, idle) = waits in
      takes s p rest (pool m') (unknown-NoPort m s v new) free (rw (there, idle) refl) left λ q.
        elim (Bool-cases (p == q)) [
          | inl same ↦ rw same (
              subst (λ k. held_by (in_port m' k) ≡ some s) ((==_iff p q).0 same)
                (held-Live m' p c live ∙ ap some fresh.socket))
          | inr other ↦ rw other (ap held_by (others q (λ e. ground (arith, e, other))))
        ]
  Answer-PoolStep m _ s _ v (refuses new none_free) = full s (unknown-NoPort m s v new) none_free

  freed-PoolStep :
      (m m' : ConnectionManager) (p : ℕ) (c : ProxyConnection)
      → Live m p c
      → IsFreed m m' p c
      → PoolStep (pool m) (give_back p) (pool m')
  freed-PoolStep m m' p c live gone =
      returns (client_sock c) p (pool m') (held-Live m p c live) gone.queued λ q.
        elim (Bool-cases (p == q)) [
          | inl same ↦ rw same (
              subst (λ k. held_by (in_port m' k) ≡ none) ((==_iff p q).0 same)
                (rw (gone.idle.0, gone.idle.1) refl))
          | inr other ↦ rw other (ap held_by (gone.others q (λ e. ground (arith, e, other))))
        ]

  answer_is : (a b : Option Ref × Heap × ConnectionManager) → ok a ≡ ok b → a ≡ b
  answer_is a b e = cc

  left_is : (a b : ConnectionManager × W.Wheel) → ok a ≡ ok b → a ≡ b
  left_is a b e = cc

  -- One call of a valid manager is one step of its pool.
  ManagerStep-PoolStep :
      {e : Event} (m m' : ConnectionManager)
      → IsValid m
      → ManagerStep m e m'
      → PoolStep (pool m) e (pool m') × IsValid m'
  ManagerStep-PoolStep m _ v (borrows h h' s r m' address ran) =
      let (r₀, h₀, m₀, ran₀, v₀, _, answer) = get_mut_or_insert-IsValid h m s v address in
      let same = answer_is (r₀, h₀, m₀) (r, h', m') (sym ran₀ ∙ ran) in
      subst
        (λ (o : Option Ref × Heap × ConnectionManager).
          PoolStep (pool m) (borrow s (port_of o.0)) (pool o.2) × IsValid o.2)
        same (Answer-PoolStep m m₀ s r₀ v answer, v₀)
  ManagerStep-PoolStep m _ v (gives_back p c w w' m' live entry ran) =
      let (m₀, w₀, ran₀, v₀, gone, _) = release_port-IsValid m p w c v live entry in
      let same = left_is (m₀, w₀) (m', w') (sym ran₀ ∙ ran) in
      subst
        (λ (o : ConnectionManager × W.Wheel).
          PoolStep (pool m) (give_back p) (pool o.0) × IsValid o.0)
        same (freed-PoolStep m m₀ p c live gone, v₀)

  -- Every run of calls of a valid manager, for sockets with an address and for live connections
  -- with their own timers, is a run of the pool of ports that the manager stands for, with the
  -- same answers: a socket has one port at a time and the ports are given out in the order in
  -- which they came back. The manager is valid at the end.
  pub ManagerRuns-PoolRuns :
      {es : List Event} (m m' : ConnectionManager)
      → IsValid m
      → ManagerRuns m es m'
      → PoolRuns (pool m) es (pool m') × IsValid m'
  ManagerRuns-PoolRuns m _ v rests = (still, v)
  ManagerRuns-PoolRuns m m' v (calls {m = n} step rest) =
      let (first, v₁) = ManagerStep-PoolStep m n v step in
      let (others, v') = ManagerRuns-PoolRuns n m' v₁ rest in (next first others, v')
