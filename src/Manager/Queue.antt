-- ===== src/Manager/Queue.antt =====
-- Clients that come one after the other: the ports reach them in the order of the queue, and a port
-- that was given back is among them.
use mathlib.Core.List.{append-nil}
use proxyengine.Base.{
  ℕ, ◌+◌, ◌<◌, ◌≡◌, ◌≢◌, refl, sym, ap, ◌∙◌, inl, inr, Bool-cases, Option, Option-cases, none, some,
  List, [], ◌∷◌, ◌++◌, map, length, length-append, arith, ◌==◌, ==_iff, Result, ok, ◌>>=◌,
}
use proxyengine.Packet.{Sock}
use proxyengine.External.{RecStore, TimerWheel}
use proxyengine.Detailed.{Heap}
use proxyengine.Connection.{ProxyConnection, client_sock}
use proxyengine.Manager.{ConnectionManager, Ref, in_port, get_mut_or_insert, release_port}
use proxyengine.Manager.Invariant.{IsValid, Live}
use proxyengine.Manager.Allocate.{Answer, known, opens, refuses, get_mut_or_insert-IsValid}
use proxyengine.Manager.Release.{Scheduled, IsFreed, release_port-IsValid}
use proxyengine.Manager.Pool.{port_of}

abbrev pub NotIn : Sock → List Sock → Type 0
NotIn s [] = Unit {0}
NotIn s (t ∷ ts) = (s ≢ t) × NotIn s ts

-- Sockets with an address that differ from each other and that the manager does not know.
abbrev pub AllNew : ConnectionManager → List Sock → Type 0
AllNew m [] = Unit {0}
AllNew m (s ∷ ss) = (0 < s.0) × (m.sock2port s ≡ none) × NotIn s ss × AllNew m ss

module _ ⦃R : RecStore⦄ where
  -- The ports for the SYNs of these clients.
  unfoldable pub serve :
      Heap → ConnectionManager → List Sock → Result (List (Option ℕ) × ConnectionManager)
  serve h m [] = ok ([], m)
  serve h m (s ∷ ss) = do
    r ← get_mut_or_insert h m s
    rest ← serve r.1 r.2 ss
    ok (port_of r.0 ∷ rest.0, rest.1)

  clash : {q : ℕ} {A : Type 0} (o : Option ℕ) → o ≡ none → o ≡ some q → A
  clash o e e' = absurd (never (sym e ∙ e'))
    where
      never : {q : ℕ} → none ≡ some q → ⊥
      never e = cc

  -- A socket that no live connection has is unknown.
  still_unknown :
      (m m' : ConnectionManager) (t : Sock) (p : ℕ)
      → IsValid m
      → IsValid m'
      → m.sock2port t ≡ none
      → ((q : ℕ) → p ≢ q → in_port m' q ≡ in_port m q)
      → ((d : ProxyConnection) → Live m' p d → client_sock d ≢ t)
      → m'.sock2port t ≡ none
  still_unknown m m' t p v v' new others own = elim (Option-cases (m'.sock2port t)) [
    | inl unknown ↦ unknown
    | inr (q, found) ↦
        let (d, live, same) = v'.mapped_live t q found in
        elim (Bool-cases (p == q)) [
          | inl here ↦ absurd (own d (rw ((==_iff p q).0 here) live) same)
          | inr there ↦
              let old : Live m q d =
                (sym (others q (λ e. ground (arith, e, there))) ∙ live.0, live.1) in
              clash (m.sock2port t) new (ap m.sock2port (sym same) ∙ (v.live_mapped q d old).0)
        ]
  ]

  still_new :
      (m m' : ConnectionManager) (s : Sock) (p : ℕ) (c : ProxyConnection) (ss : List Sock)
      → IsValid m
      → IsValid m'
      → Live m' p c
      → client_sock c ≡ s
      → ((q : ℕ) → p ≢ q → in_port m' q ≡ in_port m q)
      → NotIn s ss
      → AllNew m ss
      → AllNew m' ss
  still_new m m' s p c [] v v' live same others apart new = _
  still_new m m' s p c (t ∷ ts) v v' live same others apart new = (
    new.0,
    still_unknown m m' t p v v' new.1 others
        (λ d there e. apart.0 (sym same ∙ ap client_sock (only c d live.0 there.0) ∙ e)),
    new.2,
    still_new m m' s p c ts v v' live same others apart.1 new.3,
  )
    where
      only : (a b : ProxyConnection) → in_port m' p ≡ some a → in_port m' p ≡ some b → a ≡ b
      only a b e f = inside (sym e ∙ f)
        where
          inside : some a ≡ some b → a ≡ b
          inside e = cc

  -- The clients get the ports, and what is left of the queue is `rest`.
  abbrev Serves : Heap → ConnectionManager → List Sock → List ℕ → List ℕ → Type 0
  Serves h m ss ps rest =
      (m' : ConnectionManager) × (serve h m ss ≡ ok (map some ps, m'))
      × IsValid m'
      × (m'.free_ports ≡ rest)

  first_served :
      (h h₁ : Heap) (m m₁ : ConnectionManager) (s : Sock) (ss : List Sock) (p : ℕ)
      (ps rest : List ℕ) (r : Option Ref)
      → IsValid m
      → AllNew m (s ∷ ss)
      → m.free_ports ≡ p ∷ ps ++ rest
      → get_mut_or_insert h m s ≡ ok (r, h₁, m₁)
      → IsValid m₁
      → Answer m s r m₁
      → (AllNew m₁ ss → m₁.free_ports ≡ ps ++ rest → Serves h₁ m₁ ss ps rest)
      → Serves h m (s ∷ ss) (p ∷ ps) rest
  unfolding serve
  first_served h h₁ m m₁ s ss p ps rest _ v new waiting ran v₁ (known q c live at) others =
      clash (m.sock2port s) new.1 (ap m.sock2port (sym at) ∙ (v.live_mapped q c live).0)
  first_served h h₁ m m₁ s ss p ps rest _ v new waiting ran v₁ (refuses _ none_free) others =
      absurd (ground (arith, none_free, waiting))
  first_served h h₁ m m₁ s ss p ps rest _ v new waiting ran v₁
        (opens q left c _ _ front fresh live after apart _) others =
      let first : q ≡ p = ground (arith, front, waiting) in
      let behind : left ≡ ps ++ rest = ground (arith, front, waiting) in
      let (m', served, v', at_end) =
        others (still_new m m₁ s q c ss v v₁ live fresh.socket apart new.2 new.3)
          (after ∙ behind) in
      (m', rw ran (rw served (rw first refl)), v', at_end)

  -- As long as ports are waiting, each of these clients gets one, in the order of the queue.
  serve_queue :
      (h : Heap) (m : ConnectionManager) (ss : List Sock) (ps rest : List ℕ)
      → IsValid m
      → AllNew m ss
      → length ps ≡ length ss
      → m.free_ports ≡ ps ++ rest
      → Serves h m ss ps rest
  unfolding serve
  serve_queue h m [] [] rest v new same free = (m, refl, v, free)
  serve_queue h m [] (p ∷ ps) rest v new same free = absurd (omega (arith, same))
  serve_queue h m (s ∷ ss) [] rest v new same free = absurd (omega (arith, same))
  serve_queue h m (s ∷ ss) (p ∷ ps) rest v new same free =
      let (r, h₁, m₁, ran, v₁, _, answer) = get_mut_or_insert-IsValid h m s v new.0 in
      first_served h h₁ m m₁ s ss p ps rest r v new free ran v₁ answer
        (λ new₁ free₁. serve_queue h₁ m₁ ss ps rest v₁ new₁ (omega (arith, same)) free₁)

module _ ⦃R : RecStore⦄ ⦃W : TimerWheel⦄ where
  all_unknown :
      (m m' : ConnectionManager) (p : ℕ) (c : ProxyConnection) (ss : List Sock)
      → IsValid m
      → IsValid m'
      → IsFreed m m' p c
      → AllNew m ss
      → AllNew m' ss
  all_unknown m m' p c [] v v' gone new = _
  all_unknown m m' p c (t ∷ ts) v v' gone new = (
    new.0,
    still_unknown m m' t p v v' new.1 gone.others (λ d there e. ground (arith, there, gone.idle)),
    new.2,
    all_unknown m m' p c ts v v' gone new.3,
  )

  length-snoc :
      {A B : Type 0} (xs : List A) (ys : List B) (a : A) (b : B)
      → length xs ≡ length ys
      → length (xs ++ a ∷ []) ≡ length (ys ++ b ∷ [])
  length-snoc xs ys a b e =
      length-append xs (a ∷ []) ∙ ap (λ n. n + 1) e ∙ sym (length-append ys (b ∷ []))

  -- The port of a live connection, once released, reaches a client again: as many new clients as
  -- there were ports waiting get these, in the order of the queue, and the next new client gets
  -- the released port; the manager is valid then, and no port is left.
  pub released_port_served :
      (h : Heap) (m : ConnectionManager) (p : ℕ) (c : ProxyConnection) (w : W.Wheel)
      (ss : List Sock) (last : Sock)
      → IsValid m
      → Live m p c
      → Scheduled w p c
      → length m.free_ports ≡ length ss
      → AllNew m (ss ++ last ∷ [])
      → (m₁ : ConnectionManager) × (w' : W.Wheel) × (release_port m p w ≡ ok (m₁, w'))
        × (m₂ : ConnectionManager) × (serve h m₁ (ss ++ last ∷ [])
            ≡ ok (map some (m.free_ports ++ p ∷ []), m₂))
        × IsValid m₂
        × (m₂.free_ports ≡ [])
  released_port_served h m p c w ss last v live entry same new =
      let (m₁, w', ran, v₁, gone, _) = release_port-IsValid m p w c v live entry in
      let (m₂, served, v₂, none_left) =
        serve_queue h m₁ (ss ++ last ∷ []) (m.free_ports ++ p ∷ []) [] v₁
          (all_unknown m m₁ p c (ss ++ last ∷ []) v v₁ gone new)
          (length-snoc m.free_ports ss p last same)
          (gone.queued ∙ sym (append-nil (m.free_ports ++ p ∷ []))) in
      (m₁, w', ran, m₂, served, v₂, none_left)
