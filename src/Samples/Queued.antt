-- ===== src/Samples/Queued.antt =====
-- The manager as a pool of ports, and as a queue: a client comes, calls again and leaves, and four
-- others come.
use proxyengine.Base.{
  ℕ, ◌≡◌, ◌≢◌, refl, ap, Option, some, List, [], ◌∷◌, ◌++◌, map, length, arith, Result, ok, panic,
}
use proxyengine.Packet.{Sock}
use proxyengine.Detailed.{Heap}
use proxyengine.Connection as Con
use proxyengine.Manager as Man
use proxyengine.Manager.{ConnectionManager, Ref, get_mut_or_insert, release_port}
use proxyengine.Manager.Invariant.{IsValid}
use proxyengine.Manager.Release.{freed, release_port_ok}
use proxyengine.Manager.Pool.{
  Event, borrow, give_back, pool, PoolRuns, ManagerRuns, rests, calls, borrows, gives_back,
  ManagerRuns-PoolRuns,
}
use proxyengine.Manager.Queue.{AllNew, serve, released_port_served}
use proxyengine.Samples.{store}
use proxyengine.Samples.Wheels.{wheel, loaded}
use proxyengine.Samples.Manage.{
  start, start_ok, caller, stores, opened, one_open, one_open_ok, talk, talk-Live, talk-Scheduled,
}

abbrev heap_of : Result (Option Ref × Heap × ConnectionManager) → Heap
heap_of (ok (_, h, _)) = h
heap_of panic = stores

opened_ok : get_mut_or_insert stores start caller ≡ ok (some (4000, talk), heap_of opened, one_open)
unfolding Man.get_mut_or_insert Man.new Con.new Con.initialize_with_details
opened_ok = refl

again_ok : get_mut_or_insert stores one_open caller ≡ ok (some (4000, talk), stores, one_open)
unfolding Man.get_mut_or_insert Man.new Con.new Con.initialize_with_details
again_ok = refl

abbrev visit : List Event
visit = borrow caller (some 4000) ∷ borrow caller (some 4000) ∷ give_back 4000 ∷ []

visiting : ManagerRuns start visit (freed one_open 4000 talk)
visiting =
    calls
      (borrows stores (heap_of opened) caller (some (4000, talk)) one_open (omega arith) opened_ok)
      (calls (borrows stores stores caller (some (4000, talk)) one_open (omega arith) again_ok) (
        calls
          (gives_back 4000 talk loaded (wheel.replace loaded talk.wheel_slot_and_index 0).1
            (freed one_open 4000 talk) talk-Live.0 talk-Scheduled
            (release_port_ok one_open 4000 loaded talk one_open_ok.0 talk-Live.0 talk-Scheduled))
          rests))

ManagerRuns-PoolRuns_example :
    PoolRuns (pool start) visit (pool (freed one_open 4000 talk))
    × IsValid (freed one_open 4000 talk)
ManagerRuns-PoolRuns_example =
    ManagerRuns-PoolRuns start (freed one_open 4000 talk) start_ok visiting

abbrev others : List Sock
others = (8, 1) ∷ (8, 2) ∷ (8, 3) ∷ []

apart : (a b c d : ℕ) → b ≢ d → ◌≢◌ {A = Sock} (a, b) (c, d)
apart a b c d ne e = ne (ap (λ (s : Sock). s.1) e)

all_new : AllNew one_open (others ++ (8, 4) ∷ [])
unfolding Man.get_mut_or_insert Man.new Con.new Con.initialize_with_details
all_new = (
  omega arith,
  refl,
  (apart 8 1 8 2 (omega arith), (apart 8 1 8 3 (omega arith), (apart 8 1 8 4 (omega arith), tt))),
  (
    omega arith,
    refl,
    (apart 8 2 8 3 (omega arith), (apart 8 2 8 4 (omega arith), tt)),
    (omega arith, refl, (apart 8 3 8 4 (omega arith), tt), (omega arith, refl, tt, tt)),
  ),
)

as_many : length one_open.free_ports ≡ length others
unfolding Man.get_mut_or_insert Man.new Con.new Con.initialize_with_details
as_many = refl

released_port_served_example :
    (m₁ : ConnectionManager) × (w' : List ℕ × ℕ) × (release_port one_open 4000 loaded ≡ ok (m₁, w'))
    × (m₂ : ConnectionManager) × (serve stores m₁ (others ++ (8, 4) ∷ [])
        ≡ ok (map some (one_open.free_ports ++ 4000 ∷ []), m₂))
    × IsValid m₂
    × (m₂.free_ports ≡ [])
released_port_served_example =
    released_port_served stores one_open 4000 talk loaded others (8, 4) one_open_ok.0 talk-Live.0
      talk-Scheduled as_many all_new
