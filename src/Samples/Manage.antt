-- ===== src/Samples/Manage.antt =====
-- The manager's theorems on a small manager: four ports from 4000 on, the first of them taken.
use proxyengine.Base.{
  ℕ, List, ◌≡◌, refl, sym, ap, subst, true, Option, some, none, [], arith, Result, ok, panic,
}
use proxyengine.Packet.{Sock}
use proxyengine.Record as Ext
use proxyengine.Detailed.{Heap}
use proxyengine.Connection as Con
use proxyengine.Connection.{ProxyConnection, in_use, client_sock}
use proxyengine.Manager as Man
use proxyengine.Manager.{
  ConnectionManager, Ref, new, in_port, get_mut_or_insert, release_port, release_timeouts,
  fetch_c_records, holds, count_holders,
}
use proxyengine.Manager.Invariant.{IsValid, Live}
use proxyengine.Manager.Allocate.{Answer, get_mut_or_insert-IsValid}
use proxyengine.Manager.Release.{Scheduled, IsFreed, release_port-IsValid}
use proxyengine.Manager.Shut.{IsSound, Shut}
use proxyengine.Manager.New.{IsUnused, new-IsValid, new-IsUnused}
use proxyengine.Manager.Timeouts.{expired, release_timeouts-IsValid}
use proxyengine.Manager.Fetch.{IsStranded, Fetched, fetch_c_records_store, fetch_c_records_strands}
use proxyengine.Samples.{in_order, in_order-Shuffles, store}
use proxyengine.Samples.Wheels.{wheel, loaded}
use proxyengine.Samples.Masks.{small-IsPortRange}

abbrev pub start : ConnectionManager
start = new in_order 65532 9 4000 true

abbrev pub caller : Sock
caller = (7, 1080)

abbrev pub stores : Heap
stores = λ _. ([], Ext.new)

new-IsUnused_example : IsValid start × IsSound start × IsUnused 65532 4000 start
new-IsUnused_example = new-IsUnused in_order 65532 9 4000 true in_order-Shuffles small-IsPortRange

start-IsValid : IsValid start × IsSound start
start-IsValid = new-IsValid in_order 65532 9 4000 true in_order-Shuffles small-IsPortRange

pub start_ok : IsValid start
start_ok = start-IsValid.0

get_mut_or_insert-IsValid_example :
    (r : Option Ref) × (h' : Heap) × (m' : ConnectionManager) × (get_mut_or_insert stores start
        caller
      ≡ ok (r, h', m'))
    × IsValid m'
    × (IsSound start → IsSound m')
    × Answer start caller r m'
get_mut_or_insert-IsValid_example =
    get_mut_or_insert-IsValid stores start caller start-IsValid.0 (omega arith)

-- What the call answers.
abbrev pub opened : Result (Option Ref × Heap × ConnectionManager)
opened = get_mut_or_insert stores start caller

abbrev pub manager_of : Result (Option Ref × Heap × ConnectionManager) → ConnectionManager
manager_of (ok (_, _, m)) = m
manager_of panic = start

abbrev pub one_open : ConnectionManager
one_open = manager_of opened

pub one_open_ok : IsValid one_open × IsSound one_open
one_open_ok =
    let (r, h, m, e, v, sound, _) = get_mut_or_insert-IsValid_example in
    let same : m ≡ one_open = ap manager_of (sym e) in
    (subst IsValid same v, subst IsSound same (sound start-IsValid.1))

abbrev pub con_of : Option ProxyConnection → ProxyConnection
con_of none = Con.new
con_of (some c) = c

-- The connection that the caller was given.
abbrev pub talk : ProxyConnection
talk = con_of (in_port one_open 4000)

pub talk-Live : Live one_open 4000 talk × (client_sock talk ≡ caller)
unfolding Man.get_mut_or_insert Man.new Con.new Con.initialize_with_details
talk-Live = ((refl, refl), refl)

talk-holds : holds one_open.record_store talk ≡ true
unfolding Man.get_mut_or_insert Man.new Con.new Con.initialize_with_details
talk-holds = refl

pub talk-Scheduled : Scheduled loaded 4000 talk
unfolding Man.get_mut_or_insert Man.new Con.new Con.initialize_with_details
talk-Scheduled = refl

release_port-IsValid_example :
    (m' : ConnectionManager) × (wheel' : List ℕ × ℕ) × (release_port one_open 4000 loaded
      ≡ ok (m', wheel'))
    × IsValid m'
    × IsFreed one_open m' 4000 talk
    × (release_port m' 4000 wheel' ≡ ok (m', wheel'))
release_port-IsValid_example =
    release_port-IsValid one_open 4000 loaded talk one_open_ok.0 talk-Live.0 talk-Scheduled

release_timeouts-IsValid_example :
    (h' : Heap) × (m' : ConnectionManager) × (release_timeouts 1 stores one_open loaded 5
      ≡ some (ok (h', m', (expired 1 loaded 5).1)))
    × IsValid m'
    × IsSound m'
    × Shut one_open m' (expired 1 loaded 5).0
release_timeouts-IsValid_example =
    release_timeouts-IsValid 1 stores one_open loaded 5 (omega arith) one_open_ok.0 one_open_ok.1

fetch_c_records_store_example : Fetched stores one_open
fetch_c_records_store_example = fetch_c_records_store stores one_open

fetch_c_records_strands_example :
    IsStranded (fetch_c_records stores one_open).2 4000 (client_sock talk)
fetch_c_records_strands_example =
    fetch_c_records_strands stores one_open 4000 talk one_open_ok.0 talk-Live.0 talk-holds
