-- ===== src/Manager/Fetch.antt =====
-- `fetch_c_records`: the store is always handed over; and what becomes of connections that still
-- hold it.
use native.Mathlib.Decide.{dec_lt}
use proxyengine.Base.{
  ℕ, zero, suc, ◌+◌, ◌-◌, ◌<◌, ◌≡◌, ◌≢◌, refl, sym, subst, true, false, some, List, [], ◌∷◌, map,
  arith, get_elem?, panic, contains, lt→ltb, le→ltb_not,
}
use proxyengine.Packet.{Sock}
use proxyengine.External.{RecStore}
use proxyengine.Detailed.{Heap}
use proxyengine.Connection as Con
use proxyengine.Connection.{ProxyConnection, in_use, client_sock}
use proxyengine.Manager.{
  ConnectionManager, max_records, in_port, holds, count_holders, fetch_c_records, get_mut_or_insert,
}
use proxyengine.Manager.Lookup.{in_port_inv}
use proxyengine.Manager.Invariant.{IsValid, Live}
use proxyengine.Manager.Release.{release_idle}
use proxyengine.Manager.Ports.{Tables-not_free}

get_elem?-map {ℓ κ} :
    {A : Type ℓ} {B : Type κ} (f : A → B) (xs : List A) (i : ℕ) {a : A}
    → get_elem? xs i ≡ some a
    → get_elem? (map f xs) i ≡ some (f a)
get_elem?-map f [] i e = cc
get_elem?-map f (x ∷ xs) zero e = cc
get_elem?-map f (x ∷ xs) (suc i) e = get_elem?-map f xs i e

holds-release : (r : ℕ) (c : ProxyConnection) → holds r (Con.release c) ≡ false
unfolding Con.release
holds-release r c = ground arith

count_release : (r : ℕ) (cs : List ProxyConnection) → count_holders r (map Con.release cs) ≡ 0
count_release r [] = refl
count_release r (c ∷ cs) = ground (arith, holds-release r c, count_release r cs)

count_pos :
    (r : ℕ) (cs : List ProxyConnection) (i : ℕ) {c : ProxyConnection}
    → get_elem? cs i ≡ some c
    → holds r c ≡ true
    → 0 < count_holders r cs
count_pos r [] i e h = cc
count_pos r (x ∷ cs) zero e h = ground arith
count_pos r (x ∷ cs) (suc i) e h = omega (arith, count_pos r cs i e h)

-- The manager with its connections let go, and a new store.
abbrev pub let_go : ConnectionManager → ConnectionManager
let_go m = record m { record_store = suc m.record_store; port2con = map Con.release m.port2con }

let_go-in_port :
    (m : ConnectionManager) (p : ℕ) (c : ProxyConnection)
    → in_port m p ≡ some c
    → in_port (let_go m) p ≡ some (Con.release c)
let_go-in_port m p c found =
    rw (le→ltb_not p m.tcp_port_base (in_port_inv m p found).0)
      (get_elem?-map Con.release m.port2con (p - m.tcp_port_base) (in_port_inv m p found).1)

module _ ⦃R : RecStore⦄ where
  -- A port that is neither in use nor free, while the map still leads there, so that the next SYN
  -- of the socket fails the assertion in `get_mut_or_insert`.
  pub record IsStranded (m : ConnectionManager) (p : ℕ) (s : Sock) : Type 0 where
    pub idle : (c : ProxyConnection) → in_port m p ≡ some c → in_use c ≡ false
    pub not_free : contains m.free_ports p ≡ false
    pub maps : m.sock2port s ≡ some p
    pub syn_panics : (h : Heap) → get_mut_or_insert h m s ≡ panic

  let_go-IsStranded :
      (m : ConnectionManager) (p : ℕ) (c : ProxyConnection)
      → IsValid m
      → Live m p c
      → IsStranded (let_go m) p (client_sock c)
  unfolding get_mut_or_insert
  let_go-IsStranded m p c v live =
      let there = let_go-in_port m p c live.0 in
      let maps = (v.live_mapped p c live).0 in
      record {
        idle = λ d at_p. ground (arith, at_p, there, release_idle c);
        not_free = Tables-not_free (in_port m) m.sock2port m.free_ports v p c live;
        maps = maps;
        syn_panics =
            λ h. rw (maps, get_mut_or_insert) (rw (there, get_mut_or_insert) (rw (release_idle c)));
      }

module _ ⦃R : RecStore⦄ (h : Heap) (m : ConnectionManager) where
  releasing :
      0 < count_holders m.record_store m.port2con
      → ((fetch_c_records h m).0 ≡ some (h m.record_store)) × ((fetch_c_records h m).2 ≡ let_go m)
  unfolding fetch_c_records
  releasing held =
      rw (lt→ltb 1 (1 + count_holders m.record_store m.port2con) (omega arith))
        (rw (count_release m.record_store m.port2con) (refl, refl))

  keeping :
      count_holders m.record_store m.port2con ≡ 0
      → ((fetch_c_records h m).0 ≡ some (h m.record_store))
        × ((fetch_c_records h m).2 ≡ record m { record_store = suc m.record_store })
  unfolding fetch_c_records
  keeping unheld = rw unheld (rw unheld (refl, refl))

  -- What fetch_c_records leaves: the old store is moved out, the manager refers to an empty one
  -- under another number, and every other store is as it was.
  pub record Fetched : Type 0 where
    pub moved_out : (fetch_c_records h m).0 ≡ some (h m.record_store)
    pub apart : (fetch_c_records h m).2.record_store ≢ m.record_store
    pub renewed :
        (fetch_c_records h m).1 (fetch_c_records h m).2.record_store ≡ R.with_capacity max_records
    pub others :
        (r : ℕ) → r ≢ (fetch_c_records h m).2.record_store → (fetch_c_records h m).1 r ≡ h r
    pub unheld :
        count_holders m.record_store m.port2con ≡ 0
        → (fetch_c_records h m).2 ≡ record m { record_store = suc m.record_store }
    pub held : 0 < count_holders m.record_store m.port2con → (fetch_c_records h m).2 ≡ let_go m

  -- Whoever holds references to it, fetch_c_records moves the old store out; the manager then
  -- refers to an empty store under another number, and no other store changes. If no connection
  -- holds the old one, nothing else of the manager changes, and if one does, every connection is
  -- released, and nothing else changes.
  pub fetch_c_records_store : Fetched
  unfolding fetch_c_records
  fetch_c_records_store = record {
    moved_out = elim (dec_lt 0 (count_holders m.record_store m.port2con)) [
      | yes some_ ↦ (releasing some_).0
      | no none_ ↦ (keeping (omega arith)).0
    ];
    apart = λ e. absurd (omega (arith, e));
    renewed = ground arith;
    others = λ r ne. ground (arith, ne);
    unheld = λ none_. (keeping none_).1;
    held = λ some_. (releasing some_).1;
  }

  -- On a valid manager, a live connection that holds the record store loses its port by
  -- fetch_c_records: the port is neither in use nor free, the map still leads to it, and the next
  -- SYN of the socket panics.
  pub fetch_c_records_strands :
      (p : ℕ) (c : ProxyConnection)
      → IsValid m
      → Live m p c
      → holds m.record_store c ≡ true
      → IsStranded (fetch_c_records h m).2 p (client_sock c)
  fetch_c_records_strands p c v live held =
      let counted = count_pos m.record_store m.port2con _ (in_port_inv m p live.0).1 held in
      subst (λ m'. IsStranded m' p (client_sock c)) (sym (releasing counted).1)
        (let_go-IsStranded m p c v live)
