-- ===== src/Manager/Ports.antt =====
-- The three ways in which the manager's tables change, each keeping them valid: a port is given to
-- a connection, a connection gives its port back, a connection is rewritten in place.
use proxyengine.Base.{
  ℕ, ◌<◌, ◌≡◌, ◌∙◌, inl, inr, true, false, Option, none, some, List, [], ◌∷◌, ◌++◌, arith, ◌==◌,
  if◌then◌else◌, contains, contains-append, Distinct-push, Bool-cases,
}
use proxyengine.Packet.{Sock}
use proxyengine.Connection.{ProxyConnection, in_use, client_sock, sock}
use proxyengine.Manager.{insert, forget, sock_eq}
use proxyengine.Manager.Lookup.{sock_eq_iff}
use proxyengine.Manager.Invariant.{Tables, LiveIn}

-- A port in use is not in the queue.
pub Tables-not_free :
    (on : ℕ → Option ProxyConnection) (map : Sock → Option ℕ) (free : List ℕ)
    → Tables on map free
    → (p : ℕ) (old : ProxyConnection) → LiveIn on p old
    → contains free p ≡ false
Tables-not_free on map free v p old live = elim (Bool-cases (contains free p)) [
  | inl h ↦ let (d, i) = v.free_idle p h in ground (arith, i, live)
  | inr h ↦ h
]

module _ (on on' : ℕ → Option ProxyConnection) (map : Sock → Option ℕ) (free : List ℕ)
    (v : Tables on map free) (p : ℕ) (c : ProxyConnection)
    (put : (q : ℕ) → on' q ≡ (if p == q then some c else on q)) where
  -- Port `p`, the first of the free ones, is given to a connection with a new socket.
  pub opened :
      (rest : List ℕ)
      → free ≡ p ∷ rest
      → map (client_sock c) ≡ none
      → c.proxy_port ≡ p
      → 0 < c.client_ip
      → Tables on' (insert (client_sock c) p map) rest
  opened rest front new port ip =
      let free_p : contains free p ≡ true = ground arith in
      record {
        keyed = λ q d live. ground (arith, put q, v.keyed q d);
        free_idle = λ q h.
            let (d, found, idle) = still q h in (d, (ground (arith, put q, v.free_distinct), idle));
        free_distinct = ground (arith, v.free_distinct);
        free_nonzero = ground (arith, v.free_nonzero);
        idle_free = λ q d idle ne. ground (arith, put q, v.idle_free q d, v.free_nonzero, free_p);
        mapped_live = λ s q h. elim (Bool-cases (sock_eq (client_sock c) s)) [
          | inl same ↦ (
            c,
            (ground (arith, put q), ground (arith, v.free_nonzero, free_p)),
            (sock_eq_iff (client_sock c) s).0 same,
          )
          | inr other ↦
              let (d, live, e) = v.mapped_live s q (ground arith) in
              let (old, idle) = v.free_idle p free_p in
              (d, (ground (arith, put q, live, idle), live.1), e)
        ];
        live_mapped = λ q d live. ground (arith, put q, v.live_mapped q d);
      }
    where
      still :
          (q : ℕ)
          → contains rest q ≡ true
          → (d : ProxyConnection) × (on q ≡ some d) × (in_use d ≡ false)
      still q h = let (d, i) = v.free_idle q (ground arith) in (d, i.0, i.1)

  kept :
      (old : ProxyConnection) (s : Sock) (q : ℕ) → forget (sock old) map s ≡ some q → map s ≡ some q
  kept old s q h = ground (arith, h)

  -- The connection on `p` gives the port back, to the end of the queue.
  pub closed :
      (old : ProxyConnection)
      → LiveIn on p old
      → in_use c ≡ false
      → Tables on' (forget (sock old) map) (free ++ p ∷ [])
  closed old live idle = record {
    keyed = λ q d l. ground (arith, put q, v.keyed q d);
    free_idle = λ q h. elim (Bool-cases (p == q)) [
      | inl same ↦ (c, (ground (arith, put q), idle))
      | inr other ↦
          let (d, i) = v.free_idle q (ground (arith, contains-append free (p ∷ []) q)) in
          (d, (ground (arith, put q, i), i.1))
    ];
    free_distinct = Distinct-push free p v.free_distinct (Tables-not_free on map free v p old live);
    free_nonzero =
        ground (arith, contains-append free (p ∷ []) 0, v.free_nonzero, v.keyed p old live, live);
    idle_free = λ q d i ne. ground (arith, put q, v.idle_free q d, contains-append free (p ∷ []) q);
    mapped_live = λ s q h.
        let (d, l, e) = v.mapped_live s q (kept old s q h) in
        let open_ip = (v.live_mapped p old live).1 in
        (d, (ground (arith, put q, l, live, e, open_ip, h), l.1), e);
    live_mapped =
        λ q d l. ground (arith, put q, v.live_mapped q d, v.live_mapped p old live, l, idle);
  }

  -- The connection on `p` is rewritten, with its port and socket as they were.
  pub rewritten :
      (old : ProxyConnection)
      → LiveIn on p old
      → c.proxy_port ≡ old.proxy_port
      → client_sock c ≡ client_sock old
      → Tables on' map free
  rewritten old live same_port same_sock = record {
    keyed = λ q d l. ground (arith, put q, v.keyed q d, v.keyed q old);
    free_idle = λ q h. let (d, i) = v.free_idle q h in (d, (ground (arith, put q, i, live), i.1));
    free_distinct = v.free_distinct;
    free_nonzero = v.free_nonzero;
    idle_free = λ q d i ne. ground (arith, put q, v.idle_free q d);
    mapped_live = λ s q h.
        let (d, l, e) = v.mapped_live s q h in
        elim (Bool-cases (p == q)) [
          | inl same ↦ (
            c,
            (ground (arith, put q), ground (arith, live)),
            same_sock ∙ ground (arith, l, live, e),
          )
          | inr other ↦ (d, (ground (arith, put q, l), l.1), e)
        ];
    live_mapped = λ q d l. ground (arith, put q, v.live_mapped q d, v.live_mapped q old);
  }
