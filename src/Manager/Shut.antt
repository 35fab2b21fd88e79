-- ===== src/Manager/Shut.antt =====
-- What the time-outs leave of a manager: `IsSound`, the facts they rest on, and `Shut`, which ports
-- were shut down.
use proxyengine.Base.{
  ℕ, ◌<◌, ◌≡◌, ◌≢◌, refl, sym, subst, ◌∙◌, inl, inr, true, false, Option, none, some, List, [], ◌∷◌,
  ◌++◌, arith, ◌==◌, Bool-cases, ==_iff, contains, contains-append,
}
use proxyengine.Base.Words.{u16_mod}
use proxyengine.Connection as Con
use proxyengine.Connection.{ProxyConnection, in_use}
use proxyengine.Connection.Laws.{HasPlace}
use proxyengine.Packet.{Sock}
use proxyengine.Manager.{ConnectionManager, in_port, put_con, owns_tcp_port}
use proxyengine.Manager.Lookup.{in_port-put_con}
use proxyengine.Manager.Invariant.{Live}
use proxyengine.Manager.Release.{freed, IsFreed, release_idle}

-- Every live connection has its place in a store or no details at all, as the manager has it in
-- its setting; the ports that the mask selects are those that have a
-- connection, and are u16.
pub record IsSound (m : ConnectionManager) : Type 0 where
  pub placed : (p : ℕ) (c : ProxyConnection) → Live m p c → HasPlace c
  pub plain :
      (p : ℕ) (c : ProxyConnection)
      → m.detailed_records ≡ false
      → in_port m p ≡ some c
      → c.detailed_c ≡ none
  pub ranged :
      (p : ℕ)
      → p < u16_mod
      → owns_tcp_port m p ≡ true
      → (c : ProxyConnection) × (in_port m p ≡ some c)
  pub owned : (p : ℕ) (c : ProxyConnection) → in_port m p ≡ some c → owns_tcp_port m p ≡ true
  pub u16_ports : (p : ℕ) (c : ProxyConnection) → in_port m p ≡ some c → p < u16_mod

-- From `m` to `m'` the ports in the list were shut down, and no other was touched.
pub record Shut (m m' : ConnectionManager) (ps : List ℕ) : Type 0 where
  pub idle :
      (q : ℕ) (d : ProxyConnection)
      → contains ps q ≡ true
      → q ≢ 0
      → in_port m' q ≡ some d
      → in_use d ≡ false
  pub others : (q : ℕ) → contains ps q ≡ false → in_port m' q ≡ in_port m q
  pub same_base : m'.tcp_port_base ≡ m.tcp_port_base
  pub same_mask : m'.tcp_dst_port_mask ≡ m.tcp_dst_port_mask
  pub same_details : m'.detailed_records ≡ m.detailed_records

-- A manager in which the connection on one port was replaced.
pub put-IsSound :
    (m : ConnectionManager) (map : Sock → Option ℕ) (free : List ℕ) (p : ℕ)
    (c old : ProxyConnection)
    → IsSound m
    → in_port m p ≡ some old
    → (in_use c ≡ true → HasPlace c)
    → (m.detailed_records ≡ false → c.detailed_c ≡ none)
    → IsSound (record m { free_ports = free; sock2port = map; port2con = (put_con m p c).port2con })
unfolding owns_tcp_port
put-IsSound m map free p c old s found has_place bare = record {
  placed = λ q d live. elim (Bool-cases (p == q)) [
    | inl same ↦
        let here : c ≡ d = ground (arith, live, in_port-put_con m p q c found) in
        subst HasPlace here (has_place (ground (arith, live)))
    | inr other ↦ s.placed q d (ground (arith, live, in_port-put_con m p q c found), live.1)
  ];
  plain = λ q d off at_q. elim (Bool-cases (p == q)) [
    | inl same ↦
        let here : c ≡ d = ground (arith, at_q, in_port-put_con m p q c found) in
        subst (λ (t : ProxyConnection). t.detailed_c ≡ none) here (bare off)
    | inr other ↦ s.plain q d off (ground (arith, at_q, in_port-put_con m p q c found))
  ];
  ranged = λ q small owns.
      let (d, there) = s.ranged q small owns in
      elim (Bool-cases (p == q)) [
        | inl same ↦ (c, in_port-put_con m p q c found ∙ ground arith)
        | inr other ↦ (d, in_port-put_con m p q c found ∙ ground (arith, there))
      ];
  owned = λ q d at_q.
      let here = in_port-put_con m p q c found in
      let old_owned = s.owned p old found in ground (arith, at_q, here, s.owned q d, old_owned);
  u16_ports = λ q d at_q. elim (Bool-cases (p == q)) [
    | inl same ↦ subst (λ k. k < u16_mod) ((==_iff p q).0 same) (s.u16_ports p old found)
    | inr other ↦ s.u16_ports q d (ground (arith, at_q, in_port-put_con m p q c found))
  ];
}

release_plain : (c : ProxyConnection) → c.detailed_c ≡ none → (Con.release c).detailed_c ≡ none
unfolding Con.release
release_plain c bare = rw bare refl

pub freed-IsSound :
    (m : ConnectionManager) (p : ℕ) (c old : ProxyConnection)
    → IsSound m
    → in_port m p ≡ some old
    → c.detailed_c ≡ old.detailed_c
    → IsSound (freed m p c)
freed-IsSound m p c old s found same =
    put-IsSound m _ _ p (Con.release c) old s found (λ used. ground (arith, used, release_idle c))
      (λ off. release_plain c (same ∙ s.plain p old off found))

pub stale-Shut :
    (m : ConnectionManager) (p : ℕ)
    → ((d : ProxyConnection) → in_port m p ≡ some d → in_use d ≡ false)
    → Shut m m (p ∷ [])
stale-Shut m p stale = record {
  idle = λ q d listed _ at_q. stale d (subst (λ r. in_port m r ≡ some d) (the_port q listed) at_q);
  others = λ q _. refl;
  same_base = refl;
  same_mask = refl;
  same_details = refl;
}
  where
    the_port : (q : ℕ) → contains (p ∷ []) q ≡ true → q ≡ p
    the_port q h = ground arith

pub freed-Shut :
    (m : ConnectionManager) (p : ℕ) (c : ProxyConnection)
    → IsFreed m (freed m p c) p c
    → Shut m (freed m p c) (p ∷ [])
freed-Shut m p c gone = record {
  idle = λ q d listed _ at_q.
      ground
        (arith, gone.idle, subst (λ r. in_port (freed m p c) r ≡ some d) (the_port q listed) at_q);
  others = λ q apart. gone.others q (λ e. ground (arith, e, apart));
  same_base = refl;
  same_mask = refl;
  same_details = refl;
}
  where
    the_port : (q : ℕ) → contains (p ∷ []) q ≡ true → q ≡ p
    the_port q h = ground arith

pub Shut-nil : (m : ConnectionManager) → Shut m m []
Shut-nil m = record {
  idle = λ q d listed. cc;
  others = λ q _. refl;
  same_base = refl;
  same_mask = refl;
  same_details = refl;
}

pub Shut-mark :
    (m m' : ConnectionManager) (p : ℕ) (ps : List ℕ) → p ≡ 0 → Shut m m' ps → Shut m m' (p ∷ ps)
Shut-mark m m' p ps mark shut = record {
  idle = λ q d listed port at_q. shut.idle q d (ground (arith, listed, port, mark)) port at_q;
  others = λ q apart. shut.others q (ground (arith, apart));
  same_base = shut.same_base;
  same_mask = shut.same_mask;
  same_details = shut.same_details;
}

pub Shut-append :
    (m m' m'' : ConnectionManager) (ps qs : List ℕ)
    → Shut m m' ps
    → Shut m' m'' qs
    → Shut m m'' (ps ++ qs)
Shut-append m m' m'' ps qs first next = record {
  idle = λ q d listed port at_q. elim (Bool-cases (contains qs q)) [
    | inl later ↦ next.idle q d later port at_q
    | inr done ↦
        first.idle q d (ground (arith, listed, done, contains-append ps qs q)) port
          (sym (next.others q done) ∙ at_q)
  ];
  others = λ q apart.
      next.others q (ground (arith, apart, contains-append ps qs q))
      ∙ first.others q (ground (arith, apart, contains-append ps qs q));
  same_base = next.same_base ∙ first.same_base;
  same_mask = next.same_mask ∙ first.same_mask;
  same_details = next.same_details ∙ first.same_details;
}
