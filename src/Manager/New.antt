-- ===== src/Manager/New.antt =====
-- A new manager is valid, and its mask selects its ports.
use proxyengine.Base.{
  ℕ, suc, ◌+◌, ◌-◌, ◌≤◌, ◌<◌, ◌≡◌, refl, zero, ap, none, ◌%◌, get_elem?, ◌∙◌, Bool, false, ◌&&◌,
  some, none, List, [], ◌∷◌, ◌++◌, arith, leb, ◌==◌, if◌then◌else◌, contains, contains-append,
  Distinct, Distinct-push, replicate, get_elem?-replicate, get_elem?-lt, length-replicate,
  le→ltb_not,
}
use Prim.Native.Nat.{bit_and}
use proxyengine.Base.Words.{u16_mod}
use proxyengine.Connection as Con
use proxyengine.Connection.{ProxyConnection, in_use}
use proxyengine.Packet.{Sock}
use proxyengine.Manager.{
  ConnectionManager, in_port, complement, max_tcp_port, initial_ports, new, owns_tcp_port,
}
use proxyengine.Manager.Lookup.{in_port_inv}
use proxyengine.Manager.Invariant.{IsValid}
use proxyengine.Manager.Shut.{IsSound}

-- netfcts::utils::shuffle_ports: the ports from the first to the last, each once, in some order.
pub record Shuffles (shuffle_ports : ℕ → ℕ → List ℕ) : Type 0 where
  pub covers : (a b p : ℕ) → contains (shuffle_ports a b) p ≡ (leb a p && leb p b)
  pub distinct : (a b : ℕ) → Distinct (shuffle_ports a b)

-- A mask and a base port as the flow director sets them: the ports from the base on, as many as the
-- mask leaves open, are u16, some port but 0 is among them, and they are those that the mask maps
-- to the base.
pub record IsPortRange (mask base : ℕ) : Type 0 where
  pub mask_u16 : mask ≤ 65535
  pub fits : base + complement mask ≤ 65535
  pub usable : 0 < base + complement mask
  pub selects :
      (p : ℕ)
      → p < u16_mod
      → (bit_and p mask == base) ≡ (leb base p && leb p (base + complement mask))

-- A manager that nobody has used: its free ports are those of the range but 0, no socket is known,
-- the ports of the range and no others have a connection, a new one, and these are the ports that
-- the mask selects.
pub record IsUnused (mask base : ℕ) (m : ConnectionManager) : Type 0 where
  pub free :
      (p : ℕ)
      → contains m.free_ports p ≡ (leb 1 p && (leb base p && leb p (base + complement mask)))
  pub unknown : (s : Sock) → m.sock2port s ≡ none
  pub new_cons : (p : ℕ) → base ≤ p → p ≤ base + complement mask → in_port m p ≡ some Con.new
  pub no_other :
      (p : ℕ) (c : ProxyConnection)
      → in_port m p ≡ some c
      → (base ≤ p) × (p ≤ base + complement mask)
  pub masked :
      (p : ℕ) → p < u16_mod → owns_tcp_port m p ≡ (leb base p && leb p (base + complement mask))

replicate_inv :
    {A : Type 0} (n i : ℕ) (a : A) {c : A} → get_elem? (replicate n a) i ≡ some c → c ≡ a
replicate_inv zero i a e = cc
replicate_inv (suc n) zero a e = cc
replicate_inv (suc n) (suc i) a e = replicate_inv n i a e

module _ (shuffle_ports : ℕ → ℕ → List ℕ) (mask ip base : ℕ) (details : Bool)
    (shuffles : Shuffles shuffle_ports) (range : IsPortRange mask base) where
  abbrev first : ℕ
  first = if base == 0 then 1 else base

  abbrev last : ℕ
  last = base + complement mask

  initial_ports_lem :
      initial_ports shuffle_ports base mask ≡ shuffle_ports first (last - 1) ++ last ∷ []
  unfolding initial_ports
  initial_ports_lem =
      let top : max_tcp_port base mask ≡ last = omega (arith, range.fits) in
      let below : (last + 65535) % u16_mod ≡ last - 1 = omega (arith, range.fits, range.usable) in
      rw top (rw below)

  initial_ports_contain :
      (p : ℕ)
      → contains (initial_ports shuffle_ports base mask) p ≡ (leb 1 p && (leb base p && leb p last))
  initial_ports_contain p = rw initial_ports_lem (
      ground (
        arith,
        contains-append (shuffle_ports first (last - 1)) (last ∷ []) p,
        shuffles.covers first (last - 1) p,
        range.usable,
      ))

  initial_ports-Distinct : Distinct (initial_ports shuffle_ports base mask)
  initial_ports-Distinct = rw initial_ports_lem (
      Distinct-push _ last (shuffles.distinct first (last - 1))
        (ground (arith, shuffles.covers first (last - 1) last, range.usable)))

  pub new_con :
      (p : ℕ) (c : ProxyConnection)
      → in_port (new shuffle_ports mask ip base details) p ≡ some c
      → (c ≡ Con.new) × (base ≤ p) × (p ≤ last)
  unfolding new
  new_con p c found =
      let (low, there) = in_port_inv (new shuffle_ports mask ip base details) p found in
      let small = get_elem?-lt (replicate (complement mask + 1) Con.new) (p - base) there in
      (
        replicate_inv (complement mask + 1) (p - base) Con.new there,
        low,
        omega (arith, small, length-replicate (complement mask + 1) Con.new),
      )

  new_found :
      (p : ℕ)
      → base ≤ p
      → p ≤ last
      → in_port (new shuffle_ports mask ip base details) p ≡ some Con.new
  unfolding new
  new_found p low high =
      rw (le→ltb_not p base low)
        (get_elem?-replicate (complement mask + 1) (p - base) Con.new (omega arith))

  pub new_idle : in_use Con.new ≡ false
  unfolding Con.new
  new_idle = refl

  new_plain : Con.new.detailed_c ≡ none
  unfolding Con.new
  new_plain = refl

  owns_range :
      (p : ℕ)
      → p < u16_mod
      → owns_tcp_port (new shuffle_ports mask ip base details) p ≡ (leb base p && leb p last)
  unfolding new owns_tcp_port
  owns_range p small = range.selects p small

  free_range :
      (p : ℕ)
      → contains (new shuffle_ports mask ip base details).free_ports p
        ≡ (leb 1 p && (leb base p && leb p last))
  unfolding new
  free_range p = initial_ports_contain p

  no_socket : (s : Sock) → (new shuffle_ports mask ip base details).sock2port s ≡ none
  unfolding new
  no_socket s = refl

  pub new-IsValid :
      IsValid (new shuffle_ports mask ip base details)
      × IsSound (new shuffle_ports mask ip base details)
  unfolding new
  new-IsValid = (
    record {
      keyed = λ p c live. ground (arith, (new_con p c live.0).0, new_idle, live);
      free_idle = λ p free. (
        Con.new,
        (
          new_found p (ground (arith, free, initial_ports_contain p))
              (ground (arith, free, initial_ports_contain p)),
          new_idle,
        ),
      );
      free_distinct = initial_ports-Distinct;
      free_nonzero = ground (arith, initial_ports_contain 0);
      idle_free = λ p c idle ne. ground (arith, new_con p c idle.0, initial_ports_contain p);
      mapped_live = λ s p h. cc;
      live_mapped = λ p c live. ground (arith, (new_con p c live.0).0, new_idle, live);
    },
    record {
      placed = λ p c live. ground (arith, (new_con p c live.0).0, new_idle, live);
      plain = λ p c _ found.
          ap (λ (t : ProxyConnection). t.detailed_c) (new_con p c found).0 ∙ new_plain;
      ranged = λ p small owns.
          let inside = owns_range p small in
          (Con.new, new_found p (ground (arith, owns, inside)) (ground (arith, owns, inside)));
      owned = λ p c found.
          let (_, low, high) = new_con p c found in
          owns_range p (omega (arith, range.fits)) ∙ ground arith;
      u16_ports =
          λ p c found. let (_, low, high) = new_con p c found in omega (arith, range.fits, high);
    },
  )

  -- For a mask and base that open a range of ports, and a shuffle that lists each port once, a new
  -- manager is valid and sound; its free ports are those of the range but 0, no socket is known,
  -- each port of the range and no other has a connection, which is new, and these are the ports
  -- that the mask selects.
  pub new-IsUnused :
      IsValid (new shuffle_ports mask ip base details)
      × IsSound (new shuffle_ports mask ip base details)
      × IsUnused mask base (new shuffle_ports mask ip base details)
  new-IsUnused = (
    new-IsValid.0,
    new-IsValid.1,
    record {
      free = free_range;
      unknown = no_socket;
      new_cons = new_found;
      no_other = λ p c found. let (_, low, high) = new_con p c found in (low, high);
      masked = owns_range;
    },
  )
