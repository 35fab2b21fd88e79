-- ===== src/Allocator/Supply.antt =====
-- How long the allocator has packets.
use proxyengine.Base.{ℕ, zero, suc, ◌≡◌, refl, true, Option, none, some, List, [], ◌∷◌}
use proxyengine.Packet.{Pdu}
use proxyengine.External.{PacketOps}
use proxyengine.Allocator.{PduAllocator, new, get_pdu}

-- The answers to `n` calls of `get_pdu`, and the allocator after them.
pub draws : (ℕ → Option (List Pdu)) → ℕ → PduAllocator → List (Option Pdu) × PduAllocator
draws fetch zero a = ([], a)
draws fetch (suc n) a =
    let drawn = get_pdu fetch a in let rest = draws fetch n drawn.1 in (drawn.0 ∷ rest.0, rest.1)

abbrev pub AllSome : List (Option Pdu) → Type 0
AllSome [] = Unit {0}
AllSome (o ∷ os) = ((p : Pdu) × (o ≡ some p)) × AllSome os

abbrev pub AllNone : List (Option Pdu) → Type 0
AllNone [] = Unit {0}
AllNone (o ∷ os) = (o ≡ none) × AllNone os

-- The allocator with batch `o`, after `k` fetches.
abbrev pub holding : Option (List Pdu) → ℕ → PduAllocator
holding o k = record { pdu_batch = o; calls = k }

module _ ⦃O : PacketOps⦄ where
  -- Every packet of a batch has room for its headers.
  abbrev pub AllRoomy : List Pdu → Type 0
  AllRoomy [] = Unit {0}
  AllRoomy (p ∷ ps) = (O.push_headers p ≡ true) × AllRoomy ps

  -- The allocator has a batch, if an empty one, of packets with room for their headers.
  abbrev pub Stocked : PduAllocator → Type 0
  Stocked a = (batch : List Pdu) × (a.pdu_batch ≡ some batch) × AllRoomy batch

module _ (fetch : ℕ → Option (List Pdu)) where
  draws-none : (n k : ℕ) → AllNone (draws fetch n (holding none k)).0
  unfolding draws get_pdu
  draws-none zero k = _
  draws-none (suc n) k = (refl, draws-none n k)

  -- Once the batch is used up and the next fetch from the pool fails, all further calls of get_pdu
  -- answer None, whatever the pool has later.
  pub draws-AllNone : (n k : ℕ) → fetch k ≡ none → AllNone (draws fetch n (holding (some []) k)).0
  unfolding draws get_pdu
  draws-AllNone zero k failed = _
  draws-AllNone (suc n) k failed = rw (failed, get_pdu) (refl, draws-none n (suc k))

module _ ⦃O : PacketOps⦄ (fetch : ℕ → Option (List Pdu)) where
  -- Every fetch brings packets, with room for their headers.
  abbrev pub Brings : Type 0
  Brings = (k : ℕ) → (p : Pdu) × (ps : List Pdu) × (fetch k ≡ some (p ∷ ps)) × AllRoomy (p ∷ ps)

  draws-some :
      (n : ℕ) (batch : List Pdu) (k : ℕ)
      → Brings
      → AllSome (draws fetch n (holding (some batch) k)).0
  unfolding draws get_pdu
  draws-some zero batch k brings = _
  draws-some (suc n) (p ∷ ps) k brings = ((p, refl), draws-some n ps k brings)
  draws-some (suc n) [] k brings =
      let (p, ps, got, _) = brings k in
      rw (got, get_pdu) ((p, refl), draws-some n ps (suc k) brings)

  -- While every fetch from the pool brings packets, a new allocator answers each of n calls of
  -- get_pdu with a packet.
  pub draws-AllSome : (n : ℕ) → Brings → AllSome (draws fetch n (new fetch)).0
  unfolding new
  draws-AllSome n brings = let (p, ps, got, _) = brings 0 in rw got (draws-some n (p ∷ ps) 1 brings)

  -- With a batch, and a pool that brings packets, there is an answer, with room for its headers,
  -- and a batch after it.
  pub Stocked-drawn :
      (a : PduAllocator)
      → Brings
      → Stocked a
      → (p : Pdu) × ((get_pdu fetch a).0 ≡ some p)
        × (O.push_headers p ≡ true)
        × Stocked (get_pdu fetch a).1
  unfolding get_pdu
  Stocked-drawn a brings ([], e, roomy) =
      let (p, ps, got, more) = brings a.calls in
      (p, rw e (rw got refl), more.0, (ps, rw e (rw got refl), more.1))
  Stocked-drawn a brings (q ∷ qs, e, roomy) = (q, rw e refl, roomy.0, (qs, rw e refl, roomy.1))
