-- ===== src/Allocator.antt =====
-- nftcp.rs, `PduAllocator`: the packets for the SYNs to servers, fetched from the pool in arrays.
pub mod Supply
use proxyengine.Base.{ℕ, suc, Option, none, some, List, [], ◌∷◌}
use proxyengine.Packet.{Pdu}

-- The head of a batch is the back of the vector. `calls` counts the calls of Pdu::new_pdu_array, the
-- answers of which are the parameter of `get_pdu`.
pub record PduAllocator : Type 0 where
  pub pdu_batch : Option (List Pdu)
  pub calls : ℕ

unfoldable pub new : (ℕ → Option (List Pdu)) → PduAllocator
new new_pdu_array = record { pdu_batch = new_pdu_array 0; calls = 1 }

-- `self.pdu_batch.as_mut().unwrap().pop()`, where there is a batch.
abbrev pub pop : PduAllocator → Option (List Pdu) → Option Pdu × PduAllocator
pop a none = (none, record a { pdu_batch = none })
pop a (some []) = (none, record a { pdu_batch = some [] })
pop a (some (p ∷ ps)) = (some p, record a { pdu_batch = some ps })

abbrev pub get_from :
    (ℕ → Option (List Pdu)) → PduAllocator → Option (List Pdu) → Option Pdu × PduAllocator
get_from new_pdu_array a none = (none, a)
get_from new_pdu_array a (some []) = pop (record a { calls = suc a.calls }) (new_pdu_array a.calls)
get_from new_pdu_array a (some (p ∷ ps)) = pop a (some (p ∷ ps))

unfoldable pub get_pdu : (ℕ → Option (List Pdu)) → PduAllocator → Option Pdu × PduAllocator
get_pdu new_pdu_array a = get_from new_pdu_array a a.pdu_batch
