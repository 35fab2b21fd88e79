-- ===== src/Samples/Drawn.antt =====
-- A pool that fails from the second fetch on.
use proxyengine.Base.{ℕ, refl, Option, none, some, List, [], ◌∷◌, ◌==◌, if◌then◌else◌}
use proxyengine.Packet.{Pdu}
use proxyengine.Allocator.Supply.{draws, holding, AllNone, draws-AllNone}
use proxyengine.Samples.Forwarded.{segment}

abbrev spent : ℕ → Option (List Pdu)
spent k = if k == 0 then some (segment 0 0 ∷ []) else none

draws-AllNone_example : AllNone (draws spent 3 (holding (some []) 1)).0
draws-AllNone_example = draws-AllNone spent 3 1 refl
