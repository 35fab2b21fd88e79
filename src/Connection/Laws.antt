-- ===== src/Connection/Laws.antt =====
-- What the state and record calls of a connection do: they write its record, if it has one, and
-- change nothing of the connection but the state that is pushed.
use proxyengine.Base.{ℕ, ◌≡◌, refl, ◌⊎◌, inl, inr, none, some, ok, Result}
use proxyengine.Tcp.{TcpState, ReleaseCause}
use proxyengine.External.{RecStore}
use proxyengine.Detailed as Det
use proxyengine.Detailed.{DetailedConnection, Heap}
use proxyengine.Connection as Con
use proxyengine.Connection.{ProxyConnection}

-- A connection with details has its place in a store.
abbrev pub HasPlace : ProxyConnection → Type 0
HasPlace c =
    (c.detailed_c ≡ none)
    ⊎ ((slot : ℕ) × (r : ℕ) × (c.detailed_c
          ≡ some (record { con_rec = some slot; store = some r })))

abbrev pub Returns {ℓ} : {A : Type ℓ} → Result A → Type ℓ
Returns {A} m = (a : A) × (m ≡ ok a)

module _ ⦃R : RecStore⦄ (h : Heap) (c : ProxyConnection) where
  pub set_release_cause_ok :
      (cause : ReleaseCause) → HasPlace c → Returns (Con.set_release_cause h c cause)
  unfolding Con.set_release_cause Det.set_release_cause
  set_release_cause_ok cause (inl e) = rw (e, Con.set_release_cause) (_, refl)
  set_release_cause_ok cause (inr (slot, r, e)) = rw (e, Con.set_release_cause) (_, refl)

  pub c_push_state_ok :
      (s : TcpState)
      → HasPlace c
      → (h' : Heap) × (Con.c_push_state h c s ≡ ok (h', record c { client_state = s }))
  unfolding Con.c_push_state Det.c_push_state
  c_push_state_ok s (inl e) = rw (e, Con.c_push_state) (_, refl)
  c_push_state_ok s (inr (slot, r, e)) = rw (e, Con.c_push_state) (_, refl)
