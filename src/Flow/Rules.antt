-- ===== src/Flow/Rules.antt =====
-- Total correctness of the steps on a `Flow`: what they leave, as long as the connection's record,
-- if it has one, has room for the states that are still to be pushed.
use proxyengine.Base.{
  ℕ, suc, ◌+◌, ◌≤◌, ◌≡◌, refl, ap, ◌∙◌, ◌⊎◌, inl, inr, none, some, arith, lt→ltb, set, Result, ok,
  panic, ◌>>=◌, ==_iff,
}
use proxyengine.Tcp.{TcpState, ReleaseCause}
use proxyengine.Record as Ext
use proxyengine.Record.{capacity}
use proxyengine.External.{RecStore, TimerWheel}
use proxyengine.Detailed as Det
use proxyengine.Detailed.{DetailedConnection, Heap}
use proxyengine.Connection as Con
use proxyengine.Connection.{ProxyConnection}
use proxyengine.Flow.{Flow, c_push, s_push, c_cause, s_cause, s_reset}

module _ ⦃R : RecStore⦄ ⦃W : TimerWheel⦄ where
  -- The call returns, and its result satisfies `P`.
  abbrev pub Total : (Flow → Type 0) → Result Flow → Type 0
  Total P r = (x : Flow) × (r ≡ ok x) × P x

  pub Total-bind :
      (P : Flow → Type 0) (m : Result Flow) (f : Flow → Result Flow)
      → Total (λ x. Total P (f x)) m
      → Total P (m >>= f)
  Total-bind P m f (x, e, (y, e', p)) = (y, rw e e', p)

  abbrev pub place : ℕ → ℕ → DetailedConnection
  place slot r = record { con_rec = some slot; store = some r }

  -- The connection keeps no record, or one with room for `n` more server states.
  abbrev pub Room : ℕ → Heap → ProxyConnection → Type 0
  Room n h c =
      (c.detailed_c ≡ none)
      ⊎ ((slot : ℕ) × (r : ℕ) × (c.detailed_c ≡ some (place slot r))
          × ((R.get_1 (h r) slot).s_state_count + n ≤ capacity))

  abbrev pub HasRoom : ℕ → Flow → Type 0
  HasRoom n x = Room n x.heap x.con

  same_store : (h : Heap) (r : ℕ) (s : R.Store) → Det.update h r s r ≡ s
  same_store h r s = rw ((==_iff r r).1 refl)

  -- The heap after a write to the client half, or the server half, of a slot.
  abbrev pub wrote : Heap → ℕ → ℕ → R.ConRecord → Heap
  wrote h r slot record_ = Det.update h r (R.put (h r) slot record_)

  abbrev pub wrote_1 : Heap → ℕ → ℕ → Ext.Extension → Heap
  wrote_1 h r slot e = Det.update h r (R.put_1 (h r) slot e)

  pub wrote-room :
      (h : Heap) (r slot : ℕ) (k : R.ConRecord)
      → R.get_1 (wrote h r slot k r) slot ≡ R.get_1 (h r) slot
  wrote-room h r slot k = ap (λ s. R.get_1 s slot) (same_store h r _) ∙ R.get_1-put (h r) slot k

  pub wrote_1-room :
      (h : Heap) (r slot : ℕ) (e : Ext.Extension) → R.get_1 (wrote_1 h r slot e r) slot ≡ e
  wrote_1-room h r slot e = ap (λ s. R.get_1 s slot) (same_store h r _) ∙ R.get_1-put_1 (h r) slot e

  -- The record after one more state.
  abbrev pub pushed : ℕ → ℕ → TcpState → Ext.Extension → Ext.Extension
  pushed base tsc s e = record e {
    s_state = set e.s_state e.s_state_count s;
    s_stamps = set e.s_stamps e.s_state_count (Ext.stamp R.factor base tsc);
    s_state_count = e.s_state_count + 1;
  }

  module _ (P : Flow → Type 0) (n : ℕ) (x : Flow) where
    abbrev h₀ : Heap
    h₀ = x.heap

    pub c_push-Total :
        (s : TcpState)
        → HasRoom n x
        → ((h : Heap)
            → HasRoom n (record x { heap = h; con = record (x.con) { client_state = s } })
            → P (record x { heap = h; con = record (x.con) { client_state = s } }))
        → Total P (c_push s x)
    unfolding c_push Con.c_push_state Det.c_push_state
    c_push-Total s (inl e) k = (
      record x { con = record (x.con) { client_state = s } },
      rw (e, Con.c_push_state) refl,
      k h₀ (inl e),
    )
    c_push-Total s (inr (slot, r, e, room)) k =
        let h = wrote h₀ r slot (R.record_push_state (R.get (h₀ r) slot) s) in
        (
          record x { heap = h; con = record (x.con) { client_state = s } },
          rw (e, Con.c_push_state) refl,
          k h (inr (slot, r, e, rw (wrote-room h₀ r slot _) room)),
        )

    pub c_cause-Total :
        (cause : ReleaseCause)
        → HasRoom n x
        → ((h : Heap) → HasRoom n (record x { heap = h }) → P (record x { heap = h }))
        → Total P (c_cause cause x)
    unfolding c_cause Con.set_release_cause Det.set_release_cause
    c_cause-Total cause (inl e) k = (x, rw (e, Con.set_release_cause) refl, k h₀ (inl e))
    c_cause-Total cause (inr (slot, r, e, room)) k =
        let h = wrote h₀ r slot (R.record_set_release_cause (R.get (h₀ r) slot) cause) in
        (
          record x { heap = h },
          rw (e, Con.set_release_cause) refl,
          k h (inr (slot, r, e, rw (wrote-room h₀ r slot _) room)),
        )

    pub s_cause-Total :
        (cause : ReleaseCause)
        → HasRoom n x
        → ((h : Heap) → HasRoom n (record x { heap = h }) → P (record x { heap = h }))
        → Total P (s_cause cause x)
    unfolding s_cause Con.s_set_release_cause Det.s_set_release_cause
    s_cause-Total cause (inl e) k = (x, rw (e, Con.s_set_release_cause) refl, k h₀ (inl e))
    s_cause-Total cause (inr (slot, r, e, room)) k =
        let e' = record (R.get_1 (h₀ r) slot) { s_release_cause = cause } in
        (
          record x { heap = wrote_1 h₀ r slot e' },
          rw (e, Con.s_set_release_cause) refl,
          k (wrote_1 h₀ r slot e') (inr (slot, r, e, rw (wrote_1-room h₀ r slot e') room)),
        )

    -- A push takes up one place.
    pub s_push-Total :
        (tsc : ℕ) (s : TcpState)
        → HasRoom (suc n) x
        → ((h : Heap)
            → HasRoom n (record x { heap = h; con = record (x.con) { server_state = s } })
            → P (record x { heap = h; con = record (x.con) { server_state = s } }))
        → Total P (s_push tsc s x)
    unfolding s_push Con.s_push_state Det.s_push_state
    s_push-Total tsc s (inl e) k = (
      record x { con = record (x.con) { server_state = s } },
      rw (e, Con.s_push_state) refl,
      k h₀ (inl e),
    )
    s_push-Total tsc s (inr (slot, r, e, room)) k =
        let e' = pushed (R.base_stamp (R.get (h₀ r) slot)) tsc s (R.get_1 (h₀ r) slot) in
        (
          record x { heap = wrote_1 h₀ r slot e'; con = record (x.con) { server_state = s } },
          rw (e, Con.s_push_state)
              (rw (lt→ltb (R.get_1 (h₀ r) slot).s_state_count capacity (omega arith)) refl),
          k (wrote_1 h₀ r slot e') (inr (slot, r, e, rw (wrote_1-room h₀ r slot e') (omega arith))),
        )

    -- `s_init` empties the record.
    pub s_reset-Total :
        HasRoom n x
        → ((h : Heap) → HasRoom capacity (record x { heap = h }) → P (record x { heap = h }))
        → Total P (s_reset x)
    unfolding s_reset Con.s_init Det.s_init
    s_reset-Total (inl e) k = (x, rw (e, Con.s_init) refl, k h₀ (inl e))
    s_reset-Total (inr (slot, r, e, room)) k =
        let e' = record (R.get_1 (h₀ r) slot) { s_state_count = 0 } in
        (
          record x { heap = wrote_1 h₀ r slot e' },
          rw (e, Con.s_init) refl,
          k (wrote_1 h₀ r slot e') (inr (slot, r, e, rw (wrote_1-room h₀ r slot e') (omega arith))),
        )

    -- With a full record the push panics.
    pub s_push_full :
        (tsc : ℕ) (s : TcpState) (slot r : ℕ)
        → x.con.detailed_c ≡ some (place slot r)
        → (R.get_1 (h₀ r) slot).s_state_count ≡ capacity
        → s_push tsc s x ≡ panic
    unfolding s_push Con.s_push_state Det.s_push_state
    s_push_full tsc s slot r e full = rw (e, Con.s_push_state) (rw full refl)
