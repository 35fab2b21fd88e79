-- ===== src/Detailed.antt =====
-- cmanager.rs, `DetailedConnection`: a connection's slot in the record store.
--
-- An Rc<RefCell<ProxyRecStore>> is the number of a store in a heap of stores, so that all holders
-- of one number see each other's writes.
use proxyengine.Base.{ℕ, Option, none, some, List, if◌then◌else◌, ◌==◌, Result, ok, ◌>>=◌, unwrap}
use proxyengine.Tcp.{TcpState, ReleaseCause}
use proxyengine.Packet.{Sock}
use proxyengine.Record as Ext
use proxyengine.External.{RecStore}

pub record DetailedConnection : Type 0 where
  pub con_rec : Option ℕ
  pub store : Option ℕ

-- Drops the reference to the store.
unfoldable pub release : DetailedConnection → DetailedConnection
release d = record { con_rec = none; store = none }

module _ ⦃R : RecStore⦄ where
  open R use {Store, ConRecord}

  -- The stores that references point to, by number.
  abbrev pub Heap : Type 0
  Heap = ℕ → Store

  abbrev pub update : Heap → ℕ → Store → Heap
  update h r s = λ q. if q == r then s else h q

  -- `self.store()` and `self.con_rec()`, which panic on None.
  abbrev pub place : DetailedConnection → Result (ℕ × ℕ)
  place d = do r ← unwrap d.store; slot ← unwrap d.con_rec; ok (r, slot)

  -- `new` and `re_new` take the next slot of the store.
  unfoldable pub re_new : Heap → ℕ → Heap × DetailedConnection
  re_new h r =
      let (slot, s) = R.get_next_slot (h r) in
      (update h r s, record { con_rec = some slot; store = some r })

  -- Rewrites the client half, or the server half, of the connection's slot.
  abbrev modify : (ConRecord → ConRecord) → Heap → DetailedConnection → Result Heap
  modify f h d = do (r, slot) ← place d; ok (update h r (R.put (h r) slot (f (R.get (h r) slot))))

  abbrev modify_1 :
      (ConRecord → Ext.Extension → Result Ext.Extension) → Heap → DetailedConnection → Result Heap
  modify_1 f h d = do
    (r, slot) ← place d
    e ← f (R.get (h r) slot) (R.get_1 (h r) slot)
    ok (update h r (R.put_1 (h r) slot e))

  unfoldable pub initialize : Heap → DetailedConnection → Sock → ℕ → Result Heap
  initialize h d client_sock proxy_sport = modify (λ r. R.record_init r proxy_sport client_sock) h d

  unfoldable pub set_release_cause : Heap → DetailedConnection → ReleaseCause → Result Heap
  set_release_cause h d cause = modify (λ r. R.record_set_release_cause r cause) h d

  unfoldable pub c_push_state : Heap → DetailedConnection → TcpState → Result Heap
  c_push_state h d state = modify (λ r. R.record_push_state r state) h d

  -- The stamp counts from the client record's base stamp; `tsc` is the cycle counter's reading.
  unfoldable pub s_push_state : ℕ → Heap → DetailedConnection → TcpState → Result Heap
  unfolding Ext.push_state
  s_push_state tsc h d state =
      modify_1 (λ r e. Ext.push_state R.factor (R.base_stamp r) tsc e state) h d

  unfoldable pub s_init : Heap → DetailedConnection → Result Heap
  unfolding Ext.init
  s_init h d = modify_1 (λ _ e. ok (Ext.init e)) h d

  unfoldable pub s_set_release_cause : Heap → DetailedConnection → ReleaseCause → Result Heap
  unfolding Ext.set_release_cause
  s_set_release_cause h d cause = modify_1 (λ _ e. ok (Ext.set_release_cause e cause)) h d

  unfoldable pub c_states : Heap → DetailedConnection → Result (List TcpState)
  c_states h d = do (r, slot) ← place d; ok (R.record_states (R.get (h r) slot))

  unfoldable pub s_states : Heap → DetailedConnection → Result (List TcpState)
  unfolding Ext.states
  s_states h d = do (r, slot) ← place d; ok (Ext.states (R.get_1 (h r) slot))
