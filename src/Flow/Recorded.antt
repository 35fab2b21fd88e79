-- ===== src/Flow/Recorded.antt =====
-- What a connection's record says of its server side: the last state that was pushed, as the steps
-- on a `Flow` keep it.
use proxyengine.Base.{
  ℕ, ◌+◌, ◌<◌, ◌≡◌, refl, sym, subst, ◌∙◌, ◌⊎◌, inl, inr, Bool, true, false, Bool-cases, Option,
  none, some, arith, ltb, length-set, get_elem?-set_self, set, Result, ok, panic, ◌>>=◌,
  if◌then◌else◌,
}
use proxyengine.Tcp.{TcpState, ReleaseCause}
use proxyengine.Record as Ext
use proxyengine.Record.{Extension, capacity, last_state}
use proxyengine.Record.Laws.{IsValid}
use proxyengine.External.{RecStore, TimerWheel}
use proxyengine.Detailed as Det
use proxyengine.Detailed.{DetailedConnection, Heap}
use proxyengine.Connection as Con
use proxyengine.Connection.{ProxyConnection}
use proxyengine.Flow.Rules.{place, wrote, wrote_1, wrote-room, wrote_1-room, pushed}
use proxyengine.Flow.{Flow, c_push, s_push, c_cause, s_cause, s_reset}

abbrev grown : Extension → TcpState → ℕ → Extension
grown e s t = record e {
  s_state = set e.s_state e.s_state_count s;
  s_stamps = set e.s_stamps e.s_state_count t;
  s_state_count = e.s_state_count + 1;
}

-- After a push within the room, the pushed state is the last one.
pushed-last :
    (e : Extension) (s : TcpState) (t : ℕ)
    → IsValid e
    → e.s_state_count < capacity
    → IsValid (grown e s t) × (last_state (grown e s t) ≡ ok s)
unfolding last_state
pushed-last e s t v room = (
  record {
    state_places = length-set e.s_state e.s_state_count s ∙ v.state_places;
    stamp_places = length-set e.s_stamps e.s_state_count t ∙ v.stamp_places;
    counted = omega arith;
  },
  ground
      (arith, get_elem?-set_self e.s_state e.s_state_count s (omega (arith, v.state_places, room))),
)

module _ ⦃R : RecStore⦄ ⦃W : TimerWheel⦄ where
  -- The connection keeps no record, or a valid one.
  abbrev pub IsKept : Heap → Option DetailedConnection → Type 0
  IsKept h d =
      (d ≡ none) ⊎ ((slot : ℕ) × (r : ℕ) × (d ≡ some (place slot r)) × IsValid (R.get_1 (h r) slot))

  -- The connection keeps no record, or a valid one whose last state is the given one.
  abbrev pub IsRecorded : Heap → Option DetailedConnection → TcpState → Type 0
  IsRecorded h d s =
      (d ≡ none)
      ⊎ ((slot : ℕ) × (r : ℕ) × (d ≡ some (place slot r))
          × IsValid (R.get_1 (h r) slot)
          × (last_state (R.get_1 (h r) slot) ≡ ok s))

  abbrev pub Recorded : Flow → Type 0
  Recorded x = IsRecorded x.heap x.con.detailed_c x.con.server_state

  pub IsRecorded-IsKept :
      (h : Heap) (d : Option DetailedConnection) (s : TcpState) → IsRecorded h d s → IsKept h d
  IsRecorded-IsKept h d s (inl e) = inl e
  IsRecorded-IsKept h d s (inr (slot, r, e, v, _)) = inr (slot, r, e, v)

  -- If the step returns, the record shows the server side's state last.
  pub record Records (m : Result Flow) : Type 0 where
    pub at : (x : Flow) → m ≡ ok x → Recorded x

  pub Records-ok : (x : Flow) → Recorded x → Records (ok x)
  Records-ok x k = record { at = λ y e. inside x y e k }
    where
      inside : (x y : Flow) → ok x ≡ ok y → Recorded x → Recorded y
      inside x y e k = let same : x ≡ y = cc in subst Recorded same k

  pub Records-bind :
      (m : Result Flow) (f : Flow → Result Flow)
      → Records m
      → ((x : Flow) → Recorded x → Records (f x))
      → Records (m >>= f)
  Records-bind panic f g k = record { at = λ y e. cc }
  Records-bind (ok x) f g k = k x (g.at x refl)

  pub Records-call :
      {A : Type 0} (m : Result A) (f : A → Result Flow)
      → ((a : A) → m ≡ ok a → Records (f a))
      → Records (m >>= f)
  Records-call panic f k = record { at = λ y e. cc }
  Records-call (ok a) f k = k a refl

  pub Records-if :
      (b : Bool) (m n : Result Flow) → Records m → Records n → Records (if b then m else n)
  Records-if true m n gm gn = gm
  Records-if false m n gm gn = gn

  pub ruleset recording = (Records-ok, Records-bind, Records-if)

  abbrev after_c : Flow → Heap → TcpState → Flow
  after_c x h s = record x { heap = h; con = record (x.con) { client_state = s } }

  pub c_push-Records : (s : TcpState) (x : Flow) → Recorded x → Records (c_push s x)
  unfolding c_push Con.c_push_state Det.c_push_state
  c_push-Records s x (inl e) =
      let ran : c_push s x ≡ ok (after_c x x.heap s) = rw (e, Con.c_push_state) refl in
      subst Records (sym ran) (Records-ok _ (inl e))
  c_push-Records s x (inr (slot, r, e, v, last)) =
      let h = wrote x.heap r slot (R.record_push_state (R.get (x.heap r) slot) s) in
      let ran : c_push s x ≡ ok (after_c x h s) = rw (e, Con.c_push_state) refl in
      let same = wrote-room x.heap r slot (R.record_push_state (R.get (x.heap r) slot) s) in
      subst Records (sym ran) (Records-ok _ (inr (slot, r, e, rw same v, rw same last)))

  pub c_cause-Records : (k : ReleaseCause) (x : Flow) → Recorded x → Records (c_cause k x)
  unfolding c_cause Con.set_release_cause Det.set_release_cause
  c_cause-Records k x (inl e) =
      let ran : c_cause k x ≡ ok x = rw (e, Con.set_release_cause) refl in
      subst Records (sym ran) (Records-ok _ (inl e))
  c_cause-Records k x (inr (slot, r, e, v, last)) =
      let con_rec = R.record_set_release_cause (R.get (x.heap r) slot) k in
      let h = wrote x.heap r slot con_rec in
      let ran : c_cause k x ≡ ok (record x { heap = h }) = rw (e, Con.set_release_cause) refl in
      let same = wrote-room x.heap r slot con_rec in
      subst Records (sym ran) (Records-ok _ (inr (slot, r, e, rw same v, rw same last)))

  -- The server half of the connection's slot is written.
  write-Recorded :
      (h : Heap) (slot r : ℕ) (d : Option DetailedConnection) (e' : Extension) (s : TcpState)
      → d ≡ some (place slot r)
      → IsValid e'
      → last_state e' ≡ ok s
      → IsRecorded (wrote_1 h r slot e') d s
  write-Recorded h slot r d e' s at v last =
      let same = wrote_1-room h r slot e' in inr (slot, r, at, rw same v, rw same last)

  pub s_cause-Records : (k : ReleaseCause) (x : Flow) → Recorded x → Records (s_cause k x)
  unfolding s_cause Con.s_set_release_cause Det.s_set_release_cause last_state
  s_cause-Records k x (inl e) =
      let ran : s_cause k x ≡ ok x = rw (e, Con.s_set_release_cause) refl in
      subst Records (sym ran) (Records-ok _ (inl e))
  s_cause-Records k x (inr (slot, r, e, v, last)) =
      let e' = record (R.get_1 (x.heap r) slot) { s_release_cause = k } in
      let ran : s_cause k x ≡ ok (record x { heap = wrote_1 x.heap r slot e' }) =
        rw (e, Con.s_set_release_cause) refl in
      let valid : IsValid e' = record {
        state_places = v.state_places;
        stamp_places = v.stamp_places;
        counted = v.counted;
      } in
      subst Records (sym ran) (
        Records-ok _
          (write-Recorded x.heap slot r x.con.detailed_c e' x.con.server_state e valid last))

  -- Whatever the record showed before, a push that returns makes it show the pushed state last.
  pub s_push-onto :
      (tsc : ℕ) (s : TcpState) (x : Flow)
      → IsKept x.heap x.con.detailed_c
      → Records (s_push tsc s x)
  unfolding s_push Con.s_push_state Det.s_push_state
  s_push-onto tsc s x (inl e) =
      let ran : s_push tsc s x ≡ ok (record x { con = record (x.con) { server_state = s } }) =
        rw (e, Con.s_push_state) refl in
      subst Records (sym ran) (Records-ok _ (inl e))
  s_push-onto tsc s x (inr (slot, r, e, v)) =
      let old = R.get_1 (x.heap r) slot in
      let base = R.base_stamp (R.get (x.heap r) slot) in
      elim (Bool-cases (ltb old.s_state_count capacity)) [
        | inl room ↦
            let e' = pushed base tsc s old in
            let (valid, last) =
              pushed-last old s (Ext.stamp R.factor base tsc) v (ground (arith, room)) in
            let ran : s_push tsc s x
                ≡ ok (record x {
                  heap = wrote_1 x.heap r slot e';
                  con = record (x.con) { server_state = s };
                }) =
              rw (e, Con.s_push_state) (rw room refl) in
            subst Records (sym ran)
              (Records-ok _ (write-Recorded x.heap slot r x.con.detailed_c e' s e valid last))
        | inr full ↦
            let ran : s_push tsc s x ≡ panic = rw (e, Con.s_push_state) (rw full refl) in
            subst Records (sym ran) (record { at = λ y e. cc })
      ]

  pub s_push-Records : (tsc : ℕ) (s : TcpState) (x : Flow) → Recorded x → Records (s_push tsc s x)
  s_push-Records tsc s x k =
      s_push-onto tsc s x (IsRecorded-IsKept x.heap x.con.detailed_c x.con.server_state k)

  -- `s_init` empties the record, and the next push fills it again.
  pub s_reset_push-Records :
      (tsc : ℕ) (s : TcpState) (x : Flow) (f : Flow → Result Flow)
      → IsKept x.heap x.con.detailed_c
      → ((y : Flow) → Recorded y → Records (f y))
      → Records (s_reset x >>= λ y. s_push tsc s y >>= f)
  unfolding s_reset Con.s_init Det.s_init
  s_reset_push-Records tsc s x f (inl e) k =
      let ran : s_reset x ≡ ok x = rw (e, Con.s_init) refl in
      rw ran (Records-bind (s_push tsc s x) f (s_push-onto tsc s x (inl e)) k)
  s_reset_push-Records tsc s x f (inr (slot, r, e, v)) k =
      let e' = record (R.get_1 (x.heap r) slot) { s_state_count = 0 } in
      let h = wrote_1 x.heap r slot e' in
      let ran : s_reset x ≡ ok (record x { heap = h }) = rw (e, Con.s_init) refl in
      let valid : IsValid e' = record {
        state_places = v.state_places;
        stamp_places = v.stamp_places;
        counted = omega arith;
      } in
      let emptied =
        s_push-onto tsc s (record x { heap = h })
          (inr (slot, r, e, rw (wrote_1-room x.heap r slot e') valid)) in
      rw ran (Records-bind (s_push tsc s (record x { heap = h })) f emptied k)

  pub ruleset shown = (recording, c_push-Records, s_push-Records, c_cause-Records, s_cause-Records)
