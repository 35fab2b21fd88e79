-- ===== src/Pipeline/Good.antt =====
-- What a pipeline keeps true of its manager and its timer wheel: beside the manager's own
-- invariants, and whether it keeps detailed records, every live connection has its entry in the
-- wheel, a server within range, and states of its roles. And that the end of a packet's handling
-- keeps it.
use proxyengine.Base.{
  ℕ, ◌≡◌, ◌≢◌, refl, sym, ap, subst, ◌∙◌, ◌⊎◌, inl, inr, Bool, true, Bool-cases, Option, none, some,
  List, arith, ◌==◌, ==_iff, ok, if◌then◌else◌,
}
use proxyengine.Packet.{Endpoint}
use proxyengine.Tcp.{StateOrder}
use proxyengine.External.{RecStore, TimerWheel, PacketOps}
use proxyengine.Connection as Con
use proxyengine.Connection.{ProxyConnection, in_use, client_sock}
use proxyengine.Connection.Laws.{HasPlace}
use proxyengine.Manager.{ConnectionManager, in_port, put_con}
use proxyengine.Manager.Lookup.{in_port-put_con}
use proxyengine.Manager.Invariant.{IsValid, Live}
use proxyengine.Manager.Release.{Scheduled, freed, freed-IsValid, release_port_ok, release_idle}
use proxyengine.Manager.Shut.{IsSound, put-IsSound, freed-IsSound}
use proxyengine.Client.Branches.{Kept, InRange}
use proxyengine.Flow.{Flow}
use proxyengine.Pipeline.Roles.{HasRoles}
use proxyengine.Pipeline.{Pipeline, leave}
use proxyengine.Pipeline.Leaving.{after, put_con-IsValid}

-- A fact about every live connection.
abbrev pub AllLive : (ℕ → ProxyConnection → Type 0) → ConnectionManager → Type 0
AllLive P m = (q : ℕ) (d : ProxyConnection) → Live m q d → P q d

-- It holds again after one connection was replaced, if it holds of the others and the new one.
pub AllLive-put :
    (P : ℕ → ProxyConnection → Type 0) (m m' : ConnectionManager) (p : ℕ) (c : ProxyConnection)
    → ((q : ℕ) → in_port m' q ≡ (if p == q then some c else in_port m q))
    → ((q : ℕ) (d : ProxyConnection) → Live m q d → p ≢ q → P q d)
    → (in_use c ≡ true → P p c)
    → AllLive P m'
AllLive-put P m m' p c put others own q d live = elim (Bool-cases (p == q)) [
  | inl same ↦
      let here : c ≡ d = ground (arith, live, put q) in
      let there : p ≡ q = (==_iff p q).0 same in
      subst (λ k. P k d) there (subst (P p) here (own (ground (arith, live, here))))
  | inr other ↦ others q d (ground (arith, live, put q), live.1) (λ e. ground (arith, e, other))
]

module _ ⦃W : TimerWheel⦄ (servers : List Endpoint) where
  -- The connection's entry in the wheel is its port's, its server is within range, and its two
  -- sides are in states of their roles.
  abbrev pub IsSettled : W.Wheel → ℕ → ProxyConnection → Type 0
  IsSettled w p c = (W.entry w c.wheel_slot_and_index ≡ some p) × InRange servers c × HasRoles c

  pub record IsGood (mode : Bool) (w : W.Wheel) (m : ConnectionManager) : Type 0 where
    pub valid : IsValid m
    pub sound : IsSound m
    pub same_mode : m.detailed_records ≡ mode
    pub settled : AllLive (IsSettled w) m

  pub set-Scheduled :
      (w : W.Wheel) (p : ℕ) (c : ProxyConnection)
      → W.entry w c.wheel_slot_and_index ≡ some p
      → Scheduled w p c
  set-Scheduled w p c e = rw (W.replace_entry w c.wheel_slot_and_index 0, e) ((==_iff p p).1 refl)

  -- Clearing one connection's entry leaves the others'.
  pub cleared_others :
      (w : W.Wheel) (p q : ℕ) (c d : ProxyConnection)
      → W.entry w c.wheel_slot_and_index ≡ some p
      → W.entry w d.wheel_slot_and_index ≡ some q
      → p ≢ q
      → W.entry (W.replace w c.wheel_slot_and_index 0).1 d.wheel_slot_and_index ≡ some q
  cleared_others w p q c d own other ne =
      W.replace_others w c.wheel_slot_and_index d.wheel_slot_and_index 0
        (λ same. ne (inside (sym own ∙ ap (W.entry w) same ∙ other)))
      ∙ other
    where
      inside : {a b : ℕ} → some a ≡ some b → a ≡ b
      inside e = cc

  -- Starting one timer leaves the others'.
  pub started_others :
      (w : W.Wheel) (t p q : ℕ) (d : ProxyConnection)
      → W.entry w d.wheel_slot_and_index ≡ some q
      → W.entry (W.schedule w t p).1 d.wheel_slot_and_index ≡ some q
  started_others w t p q d other =
      W.schedule_others w t p d.wheel_slot_and_index
        (λ same. clash _ _ (W.schedule_free w t p) (ap (W.entry w) same ∙ other))
      ∙ other
    where
      clash : (o : Option ℕ) (b : ℕ) → o ≡ none → o ≡ some b → ⊥
      clash o b e f = cc

module _ ⦃order : StateOrder⦄ ⦃R : RecStore⦄ ⦃W : TimerWheel⦄ ⦃O : PacketOps⦄
    (servers : List Endpoint) (s : Pipeline) (port : ℕ) (c : ProxyConnection) (x : Flow)
    (valid : IsValid s.cm) (sound : IsSound s.cm) (mode : Bool)
    (same_mode : s.cm.detailed_records ≡ mode) (live : Live s.cm port c) (k : Kept c x.con)
    (own : IsSettled servers x.wheel port x.con)
    (others : (q : ℕ) (d : ProxyConnection)
      → Live s.cm q d
      → port ≢ q
      → IsSettled servers x.wheel q d) where
  still_placed : HasPlace x.con
  still_placed = elim (sound.placed port c live) [
    | inl none_ ↦ inl (k.details ∙ none_)
    | inr (slot, r, e) ↦ inr (slot, r, k.details ∙ e)
  ]

  written-IsGood : IsGood servers mode x.wheel (put_con s.cm port x.con)
  written-IsGood = record {
    valid = (put_con-IsValid s.cm port c x.con valid live k).0;
    sound =
        put-IsSound s.cm _ _ port x.con c sound live.0 (λ _. still_placed)
          (λ off. k.details ∙ sound.plain port c off live.0);
    same_mode = same_mode;
    settled =
        AllLive-put (IsSettled servers x.wheel) s.cm (put_con s.cm port x.con) port x.con
          (λ q. in_port-put_con s.cm port q x.con live.0) others (λ _. own);
  }

  pub leave-IsGood :
      (x.release_connection ≡ none) ⊎ (x.release_connection ≡ some port)
      → (s' : Pipeline) × (leave s port x ≡ ok (x.group_index, x.pdu, s'))
        × IsGood servers mode s'.wheel s'.cm
        × (s'.allocator ≡ x.allocator)
  unfolding leave
  leave-IsGood (inl e) =
      (after s port c x (put_con s.cm port x.con) x.wheel, rw e refl, written-IsGood, refl)
  leave-IsGood (inr e) =
      let m = put_con s.cm port x.con in
      let wheel = (W.replace x.wheel x.con.wheel_slot_and_index 0).1 in
      let (v', live') = put_con-IsValid s.cm port c x.con valid live k in
      (
        after s port c x (freed m port x.con) wheel,
        rw e (
            rw
              (release_port_ok m port x.wheel x.con v' live'
                (set-Scheduled servers x.wheel port x.con own.0))
              refl),
        record {
          valid = (freed-IsValid m port x.con x.con v' live' refl).0;
          sound = freed-IsSound m port x.con x.con written-IsGood.sound live'.0 refl;
          same_mode = same_mode;
          settled =
              AllLive-put (IsSettled servers wheel) m (freed m port x.con) port (Con.release x.con)
                (λ q. in_port-put_con m port q (Con.release x.con) live'.0)
                (λ q d there ne.
                  let (entry, range, roles) = written-IsGood.settled q d there in
                  (cleared_others servers x.wheel port q x.con d own.0 entry ne, range, roles))
                (λ used. absurd (ground (arith, used, release_idle x.con)));
        },
        refl,
      )
