-- ===== src/Pipeline/Ticks.antt =====
-- What a tick and a request of the run time keep of a pipeline.
use proxyengine.Base.{
  ℕ, zero, suc, ◌+◌, ◌-◌, ◌<◌, ◌≡◌, ◌≢◌, refl, sym, subst, ◌∙◌, ◌⊎◌, inl, inr, Bool, true, false,
  none, some, List, [], ◌∷◌, arith, ok, get_elem?, Bool-cases, contains, contains-append,
  le→ltb_not,
}
use proxyengine.Packet.{Endpoint}
use proxyengine.External.{RecStore, TimerWheel, entries}
use proxyengine.Detailed.{Heap}
use proxyengine.Connection.{ProxyConnection}
use proxyengine.Manager.{
  ConnectionManager, in_port, owns_tcp_port, count_holders, fetch_c_records, release_timeouts,
}
use proxyengine.Manager.Invariant.{IsValid, Live}
use proxyengine.Manager.Fetch.{fetch_c_records_store}
use proxyengine.Manager.Timeouts.{expired, release_timeouts-IsValid}
use proxyengine.Pipeline.Good.{IsGood}

module _ ⦃W : TimerWheel⦄ where
  -- An entry is handed out by one of the ticks, or is still there after them.
  entry-expired :
      (fuel : ℕ) (w : W.Wheel) (now : ℕ) (j : ℕ × ℕ) (p : ℕ)
      → W.entry w j ≡ some p
      → (contains (expired fuel w now).0 p ≡ true) ⊎ (W.entry (expired fuel w now).1 j ≡ some p)
  unfolding expired
  entry-expired zero w now j p e = inr e
  entry-expired (suc fuel) w now j p e = elim (W.tick_entries w now j p e) [
    | inl out ↦ elim (Bool-cases (W.tick w now).1) [
      | inl more ↦ inl (
          rw (more, expired) (contains-append (entries (W.tick w now).0) _ p ∙ ground (arith, out)))
      | inr last ↦ inl (rw (last, expired) out)
    ]
    | inr stays ↦ elim (Bool-cases (W.tick w now).1) [
      | inr last ↦ inr (rw (last, expired) stays)
      | inl more ↦ elim (entry-expired fuel (W.tick w now).2 now j p stays) [
        | inl later ↦ inl (
            rw (more, expired)
              (contains-append (entries (W.tick w now).0) _ p ∙ ground (arith, later)))
        | inr still ↦ inr (rw (more, expired) still)
      ]
    ]
  ]

Live-nonzero :
    (m : ConnectionManager) (q : ℕ) (d : ProxyConnection) → IsValid m → Live m q d → q ≢ 0
Live-nonzero m q d v live = λ e. ground (arith, v.keyed q d live, live, e)

module _ ⦃R : RecStore⦄ ⦃W : TimerWheel⦄ (servers : List Endpoint) where
  -- The time-outs keep the entries of the connections that they leave alone.
  pub release_timeouts-IsGood :
      (mode : Bool) (fuel : ℕ) (h : Heap) (m : ConnectionManager) (w : W.Wheel) (now : ℕ)
      → W.due w now < fuel
      → IsGood servers mode w m
      → (h' : Heap) × (m' : ConnectionManager) × (release_timeouts fuel h m w now
          ≡ some (ok (h', m', (expired fuel w now).1)))
        × IsGood servers mode (expired fuel w now).1 m'
  release_timeouts-IsGood mode fuel h m w now enough good =
      let (h', m', ran, v, s, shut) =
        release_timeouts-IsValid fuel h m w now enough good.valid good.sound in
      (
        h',
        m',
        ran,
        record {
          valid = v;
          sound = s;
          same_mode = shut.same_details ∙ good.same_mode;
          settled = λ q d live. elim (Bool-cases (contains (expired fuel w now).0 q)) [
            | inl listed ↦
                absurd
                  (ground (arith, live, shut.idle q d listed (Live-nonzero m' q d v live) live.0))
            | inr apart ↦
                let (entry, range, roles) =
                  good.settled q d (sym (shut.others q apart) ∙ live.0, live.1) in
                elim (entry-expired fuel w now d.wheel_slot_and_index q entry) [
                  | inl listed ↦ absurd (ground (arith, listed, apart))
                  | inr still ↦ (still, range, roles)
                ]
          ];
        },
      )

bare_unheld :
    (r : ℕ) (cs : List ProxyConnection)
    → ((i : ℕ) (c : ProxyConnection) → get_elem? cs i ≡ some c → c.detailed_c ≡ none)
    → count_holders r cs ≡ 0
bare_unheld r [] bare = refl
bare_unheld r (c ∷ cs) bare =
    ground (arith, bare 0 c refl, bare_unheld r cs (λ i d found. bare (suc i) d found))

in_port_at :
    (m : ConnectionManager) (i : ℕ) → in_port m (m.tcp_port_base + i) ≡ get_elem? m.port2con i
in_port_at m i =
    rw (le→ltb_not (m.tcp_port_base + i) m.tcp_port_base (omega arith)) (back m.tcp_port_base i)
  where
    back : (b k : ℕ) → get_elem? m.port2con (b + k - b) ≡ get_elem? m.port2con k
    back b k = let e : b + k - b ≡ k = omega arith in rw e refl

module _ ⦃R : RecStore⦄ ⦃W : TimerWheel⦄ (servers : List Endpoint) where
  -- Without details no connection holds the store, so that it can be taken out at any time.
  pub fetch_c_records-IsGood :
      (h : Heap) (w : W.Wheel) (m : ConnectionManager)
      → IsGood servers false w m
      → IsGood servers false w (fetch_c_records h m).2
  unfolding owns_tcp_port
  fetch_c_records-IsGood h w m good =
      let unheld = bare_unheld m.record_store m.port2con (λ i c found.
        good.sound.plain (m.tcp_port_base + i) c good.same_mode (in_port_at m i ∙ found)) in
      subst (IsGood servers false w) (sym ((fetch_c_records_store h m).unheld unheld)) (record {
        valid = good.valid;
        sound = record {
          placed = good.sound.placed;
          plain = good.sound.plain;
          ranged = good.sound.ranged;
          owned = good.sound.owned;
          u16_ports = good.sound.u16_ports;
        };
        same_mode = good.same_mode;
        settled = good.settled;
      })
