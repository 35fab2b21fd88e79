-- ===== src/Manager/Timeouts.antt =====
-- `timeout` and `release_timeouts` on a valid manager.
use proxyengine.Base.{
  ℕ, zero, suc, ◌<◌, ◌≡◌, refl, ◌⊎◌, inl, inr, true, false, some, none, Option, List, [], ◌∷◌, ◌++◌,
  arith, ◌==◌, ok, Bool-cases, ==_iff,
}
use proxyengine.Base.Words.{u16_mod}
use proxyengine.External.{RecStore, TimerWheel, AllU16, entries}
use proxyengine.Tcp.{closed, timeout as timed_out}
use proxyengine.Detailed.{Heap}
use proxyengine.Connection.{ProxyConnection, in_use}
use proxyengine.Connection.Laws.{HasPlace, set_release_cause_ok, c_push_state_ok}
use proxyengine.Manager.{
  ConnectionManager, in_port, owns_tcp_port, timeout, time_out_all, drained, release_timeouts,
}
use proxyengine.Manager.Invariant.{IsValid, Live}
use proxyengine.Manager.Release.{freed, freed-IsValid}
use proxyengine.Manager.Shut.{
  IsSound, Shut, freed-IsSound, stale-Shut, freed-Shut, Shut-nil, Shut-mark, Shut-append,
}

module _ ⦃R : RecStore⦄ where
  -- `timeout` closes the client side of a live connection and frees its port.
  timeout-Live :
      (h : Heap) (m : ConnectionManager) (p : ℕ) (c : ProxyConnection)
      → owns_tcp_port m p ≡ true
      → Live m p c
      → HasPlace c
      → (h' : Heap) × (timeout h m p ≡ ok (h', freed m p (record c { client_state = closed })))
  unfolding timeout
  timeout-Live h m p c owned live place =
      let (h₁, caused) = set_release_cause_ok h c timed_out place in
      let (h₂, pushed) = c_push_state_ok h₁ c closed place in
      (h₂, ground (arith, owned, live, caused, pushed))

  timeout_skip :
      (h : Heap) (m : ConnectionManager) (p : ℕ)
      → (owns_tcp_port m p ≡ false)
        ⊎ ((c : ProxyConnection) × (in_port m p ≡ some c) × (in_use c ≡ false))
      → timeout h m p ≡ ok (h, m)
  unfolding timeout
  timeout_skip h m p (inl foreign) = ground (arith, foreign)
  timeout_skip h m p (inr (c, found, idle)) = elim (Bool-cases (owns_tcp_port m p)) [
    | inl owned ↦ ground (arith, found, idle, owned)
    | inr foreign ↦ ground (arith, foreign)
  ]

  -- What a timed-out port comes to: from any port's entry, live or stale.
  timeout-IsValid :
      (h : Heap) (m : ConnectionManager) (p : ℕ)
      → p < u16_mod
      → IsValid m
      → IsSound m
      → (h' : Heap) × (m' : ConnectionManager) × (timeout h m p ≡ ok (h', m'))
        × IsValid m'
        × IsSound m'
        × Shut m m' (p ∷ [])
  timeout-IsValid h m p small v s = elim (Bool-cases (owns_tcp_port m p)) [
    | inr foreign ↦ (
      h,
      m,
      timeout_skip h m p (inl foreign),
      v,
      s,
      stale-Shut m p (λ d at_p. ground (arith, s.owned p d at_p, foreign)),
    )
    | inl owned ↦
        let (c, found) = s.ranged p small owned in
        elim (Bool-cases (in_use c)) [
          | inr idle ↦ (
            h,
            m,
            timeout_skip h m p (inr (c, found, idle)),
            v,
            s,
            stale-Shut m p (λ d at_p. ground (arith, at_p, found, idle)),
          )
          | inl used ↦
              let c' : ProxyConnection = record c { client_state = closed } in
              let (h', ended) =
                timeout-Live h m p c owned (found, used) (s.placed p c (found, used)) in
              let (v', gone) = freed-IsValid m p c c' v (found, used) refl in
              (
                h',
                freed m p c',
                ended,
                v',
                freed-IsSound m p c' c s found refl,
                freed-Shut m p c' gone,
              )
        ]
  ]

  -- A round of expired entries: nothing panics, the manager stays valid, each expired port is idle
  -- afterwards, and all others are as they were.
  time_out_all-IsValid :
      (ps : List ℕ) (h : Heap) (m : ConnectionManager)
      → AllU16 ps
      → IsValid m
      → IsSound m
      → (h' : Heap) × (m' : ConnectionManager) × (time_out_all h m ps ≡ ok (h', m'))
        × IsValid m'
        × IsSound m'
        × Shut m m' ps
  unfolding time_out_all
  time_out_all-IsValid [] h m small v s = (h, m, refl, v, s, Shut-nil m)
  time_out_all-IsValid (p ∷ ps) h m small v s = elim (Bool-cases (p == 0)) [
    | inl mark ↦
        let (h', m', ran, v', s', shut) = time_out_all-IsValid ps h m small.1 v s in
        (h', m', rw mark ran, v', s', Shut-mark m m' p ps ((==_iff p 0).0 mark) shut)
    | inr port ↦
        let (h₁, m₁, first, v₁, s₁, shut₁) = timeout-IsValid h m p small.0 v s in
        let (h₂, m₂, rest, v₂, s₂, shut₂) = time_out_all-IsValid ps h₁ m₁ small.1 v₁ s₁ in
        (h₂, m₂, rw port (rw first rest), v₂, s₂, Shut-append m m₁ m₂ (p ∷ []) ps shut₁ shut₂)
  ]

-- The ports that `rounds` ticks hand out, and the wheel after them.
module _ ⦃W : TimerWheel⦄ where
  open W use {Wheel}

  unfoldable pub expired : ℕ → Wheel → ℕ → List ℕ × Wheel
  expired zero wheel now = ([], wheel)
  expired (suc fuel) wheel now =
      let ticked = W.tick wheel now in
      elim ticked.1 [
        | true ↦ let rest = expired fuel ticked.2 now in (entries ticked.0 ++ rest.0, rest.1)
        | false ↦ (entries ticked.0, ticked.2)
      ]

module _ ⦃R : RecStore⦄ ⦃W : TimerWheel⦄ where
  open W use {Wheel}

  drained-IsValid :
      (o : Option (List ℕ)) (h : Heap) (m : ConnectionManager)
      → AllU16 (entries o)
      → IsValid m
      → IsSound m
      → (h' : Heap) × (m' : ConnectionManager) × (drained h m o ≡ ok (h', m'))
        × IsValid m'
        × IsSound m'
        × Shut m m' (entries o)
  drained-IsValid none h m small v s = (h, m, refl, v, s, Shut-nil m)
  drained-IsValid (some ps) h m small v s = time_out_all-IsValid ps h m small v s

  -- On a valid and sound manager, with fuel beyond the slots that are due, release_timeouts ends
  -- and panics nowhere; the manager stays valid and sound, every port that the wheel handed out is
  -- idle, every other port is as it was, and the wheel is where its ticks left it.
  pub release_timeouts-IsValid :
      (fuel : ℕ) (h : Heap) (m : ConnectionManager) (wheel : Wheel) (now : ℕ)
      → W.due wheel now < fuel
      → IsValid m
      → IsSound m
      → (h' : Heap) × (m' : ConnectionManager) × (release_timeouts fuel h m wheel now
          ≡ some (ok (h', m', (expired fuel wheel now).1)))
        × IsValid m'
        × IsSound m'
        × Shut m m' (expired fuel wheel now).0
  unfolding release_timeouts expired
  release_timeouts-IsValid zero h m wheel now enough v s = elim enough [ ]
  release_timeouts-IsValid (suc fuel) h m wheel now enough v s =
      let (h₁, m₁, ran, v₁, s₁, shut) =
        drained-IsValid (W.tick wheel now).0 h m (W.tick_ports wheel now) v s in
      elim (Bool-cases (W.tick wheel now).1) [
        | inr last ↦ (
          h₁,
          m₁,
          rw (last, expired) (rw (ran, release_timeouts) (rw last)),
          v₁,
          s₁,
          rw (last, expired) shut,
        )
        | inl more ↦
            let (h₂, m₂, rest, v₂, s₂, shut₂) =
              release_timeouts-IsValid fuel h₁ m₁ (W.tick wheel now).2 now
                (omega (arith, W.tick_ends wheel now more)) v₁ s₁ in
            (
              h₂,
              m₂,
              rw (more, expired) (rw (ran, release_timeouts) (rw more rest)),
              v₂,
              s₂,
              rw (more, expired) (Shut-append m m₁ m₂ _ _ shut shut₂),
            )
      ]
