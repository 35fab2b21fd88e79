-- ===== src/Flow/Groups.antt =====
-- Where a packet ends, as a step on a `Flow` says it.
use proxyengine.Base.{
  ℕ, ◌<◌, ◌≡◌, refl, Bool, true, false, arith, Result, ok, panic, ◌>>=◌, if◌then◌else◌, ◌⊎◌, inl,
  subst,
}
use proxyengine.Tcp.{TcpState, ReleaseCause}
use proxyengine.Packet.{Pdu}
use proxyengine.External.{RecStore, TimerWheel}
use proxyengine.Flow.{Flow, c_push, s_push, c_cause, s_cause, s_reset}

pub zero-lt : 0 < 2
zero-lt = omega arith

pub one-lt : 1 < 2
one-lt = omega arith

module _ ⦃R : RecStore⦄ ⦃W : TimerWheel⦄ where
  -- If the step returns, the packet is not for the kernel.
  pub record Grouped (r : Result Flow) : Type 0 where
    pub at : (x : Flow) → r ≡ ok x → x.group_index < 2

  pub Grouped-ok : (x : Flow) → x.group_index < 2 → Grouped (ok x)
  Grouped-ok x h = record { at = λ y e. ground (arith, e) }

  pub Grouped-bind :
      (m : Result Flow) (f : Flow → Result Flow)
      → Grouped m
      → ((x : Flow) → x.group_index < 2 → Grouped (f x))
      → Grouped (m >>= f)
  Grouped-bind panic f g k = record { at = λ y e. cc }
  Grouped-bind (ok x) f g k = k x (g.at x refl)

  pub Grouped-call :
      {A : Type 0} (m : Result A) (f : A → Result Flow)
      → ((a : A) → Grouped (f a))
      → Grouped (m >>= f)
  Grouped-call panic f k = record { at = λ y e. cc }
  Grouped-call (ok a) f k = k a

  pub Grouped-if :
      (b : Bool) (m n : Result Flow) → Grouped m → Grouped n → Grouped (if b then m else n)
  Grouped-if true m n gm gn = gm
  Grouped-if false m n gm gn = gn

  pub ruleset grouping = (Grouped-ok, Grouped-bind, Grouped-call, Grouped-if)

  pub c_push-Grouped : (s : TcpState) (x : Flow) → x.group_index < 2 → Grouped (c_push s x)
  unfolding c_push
  c_push-Grouped s x h = search grouping

  pub s_push-Grouped :
      (tsc : ℕ) (s : TcpState) (x : Flow) → x.group_index < 2 → Grouped (s_push tsc s x)
  unfolding s_push
  s_push-Grouped tsc s x h = search grouping

  pub c_cause-Grouped : (k : ReleaseCause) (x : Flow) → x.group_index < 2 → Grouped (c_cause k x)
  unfolding c_cause
  c_cause-Grouped k x h = search grouping

  pub s_cause-Grouped : (k : ReleaseCause) (x : Flow) → x.group_index < 2 → Grouped (s_cause k x)
  unfolding s_cause
  s_cause-Grouped k x h = search grouping

  pub s_reset-Grouped : (x : Flow) → x.group_index < 2 → Grouped (s_reset x)
  unfolding s_reset
  s_reset-Grouped x h = search grouping

  pub ruleset steps = (
    grouping, c_push-Grouped, s_push-Grouped, c_cause-Grouped, s_cause-Grouped, s_reset-Grouped,
    zero-lt, one-lt,
  )

  -- Where a packet ends: dropped or sent to the network, or handed to the kernel as the packet `p`.
  abbrev pub Ends : Pdu → ℕ → Pdu → Type 0
  Ends p g q = (g < 2) ⊎ ((g ≡ 2) × (q ≡ p))

  -- If the step returns, the packet ends so.
  pub record Passed (p : Pdu) (r : Result Flow) : Type 0 where
    pub at : (x : Flow) → r ≡ ok x → Ends p x.group_index x.pdu

  pub Grouped-Passed : (p : Pdu) (r : Result Flow) → Grouped r → Passed p r
  Grouped-Passed p r g = record { at = λ x e. inl (g.at x e) }

  pub Passed-ok : (p : Pdu) (x : Flow) → Ends p x.group_index x.pdu → Passed p (ok x)
  Passed-ok p x h = record { at = λ y e. inside y e }
    where
      inside : (y : Flow) → ok x ≡ ok y → Ends p y.group_index y.pdu
      inside y e = let same : x ≡ y = cc in subst (λ z. Ends p z.group_index z.pdu) same h

  pub Passed-if :
      (p : Pdu) (b : Bool) (m n : Result Flow)
      → Passed p m
      → Passed p n
      → Passed p (if b then m else n)
  Passed-if p true m n gm gn = gm
  Passed-if p false m n gm gn = gn

  pub Passed-bind :
      (p : Pdu) (m : Result Flow) (f : Flow → Result Flow)
      → Passed p m
      → ((x : Flow) → Ends p x.group_index x.pdu → Passed p (f x))
      → Passed p (m >>= f)
  Passed-bind p panic f g k = record { at = λ y e. cc }
  Passed-bind p (ok x) f g k = k x (g.at x refl)
