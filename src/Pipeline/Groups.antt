-- ===== src/Pipeline/Groups.antt =====
-- Where the closure puts a packet: its verdicts.
use proxyengine.Base.{
  ℕ, ◌<◌, ◌≡◌, refl, Bool, true, false, Option, none, some, arith, Result, ok, panic, ◌>>=◌,
  if◌then◌else◌, ◌==◌, ◌⊎◌, inl, inr, subst,
}
use proxyengine.Packet.{Pdu}
use proxyengine.Tcp.{StateOrder}
use proxyengine.External.{RecStore, TimerWheel, PacketOps}
use proxyengine.Manager.{Ref, get_mut_by_port}
use proxyengine.Flow.{Setup, Readings, Flow}
use proxyengine.Flow.Groups.{Ends, Passed, zero-lt}
use proxyengine.Client.Groups.{client_packet-Passed}
use proxyengine.Server.Groups.{server_packet-Passed}
use proxyengine.Pipeline.{
  Channels, Pipeline, Verdict, leave, early_return, find_client, client_side, server_side, on_tick,
  handle,
}

module _ ⦃order : StateOrder⦄ ⦃R : RecStore⦄ ⦃W : TimerWheel⦄ ⦃O : PacketOps⦄ (u : Setup) where
  -- If there is a verdict on the packet `p`, it ends so.
  record Verdicts (p : Pdu) (r : Result Verdict) : Type 0 where
    at : (g : ℕ) (q : Pdu) (s : Pipeline) → r ≡ ok (g, q, s) → Ends p g q

  Verdicts-ok : (p : Pdu) (g : ℕ) (q : Pdu) (s : Pipeline) → Ends p g q → Verdicts p (ok (g, q, s))
  Verdicts-ok p g q s h = record { at = λ g' q' s' e. inside (g, q, s) (g', q', s') h e }
    where
      inside : (a b : Verdict) → Ends p a.0 a.1 → ok a ≡ ok b → Ends p b.0 b.1
      inside a b k e = let same : a ≡ b = cc in subst (λ (v : Verdict). Ends p v.0 v.1) same k

  Verdicts-call :
      {A : Type 0} (p : Pdu) (m : Result A) (f : A → Result Verdict)
      → ((a : A) → Verdicts p (f a))
      → Verdicts p (m >>= f)
  Verdicts-call p panic f k = record { at = λ g q s e. cc }
  Verdicts-call p (ok a) f k = k a

  Verdicts-flow :
      (p : Pdu) (m : Result Flow) (f : Flow → Result Verdict)
      → Passed p m
      → ((x : Flow) → Ends p x.group_index x.pdu → Verdicts p (f x))
      → Verdicts p (m >>= f)
  Verdicts-flow p panic f g k = record { at = λ a q s e. cc }
  Verdicts-flow p (ok x) f g k = k x (g.at x refl)

  Verdicts-if :
      (p : Pdu) (b : Bool) (m n : Result Verdict)
      → Verdicts p m
      → Verdicts p n
      → Verdicts p (if b then m else n)
  Verdicts-if p true m n gm gn = gm
  Verdicts-if p false m n gm gn = gn

  Verdicts-found :
      (p : Pdu) (o : Option Ref) (m : Result Verdict) (f : Ref → Result Verdict)
      → Verdicts p m
      → ((r : Ref) → Verdicts p (f r))
      → Verdicts p (elim o [ none ↦ m | some r ↦ f r ])
  Verdicts-found p none m f gm gf = gm
  Verdicts-found p (some r) m f gm gf = gf r

  leave-Verdicts :
      (p : Pdu) (s : Pipeline) (port : ℕ) (x : Flow)
      → Ends p x.group_index x.pdu
      → Verdicts p (leave s port x)
  unfolding leave
  leave-Verdicts p s port x h = Verdicts-call p _ _ (λ after. Verdicts-ok p x.group_index x.pdu _ h)

  client_side-Verdicts :
      (tsc : Readings) (p : Pdu) (s : Pipeline) → Verdicts p (client_side u tsc p s)
  unfolding client_side
  client_side-Verdicts tsc p s =
      Verdicts-call p (find_client s (p.ip.src, p.tcp.src_port) p.tcp.syn_flag) _ (λ found.
        Verdicts-found p found.0 _ _ (Verdicts-ok p 0 p _ (inl zero-lt)) (λ r.
          Verdicts-flow p _ _ (client_packet-Passed u tsc _ zero-lt) (leave-Verdicts p _ r.0)))

  server_side-Verdicts :
      (tsc : Readings) (p : Pdu) (s : Pipeline) → Verdicts p (server_side u tsc p s)
  unfolding server_side
  server_side-Verdicts tsc p s = Verdicts-call p (get_mut_by_port s.cm p.tcp.dst_port) _ (λ found.
      Verdicts-found p found _ _ (Verdicts-ok p 2 p s (inr (refl, refl)))
        (λ r. Verdicts-flow p _ _ (server_packet-Passed u tsc _ zero-lt) (leave-Verdicts p s r.0)))

  early_return_group : (p : Pdu) (g : ℕ) → early_return u p ≡ some g → (g < 2) ⊎ (g ≡ 2)
  unfolding early_return
  early_return_group p g e = ground arith

  -- Whatever the packet, the channels, the readings and the pipeline's state, a packet on which
  -- the closure gives a verdict is dropped or sent to the network, in group 0 or 1, or it is
  -- handed to the kernel, in group 2, exactly as it came in.
  pub handle-Ends :
      (tsc : Readings) (channels : Channels) (now : ℕ) (p q : Pdu) (s s' : Pipeline) (g : ℕ)
      → handle u tsc channels now p s ≡ ok (g, q, s')
      → Ends p g q
  unfolding handle
  handle-Ends tsc channels now p q s s' g e = (verdict (early_return u p) refl).at g q s' e
    where
      early : (group : ℕ) → (group < 2) ⊎ (group ≡ 2) → Ends p group p
      early group (inl lt) = inl lt
      early group (inr two) = inr (two, refl)

      verdict : (o : Option ℕ) → early_return u p ≡ o → Verdicts p (handle u tsc channels now p s)
      verdict none mine =
          rw (mine, handle)
            (Verdicts-if p (p.mac.etype == O.private_etype_packet) _ _
              (Verdicts-ok p 0 p s (inl zero-lt))
              (Verdicts-if p (p.mac.etype == O.private_etype_timer) _ _
                (Verdicts-call p (on_tick u channels now s) _
                  (λ s₁. Verdicts-ok p 0 p s₁ (inl zero-lt)))
                (Verdicts-if p (p.tcp.dst_port == u.me.l234.port) _ _ (client_side-Verdicts tsc p s)
                  (server_side-Verdicts tsc p s))))
      verdict (some group) returned =
          rw (returned, handle)
            (Verdicts-ok p group p s (early group (early_return_group p group returned)))
