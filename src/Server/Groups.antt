-- ===== src/Server/Groups.antt =====
-- Where the closure puts a packet, on the server side.
use proxyengine.Base.{
  arith, ◌<◌, ◌≡◌, refl, Bool, true, false, Result, ok, panic, ◌>>=◌, if◌then◌else◌, ◌&&◌, ◌∙◌, inl,
  inr, subst,
}
use proxyengine.Tcp.{
  StateOrder, TcpState, last_ack, fin_wait1, closing, established, closed, at_least, before,
}
use proxyengine.External.{RecStore, TimerWheel, PacketOps}
use proxyengine.Flow.{Setup, Readings, Flow, to_group}
use proxyengine.Flow.Groups.{
  Grouped, Grouped-ok, Grouped-call, Passed, Grouped-Passed, Passed-ok, Passed-if, one-lt, steps,
}
use proxyengine.Client.Groups.{check_closed_out}
use proxyengine.Client.{check_closed}
use proxyengine.Packet.{Pdu}
use proxyengine.Server.{
  on_synack, on_fin_passive, on_fin_both, on_fin_active, on_fin, client_after_ack, on_ack_of_fin,
  server_event, forward_to_client, server_packet,
}

module _ ⦃R : RecStore⦄ ⦃W : TimerWheel⦄ where
  -- What a step has made of the packet `p`, if it also says whether `p` was unexpected: its group is
  -- not the kernel's, and an unexpected packet is as it was.
  record Told (p : Pdu) (r : Result (Flow × Bool)) : Type 0 where
    at : (x : Flow) (b : Bool) → r ≡ ok (x, b) → (x.group_index < 2) × (b ≡ true → x.pdu ≡ p)

  Told-of : (p : Pdu) (m : Result Flow) → Grouped m → Told p (m >>= λ x. ok (x, false))
  Told-of p panic g = record { at = λ y d e. cc }
  Told-of p (ok x) g = record { at = λ y d e. (ground (arith, g.at x refl, e), ground (arith, e)) }

  Told-ok : (x : Flow) → x.group_index < 2 → Told x.pdu (ok (x, true))
  Told-ok x h = record { at = λ y d e. inside y d e }
    where
      inside :
          (y : Flow) (d : Bool)
          → ◌≡◌ {A = Result (Flow × Bool)} (ok (x, true)) (ok (y, d))
          → (y.group_index < 2) × (d ≡ true → y.pdu ≡ x.pdu)
      inside y d e =
          let same : x ≡ y = cc in
          subst (λ z. (z.group_index < 2) × (d ≡ true → z.pdu ≡ x.pdu)) same (h, λ _. refl)

  Told-if :
      (p : Pdu) (b : Bool) (m n : Result (Flow × Bool))
      → Told p m
      → Told p n
      → Told p (if b then m else n)
  Told-if p true m n gm gn = gm
  Told-if p false m n gm gn = gn

  Told-bind :
      (p : Pdu) (m : Result (Flow × Bool)) (f : Flow × Bool → Result Flow)
      → Told p m
      → ((x : Flow) (b : Bool) → x.group_index < 2 → (b ≡ true → x.pdu ≡ p) → Passed p (f (x, b)))
      → Passed p (m >>= f)
  Told-bind p panic f g k = record { at = λ y e. cc }
  Told-bind p (ok (x, b)) f g k = let (h, same) = g.at x b refl in k x b h same

  to_kernel :
      (p : Pdu) (b : Bool) (x : Flow)
      → x.group_index < 2
      → (b ≡ true → x.pdu ≡ p)
      → Passed p (ok (if b then to_group 2 x else x))
  to_kernel p true x h same = Passed-ok p (to_group 2 x) (inr (refl, same refl))
  to_kernel p false x h same = Passed-ok p x (inl h)

module _ ⦃order : StateOrder⦄ ⦃R : RecStore⦄ ⦃W : TimerWheel⦄ ⦃O : PacketOps⦄ (u : Setup)
    (tsc : Readings) where
  on_synack-Grouped : (s : TcpState) (x : Flow) → x.group_index < 2 → Grouped (on_synack u tsc s x)
  unfolding on_synack
  on_synack-Grouped s x h = search steps

  on_fin_passive-Grouped : (x : Flow) → x.group_index < 2 → Grouped (on_fin_passive u tsc x)
  unfolding on_fin_passive
  on_fin_passive-Grouped x h = search steps

  on_fin_both-Grouped :
      (c : TcpState) (x : Flow) → x.group_index < 2 → Grouped (on_fin_both u tsc c x)
  unfolding on_fin_both
  on_fin_both-Grouped c x h = search steps

  on_fin_active-Grouped : (x : Flow) → x.group_index < 2 → Grouped (on_fin_active u tsc x)
  unfolding on_fin_active
  on_fin_active-Grouped x h = search steps

  on_fin-Grouped : (c : TcpState) (x : Flow) → x.group_index < 2 → Grouped (on_fin u tsc c x)
  unfolding on_fin
  on_fin-Grouped c x h =
      search (steps, on_fin_passive-Grouped, on_fin_both-Grouped, on_fin_active-Grouped)

  client_after_ack-Grouped :
      (s : TcpState) (x : Flow) → x.group_index < 2 → Grouped (client_after_ack u tsc s x)
  client_after_ack-Grouped last_ack x h = search steps
  client_after_ack-Grouped fin_wait1 x h = search steps
  client_after_ack-Grouped closing x h = search steps
  client_after_ack-Grouped _ x h = search steps

  on_ack_of_fin-Grouped :
      (c : TcpState) (x : Flow) → x.group_index < 2 → Grouped (on_ack_of_fin u tsc c x)
  unfolding on_ack_of_fin
  on_ack_of_fin-Grouped c x h = search (steps, client_after_ack-Grouped)

  server_event-Told :
      (c s : TcpState) (x : Flow) → x.group_index < 2 → Told x.pdu (server_event u tsc c s x)
  unfolding server_event
  server_event-Told c s x h =
      search (Told-of, Told-ok, Told-if, on_synack-Grouped, on_fin-Grouped, on_ack_of_fin-Grouped)

  forward_to_client-Passed :
      (c s : TcpState) (p : Pdu) (x : Flow) (b : Bool)
      → x.group_index < 2
      → (b ≡ true → x.pdu ≡ p)
      → Passed p (forward_to_client u tsc c s (x, b))
  unfolding forward_to_client
  forward_to_client-Passed c s p x b h same =
      Passed-if p (at_least s established && (at_least c established && before c closed)) _ _
        (Grouped-Passed p _ (Grouped-call _ _ (λ passed. Grouped-ok _ one-lt)))
        (to_kernel p b x h same)

  pub server_packet-Passed : (x : Flow) → x.group_index < 2 → Passed x.pdu (server_packet u tsc x)
  unfolding server_packet
  server_packet-Passed x h =
      Told-bind x.pdu (server_event u tsc x.con.client_state x.con.server_state x) _
        (server_event-Told x.con.client_state x.con.server_state x h)
        (λ y b g same.
          let (group, pdu) = check_closed_out u tsc y in
          forward_to_client-Passed x.con.client_state x.con.server_state x.pdu
            (check_closed u tsc y) b (rw group g) (λ e. pdu ∙ same e))
