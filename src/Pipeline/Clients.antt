-- ===== src/Pipeline/Clients.antt =====
-- A packet of a known client in the pipeline, from the lookup of its connection to the verdict.
use proxyengine.Base.{
  sym, ℕ, ◌≡◌, refl, ap, ◌∙◌, ◌⊎◌, inl, inr, Bool, true, false, none, some, Option, [], ◌∷◌, ◌++◌,
  ok,
}
use proxyengine.Packet.{Pdu, Sock}
use proxyengine.Tcp.{syn_sent, StateOrder, closed, established, listen}
use proxyengine.External.{RecStore, TimerWheel, PacketOps}
use proxyengine.Connection.{ProxyConnection, client_sock}
use proxyengine.Manager.{get_mut_by_sock, get_mut_or_insert}
use proxyengine.Manager.Invariant.{IsValid, Live}
use proxyengine.Manager.Release.{Scheduled}
use proxyengine.Client.Branches.{Rescheduled, Kept, Step}
use proxyengine.Client.Acknowledged.{CanOpen}
use proxyengine.Client.Passing.{is_over, IsTame}
use proxyengine.Client.Packets.{HasServer, Carried, client_packet-Carried}
use proxyengine.Flow.{Setup, Readings, Flow}
use proxyengine.Flow.Rules.{HasRoom}
use proxyengine.Pipeline.{Pipeline, enter, find_client, client_side, leave}
use proxyengine.Pipeline.Leaving.{leave-keeps, leave-releases}

abbrev pub src_sock : Pdu → Sock
src_sock p = (p.ip.src, p.tcp.src_port)

module _ ⦃order : StateOrder⦄ ⦃R : RecStore⦄ ⦃W : TimerWheel⦄ ⦃O : PacketOps⦄ where
  found_client :
      (s : Pipeline) (sock : Sock) (syn : Bool) (port : ℕ) (c : ProxyConnection)
      → s.cm.sock2port sock ≡ some port
      → Live s.cm port c
      → find_client s sock syn ≡ ok (some (port, c), s.heap, s.cm)
  unfolding find_client get_mut_by_sock get_mut_or_insert
  found_client s sock true port c mapped live =
      rw (mapped, get_mut_or_insert) (rw live.0 (rw live.1 refl))
  found_client s sock false port c mapped live = rw (mapped, get_mut_by_sock) (rw live.0 refl)

module _ ⦃order : StateOrder⦄ ⦃R : RecStore⦄ ⦃W : TimerWheel⦄ ⦃O : PacketOps⦄ (u : Setup)
    (tsc : Readings) (p : Pdu) (s : Pipeline) (port : ℕ) (c : ProxyConnection) where
  abbrev Freed : Pipeline → Type 0
  Freed s' =
      (s'.cm.free_ports ≡ s.cm.free_ports ++ port ∷ []) × (s'.cm.sock2port (client_sock c) ≡ none)

  -- What a client's packet has made of the connection `c` on `port`: another one, in states that
  -- one step leads to, which is live still, or freed, with the client's side closed; closed on both
  -- sides, it is freed.
  pub record Turned (s' : Pipeline) : Type 0 where
    pub con : ProxyConnection
    pub kept_con : Kept c con
    pub step : Step p.tcp c.seqn c.client_state c.server_state con.client_state con.server_state
    pub valid : IsValid s'.cm
    pub outcome : Live s'.cm port con ⊎ ((con.client_state ≡ closed) × Freed s')
    pub over : is_over con ≡ true → Freed s'

  leaving_client :
      (x : Flow)
      → IsValid s.cm
      → Live s.cm port c
      → Scheduled s.wheel port c
      → Carried u tsc (enter s c p) x
      → (s' : Pipeline) × (leave s port x ≡ ok (x.group_index, x.pdu, s')) × Turned s'
  leaving_client x v live entry a = elim a.released [
    | inl same ↦
        let (s', left) = leave-keeps s port c x v live a.kept_con same in
        (
          s',
          left.returns,
          record {
            con = x.con;
            kept_con = a.kept_con;
            step = a.step;
            valid = left.valid;
            outcome = inl (left.live refl);
            over = λ e. absurd (clash same (a.over e));
          },
        )
    | inr request ↦
        let (asked, shut) = request in
        let timer = closed_timer (enter s c p) x a.aside.timer shut in
        let (s', left) =
          leave-releases s port c x v live a.kept_con (asked ∙ ap some (v.keyed port c live))
            (rw (timer.0, timer.1) entry) in
        (
          s',
          left.returns,
          record {
            con = x.con;
            kept_con = a.kept_con;
            step = a.step;
            valid = left.valid;
            outcome = inr (shut, left.freed refl);
            over = λ _. left.freed refl;
          },
        )
  ]
    where
      apart : syn_sent ≡ closed → ⊥
      apart e = cc

      closed_timer :
          (y y' : Flow)
          → ((y'.wheel ≡ y.wheel) × (y'.con.wheel_slot_and_index ≡ y.con.wheel_slot_and_index))
            ⊎ Rescheduled u y y'
          → y'.con.client_state ≡ closed
          → (y'.wheel ≡ y.wheel) × (y'.con.wheel_slot_and_index ≡ y.con.wheel_slot_and_index)
      closed_timer y y' (inl same) shut = same
      closed_timer y y' (inr anew) shut = absurd (apart (sym anew.0 ∙ shut))

      clash : {q : ℕ} {o : Option ℕ} → o ≡ none → o ≡ some q → ⊥
      clash e e' = cc

  -- In a pipeline with a valid manager, a packet of a client whose socket has a live connection,
  -- with a timer that is its own and room for one more state in its record, panics nowhere: the
  -- manager stays valid, the connection keeps its port, socket and record, and its states move by
  -- one Step; it is live afterwards, or freed with the client's side closed, and freed if it is
  -- closed on both sides. The payload callback leaves the connection's port, socket, record,
  -- states, timer and server index alone, an established server side has its server, and for a
  -- first payload there are a server and a packet with room for the SYN.
  pub client_side-Turned :
      IsTame u.f_process_payload
      → HasServer u tsc (enter s c p)
      → (c.client_state ≡ established → c.server_state ≡ listen → CanOpen u tsc (enter s c p))
      → IsValid s.cm
      → s.cm.sock2port (src_sock p) ≡ some port
      → Live s.cm port c
      → Scheduled s.wheel port c
      → HasRoom 1 (enter s c p)
      → (g : ℕ) × (p' : Pdu) × (s' : Pipeline) × (client_side u tsc p s ≡ ok (g, p', s'))
        × Turned s'
  unfolding client_side
  client_side-Turned tame has_server can v mapped live entry room =
      let (x, ran, a) = client_packet-Carried u tsc (enter s c p) tame has_server can room in
      let (s', returns, turned) = leaving_client x v live entry a in
      (
        x.group_index,
        x.pdu,
        s',
        rw (found_client s (src_sock p) p.tcp.syn_flag port c mapped live) (rw ran returns),
        turned,
      )
