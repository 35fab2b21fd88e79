-- ===== src/Pipeline/Ready.antt =====
-- What a packet on a connection keeps of a pipeline, with or without detailed records: `IsReady`,
-- for a packet of a client whose connection is found or was opened just now, and for a server's.
use proxyengine.Base.{
  ℕ, ◌<◌, ◌≡◌, ◌≢◌, ap, ◌∙◌, ◌⊎◌, inl, inr, Bool, true, false, Option, none, some, get_elem?,
  Result, ok, ◌>>=◌, if◌then◌else◌,
}
use proxyengine.Packet.{Pdu, Endpoint}
use proxyengine.Tcp.{StateOrder, closed, established, listen}
use proxyengine.External.{RecStore, TimerWheel, PacketOps}
use proxyengine.Connection.{ProxyConnection}
use proxyengine.Allocator.{PduAllocator}
use proxyengine.Allocator.Supply.{Stocked, Brings, Stocked-drawn}
use proxyengine.Forward.Handshake.{Selects}
use proxyengine.Manager.Invariant.{IsValid, Live}
use proxyengine.Manager.Shut.{IsSound}
use proxyengine.Client.{client_packet}
use proxyengine.Client.Branches.{InRange, Rescheduled}
use proxyengine.Client.Acknowledged.{CanOpen}
use proxyengine.Client.Passing.{is_over, IsTame}
use proxyengine.Client.Packets.{HasServer, Carried, client_packet-Carried, client_packet-Anew}
use proxyengine.Server.{server_packet}
use proxyengine.Server.Packets.{server_packet-Answered}
use proxyengine.Flow.{Setup, Readings, Flow}
use proxyengine.Flow.Rules.{Room}
use proxyengine.Pipeline.{Pipeline, Verdict, enter, leave}
use proxyengine.Pipeline.Roles.{HasRoles, Step-HasRoles, ServerStep-HasRoles}
use proxyengine.Pipeline.Good.{IsSettled, IsGood, started_others, leave-IsGood}

-- What a set-up has to offer: a payload callback that keeps to its part, a server, packets in the
-- pool, and a factor for the ticks that is not 0.
pub record IsSuited ⦃O : PacketOps⦄ (u : Setup) : Type 0 where
  pub tame : IsTame u.f_process_payload
  pub has_first : (srv : Endpoint) × (get_elem? u.servers 0 ≡ some srv)
  pub brings : Brings u.new_pdu_array
  pub reduces : 0 < u.wheel_tick_reduction_factor

-- If `p` is the first payload packet on `c`, it makes the callback select one of the servers.
abbrev pub Readable : Setup → Pdu → ProxyConnection → Type 0
Readable u p c =
    c.client_state ≡ established
    → c.server_state ≡ listen
    → InRange u.servers c
    → Selects u.f_select_server u.servers p c

module _ ⦃order : StateOrder⦄ ⦃R : RecStore⦄ ⦃W : TimerWheel⦄ ⦃O : PacketOps⦄ (u : Setup)
    (mode : Bool) where
  -- A pipeline in order: its manager and its wheel, and its packet allocator. `mode` says whether
  -- it keeps detailed records.
  pub record IsReady (s : Pipeline) : Type 0 where
    pub good : IsGood u.servers mode s.wheel s.cm
    pub stocked : Stocked s.allocator

  -- A verdict is reached, and the pipeline is in order after it.
  abbrev pub Safe : Result Verdict → Type 0
  Safe r = (g : ℕ) × (p : Pdu) × (s' : Pipeline) × (r ≡ ok (g, p, s')) × IsReady s'

  -- A live connection, and what is asked of the pipeline beside its timer.
  pub record Holds (s : Pipeline) (port : ℕ) (c : ProxyConnection) : Type 0 where
    pub valid : IsValid s.cm
    pub sound : IsSound s.cm
    pub same_mode : s.cm.detailed_records ≡ mode
    pub room : Room 1 s.heap c
    pub live : Live s.cm port c
    pub range : InRange u.servers c
    pub roles : HasRoles c
    pub others :
        (q : ℕ) (d : ProxyConnection) → Live s.cm q d → port ≢ q → IsSettled u.servers s.wheel q d
    pub stocked : Stocked s.allocator

  pub IsReady-Holds :
      (s : Pipeline) (port : ℕ) (c : ProxyConnection)
      → IsReady s
      → Live s.cm port c
      → Room 1 s.heap c
      → Holds s port c
  IsReady-Holds s port c ready live room = record {
    valid = ready.good.valid;
    sound = ready.good.sound;
    same_mode = ready.good.same_mode;
    room = room;
    live = live;
    range = (ready.good.settled port c live).1;
    roles = (ready.good.settled port c live).2;
    others = λ q d there _. ready.good.settled q d there;
    stocked = ready.stocked;
  }

  module _ (suited : IsSuited u) (tsc : Readings) (p : Pdu) (s : Pipeline) (port : ℕ)
      (c : ProxyConnection) (held : Holds s port c) where
    abbrev x₀ : Flow
    x₀ = enter s c p

    has_server : HasServer u tsc x₀
    has_server _ = held.range

    can_open :
        Readable u p c → c.client_state ≡ established → c.server_state ≡ listen → CanOpen u tsc x₀
    can_open readable bound unbound =
        let (syn, drawn, room, _) =
          Stocked-drawn u.new_pdu_array s.allocator suited.brings held.stocked in
        record {
          syn = syn;
          has_syn = drawn;
          has_room = room;
          selects = readable bound unbound held.range;
        }

    -- The entry of the connection after its packet: the old one, or the one of a new timer.
    own_entry :
        (x : Flow)
        → (((x.wheel ≡ s.wheel) × (x.con.wheel_slot_and_index ≡ c.wheel_slot_and_index))
            × (W.entry s.wheel c.wheel_slot_and_index ≡ some port))
          ⊎ Rescheduled u x₀ x
        → W.entry x.wheel x.con.wheel_slot_and_index ≡ some port
    own_entry x (inl same) = rw (same.0.0, same.0.1) same.1
    own_entry x (inr anew) =
        let keyed = held.valid.keyed port c held.live in
        rw (anew.1, anew.2, keyed)
          (W.schedule_entry s.wheel u.timeout_cycles port (held.sound.u16_ports port c held.live.0))

    other_entry :
        (x : Flow)
        → ((x.wheel ≡ s.wheel) × (x.con.wheel_slot_and_index ≡ c.wheel_slot_and_index))
          ⊎ Rescheduled u x₀ x
        → (q : ℕ) (d : ProxyConnection) → Live s.cm q d
        → port ≢ q
        → IsSettled u.servers x.wheel q d
    other_entry x (inl same) q d live ne = rw same.0 (held.others q d live ne)
    other_entry x (inr anew) q d live ne =
        let (entry, range, roles) = held.others q d live ne in
        (
          rw anew.1 (started_others u.servers s.wheel u.timeout_cycles c.proxy_port q d entry),
          range,
          roles,
        )

    keyed_release :
        (x : Flow)
        → (x.release_connection ≡ none) ⊎ (x.release_connection ≡ some c.proxy_port)
        → (x.release_connection ≡ none) ⊎ (x.release_connection ≡ some port)
    keyed_release x (inl e) = inl e
    keyed_release x (inr e) = inr (e ∙ ap some (held.valid.keyed port c held.live))

    asked :
        {A : Type 0} (x : Flow)
        → (x.release_connection ≡ none) ⊎ ((x.release_connection ≡ some c.proxy_port) × A)
        → (x.release_connection ≡ none) ⊎ (x.release_connection ≡ some c.proxy_port)
    asked x (inl e) = inl e
    asked x (inr e) = inr e.0

    -- The end of a client's packet.
    client_leaves :
        (x : Flow)
        → Carried u tsc x₀ x
        → (W.entry s.wheel c.wheel_slot_and_index ≡ some port) ⊎ Rescheduled u x₀ x
        → Safe (leave s port x)
    client_leaves x a settled =
        let (s', left, good, pool) =
          leave-IsGood u.servers s port c x held.valid held.sound mode held.same_mode held.live
            a.kept_con
            (
              own_entry x (choose a.aside.timer settled),
              a.aside.in_range held.range,
              Step-HasRoles p.tcp c.seqn a.step held.roles,
            )
            (other_entry x a.aside.timer) (keyed_release x (asked x a.released)) in
        let (batch, there, roomy) = a.aside.supply suited.brings held.stocked in
        (
          x.group_index,
          x.pdu,
          s',
          left,
          record {
            good = good;
            stocked = (batch, ap (λ (t : PduAllocator). t.pdu_batch) pool ∙ there, roomy);
          },
        )
      where
        choose : {A B C : Type 0} → A ⊎ C → B ⊎ C → (A × B) ⊎ C
        choose (inl a) (inl b) = inl (a, b)
        choose (inl a) (inr c) = inr c
        choose (inr c) _ = inr c

    -- A packet of a client whose connection's timer runs.
    pub known_client :
        Readable u p c
        → W.entry s.wheel c.wheel_slot_and_index ≡ some port
        → Safe (client_packet u tsc x₀ >>= leave s port)
    known_client readable entry =
        let (x, ran, a) =
          client_packet-Carried u tsc x₀ suited.tame has_server (can_open readable) held.room in
        let (g, p', s', left, ready) = client_leaves x a (inl entry) in
        (g, p', s', rw ran left, ready)

    -- The SYN that has opened the connection.
    pub new_client :
        c.client_state ≡ closed
        → p.tcp.syn_flag ≡ true
        → Safe (client_packet u tsc x₀ >>= leave s port)
    new_client state flag =
        let (x, ran, both) =
          client_packet-Anew u tsc x₀ suited.tame has_server state flag held.room in
        let (a, anew, _) = both in
        let (g, p', s', left, ready) = client_leaves x a (inr anew) in
        (g, p', s', rw ran left, ready)

    -- A packet of a server.
    pub server_known :
        W.entry s.wheel c.wheel_slot_and_index ≡ some port
        → Safe (server_packet u tsc x₀ >>= leave s port)
    server_known entry =
        let (x, ran, a) =
          server_packet-Answered u tsc x₀ (held.valid.live_mapped port c held.live).1 held.room in
        let (srv, chosen) = held.range in
        let (s', left, good, pool) =
          leave-IsGood u.servers s port c x held.valid held.sound mode held.same_mode held.live
            a.kept_con
            (
              own_entry x (inl (a.timer, entry)),
              (srv, ap (get_elem? u.servers) a.rest.0 ∙ chosen),
              ServerStep-HasRoles p.tcp _ a.step held.roles,
            )
            (other_entry x (inl a.timer))
            (keyed_release x (when_over (is_over x.con) a.released)) in
        let (batch, there, roomy) = held.stocked in
        (
          x.group_index,
          x.pdu,
          s',
          rw ran left,
          record {
            good = good;
            stocked =
                (batch, ap (λ (t : PduAllocator). t.pdu_batch) (pool ∙ a.rest.1) ∙ there, roomy);
          },
        )
      where
        when_over :
            (b : Bool) {o : Option ℕ}
            → o ≡ (if b then some c.proxy_port else none)
            → (o ≡ none) ⊎ (o ≡ some c.proxy_port)
        when_over true e = inr e
        when_over false e = inl e
