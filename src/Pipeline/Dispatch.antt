-- ===== src/Pipeline/Dispatch.antt =====
-- The two branches of the closure, from the lookup of the connection: a pipeline in order stays so.
use proxyengine.Base.{
  ℕ, ◌<◌, ◌≡◌, refl, sym, ap, ◌≢◌, get_elem?, ◌∙◌, inl, inr, Bool, Bool-cases, true, false, Option,
  none, some, arith, ok,
}
use proxyengine.Base.Words.{u16_mod}
use proxyengine.Packet.{Pdu, Sock}
use proxyengine.Tcp.{StateOrder, closed, listen}
use proxyengine.External.{RecStore, TimerWheel, PacketOps}
use proxyengine.Detailed.{Heap}
use proxyengine.Connection.{ProxyConnection, in_use, client_sock}
use proxyengine.Manager.{
  ConnectionManager, Ref, in_port, owns_tcp_port, get_mut_by_port, get_mut_by_sock,
  get_mut_or_insert,
}
use proxyengine.Manager.Invariant.{IsValid, Live}
use proxyengine.Manager.Shut.{IsSound}
use proxyengine.Manager.Allocate.{IsFresh, Answer, known, opens, refuses, get_mut_or_insert-IsValid}
use proxyengine.Flow.{Setup, Readings}
use proxyengine.Flow.Rules.{Room}
use proxyengine.Pipeline.Rooms.{Roomy, room_in}
use proxyengine.Pipeline.{Pipeline, find_client, client_side, server_side}
use proxyengine.Pipeline.Roles.{IsClientState, IsServerState}
use proxyengine.Pipeline.Ready.{
  IsSuited, Readable, IsReady, Safe, Holds, IsReady-Holds, known_client, new_client, server_known,
}

module _ ⦃order : StateOrder⦄ ⦃R : RecStore⦄ ⦃W : TimerWheel⦄ ⦃O : PacketOps⦄ (u : Setup)
    (mode : Bool) where
  module _ (suited : IsSuited u) (tsc : Readings) (p : Pdu) (s : Pipeline)
      (ready : IsReady u mode s) (roomy : mode ≡ true → Roomy p s) where
    abbrev pub sock : Sock
    sock = (p.ip.src, p.tcp.src_port)

    abbrev pub Reads : Type 0
    Reads =
        (port : ℕ) (c : ProxyConnection) → Live s.cm port c → client_sock c ≡ sock → Readable u p c

    -- The pipeline with what the lookup has made of its heap and manager.
    abbrev looked_up : Heap → ConnectionManager → Pipeline
    looked_up h m = record s { heap = h; cm = m }

    start_roles : IsClientState closed × IsServerState listen
    start_roles = ((λ e. cc, λ e. cc), (λ e. cc, λ e. cc))

    opened-Holds :
        (h : Heap) (m : ConnectionManager) (port : ℕ) (c : ProxyConnection)
        → IsFresh sock port c
        → IsValid m
        → IsSound m
        → Live m port c
        → ((q : ℕ) → port ≢ q → in_port m q ≡ in_port s.cm q)
        → m.detailed_records ≡ s.cm.detailed_records
        → Room 1 h c
        → Holds u mode (looked_up h m) port c
    opened-Holds h m port c fresh v sound live others same room = record {
      valid = v;
      sound = sound;
      same_mode = same ∙ ready.good.same_mode;
      room = room;
      live = live;
      range =
          let (srv, there) = suited.has_first in
          (srv, ap (get_elem? u.servers) fresh.first_server ∙ there);
      roles = rw (fresh.client_closed, fresh.server_listens) start_roles;
      others = λ q d there ne. ready.good.settled q d (sym (others q ne) ∙ there.0, there.1);
      stocked = ready.stocked;
    }

    syn_found :
        p.tcp.syn_flag ≡ true
        → find_client s sock p.tcp.syn_flag ≡ get_mut_or_insert s.heap s.cm sock
    unfolding find_client
    syn_found syn = rw syn refl

    -- The connection that `get_mut_or_insert` answers takes the SYN.
    by-Answer :
        (o : Option Ref) (h : Heap) (m : ConnectionManager)
        → find_client s sock p.tcp.syn_flag ≡ ok (o, h, m)
        → IsValid m
        → IsSound m
        → Answer s.cm sock o m
        → p.tcp.syn_flag ≡ true
        → Reads
        → Safe u mode (client_side u tsc p s)
    unfolding client_side
    by-Answer _ h _ found v sound (known port c live same) syn readable =
        let still : IsReady u mode (looked_up h s.cm) = record {
          good = ready.good;
          stocked = ready.stocked;
        } in
        let (g, p', s', ran, after) =
          known_client u mode suited tsc p (looked_up h s.cm) port c
            (IsReady-Holds u mode (looked_up h s.cm) port c still live (
              room_in mode s.cm h port c sound ready.good.same_mode live
                (λ on. (roomy on).opened port c h s.cm (sym (syn_found syn) ∙ found))))
            (readable port c live same) (ready.good.settled port c live).0 in
        (g, p', s', rw found ran, after)
    by-Answer _ h m found v sound (opens port rest c _ new free fresh live left others same) syn
          readable =
        let (g, p', s', ran, after) =
          new_client u mode suited tsc p (looked_up h m) port c
            (opened-Holds h m port c fresh v sound live others same (
              room_in mode m h port c sound (same ∙ ready.good.same_mode) live
                (λ on. (roomy on).opened port c h m (sym (syn_found syn) ∙ found))))
            fresh.client_closed syn in
        (g, p', s', rw found ran, after)
    by-Answer _ h _ found v sound (refuses new full) syn readable = (
      0,
      p,
      looked_up h s.cm,
      rw found refl,
      record { good = ready.good; stocked = ready.stocked },
    )

    -- Without the SYN flag, the connection is looked up alone.
    looked :
        p.tcp.syn_flag ≡ false
        → (o : Option Ref) → get_mut_by_sock s.cm sock ≡ ok o
        → find_client s sock p.tcp.syn_flag ≡ ok (o, s.heap, s.cm)
    unfolding find_client
    looked plain o e = rw plain (rw e refl)

    by_sock :
        (o : Option ℕ)
        → s.cm.sock2port sock ≡ o
        → p.tcp.syn_flag ≡ false
        → Reads
        → Safe u mode (client_side u tsc p s)
    unfolding client_side get_mut_by_sock
    by_sock none unknown plain readable =
        (0, p, s, rw (looked plain none (rw (unknown, get_mut_by_sock) refl)) refl, ready)
    by_sock (some port) mapped plain readable =
        let (c, live, same) = ready.good.valid.mapped_live sock port mapped in
        let (g, p', s', ran, after) =
          known_client u mode suited tsc p s port c
            (IsReady-Holds u mode s port c ready live (
              room_in mode s.cm s.heap port c ready.good.sound ready.good.same_mode live
                (λ on. (roomy on).live port c live (inr same))))
            (readable port c live same) (ready.good.settled port c live).0 in
        (
          g,
          p',
          s',
          rw (looked plain (some (port, c)) (rw (mapped, get_mut_by_sock) (rw live.0 refl))) ran,
          after,
        )

    pub client_side-IsReady : 0 < p.ip.src → Reads → Safe u mode (client_side u tsc p s)
    client_side-IsReady address readable = elim (Bool-cases p.tcp.syn_flag) [
      | inl syn ↦
          let (o, h, m, ran, v, sound, ans) =
            get_mut_or_insert-IsValid s.heap s.cm sock ready.good.valid address in
          by-Answer o h m (syn_found syn ∙ ran) v (sound ready.good.sound) ans syn readable
      | inr plain ↦ by_sock (s.cm.sock2port sock) refl plain readable
    ]

    abbrev dst : ℕ
    dst = p.tcp.dst_port

    by_port :
        (o : Option Ref)
        → get_mut_by_port s.cm dst ≡ ok o
        → ((port : ℕ) (c : ProxyConnection) → o ≡ some (port, c) → Live s.cm port c × (port ≡ dst))
        → Safe u mode (server_side u tsc p s)
    unfolding server_side
    by_port none found live = (2, p, s, rw found refl, ready)
    by_port (some (port, c)) found live =
        let (here, at_dst) = live port c refl in
        let (g, p', s', ran, after) =
          server_known u mode suited tsc p s port c
            (IsReady-Holds u mode s port c ready here (
              room_in mode s.cm s.heap port c ready.good.sound ready.good.same_mode here
                (λ on. (roomy on).live port c here (inl at_dst))))
            (ready.good.settled port c here).0 in
        (g, p', s', rw found ran, after)

    pub server_side-IsReady : dst < u16_mod → Safe u mode (server_side u tsc p s)
    unfolding get_mut_by_port
    server_side-IsReady small = elim (Bool-cases (owns_tcp_port s.cm dst)) [
      | inr foreign ↦ by_port none (rw foreign refl) (λ port c e. absurd (never e))
      | inl owned ↦
          let (c, there) = ready.good.sound.ranged dst small owned in
          elim (Bool-cases (in_use c)) [
            | inl used ↦
                by_port (some (dst, c)) (rw (owned, get_mut_by_port) (rw there (rw used refl)))
                  (λ port d e. (ground (arith, e, there, used), ground (arith, e)))
            | inr idle ↦
                by_port none (rw (owned, get_mut_by_port) (rw there (rw idle refl)))
                  (λ port d e. absurd (never e))
          ]
    ]
      where
        never : {r : Ref} → none ≡ some r → ⊥
        never e = cc
