-- ===== src/Forward/Handshake.antt =====
-- The handshakes on the two sides fit together: what the server is told of the client's numbers,
-- and how the server's numbers are carried over to those that the client was given.
use proxyengine.Base.{
  ℕ, ◌+◌, ◌*◌, ◌%◌, ◌<◌, ◌≡◌, refl, ap, ◌∙◌, true, false, some, none, List, [], ◌∷◌, arith, ltb,
  get_elem?, ok, Bool-cases, inl, inr,
}
use proxyengine.Base.Words.{u16_mod, u32_mod, wrapping_add, wrapping_sub, sub_i32}
use proxyengine.Packet.{Pdu, TcpHeader, Endpoint}
use proxyengine.External.{PacketOps}
use proxyengine.Connection.{ProxyConnection}
use proxyengine.Forward.{
  Me, FnSelectServer, client_syn_received, select_server, server_synack_received, syn_header,
  delayed, padded, with_tcp, opening, headers_len, min_frame_size,
}

-- For the first payload packet `p` on `c` the callback selects one of the servers, and leaves the
-- connection otherwise as it was but for the buffer of the payload packet, whose TCP header it
-- leaves alone.
pub record Selects (f : FnSelectServer) (servers : List Endpoint) (p : Pdu) (c : ProxyConnection)
    : Type 0 where
  pub con : ProxyConnection
  pub returns : f (record c { payload_packet = some p }) ≡ ok con
  pub edited : Pdu
  pub buffer : con.payload_packet ≡ some edited
  pub header : edited.tcp ≡ p.tcp
  pub same : con ≡ record c { payload_packet = con.payload_packet; server_index = con.server_index }
  pub server : Endpoint
  pub chosen : get_elem? servers con.server_index ≡ some server

module _ ⦃O : PacketOps⦄ where
  -- The SYN-ACK to a client's SYN goes back to the client's address and port, carries the sequence
  -- number that the connection keeps, which is a u32, and acknowledges the SYN, and the connection
  -- expects the number after the SYN's.
  pub client_syn_received_lem :
      (tsc : ℕ) (p : Pdu) (c : ProxyConnection)
      → let (r, c') = client_syn_received tsc p c in
        (r.tcp.seq_num ≡ c'.c_seqn)
        × (r.tcp.ack_num ≡ wrapping_add p.tcp.seq_num 1)
        × (c'.ackn_p2c ≡ wrapping_add p.tcp.seq_num 1)
        × (r.tcp.dst_port ≡ p.tcp.src_port)
        × (r.ip.dst ≡ p.ip.src)
        × (c'.c_seqn < u32_mod)
  unfolding client_syn_received
  client_syn_received_lem tsc p c =
      let plain = O.remove_tcp_options p in
      let reply = O.make_reply_packet plain 1 in
      let seqn = (tsc * 256) % u32_mod in
      let kept = O.prepare_keeps (with_tcp reply (record (reply.tcp) { seq_num = seqn })) in
      let removed = O.remove_keeps p in
      let acked : reply.tcp.ack_num ≡ wrapping_add p.tcp.seq_num 1 =
        O.reply_ack plain 1 ∙ rw removed.0 in
      (
        rw kept.0,
        rw kept.0 acked,
        acked,
        rw kept.0 ((O.reply_ports plain 1).1 ∙ rw removed.0),
        kept.2 ∙ (O.reply_addresses plain 1).1 ∙ removed.1,
        omega arith,
      )

  -- What `select_server` sends, and what it leaves in the connection.
  pub record Opens (srv : Endpoint) (p s : Pdu) (c c' : ProxyConnection) : Type 0 where
    pub seq : s.tcp.seq_num ≡ wrapping_sub p.tcp.seq_num 1
    pub to_port : s.tcp.dst_port ≡ srv.port
    pub to_ip : s.ip.dst ≡ srv.ip
    pub from_port : s.tcp.src_port ≡ c.proxy_port
    pub syn : (s.tcp.syn_flag ≡ true) × (s.tcp.ack_flag ≡ false) × (s.tcp.ack_num ≡ 0)
    pub f_seqn : c'.seqn ≡ wrapping_sub p.tcp.seq_num 1
    pub c_seqn : c'.c_seqn ≡ c.c_seqn
    pub port : c'.proxy_port ≡ c.proxy_port
    pub kept : (e : Pdu) × (c'.payload_packet ≡ some e)
    pub same : c' ≡ record c {
      payload_packet = c'.payload_packet;
      server_index = c'.server_index;
      c2s_inserted_bytes = c'.c2s_inserted_bytes;
      seqn = c'.seqn;
    }

  opening-Opens :
      (me : Me) (srv : Endpoint) (syn p edited : Pdu) (size : ℕ) (c c₁ : ProxyConnection)
      → edited.tcp ≡ p.tcp
      → c₁ ≡ record c { payload_packet = c₁.payload_packet; server_index = c₁.server_index }
      → Opens srv p (opening me srv syn size edited c₁).0 c (opening me srv syn size edited c₁).1
  opening-Opens me srv syn p edited size c c₁ e_tcp e_same =
      let e_seqn = ap (λ (t : ProxyConnection). t.c_seqn) e_same in
      let e_port = ap (λ (t : ProxyConnection). t.proxy_port) e_same in
      let shared = O.set_header srv c₁.proxy_port edited me.l234.mac me.ip_s in
      let headed = O.set_header_tcp srv c₁.proxy_port edited me.l234.mac me.ip_s in
      let addressed = O.set_header_ip srv c₁.proxy_port edited me.l234.mac me.ip_s in
      let kept = O.prepare_keeps (record syn {
        mac = shared.mac;
        ip = record (shared.ip) {
          total_length = O.trim_length_by shared.ip.total_length (size % u16_mod);
        };
        tcp = syn_header shared.tcp;
        data_len = syn.data_len + headers_len;
      }) in
      record {
        seq = rw (kept.0, headed, e_tcp);
        to_port = rw (kept.0, headed);
        to_ip = kept.2 ∙ addressed.1;
        from_port = rw (kept.0, headed, e_port);
        syn = rw kept.0 (refl, refl, refl);
        f_seqn = rw (headed, e_tcp);
        c_seqn = e_seqn;
        port = e_port;
        kept = (_, refl);
        same =
            ap
              (λ (t : ProxyConnection). record t {
                payload_packet = some shared;
                c2s_inserted_bytes = sub_i32 (O.tcp_payload_size edited) size;
                seqn = wrapping_sub shared.tcp.seq_num 1;
              })
              e_same;
      }

  -- With a server selected, the SYN goes out under the number before the client's payload.
  pub select_server_lem :
      (f : FnSelectServer) (me : Me) (servers : List Endpoint) (syn p : Pdu) (c : ProxyConnection)
      (sel : Selects f servers p c)
      → O.push_headers syn ≡ true
      → (s : Pdu) × (c' : ProxyConnection) × (select_server f me servers syn p c ≡ ok (s, c'))
        × Opens sel.server p s c c'
        × (get_elem? servers c'.server_index ≡ some sel.server)
  unfolding select_server
  select_server_lem f me servers syn p c sel room = (
    _,
    _,
    rw sel.returns (rw sel.buffer (rw sel.chosen (rw room refl))),
    opening-Opens me sel.server syn p sel.edited (O.tcp_payload_size p) c sel.con sel.header
        sel.same,
    sel.chosen,
  )

  padded_lem : (p : Pdu) → ((padded p).tcp ≡ p.tcp) × ((padded p).payload ≡ p.payload)
  padded_lem p = elim (Bool-cases (ltb p.data_len min_frame_size)) [
    | inl short ↦ rw short (refl, refl)
    | inr long ↦ rw long (refl, refl)
  ]

  delayed_lem :
      (ack : TcpHeader) (p : Pdu)
      → ((delayed ack p).tcp ≡ record ack { psh_flag = true })
        × ((delayed ack p).payload ≡ p.payload)
  delayed_lem ack p =
      let p' : Pdu = with_tcp p (record ack { psh_flag = true }) in
      let kept = O.prepare_keeps (padded p') in
      (kept.0 ∙ (padded_lem p').0, kept.3 ∙ (padded_lem p').1)

  -- What `server_synack_received` sends and leaves: the ACK, then the delayed payload.
  pub server_synack_received_lem :
      (r e : Pdu) (c : ProxyConnection)
      → c.payload_packet ≡ some e
      → c.c_seqn < u32_mod
      → r.tcp.seq_num < u32_mod
      → let (ack, c', out) = server_synack_received r c in
        (ack.tcp.seq_num ≡ wrapping_add c.seqn 1)
        × (ack.tcp.ack_num ≡ wrapping_add r.tcp.seq_num 1)
        × (ack.tcp.syn_flag ≡ false)
        × (wrapping_add (wrapping_add r.tcp.seq_num 1) c'.c_seqn ≡ wrapping_add c.c_seqn 1)
        × (c'.payload_packet ≡ none)
        × ((d : Pdu) × (out ≡ ack ∷ d ∷ [])
            × (d.tcp ≡ record (ack.tcp) { psh_flag = true })
            × (d.payload ≡ e.payload))
  unfolding server_synack_received
  server_synack_received_lem r e c waiting small small_r =
      let plain = O.remove_tcp_options r in
      let reply = O.make_reply_packet plain 1 in
      let answer : Pdu =
        with_tcp reply (record (reply.tcp) { syn_flag = false; seq_num = wrapping_add c.seqn 1 }) in
      let kept = O.prepare_keeps answer in
      let ack = O.prepare_checksum_and_ttl answer in
      let acked : reply.tcp.ack_num ≡ wrapping_add r.tcp.seq_num 1 =
        O.reply_ack plain 1 ∙ rw (O.remove_keeps r).0 in
      rw (waiting, server_synack_received)
        (
          rw kept.0,
          rw kept.0 acked,
          rw kept.0,
          omega arith,
          refl,
          (_, refl, (delayed_lem ack.tcp e).0, (delayed_lem ack.tcp e).1),
        )

  -- For a first payload packet, a packet with room for the SYN, a callback that selects one of the
  -- servers and leaves the payload packet's TCP header alone, and the server's SYN-ACK to the SYN,
  -- with numbers below 2^32: the SYN takes the number before the payload's, the ACK and the
  -- payload go out under the payload's own number and acknowledge the server's, and the
  -- translation carries the server's first byte to the number after the one that the client was
  -- given.
  pub handshake :
      (f : FnSelectServer) (me : Me) (servers : List Endpoint) (syn p r : Pdu) (c : ProxyConnection)
      → Selects f servers p c
      → O.push_headers syn ≡ true
      → c.c_seqn < u32_mod
      → p.tcp.seq_num < u32_mod
      → r.tcp.seq_num < u32_mod
      → (s : Pdu) × (c₁ : ProxyConnection) × (select_server f me servers syn p c ≡ ok (s, c₁))
        × (wrapping_add s.tcp.seq_num 1 ≡ p.tcp.seq_num)
        × (ack : Pdu) × (c₂ : ProxyConnection) × (d : Pdu) × (server_synack_received r c₁
            ≡ (ack, c₂, ack ∷ d ∷ []))
        × (ack.tcp.seq_num ≡ p.tcp.seq_num)
        × (ack.tcp.ack_num ≡ wrapping_add r.tcp.seq_num 1)
        × (d.tcp ≡ record (ack.tcp) { psh_flag = true })
        × (wrapping_add (wrapping_add r.tcp.seq_num 1) c₂.c_seqn ≡ wrapping_add c.c_seqn 1)
  handshake f me servers syn p r c sel room small small_p small_r =
      let (s, c₁, sent, opens, _) = select_server_lem f me servers syn p c sel room in
      let (e, waiting) = opens.kept in
      let (seq, acked, _, carried, _, (d, out, header, _)) =
        server_synack_received_lem r e c₁ waiting (rw opens.c_seqn small) small_r in
      (
        s,
        c₁,
        sent,
        omega (arith, opens.seq),
        (server_synack_received r c₁).0,
        (server_synack_received r c₁).1,
        d,
        (λ i. ((server_synack_received r c₁).0, (server_synack_received r c₁).1, out i)),
        seq ∙ omega (arith, opens.f_seqn),
        acked,
        header,
        carried ∙ ap (λ a. wrapping_add a 1) opens.c_seqn,
      )
