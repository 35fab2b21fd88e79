-- ===== src/Forward.antt =====
-- nftcp.rs, the functions inside the closure that rewrite packets: the SYN-ACK for a client, the
-- SYN for the selected server, the last ACK and the delayed payload, and the translation of an
-- established connection's packets in both directions.
--
-- A Pdu is passed and returned by value; where the source clones a Pdu, which shares the buffer,
-- the shared content is written out. Reference counts and logging are left out.
pub mod Translate
pub mod RoundTrip
pub mod Handshake
use proxyengine.Base.{
  ◌>>◌, assert, ℕ, ◌+◌, ◌-◌, ◌*◌, ◌%◌, Bool, true, false, Option, none, some, List, [], ◌∷◌, ltb,
  if◌then◌else◌, get_elem?, Result, ok, ◌>>=◌, unwrap,
}
use proxyengine.Base.Words.{
  u16_mod, ℤ, u32_mod, wrapping_add, wrapping_sub, sub_i32, shift_up, shift_down, is_zero,
}
use proxyengine.Packet.{Sock, Pdu, IpHeader, TcpHeader, Endpoint}
use proxyengine.External.{PacketOps}
use proxyengine.Connection.{ProxyConnection, sock}

pub record Me : Type 0 where
  pub l234 : Endpoint
  pub ip_s : ℕ

-- The callbacks: FnSelectServer, which may panic, and FnPayload with its payload and tailroom.
abbrev pub FnSelectServer : Type 0
FnSelectServer = ProxyConnection → Result ProxyConnection

abbrev pub FnPayload : Type 0
FnPayload = ProxyConnection → List ℕ → ℕ → ProxyConnection × List ℕ

abbrev pub min_frame_size : ℕ
min_frame_size = 60

-- The bytes of an Ethernet, an IPv4 and a TCP header.
abbrev pub headers_len : ℕ
headers_len = 54

abbrev pub with_tcp : Pdu → TcpHeader → Pdu
with_tcp p t = record p { tcp = t }

module _ ⦃O : PacketOps⦄ where
  open O use {
    tcp_payload_size, get_tailroom, push_headers, trim_length_by, remove_tcp_options,
    make_reply_packet, prepare_checksum_and_ttl, set_header,
  }

  -- `tsc` is the reading of the cycle counter that seeds the sequence number.
  unfoldable pub client_syn_received : ℕ → Pdu → ProxyConnection → Pdu × ProxyConnection
  client_syn_received tsc p c =
      let seqn = (tsc * 256) % u32_mod in
      let reply = make_reply_packet (remove_tcp_options p) 1 in
      let reply' = with_tcp reply (record (reply.tcp) { seq_num = seqn }) in
      (
        prepare_checksum_and_ttl reply',
        record c { client_mac = p.mac.src; c_seqn = seqn; ackn_p2c = reply'.tcp.ack_num },
      )

  -- The payload callback, called on packets that carry payload.
  abbrev pub processed : FnPayload → Pdu → ProxyConnection → Pdu × ProxyConnection
  processed f p c =
      if ltb 0 (tcp_payload_size p)
      then (let edited = f c p.payload (get_tailroom p) in
          (record p { payload = edited.1 }, edited.0))
      else (p, c)

  abbrev pub shifted_tcp : ProxyConnection → TcpHeader → TcpHeader
  shifted_tcp c t = record t {
    seq_num =
        if is_zero c.c2s_inserted_bytes then t.seq_num else shift_up t.seq_num c.c2s_inserted_bytes;
    ack_num = wrapping_sub t.ack_num c.c_seqn;
  }

  -- What `client_to_server` makes of the packet for the selected server, and of the connection.
  abbrev pub translated : Me → Endpoint → Pdu → ProxyConnection → Pdu × ProxyConnection
  translated me server p c =
      let p₂ = set_header server c.proxy_port p me.l234.mac me.ip_s in
      (
        prepare_checksum_and_ttl (with_tcp p₂ (shifted_tcp c p₂.tcp)),
        record c {
          ackn_p2s = wrapping_sub p₂.tcp.ack_num c.c_seqn;
          seqn_fin_p2s =
              if p₂.tcp.fin_flag
              then shift_up p₂.tcp.seq_num c.c2s_inserted_bytes
              else c.seqn_fin_p2s;
        },
      )

  unfoldable pub client_to_server :
      FnPayload → Me → List Endpoint → Pdu → ProxyConnection → Result (Pdu × ProxyConnection)
  client_to_server f me servers p c = do
    let edited = processed f p c
    server ← unwrap (get_elem? servers edited.1.server_index)
    ok (translated me server edited.0 edited.1)

  -- The packet for the client at socket `s`, under its new headers.
  abbrev pub readdressed : Me → Sock → Pdu → ProxyConnection → Pdu
  readdressed me s p c = record p {
    mac = record (p.mac) { dst = c.client_mac; src = me.l234.mac };
    ip = record (p.ip) { dst = s.0; src = me.l234.ip };
    tcp = record (p.tcp) {
      src_port = me.l234.port;
      dst_port = s.1;
      ack_num =
          if is_zero c.c2s_inserted_bytes
          then p.tcp.ack_num
          else shift_down p.tcp.ack_num c.c2s_inserted_bytes;
      seq_num = wrapping_add p.tcp.seq_num c.c_seqn;
    };
  }

  -- What `server_to_client` makes of the packet and of the connection.
  abbrev pub returned : Me → Sock → Pdu → ProxyConnection → Pdu × ProxyConnection
  returned me s p c = (
    prepare_checksum_and_ttl (readdressed me s p c),
    record c {
      ackn_p2c = shift_down p.tcp.ack_num c.c2s_inserted_bytes;
      seqn =
          if p.tcp.fin_flag
          then wrapping_add (wrapping_add p.tcp.seq_num c.c_seqn)
              (tcp_payload_size (readdressed me s p c) + 1)
          else c.seqn;
    },
  )

  unfoldable pub server_to_client : Me → Pdu → ProxyConnection → Result (Pdu × ProxyConnection)
  server_to_client me p c = do s ← unwrap (sock c); ok (returned me s p c)

  -- The SYN's TCP header, from the first payload packet's.
  abbrev pub syn_header : TcpHeader → TcpHeader
  syn_header t = record t {
    seq_num = wrapping_sub t.seq_num 1;
    ack_num = 0;
    syn_flag = true;
    ack_flag = false;
    psh_flag = false;
  }

  -- The SYN that goes to `server`, and the connection behind it. `edited` is what the callback left
  -- in the buffer, and `payload_sz` the size of the payload before.
  abbrev pub opening : Me → Endpoint → Pdu → ℕ → Pdu → ProxyConnection → Pdu × ProxyConnection
  opening me server syn payload_sz edited c =
      let shared = set_header server c.proxy_port edited me.l234.mac me.ip_s in
      (
        prepare_checksum_and_ttl (record syn {
          mac = shared.mac;
          ip = record (shared.ip) {
            total_length = trim_length_by shared.ip.total_length (payload_sz % u16_mod);
          };
          tcp = syn_header shared.tcp;
          data_len = syn.data_len + headers_len;
        }),
        record c {
          payload_packet = some shared;
          c2s_inserted_bytes = sub_i32 (tcp_payload_size edited) payload_sz;
          seqn = wrapping_sub shared.tcp.seq_num 1;
        },
      )

  -- `syn` is the empty packet that becomes the SYN. The callback may edit the buffer that `p` and
  -- `payload_packet` share; `set_header` writes to it too.
  unfoldable pub select_server :
      FnSelectServer
      → Me
      → List Endpoint
      → Pdu
      → Pdu
      → ProxyConnection
      → Result (Pdu × ProxyConnection)
  select_server f me servers syn p c = do
    c₁ ← f (record c { payload_packet = some p })
    edited ← unwrap c₁.payload_packet
    server ← unwrap (get_elem? servers c₁.server_index)
    assert (push_headers syn)
    ok (opening me server syn (tcp_payload_size p) edited c₁)

  abbrev pub padded : Pdu → Pdu
  padded p =
      if ltb p.data_len min_frame_size
      then record p { data_len = p.data_len + (min_frame_size - p.data_len) }
      else p

  -- The delayed payload packet, under the TCP header of the ACK before it.
  abbrev pub delayed : TcpHeader → Pdu → Pdu
  delayed ack p = prepare_checksum_and_ttl (padded (with_tcp p (record ack { psh_flag = true })))

  -- The packets that go out through the extra queue, in their order, come with the result.
  unfoldable pub server_synack_received : Pdu → ProxyConnection → Pdu × ProxyConnection × List Pdu
  server_synack_received p c =
      let delta = wrapping_sub c.c_seqn p.tcp.seq_num in
      let f_seqn = wrapping_add c.seqn 1 in
      let reply = make_reply_packet (remove_tcp_options p) 1 in
      let ack =
        prepare_checksum_and_ttl
          (with_tcp reply (record (reply.tcp) { syn_flag = false; seq_num = f_seqn })) in
      let c₁ : ProxyConnection = record c { c_seqn = delta; seqn = f_seqn } in
      elim c.payload_packet [
        | none ↦ (ack, c₁, ack ∷ [])
        | some payload ↦ (
          ack,
          record c₁ { payload_packet = none; ackn_p2s = ack.tcp.ack_num },
          ack ∷ delayed ack.tcp payload ∷ [],
        )
      ]
