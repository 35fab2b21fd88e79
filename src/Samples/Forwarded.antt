-- ===== src/Samples/Forwarded.antt =====
-- The translation's and the handshake's theorems on one connection to one server.
use proxyengine.Base.{ℕ, ◌<◌, ◌≡◌, refl, true, false, none, some, [], ◌∷◌, arith, ok}
use proxyengine.Base.Words.{pos, wrapping_add, u32_mod}
use proxyengine.Packet.{Pdu, Endpoint}
use proxyengine.Connection as Con
use proxyengine.Connection.{ProxyConnection}
use proxyengine.Forward.{
  Me, FnSelectServer, FnPayload, client_syn_received, client_to_server, server_to_client,
  select_server, server_synack_received,
}
use proxyengine.Forward.Translate.{KeepsTranslation}
use proxyengine.Forward.Handshake.{Selects, client_syn_received_lem, handshake}
use proxyengine.Forward.RoundTrip.{client_ack_reaches_server, server_ack_reaches_client}
use proxyengine.Samples.{ops}

abbrev pub engine : Me
engine = record { l234 = record { mac = 0xA1; ip = 9; port = 999 }; ip_s = 10 }

abbrev pub target : Endpoint
target = record { mac = 0xB2; ip = 20; port = 80 }

-- A segment of the client with the given numbers.
abbrev pub segment : ℕ → ℕ → Pdu
segment seq ack = record {
  mac = record { src = 0xC3; dst = 0xA1; etype = 0x0800 };
  ip = record { src = 7; dst = 9; protocol = 6; total_length = 50 };
  tcp = record {
    src_port = 1080;
    dst_port = 999;
    seq_num = seq;
    ack_num = ack;
    syn_flag = false;
    ack_flag = true;
    fin_flag = false;
    rst_flag = false;
    psh_flag = true;
  };
  payload = 1 ∷ 2 ∷ [];
  data_len = 64;
}

-- The connection of that client, with four bytes inserted and the server's numbers 1000 below.
abbrev pub talk : ProxyConnection
talk = record {
  payload_packet = none;
  detailed_c = none;
  client_mac = 0xC3;
  client_port = 1080;
  client_ip = 7;
  c_seqn = 1000;
  ackn_p2s = 0;
  ackn_p2c = 0;
  seqn = 0;
  c2s_inserted_bytes = pos 4;
  seqn_fin_p2s = 0;
  proxy_port = 4000;
  wheel_slot_and_index = (0, 0);
  client_state = Con.new.client_state;
  server_state = Con.new.server_state;
  server_index = 0;
}

-- Appends a byte to each payload, and always selects the first server.
abbrev pub append_byte : FnPayload
append_byte c xs _ = (c, 0 ∷ xs)

abbrev pub first_server : FnSelectServer
first_server c = ok (record c { server_index = 0 })

append_byte-KeepsTranslation : KeepsTranslation append_byte
append_byte-KeepsTranslation = record {
  seqn = λ _ _ _. refl;
  inserted = λ _ _ _. refl;
  port = λ _ _ _. refl;
  index = λ _ _ _. refl;
}

pub first_server-Selects : (p : Pdu) (c : ProxyConnection) → Selects first_server (target ∷ []) p c
first_server-Selects p c = record {
  con = record c { payload_packet = some p; server_index = 0 };
  returns = refl;
  edited = p;
  buffer = refl;
  header = refl;
  same = refl;
  server = target;
  chosen = refl;
}

client_ack_reaches_server_example :
    (p' : Pdu) × (c' : ProxyConnection) × (server_to_client engine (segment 500 0) talk
      ≡ ok (p', c'))
    × ((segment 0 1600).tcp.ack_num ≡ wrapping_add p'.tcp.seq_num 100
        → (q' : Pdu) × (c'' : ProxyConnection) × (client_to_server append_byte engine
              (target ∷ [])
              (segment 0 1600)
              c'
            ≡ ok (q', c''))
          × (q'.tcp.ack_num ≡ wrapping_add (segment 500 0).tcp.seq_num 100))
client_ack_reaches_server_example =
    client_ack_reaches_server append_byte engine (target ∷ []) target (segment 500 0)
      (segment 0 1600) talk 100 append_byte-KeepsTranslation refl (omega arith) (omega arith)

server_ack_reaches_client_example :
    (q' : Pdu) × (c' : ProxyConnection) × (client_to_server append_byte engine
        (target ∷ [])
        (segment 300 1200)
        talk
      ≡ ok (q', c'))
    × (0 < c'.client_ip
        → (segment 0 314).tcp.ack_num ≡ wrapping_add q'.tcp.seq_num 10
        → (p' : Pdu) × (c'' : ProxyConnection) × (server_to_client engine (segment 0 314) c'
            ≡ ok (p', c''))
          × (p'.tcp.ack_num ≡ wrapping_add (segment 300 1200).tcp.seq_num 10))
server_ack_reaches_client_example =
    server_ack_reaches_client append_byte engine (target ∷ []) target (segment 300 1200)
      (segment 0 314) talk 10 append_byte-KeepsTranslation refl (omega arith) (omega arith)

client_syn_received_lem_example :
    let (r, c') = client_syn_received 77 (segment 41 0) talk in
    (r.tcp.seq_num ≡ c'.c_seqn)
    × (r.tcp.ack_num ≡ wrapping_add 41 1)
    × (c'.ackn_p2c ≡ wrapping_add 41 1)
    × (r.tcp.dst_port ≡ 1080)
    × (r.ip.dst ≡ 7)
    × (c'.c_seqn < u32_mod)
client_syn_received_lem_example = client_syn_received_lem 77 (segment 41 0) talk

handshake_example :
    (s : Pdu) × (c₁ : ProxyConnection) × (select_server first_server engine
        (target ∷ [])
        (segment 0 0)
        (segment 42 78)
        talk
      ≡ ok (s, c₁))
    × (wrapping_add s.tcp.seq_num 1 ≡ 42)
    × (ack : Pdu) × (c₂ : ProxyConnection) × (d : Pdu) × (server_synack_received
          (segment 5000 42)
          c₁
        ≡ (ack, c₂, ack ∷ d ∷ []))
    × (ack.tcp.seq_num ≡ 42)
    × (ack.tcp.ack_num ≡ wrapping_add 5000 1)
    × (d.tcp ≡ record (ack.tcp) { psh_flag = true })
    × (wrapping_add (wrapping_add 5000 1) c₂.c_seqn ≡ wrapping_add 1000 1)
handshake_example =
    handshake first_server engine (target ∷ []) (segment 0 0) (segment 42 78) (segment 5000 42) talk
      (first_server-Selects (segment 42 78) talk) refl (omega arith) (omega arith) (omega arith)
