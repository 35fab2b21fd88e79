-- ===== src/External.antt =====
-- What the manager and the pipeline call in other crates, as interfaces: the record store and the
-- connection records (netfcts::recstore, netfcts::conrecord) and the timer wheel
-- (netfcts::timer_wheel). Their laws are what the proxy's code relies on.
use proxyengine.Base.{
  ◌≢◌, ◌⊎◌, contains, ℕ, ◌<◌, ◌≡◌, Option, none, some, List, [], ◌∷◌, Bool, true,
}
use proxyengine.Base.Words.{u16_mod, wrapping_add}
use proxyengine.Tcp.{TcpState, ReleaseCause}
use proxyengine.Packet.{Sock, Pdu, Endpoint}
use proxyengine.Record.{Extension}

-- Store64<Extension>: pairs of a client-side ConRecord and a server-side Extension, by slot.
pub record RecStore : Type 1 where
  pub Store : Type 0
  pub ConRecord : Type 0
  pub with_capacity : ℕ → Store
  pub get_next_slot : Store → ℕ × Store
  pub get : Store → ℕ → ConRecord
  pub put : Store → ℕ → ConRecord → Store
  pub get_1 : Store → ℕ → Extension
  pub put_1 : Store → ℕ → Extension → Store
  -- ConRecord::init (by a client's role), push_state, set_release_cause, base_stamp, states.
  pub record_init : ConRecord → ℕ → Sock → ConRecord
  pub record_push_state : ConRecord → TcpState → ConRecord
  pub record_set_release_cause : ConRecord → ReleaseCause → ConRecord
  pub base_stamp : ConRecord → ℕ
  pub record_states : ConRecord → List TcpState
  -- TIME_STAMP_REDUCTION_FACTOR
  pub factor : ℕ
  -- A slot holds what was last written to it, and its two halves are apart.
  pub get_1-put_1 : (s : Store) (i : ℕ) (e : Extension) → get_1 (put_1 s i e) i ≡ e
  pub get_1-put : (s : Store) (i : ℕ) (r : ConRecord) → get_1 (put s i r) i ≡ get_1 s i
  pub get-put_1 : (s : Store) (i : ℕ) (e : Extension) → get (put_1 s i e) i ≡ get s i

abbrev pub AllU16 : List ℕ → Type 0
AllU16 [] = Unit {0}
AllU16 (p ∷ ps) = (p < u16_mod) × AllU16 ps

abbrev pub entries : Option (List ℕ) → List ℕ
entries none = []
entries (some ps) = ps

-- TimerWheel<u16>.
pub record TimerWheel : Type 1 where
  pub Wheel : Type 0
  -- TimerWheel::new, by the number of slots, the cycles per slot and a slot's capacity; and what a
  -- wheel says of itself.
  pub wheel_new : ℕ → ℕ → ℕ → Wheel
  pub resolution : Wheel → ℕ
  pub get_max_timeout_cycles : Wheel → ℕ
  pub new_resolution :
      (slots cycles capacity : ℕ) → resolution (wheel_new slots cycles capacity) ≡ cycles
  -- Schedules a port a number of cycles ahead, and returns its slot and index.
  pub schedule : Wheel → ℕ → ℕ → (ℕ × ℕ) × Wheel
  -- Overwrites the entry at a slot and index, and returns the old one.
  pub replace : Wheel → ℕ × ℕ → ℕ → Option ℕ × Wheel
  -- The entries that fell due by `now`, whether more slots are due, and the wheel after.
  pub tick : Wheel → ℕ → Option (List ℕ) × Bool × Wheel
  -- How many slots are still due by `now`: each tick that answers `more` leaves fewer.
  pub due : Wheel → ℕ → ℕ
  pub tick_ends : (w : Wheel) (now : ℕ) → (tick w now).1 ≡ true → due (tick w now).2 now < due w now
  -- The entries are u16.
  pub tick_ports : (w : Wheel) (now : ℕ) → AllU16 (entries (tick w now).0)
  -- The port at a slot and index, where there is one: what a replacement answers.
  pub entry : Wheel → ℕ × ℕ → Option ℕ
  pub replace_entry : (w : Wheel) (i : ℕ × ℕ) (v : ℕ) → (replace w i v).0 ≡ entry w i
  pub replace_others :
      (w : Wheel) (i j : ℕ × ℕ) (v : ℕ) → i ≢ j → entry (replace w i v).1 j ≡ entry w j
  -- A port is scheduled at a place that was empty, and no other place changes.
  pub schedule_free : (w : Wheel) (t p : ℕ) → entry w (schedule w t p).0 ≡ none
  pub schedule_entry :
      (w : Wheel) (t p : ℕ) → p < u16_mod → entry (schedule w t p).1 (schedule w t p).0 ≡ some p
  pub schedule_others :
      (w : Wheel) (t p : ℕ) (j : ℕ × ℕ)
      → (schedule w t p).0 ≢ j
      → entry (schedule w t p).1 j ≡ entry w j
  -- A tick hands out the entries that it takes away.
  pub tick_entries :
      (w : Wheel) (now : ℕ) (j : ℕ × ℕ) (p : ℕ)
      → entry w j ≡ some p
      → (contains (entries (tick w now).0) p ≡ true) ⊎ (entry (tick w now).2 j ≡ some p)

-- The packet helpers of netfcts, and the few questions asked of e2d2's headers.
pub record PacketOps : Type 0 where
  pub tcp_payload_size : Pdu → ℕ
  pub get_tailroom : Pdu → ℕ
  pub remove_tcp_options : Pdu → Pdu
  pub make_reply_packet : Pdu → ℕ → Pdu
  pub prepare_checksum_and_ttl : Pdu → Pdu
  -- Ip::trim_length_by, on the length.
  pub trim_length_by : ℕ → ℕ → ℕ
  -- Whether the three headers can be pushed on a packet from the pool: what `push_header` answers
  -- for the MAC, the IP and the TCP header, one after the other.
  pub push_headers : Pdu → Bool
  -- set_header(server, port, p, mac, ip)
  pub set_header : Endpoint → ℕ → Pdu → ℕ → ℕ → Pdu
  pub is_multicast : ℕ → Bool
  pub is_broadcast : ℕ → Bool
  pub private_etype : ℕ → Bool
  pub private_etype_packet : ℕ
  pub private_etype_timer : ℕ
  -- A reply turns the packet round, and acknowledges what it carried and `inc` more.
  pub reply_ack :
      (p : Pdu) (inc : ℕ) → (make_reply_packet p inc).tcp.ack_num ≡ wrapping_add p.tcp.seq_num inc
  pub reply_ports :
      (p : Pdu) (inc : ℕ)
      → ((make_reply_packet p inc).tcp.src_port ≡ p.tcp.dst_port)
        × ((make_reply_packet p inc).tcp.dst_port ≡ p.tcp.src_port)
  pub reply_addresses :
      (p : Pdu) (inc : ℕ)
      → ((make_reply_packet p inc).ip.src ≡ p.ip.dst)
        × ((make_reply_packet p inc).ip.dst ≡ p.ip.src)
  -- The others write no field that the proxy sets itself.
  pub remove_keeps :
      (p : Pdu)
      → ((remove_tcp_options p).tcp ≡ p.tcp)
        × ((remove_tcp_options p).ip.src ≡ p.ip.src)
        × ((remove_tcp_options p).ip.dst ≡ p.ip.dst)
  pub prepare_keeps :
      (p : Pdu)
      → ((prepare_checksum_and_ttl p).tcp ≡ p.tcp)
        × ((prepare_checksum_and_ttl p).ip.src ≡ p.ip.src)
        × ((prepare_checksum_and_ttl p).ip.dst ≡ p.ip.dst)
        × ((prepare_checksum_and_ttl p).payload ≡ p.payload)
  pub set_header_tcp :
      (s : Endpoint) (port : ℕ) (p : Pdu) (mac ip : ℕ)
      → (set_header s port p mac ip).tcp ≡ record p.tcp { src_port = port; dst_port = s.port }
  pub set_header_ip :
      (s : Endpoint) (port : ℕ) (p : Pdu) (mac ip : ℕ)
      → ((set_header s port p mac ip).ip.src ≡ ip) × ((set_header s port p mac ip).ip.dst ≡ s.ip)
