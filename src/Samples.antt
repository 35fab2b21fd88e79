-- ===== src/Samples.antt =====
-- A concrete port range with its shuffle, record store, timer wheel, packet helpers and order of
-- the states, on which the children run the theorems.
mod Wheels
mod Masks
mod Manage
mod Forwarded
mod Recorded
mod Handled
mod Noted
mod Served
mod Drawn
mod Begun
mod Recording
mod Evaluated
mod Queued
mod Parted
mod Passed
mod Ran
mod Installing
mod Wires
use proxyengine.Base.{
  ℕ, zero, suc, ◌+◌, ◌-◌, ◌<◌, ◌≡◌, refl, Bool, true, false, ◌&&◌, Option, none, some, List, [],
  ◌∷◌, arith, ◌==◌, leb, ltb, if◌then◌else◌, contains, Distinct,
}
use proxyengine.Base.Words.{wrapping_add}
use proxyengine.Tcp.{
  TcpState, listen, syn_received, syn_sent, established, close_wait, last_ack, fin_wait1, fin_wait2,
  closing, closed, StateOrder,
}
use proxyengine.Packet.{Pdu, MacHeader, IpHeader, TcpHeader, Endpoint}
use proxyengine.Record as Ext
use proxyengine.Record.{Extension}
use proxyengine.External.{RecStore, TimerWheel, PacketOps, AllU16, entries}
use proxyengine.Manager.New.{Shuffles}

-- `n` ports from `a` on.
abbrev pub run : ℕ → ℕ → List ℕ
run a zero = []
run a (suc n) = a ∷ run (suc a) n

abbrev pub in_order : ℕ → ℕ → List ℕ
in_order a b = run a (suc b - a)

run-contains : (a n p : ℕ) → contains (run a n) p ≡ (leb a p && ltb p (a + n))
run-contains a zero p = ground arith
run-contains a (suc n) p = ground (arith, run-contains (suc a) n p)

run-Distinct : (a n : ℕ) → Distinct (run a n)
run-Distinct a zero = ground arith
run-Distinct a (suc n) = ground (arith, run-Distinct (suc a) n, run-contains (suc a) n a)

pub in_order-Shuffles : Shuffles in_order
in_order-Shuffles = record {
  covers = λ a b p. ground (arith, run-contains a (suc b - a) p);
  distinct = λ a b. run-Distinct a (suc b - a);
}

abbrev pub ranks : TcpState → ℕ
ranks listen = 0
ranks syn_received = 1
ranks syn_sent = 2
ranks established = 3
ranks close_wait = 4
ranks last_ack = 5
ranks fin_wait1 = 6
ranks fin_wait2 = 7
ranks closing = 8
ranks closed = 9

instance abbrev pub order : StateOrder
order = record {
  rank = ranks;
  listen_first = omega arith;
  received_early = omega arith;
  sent_early = omega arith;
  established_early = omega arith;
  wait_before_last_ack = omega arith;
  last_ack_early = omega arith;
  fin_wait1_early = omega arith;
  fin_wait2_open = omega arith;
  closing_late = omega arith;
  closing_open = omega arith;
}

-- A store with one slot: the client's states, and the server's record.
instance abbrev pub store : RecStore
store = record {
  Store = List TcpState × Extension;
  ConRecord = List TcpState;
  with_capacity = λ _. ([], Ext.new);
  get_next_slot = λ s. (0, s);
  get = λ s _. s.0;
  put = λ s _ r. (r, s.1);
  get_1 = λ s _. s.1;
  put_1 = λ s _ e. (s.0, e);
  record_init = λ _ _ _. [];
  record_push_state = λ r s. s ∷ r;
  record_set_release_cause = λ r _. r;
  base_stamp = λ _. 0;
  record_states = λ r. r;
  factor = 1;
  get_1-put_1 = λ _ _ _. refl;
  get_1-put = λ _ _ _. refl;
  get-put_1 = λ _ _ _. refl;
}

abbrev pub turned : Pdu → ℕ → Pdu
turned p inc = record p {
  mac = record (p.mac) { src = p.mac.dst; dst = p.mac.src };
  ip = record (p.ip) { src = p.ip.dst; dst = p.ip.src };
  tcp = record (p.tcp) {
    src_port = p.tcp.dst_port;
    dst_port = p.tcp.src_port;
    ack_num = wrapping_add p.tcp.seq_num inc;
    ack_flag = true;
  };
}

abbrev pub headed : Endpoint → ℕ → Pdu → ℕ → ℕ → Pdu
headed s port p mac ip = record p {
  mac = record (p.mac) { src = mac; dst = s.mac };
  ip = record (p.ip) { src = ip; dst = s.ip };
  tcp = record (p.tcp) { src_port = port; dst_port = s.port };
}

instance abbrev pub ops : PacketOps
ops = record {
  tcp_payload_size = λ p. p.data_len - 54;
  push_headers = λ _. true;
  trim_length_by = λ length by. length - by;
  get_tailroom = λ _. 100;
  remove_tcp_options = λ p. p;
  make_reply_packet = turned;
  prepare_checksum_and_ttl = λ p. p;
  set_header = headed;
  is_multicast = λ _. false;
  is_broadcast = λ a. a == 0xFFFF;
  private_etype = λ e. leb 0xFFF0 e;
  private_etype_packet = 0xFFF0;
  private_etype_timer = 0xFFF1;
  reply_ack = λ _ _. refl;
  reply_ports = λ _ _. (refl, refl);
  reply_addresses = λ _ _. (refl, refl);
  remove_keeps = λ _. (refl, refl, refl);
  prepare_keeps = λ _. (refl, refl, refl, refl);
  set_header_tcp = λ _ _ _ _ _. refl;
  set_header_ip = λ _ _ _ _ _. (refl, refl);
}
