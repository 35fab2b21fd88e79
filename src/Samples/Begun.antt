-- ===== src/Samples/Begun.antt =====
-- The set-up on the small range of ports and a run of the program: a tick, a client's SYN and its
-- next packet.
use mathlib.Core.Bool.{false≢true}
use proxyengine.Base.{
  ℕ, ◌<◌, ◌≡◌, refl, true, false, Option, some, none, List, [], ◌∷◌, arith, ok, panic, ◌==◌,
  if◌then◌else◌,
}
use proxyengine.Packet.{Pdu}
use proxyengine.Tcp.{established, listen}
use proxyengine.Allocator as Alloc
use proxyengine.Connection.{ProxyConnection}
use proxyengine.Config.{Timeouts, EngineConfig}
use proxyengine.Flow.{Setup, Flow}
use proxyengine.Client.{client_packet}
use proxyengine.Manager as Man
use proxyengine.Pipeline.{Channels, Pipeline, enter, fetch_c_recs}
use proxyengine.Pipeline.Ready.{IsSuited}
use proxyengine.Pipeline.Runs.{Call}
use proxyengine.Start.{Interfaces, Calls, limited, setup_delayed_proxy}
use proxyengine.Start.Laws.{IsAble, Started, setup_delayed_proxy-Started}
use proxyengine.Pipes.{PciQueue, KniQueue, PmdPort, Task, setup_pipes_delayed_proxy}
use proxyengine.Pipes.Laws.{Installed, queues, setup_pipes_delayed_proxy-Installed}
use proxyengine.Program.{CData, f_by_payload, f_process_payload_c_s}
use proxyengine.Program.Select.{f_process_payload_c_s-IsTame}
use proxyengine.Program.Run.{IsClean, AllClean}
use proxyengine.Program.Unread.{client_packet_unread}
use proxyengine.Samples.{in_order, in_order-Shuffles, order, store, ops}
use proxyengine.Samples.Wheels.{wheel}
use proxyengine.Samples.Masks.{small-IsPortRange}
use proxyengine.Samples.Forwarded.{target, segment, talk}
use proxyengine.Samples.Handled.{readings}

abbrev configured : Timeouts
configured = record { established = some 200000 }

abbrev pub calls : Calls
calls = record {
  shuffle_ports = in_order;
  default_or_some = λ _. configured;
  tick_length = λ n. n;
  new_pdu_array = λ _. some (segment 0 0 ∷ []);
}

abbrev pub ports : Interfaces
ports = record {
  kni = record { mac = 0xA1; ip = 9; port = 0 };
  flow_ip = 10;
  flow_port = 4000;
  port_mask = 65532;
}

abbrev pub engine : EngineConfig
engine = record { timeouts = none; port = 999; detailed_records = none; mode = none }

-- The payload is the address and the port of the server.
abbrev pub deserialize : List ℕ → Option CData
deserialize (ip ∷ port ∷ []) = some (record { reply_ip = ip; reply_port = port })
deserialize _ = none

pub able : IsAble calls ports 1000 engine
able = record {
  shuffles = in_order-Shuffles;
  range = small-IsPortRange;
  tick = λ _. refl;
  clock = omega arith;
  clock_u64 = omega arith;
  limit = 200000;
  limits = refl;
  brings = λ _. (segment 0 0, [], refl, (refl, _));
}

setup_delayed_proxy-Started_example :
    (u : Setup) × (s : Pipeline) × (setup_delayed_proxy calls ports 1000 engine
        (target ∷ [])
        (f_by_payload deserialize (target ∷ []))
        f_process_payload_c_s
      ≡ ok (u, s))
    × Started calls ports 1000 engine able
        (target ∷ [])
        (f_by_payload deserialize (target ∷ []))
        f_process_payload_c_s
        u
        s
setup_delayed_proxy-Started_example =
    setup_delayed_proxy-Started calls ports 1000 engine able (target ∷ [])
      (f_by_payload deserialize (target ∷ [])) f_process_payload_c_s

-- What the set-up gives.
abbrev pub given : Setup
given = record {
  me = record { l234 = record { mac = 0xA1; ip = 9; port = 999 }; ip_s = 10 };
  servers = target ∷ [];
  f_select_server = f_by_payload deserialize (target ∷ []);
  f_process_payload = f_process_payload_c_s;
  tcp_min_port = 4000;
  pipeline_ip = 10;
  timeout_cycles = 10000;
  wheel_tick_reduction_factor = 1;
  new_pdu_array = calls.new_pdu_array;
}

abbrev pub begun : Pipeline
begun = record {
  cm = Man.new in_order 65532 10 4000 false;
  heap = λ _. store.with_capacity Man.max_records;
  wheel = ([], 10);
  counter_c = λ _. 0;
  counter_s = λ _. 0;
  allocator = Alloc.new calls.new_pdu_array;
  ticks = 0;
  sent = [];
  answers = [];
}

pub begins :
    setup_delayed_proxy calls ports 1000 engine
      (target ∷ [])
      (f_by_payload deserialize (target ∷ []))
      f_process_payload_c_s
    ≡ ok (given, begun)
unfolding setup_delayed_proxy limited Man.new
begins = refl

abbrev tick : Pdu
tick = record (segment 0 0) { mac = record { src = 0; dst = 0; etype = 0xFFF1 } }

abbrev pub first_syn : Pdu
first_syn = record (segment 300 0) {
  tcp = record ((segment 300 0).tcp) { syn_flag = true; ack_flag = false };
}

-- No message at all, and the request for the records.
abbrev pub quiet : Channels
quiet = record { waiting = none; connected = true }

abbrev asked : Channels
asked = record { waiting = some fetch_c_recs; connected = true }

-- A tick with a request for the records, the SYN, and a segment of the same client.
abbrev pub calling : List Call
calling =
    record { tsc = readings; channels = asked; now = 5; pdu = tick }
    ∷ record { tsc = readings; channels = quiet; now = 6; pdu = first_syn }
    ∷ record { tsc = readings; channels = quiet; now = 7; pdu = segment 301 0 }
    ∷ []

is_clean :
    (channels : Channels) (p : Pdu) (s : Pipeline)
    → channels.connected ≡ true
    → p.payload ≡ 1 ∷ 2 ∷ []
    → 0 < p.ip.src
    → p.tcp.dst_port < 65536
    → IsClean given false deserialize channels p s
is_clean channels p s heard bytes address small = record {
  addressed = λ _ _. address;
  port = small;
  reads = λ _ _ _ _ _ _. (record { reply_ip = 1; reply_port = 2 }, rw bytes refl);
  roomy = λ e. absurd (false≢true e);
  unfetched = λ e. absurd (false≢true e);
  connected = λ _. heard;
}

pub all_clean : AllClean given false deserialize calling begun
all_clean = (
  is_clean asked tick begun refl refl (omega arith) (omega arith),
  λ _ _ s₁ _. (
    is_clean quiet first_syn s₁ refl refl (omega arith) (omega arith),
    λ _ _ s₂ _.
        (is_clean quiet (segment 301 0) s₂ refl refl (omega arith) (omega arith), λ _ _ _ _. tt),
  ),
)

pub given-IsSuited : IsSuited given
given-IsSuited = record {
  tame = f_process_payload_c_s-IsTame;
  has_first = (target, refl);
  brings = λ _. (segment 0 0, [], refl, (refl, _));
  reduces = omega arith;
}

-- Two ports on a core, the second without a kernel interface.
abbrev pub both : List PmdPort
both = record { name = 1; kni_name = some 8 } ∷ record { name = 2; kni_name = none } ∷ []

abbrev pub pmd_ports : ℕ → Option PmdPort
pmd_ports n = if n == 8 then some (record { name = 8; kni_name = none }) else none

abbrev pub new_queues : PmdPort → Option PmdPort → Option PciQueue × Option KniQueue
new_queues _ none =
    (some (record { rxq = 0; flow_ip = 10; flow_port = 4000; port_mask = 65532 }), none)
new_queues _ (some k) = (
  some (record { rxq = 0; flow_ip = 10; flow_port = 4000; port_mask = 65532 }),
  some (record { net_spec = record { mac = 0xA1; ip = 9; port = 0 }; is_native_kni = true }),
)

setup_pipes_delayed_proxy-Installed_example :
    (ts : List Task) × (setup_pipes_delayed_proxy calls 1000 engine
        (target ∷ [])
        (f_by_payload deserialize (target ∷ []))
        f_process_payload_c_s
        new_queues
        pmd_ports
        both
      ≡ ok ts)
    × Installed calls 1000 engine
        (target ∷ [])
        (f_by_payload deserialize (target ∷ []))
        f_process_payload_c_s
        new_queues
        pmd_ports
        (queues calls 1000 engine
          (target ∷ [])
          (f_by_payload deserialize (target ∷ []))
          f_process_payload_c_s
          new_queues
          pmd_ports
          both)
        ts
setup_pipes_delayed_proxy-Installed_example =
    setup_pipes_delayed_proxy-Installed calls 1000 engine (target ∷ [])
      (f_by_payload deserialize (target ∷ [])) f_process_payload_c_s new_queues pmd_ports both
      (able, tt)

-- A bare ACK of an established client that has no server yet.
abbrev pub waiting : ProxyConnection
waiting = record talk { client_state = established; server_state = listen }

abbrev keep_alive : Pdu
keep_alive = record (segment 301 0) { payload = []; data_len = 54 }

abbrev idle_flow : Flow
idle_flow = enter begun waiting keep_alive

client_packet_unread_example : client_packet given readings idle_flow ≡ panic
client_packet_unread_example =
    client_packet_unread given readings idle_flow deserialize refl refl refl
      (record { new_number = refl; syn = refl; fin = refl; rst = refl }) refl
