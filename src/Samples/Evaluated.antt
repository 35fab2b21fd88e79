-- ===== src/Samples/Evaluated.antt =====
-- The program's callbacks on two servers, and the evaluation of two records.
use mathlib.Core.List.Permᴰ as Perm
use proxyengine.Base.{
  ℕ, ◌+◌, ◌%◌, ◌<◌, ◌≤◌, ◌-◌, ◌≡◌, refl, Option, some, none, List, [], ◌∷◌, arith, ok, get_elem?,
}
use proxyengine.Base.Words.{u64_mod}
use proxyengine.Packet.{Endpoint}
use proxyengine.Tcp.{TcpState, closed, established, ReleaseCause, passive_close, unknown}
use proxyengine.Connection.{ProxyConnection}
use proxyengine.Program.{CData, f_by_payload}
use proxyengine.Program.Select.{Found, robbin, f_by_payload_lem, f_round_robbin_lem}
use proxyengine.Program.Records.{ConData, completed_count, evaluate_records}
use proxyengine.Program.Records.Spans.{Reported, evaluate_records-Reported}
use proxyengine.Program.Replies.{
  Received, counter, c_records, illegal, timed_out, Collected, collect, newest, of_client,
  of_server, records_of, collect-newest,
}
use proxyengine.Samples.{ops}
use proxyengine.Samples.Forwarded.{target, segment, talk}

abbrev deserialize : List ℕ → Option CData
deserialize _ = some (record { reply_ip = 30; reply_port = 90 })

abbrev servers : List Endpoint
servers = target ∷ record { mac = 0xB3; ip = 30; port = 90 } ∷ []

abbrev asking : ProxyConnection
asking = record talk { payload_packet = some (segment 1 1) }

f_by_payload_lem_example :
    (c' : ProxyConnection) × (f_by_payload deserialize servers asking ≡ ok c')
    × (c' ≡ record asking { server_index = c'.server_index })
    × Found deserialize servers (record { reply_ip = 30; reply_port = 90 }) asking c'
f_by_payload_lem_example =
    f_by_payload_lem deserialize servers asking (segment 1 1)
      (record { reply_ip = 30; reply_port = 90 }) (omega arith) refl refl

-- Three servers, five connections: the fourth gets the second server.
f_round_robbin_lem_example :
    get_elem? (robbin 3 0 (talk ∷ talk ∷ talk ∷ talk ∷ talk ∷ [])) 3
    ≡ some (record talk { server_index = (3 + 1) % 3 })
f_round_robbin_lem_example =
    f_round_robbin_lem 3 (omega arith) (omega arith) (talk ∷ talk ∷ talk ∷ talk ∷ talk ∷ []) 3 talk
      refl

-- A record is its cause, its last state and its stamps, which are less than the greatest u64.
pub record Entry : Type 0 where
  pub cause : ReleaseCause
  pub state : TcpState
  pub begins : ℕ
  pub lasts : ℕ
  pub small : begins + lasts < u64_mod - 1

pub ordered : (b f l : ℕ) → some b ≡ some f → f ≤ b + l
ordered b f l e = ground (arith, e)

instance abbrev pub entries : ConData
entries = record {
  Rec = Entry;
  release_cause = λ r. r.cause;
  states = λ r. r.state ∷ [];
  last_state = λ r. r.state;
  get_first_stamp = λ r. some r.begins;
  get_last_stamp = λ r. some (r.begins + r.lasts);
  last_states = λ r. refl;
  stamps = λ r f e. (r.begins + r.lasts, refl, ordered r.begins f r.lasts e, r.small);
}

abbrev pub two : List Entry
two =
    record { cause = passive_close; state = closed; begins = 40; lasts = 30; small = omega arith }
    ∷ record { cause = unknown; state = established; begins = 10; lasts = 5; small = omega arith }
    ∷ []

evaluate_records-Reported_example :
    (o : Option (ℕ × ℕ)) × (evaluate_records (λ rs. rs) two ≡ ok (completed_count two, o))
    × Reported two o
evaluate_records-Reported_example =
    evaluate_records-Reported (λ rs. rs) two (λ rs. (Perm.refl rs, Perm.refl rs))

-- Two replies of pipeline 4, the second too late.
abbrev replies : List (Received ℕ ℕ)
replies =
    counter 4 10 20
    ∷ c_records 4 (some 30)
    ∷ illegal
    ∷ c_records 5 none
    ∷ timed_out
    ∷ counter 4 1 2
    ∷ []

abbrev nothing : Collected ℕ ℕ
nothing = record { tcp_counters_c = λ _. none; tcp_counters_s = λ _. none; con_records = λ _. none }

collect-newest_example :
    ((collect ℕ ℕ replies nothing).tcp_counters_c 4 ≡ newest ℕ ℕ (of_client ℕ ℕ 4) replies none)
    × ((collect ℕ ℕ replies nothing).tcp_counters_s 4 ≡ newest ℕ ℕ (of_server ℕ ℕ 4) replies none)
    × ((collect ℕ ℕ replies nothing).con_records 4 ≡ newest ℕ ℕ (records_of ℕ ℕ 4) replies none)
collect-newest_example = collect-newest ℕ ℕ replies nothing 4
