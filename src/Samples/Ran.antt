-- ===== src/Samples/Ran.antt =====
-- A run of the program: one target, 700 rounds, and two records of one pipeline.
use mathlib.Core.List.Permᴰ as Perm
use proxyengine.Base.{
  ℕ, ◌+◌, ◌*◌, ◌/◌, ◌≡◌, refl, true, false, some, none, List, [], ◌∷◌, arith, ok,
}
use proxyengine.Packet.{Endpoint}
use proxyengine.Tcp.{closed, established, listen, passive_close}
use proxyengine.Record.{Extension, states}
use proxyengine.Program.Records.{completed_count}
use proxyengine.Record.Laws.{IsValid}
use proxyengine.Config.{Configuration}
use proxyengine.Program.{l234data}
use proxyengine.Program.Replies.{c_records, timed_out, collect}
use proxyengine.Program.Effects.{Act, completed_connections}
use proxyengine.Program.File.{File, Pairs, write_and_evaluate_records}
use proxyengine.Program.File.Shut.{counts}
use proxyengine.Program.File.Sections.{Sections, write_and_evaluate_records-Sections}
use proxyengine.Program.Main.{RunTime, main, main_loop}
use proxyengine.Program.Main.Rounds.{rounds, looks, slept_millis, main_loop-rounds}
use proxyengine.Program.Main.Tells.{Tells}
use proxyengine.Program.Main.Protocol.{protocol, main-Tells}
use proxyengine.Program.Main.Ends.{con_records, Works, script, main_lem}
use proxyengine.Samples.Evaluated.{Entry, entries}

abbrev shut : Extension
shut = record {
  s_stamps = 3 ∷ 5 ∷ 0 ∷ 0 ∷ 0 ∷ 0 ∷ 0 ∷ [];
  s_state = established ∷ closed ∷ listen ∷ listen ∷ listen ∷ listen ∷ listen ∷ [];
  s_state_count = 2;
  s_release_cause = passive_close;
}

shut-IsValid : IsValid shut
shut-IsValid = record { state_places = refl; stamp_places = refl; counted = omega arith }

abbrev early : Entry
early = record {
  cause = passive_close;
  state = closed;
  begins = 40;
  lasts = 30;
  small = omega arith;
}

abbrev late : Entry
late = record {
  cause = passive_close;
  state = established;
  begins = 60;
  lasts = 50;
  small = omega arith;
}

abbrev pairs : Pairs
pairs = (late, shut) ∷ (early, shut) ∷ []

abbrev writable : File
writable = record { create = true; write_all = λ _. true; flush = true }

write_and_evaluate_records-Sections_example :
    (acts : List Act) × Sections (λ rs. rs) ((4, pairs) ∷ (5, []) ∷ []) acts
    × (write_and_evaluate_records writable (λ rs. rs) ((4, pairs) ∷ (5, []) ∷ [])
        ≡ (completed_connections 1 2 ∷ acts, ok tt))
unfolding completed_count states
write_and_evaluate_records-Sections_example =
    write_and_evaluate_records-Sections writable (λ line. refl) (λ rs. rs)
      (λ rs. (Perm.refl rs, Perm.refl rs)) ((4, pairs) ∷ (5, []) ∷ [])
      ((shut-IsValid, (shut-IsValid, _)), (_, _)) refl refl

main_loop-rounds_example :
    (main_loop 300 700 ≡ (rounds 0 700, ok tt))
    × (looks (rounds 0 700) ≡ (700 + 299) / 300)
    × (slept_millis (rounds 0 700) ≡ 200 * 700)
main_loop-rounds_example = main_loop-rounds 700

abbrev pub configuration : Configuration
configuration = record {
  targets = record { id = 1; ip = 30; mac = some 0xB2; linux_if = none; port = 90 } ∷ [];
  engine = record { timeouts = none; port = 999; detailed_records = some true; mode = none };
  test_size = none;
}

abbrev targets : List Endpoint
targets = record { mac = 0xB2; ip = 30; port = 90 } ∷ []

abbrev pub world : RunTime ℕ
world = record {
  init = some configuration;
  setup_flowdirector = true;
  set_handler = true;
  get_mac_from_ifname = λ _. none;
  deserialize = λ _. none;
  start_schedulers = true;
  install_pipeline_on_cores = true;
  active_cores = some (1 ∷ 2 ∷ []);
  get_main_channel = true;
  send = λ _. true;
  running = 3;
  replies = c_records 4 (some pairs) ∷ timed_out ∷ [];
  iter = λ m. elim (m 4) [ none ↦ [] | some rs ↦ (4, rs) ∷ [] ];
  sort_0_by = λ rs. rs;
  file = writable;
}

-- The file cannot be created.
abbrev full : RunTime ℕ
full = record world { file = record { create = false; write_all = λ _. true; flush = true } }

main-Tells_example : Tells (protocol true (1 ∷ 2 ∷ [])) (main full)
main-Tells_example = main-Tells full configuration (1 ∷ 2 ∷ []) refl refl

same_targets : l234data (λ _. none) configuration.targets ≡ ok targets
unfolding l234data
same_targets = refl

world-Works : Works world configuration targets (1 ∷ 2 ∷ [])
unfolding collect
world-Works = record {
  init = refl;
  flow_director = refl;
  handler = refl;
  targets = same_targets;
  schedulers = refl;
  installs = refl;
  active = refl;
  channel = refl;
  takes = λ m. refl;
  sorts = λ rs. (Perm.refl rs, Perm.refl rs);
  create = refl;
  write_all = λ line. refl;
  flush = refl;
  sound = ((shut-IsValid, (shut-IsValid, _)), _);
}

main_lem_example :
    (acts : List Act) × Sections (λ rs. rs) (con_records world) acts
    × (main world ≡ (
      script world configuration targets (1 ∷ 2 ∷ []) (
          completed_connections (counts (con_records world)).0 (counts (con_records world)).1
          ∷ acts),
      ok 0,
    ))
main_lem_example = main_lem world configuration targets (1 ∷ 2 ∷ []) world-Works
