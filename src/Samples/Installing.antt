-- ===== src/Samples/Installing.antt =====
-- The engine that the program installs on the small range of ports, with one target.
use mathlib.Core.List.Permᴰ as Perm
use proxyengine.Base.{ℕ, true, some, none, List, [], ◌∷◌}
use proxyengine.Config.{Configuration}
use proxyengine.Pipeline.{Pipeline}
use proxyengine.Pipes.{Task, kni_handle_request, proxy}
use proxyengine.Program.Main.{RunTime}
use proxyengine.Samples.{order, store, ops}
use proxyengine.Samples.Wheels.{wheel}
use proxyengine.Samples.Forwarded.{target}
use proxyengine.Samples.Evaluated.{entries}
use proxyengine.Samples.Begun.{engine, deserialize, given, begun}
use proxyengine.Samples.Ran.{world}

abbrev plain : Configuration
plain = record {
  targets =
      record { id = 1; ip = target.ip; mac = some target.mac; linux_if = none; port = target.port }
      ∷ [];
  engine = engine;
  test_size = none;
}

abbrev small : RunTime ℕ
small = record world { init = some plain; deserialize = deserialize; replies = [] }

abbrev tasks : List Task
tasks =
    kni_handle_request
      (record { net_spec = record { mac = 0xA1; ip = 9; port = 0 }; is_native_kni = true })
    ∷ proxy given begun
    ∷ []
