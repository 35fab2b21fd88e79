-- ===== src/Samples/Recording.antt =====
-- A pipeline that keeps detailed records, and the first SYN that reaches it.
use proxyengine.Base.{ℕ, true, Option, some, none, Result, ok, panic}
use proxyengine.Config.{EngineConfig}
use proxyengine.Detailed.{Heap}
use proxyengine.Record as Ext
use proxyengine.Connection as Con
use proxyengine.Connection.{ProxyConnection}
use proxyengine.Manager as Man
use proxyengine.Manager.{ConnectionManager}
use proxyengine.Flow.Rules.{Room}
use proxyengine.Pipeline.{Pipeline}
use proxyengine.Samples.{in_order, order, store, ops}
use proxyengine.Samples.Wheels.{wheel}
use proxyengine.Samples.Begun.{engine, begun}

abbrev detailed_engine : EngineConfig
detailed_engine = record engine { detailed_records = some true }

abbrev recording : Pipeline
recording = record begun { cm = Man.new in_order 65532 10 4000 true }

-- The record of the connection that is answered has room.
abbrev RoomyAnswer : Result (Option (ℕ × ProxyConnection) × Heap × ConnectionManager) → Type 0
RoomyAnswer (ok (some (port, c), h, m)) = Room 1 h c
RoomyAnswer (ok (none, h, m)) = Unit {0}
RoomyAnswer panic = Unit {0}
