-- ===== src/Program.antt =====
-- bin.rs: the targets' addresses, the callbacks that the program hands to the proxy, and its mode.
-- What main does with them is in Main.
pub mod Select
pub mod Records
pub mod Replies
pub mod Run
pub mod Unread
pub mod Effects
pub mod File
pub mod Main
pub mod Engine
use proxyengine.Base.{
  ℕ, zero, suc, ◌+◌, ◌-◌, ◌%◌, Bool, true, false, ◌&&◌, Option, none, some, List, [], ◌∷◌, ltb,
  ◌==◌, if◌then◌else◌, Result, ok, ◌>>=◌, unwrap,
}
use proxyengine.Base.Words.{u64_mod}
use proxyengine.Packet.{Endpoint}
use proxyengine.Connection as Con
use proxyengine.Connection.{ProxyConnection}
use proxyengine.Config.{TargetConfig, EngineConfig, ProxyMode, delayed_v0, delayed}
use proxyengine.Forward.{FnSelectServer, FnPayload}
use proxyengine.Start.{or_else}

-- The MAC address of a target: its own, or that of the interface, which must have one then.
abbrev pub target_mac : (ℕ → Option ℕ) → TargetConfig → Result ℕ
target_mac get_mac_from_ifname t = elim t.mac [
  | some mac ↦ ok mac
  | none ↦ do name ← unwrap t.linux_if; unwrap (get_mac_from_ifname name)
]

-- `server_id` and `index` are left out of L234Data, as the proxy reads neither.
unfoldable pub l234data : (ℕ → Option ℕ) → List TargetConfig → Result (List Endpoint)
l234data get_mac_from_ifname [] = ok []
l234data get_mac_from_ifname (t ∷ ts) = do
  mac ← target_mac get_mac_from_ifname t
  rest ← l234data get_mac_from_ifname ts
  ok (record { mac = mac; ip = t.ip; port = t.port } ∷ rest)

-- netfcts::tcp_common::CData, as far as the callback reads it.
pub record CData : Type 0 where
  pub reply_ip : ℕ
  pub reply_port : ℕ

abbrev pub is_target : CData → Endpoint → Bool
is_target cdata l234 = l234.port == cdata.reply_port && l234.ip == cdata.reply_ip

-- The loop over the servers, `i` of which are done.
abbrev pub find_target : CData → ℕ → List Endpoint → Option ℕ
find_target cdata i [] = none
find_target cdata i (l234 ∷ rest) =
    if is_target cdata l234 then some i else find_target cdata (suc i) rest

-- `deserialize` is bincode's, on the payload of the packet; the index is cut to a u8.
unfoldable pub f_by_payload : (List ℕ → Option CData) → List Endpoint → FnSelectServer
f_by_payload deserialize servers c = do
  p ← unwrap c.payload_packet
  cdata ← unwrap (deserialize p.payload)
  ok (elim (find_target cdata 0 servers) [ none ↦ c | some i ↦ Con.set_server_index c (i % 256) ])

-- The other callback: the last server, a u8, and the connection with the next one.
-- `no_servers - 1` is a usize.
unfoldable pub f_round_robbin : ℕ → ℕ → ProxyConnection → ℕ × ProxyConnection
f_round_robbin no_servers last_server c =
    let next =
      if ltb last_server ((no_servers + (u64_mod - 1)) % u64_mod)
      then (last_server + 1) % 256
      else 0 in
    (next, Con.set_server_index c next)

unfoldable pub f_process_payload_c_s : FnPayload
f_process_payload_c_s c payload tailroom = (c, payload)

abbrev pub mode_eq : ProxyMode → ProxyMode → Bool
mode_eq delayed_v0 delayed_v0 = true
mode_eq delayed delayed = true
mode_eq _ _ = false

-- Whether pipelines are installed.
unfoldable pub is_delayed : EngineConfig → Bool
is_delayed engine = mode_eq (or_else delayed engine.mode) delayed
