-- ===== src/Pipeline/Roles.antt =====
-- The states that each side of a connection can be in: the client's side answers a SYN, so that it
-- never waits for one, and the server's side sends the SYN.
use proxyengine.Base.{ℕ, ◌<◌, ◌≡◌, ◌≢◌}
use proxyengine.Tcp.{
  TcpState, listen, syn_received, syn_sent, established, close_wait, last_ack, fin_wait1, fin_wait2,
  closing, closed, StateOrder,
}
use proxyengine.Packet.{TcpHeader}
use proxyengine.External.{RecStore, TimerWheel, PacketOps}
use proxyengine.Connection.{ProxyConnection}
use proxyengine.Client.{client_packet}
use proxyengine.Client.Branches.{
  client_next, server_next, Step, stays, syn, ack_of_syn, fin_passive, fin_both, fin_both_wait1,
  fin_both_wait2, fin_active, fin_unbound, rst, ack_of_fin, final_ack, first_payload,
}
use proxyengine.Client.Acknowledged.{CanOpen}
use proxyengine.Client.Passing.{IsTame}
use proxyengine.Client.Packets.{HasServer, client_packet-Carried}
use proxyengine.Server.{server_packet}
use proxyengine.Server.Branches as Server
use proxyengine.Server.Branches.{ServerStep}
use proxyengine.Server.Packets.{server_packet-Answered}
use proxyengine.Flow.{Setup, Readings, Flow}
use proxyengine.Flow.Rules.{Total, HasRoom}

abbrev pub IsClientState : TcpState → Type 0
IsClientState c = (c ≢ listen) × (c ≢ syn_received)

abbrev pub IsServerState : TcpState → Type 0
IsServerState s = (s ≢ syn_sent) × (s ≢ close_wait)

abbrev pub HasRoles : ProxyConnection → Type 0
HasRoles c = IsClientState c.client_state × IsServerState c.server_state

client_next-IsClientState : (c : TcpState) → IsClientState c → IsClientState (client_next c)
client_next-IsClientState listen k = k
client_next-IsClientState syn_received k = k
client_next-IsClientState syn_sent k = k
client_next-IsClientState established k = (λ e. cc, λ e. cc)
client_next-IsClientState close_wait k = k
client_next-IsClientState last_ack k = k
client_next-IsClientState fin_wait1 k = (λ e. cc, λ e. cc)
client_next-IsClientState fin_wait2 k = (λ e. cc, λ e. cc)
client_next-IsClientState closing k = k
client_next-IsClientState closed k = k

server_next-IsServerState : (s : TcpState) → IsServerState s → IsServerState (server_next s)
server_next-IsServerState listen k = k
server_next-IsServerState syn_received k = k
server_next-IsServerState syn_sent k = k
server_next-IsServerState established k = k
server_next-IsServerState close_wait k = k
server_next-IsServerState last_ack k = k
server_next-IsServerState fin_wait1 k = (λ e. cc, λ e. cc)
server_next-IsServerState fin_wait2 k = k
server_next-IsServerState closing k = (λ e. cc, λ e. cc)
server_next-IsServerState closed k = k

module _ ⦃order : StateOrder⦄ where
  pub Step-HasRoles :
      (t : TcpHeader) (n : ℕ) {c s c' s' : TcpState}
      → Step t n c s c' s'
      → IsClientState c × IsServerState s
      → IsClientState c' × IsServerState s'
  Step-HasRoles t n stays k = k
  Step-HasRoles t n (syn _) k = ((λ e. cc, λ e. cc), k.1)
  Step-HasRoles t n (ack_of_syn _) k = ((λ e. cc, λ e. cc), k.1)
  Step-HasRoles t n (fin_passive _ _ _) k = ((λ e. cc, λ e. cc), k.1)
  Step-HasRoles t n (fin_both _ _) k = ((λ e. cc, λ e. cc), k.1)
  Step-HasRoles t n (fin_both_wait1 _) k = ((λ e. cc, λ e. cc), (λ e. cc, λ e. cc))
  Step-HasRoles t n (fin_both_wait2 _) k = ((λ e. cc, λ e. cc), (λ e. cc, λ e. cc))
  Step-HasRoles t n (fin_active _ _) k = ((λ e. cc, λ e. cc), k.1)
  Step-HasRoles t n (fin_unbound _ _) k = ((λ e. cc, λ e. cc), (λ e. cc, λ e. cc))
  Step-HasRoles t n (rst _) k = ((λ e. cc, λ e. cc), k.1)
  Step-HasRoles t n (ack_of_fin {c = c} {s = s} _ _ _) k =
      (client_next-IsClientState c k.0, server_next-IsServerState s k.1)
  Step-HasRoles t n (final_ack _ _) k = ((λ e. cc, λ e. cc), (λ e. cc, λ e. cc))
  Step-HasRoles t n first_payload k = (k.0, (λ e. cc, λ e. cc))

  pub ServerStep-HasRoles :
      (t : TcpHeader) (n : ℕ) {c s c' s' : TcpState}
      → ServerStep t n c s c' s'
      → IsClientState c × IsServerState s
      → IsClientState c' × IsServerState s'
  ServerStep-HasRoles t n Server.stays k = k
  ServerStep-HasRoles t n (Server.synack _ _) k = (k.0, (λ e. cc, λ e. cc))
  ServerStep-HasRoles t n (Server.fin_passive _ _ _) k = (k.0, (λ e. cc, λ e. cc))
  ServerStep-HasRoles t n (Server.fin_both _ _) k = (k.0, (λ e. cc, λ e. cc))
  ServerStep-HasRoles t n (Server.fin_both_wait1 _) k = ((λ e. cc, λ e. cc), (λ e. cc, λ e. cc))
  ServerStep-HasRoles t n (Server.fin_both_wait2 _) k = ((λ e. cc, λ e. cc), (λ e. cc, λ e. cc))
  ServerStep-HasRoles t n (Server.fin_active _ _) k = (k.0, (λ e. cc, λ e. cc))
  ServerStep-HasRoles t n (Server.ack_last _ _) k = ((λ e. cc, λ e. cc), (λ e. cc, λ e. cc))
  ServerStep-HasRoles t n (Server.ack_wait1 _ _) k = ((λ e. cc, λ e. cc), k.1)
  ServerStep-HasRoles t n (Server.ack_closing _ _) k = ((λ e. cc, λ e. cc), k.1)

module _ ⦃order : StateOrder⦄ ⦃R : RecStore⦄ ⦃W : TimerWheel⦄ ⦃O : PacketOps⦄ (u : Setup)
    (tsc : Readings) (x : Flow) where
  -- The result of a packet's handling keeps the roles.
  abbrev pub KeepsRoles : Flow → Type 0
  KeepsRoles x' = HasRoles x'.con

  -- From a connection whose client side is neither Listen nor SynReceived, and whose server side
  -- is neither SynSent nor CloseWait, a client's packet and a server's both lead to such a one.
  -- There is room for one more state in the connection's record, and for a client's packet the
  -- payload callback keeps to its part, an established server side has its server, and for a first
  -- payload there are a server and a packet with room for the SYN; for a server's packet the
  -- client has an address.
  pub packets-HasRoles :
      HasRoles x.con
      → HasRoom 1 x
      → IsTame u.f_process_payload
      → HasServer u tsc x
      → (x.con.client_state ≡ established → x.con.server_state ≡ listen → CanOpen u tsc x)
      → 0 < x.con.client_ip
      → Total KeepsRoles (client_packet u tsc x) × Total KeepsRoles (server_packet u tsc x)
  packets-HasRoles roles room tame has_server can address =
      let (y, ran, a) = client_packet-Carried u tsc x tame has_server can room in
      let (z, ran', b) = server_packet-Answered u tsc x address room in
      (
        (y, ran, Step-HasRoles x.pdu.tcp x.con.seqn a.step roles),
        (z, ran', ServerStep-HasRoles x.pdu.tcp _ b.step roles),
      )
