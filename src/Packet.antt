-- ===== src/Packet.antt =====
-- The parts of a frame (e2d2's Pdu with its MAC, IPv4 and TCP headers) that the proxy reads and
-- writes. Addresses are numbers; a frame's buffer is shared by its clones, which the definitions
-- that clone write out.
use proxyengine.Base.{ℕ, Bool, List}

-- An (IPv4 address, TCP port) pair, as the source writes it.
abbrev pub Sock : Type 0
Sock = ℕ × ℕ

pub record MacHeader : Type 0 where
  pub src : ℕ
  pub dst : ℕ
  pub etype : ℕ

pub record IpHeader : Type 0 where
  pub src : ℕ
  pub dst : ℕ
  pub protocol : ℕ
  pub total_length : ℕ

pub record TcpHeader : Type 0 where
  pub src_port : ℕ
  pub dst_port : ℕ
  pub seq_num : ℕ
  pub ack_num : ℕ
  pub syn_flag : Bool
  pub ack_flag : Bool
  pub fin_flag : Bool
  pub rst_flag : Bool
  pub psh_flag : Bool

pub record Pdu : Type 0 where
  pub mac : MacHeader
  pub ip : IpHeader
  pub tcp : TcpHeader
  pub payload : List ℕ
  pub data_len : ℕ

-- netfcts::tcp_common::L234Data: an endpoint's addresses.
pub record Endpoint : Type 0 where
  pub mac : ℕ
  pub ip : ℕ
  pub port : ℕ
