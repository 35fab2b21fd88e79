-- ===== src/Forward/RoundTrip.antt =====
-- The two directions of the sequence number translation undo one another.
use proxyengine.Base.{
  ℕ, ◌<◌, ◌≡◌, refl, ap, ◌∙◌, inl, inr, some, List, arith, get_elem?, ok, if◌then◌else◌, Bool-cases,
}
use proxyengine.Base.Words.{
  ℤ, pos, negsuc, u32_mod, wrapping_add, wrapping_sub, shift_up, shift_down, is_zero, IsI32,
}
use proxyengine.Packet.{Pdu, Endpoint}
use proxyengine.External.{PacketOps}
use proxyengine.Connection.{ProxyConnection}
use proxyengine.Forward.{Me, FnPayload, client_to_server, server_to_client}
use proxyengine.Forward.Translate.{KeepsTranslation, client_to_server_lem, server_to_client_lem}

shift_up_down :
    (a n : ℕ) (i : ℤ)
    → a < u32_mod
    → IsI32 i
    → shift_down (wrapping_add (shift_up a i) n) i ≡ wrapping_add a n
shift_up_down a n (pos k) small range = omega arith
shift_up_down a n (negsuc k) small range = omega arith

wrapping_add_sub :
    (a d n : ℕ)
    → d < u32_mod
    → wrapping_sub (wrapping_add (wrapping_add a d) n) d ≡ wrapping_add a n
wrapping_add_sub a d n small = omega arith

-- With or without the test for an unchanged length the same number is sent on.
tested :
    (a n : ℕ) (i : ℤ)
    → a < u32_mod
    → IsI32 i
    → (if is_zero i
        then wrapping_add (if is_zero i then a else shift_up a i) n
        else shift_down (wrapping_add (if is_zero i then a else shift_up a i) n) i)
      ≡ wrapping_add a n
tested a n i small range = elim (Bool-cases (is_zero i)) [
  | inl z ↦ rw z refl
  | inr nz ↦ rw nz (shift_up_down a n i small range)
]

module _ ⦃O : PacketOps⦄ where
  -- If the client acknowledges n bytes of a server's segment as it was sent on, the server is told
  -- that n bytes of its segment have arrived; for a callback that leaves the connection's
  -- translation, port and server alone, a selected server, a client with an address and an offset
  -- below 2^32.
  pub client_ack_reaches_server :
      (f : FnPayload) (me : Me) (servers : List Endpoint) (s : Endpoint) (p q : Pdu)
      (c : ProxyConnection) (n : ℕ)
      → KeepsTranslation f
      → get_elem? servers c.server_index ≡ some s
      → 0 < c.client_ip
      → c.c_seqn < u32_mod
      → (p' : Pdu) × (c' : ProxyConnection) × (server_to_client me p c ≡ ok (p', c'))
        × (q.tcp.ack_num ≡ wrapping_add p'.tcp.seq_num n
            → (q' : Pdu) × (c'' : ProxyConnection) × (client_to_server f me servers q c'
                ≡ ok (q', c''))
              × (q'.tcp.ack_num ≡ wrapping_add p.tcp.seq_num n))
  client_ack_reaches_server f me servers s p q c n k chosen address small =
      let (p', c', sent, to_client) = server_to_client_lem me p c address in
      (
        p',
        c',
        sent,
        λ acked.
            let (q', c'', answered, to_server) =
              client_to_server_lem f me servers q c' s k (rw to_client.same chosen) in
            (
              q',
              c'',
              answered,
              to_server.ack
                  ∙ ap (λ a. wrapping_sub a c'.c_seqn) acked
                  ∙ rw (to_client.seq)
                      (rw (to_client.same) (wrapping_add_sub p.tcp.seq_num c.c_seqn n small)),
            ),
      )

  -- If the server acknowledges n bytes of a client's segment as it was sent on, the client is told
  -- that n bytes of its segment have arrived, whatever number of bytes (an i32) the proxy inserted
  -- or removed before; for a callback that leaves the connection's translation, port and server
  -- alone, a selected server, a sequence number below 2^32 and a client with an address.
  pub server_ack_reaches_client :
      (f : FnPayload) (me : Me) (servers : List Endpoint) (s : Endpoint) (q p : Pdu)
      (c : ProxyConnection) (n : ℕ)
      → KeepsTranslation f
      → get_elem? servers c.server_index ≡ some s
      → q.tcp.seq_num < u32_mod
      → IsI32 c.c2s_inserted_bytes
      → (q' : Pdu) × (c' : ProxyConnection) × (client_to_server f me servers q c ≡ ok (q', c'))
        × (0 < c'.client_ip
            → p.tcp.ack_num ≡ wrapping_add q'.tcp.seq_num n
            → (p' : Pdu) × (c'' : ProxyConnection) × (server_to_client me p c' ≡ ok (p', c''))
              × (p'.tcp.ack_num ≡ wrapping_add q.tcp.seq_num n))
  server_ack_reaches_client f me servers s q p c n k chosen small range =
      let (q', c', sent, to_server) = client_to_server_lem f me servers q c s k chosen in
      (
        q',
        c',
        sent,
        λ address acked.
            let (p', c'', answered, to_client) = server_to_client_lem me p c' address in
            (
              p',
              c'',
              answered,
              to_client.ack
                  ∙ rw (acked, to_server.inserted)
                      (rw to_server.seq (tested q.tcp.seq_num n c.c2s_inserted_bytes small range)),
            ),
      )
