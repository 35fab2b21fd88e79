-- ===== src/Forward/Translate.antt =====
-- What the two directions of the translation make of a packet, field by field.
use proxyengine.Base.{
  ℕ, ◌<◌, ◌≡◌, refl, inl, inr, true, false, some, List, arith, ltb, ◌==◌, if◌then◌else◌, get_elem?,
  ok, Bool-cases,
}
use proxyengine.Base.Words.{wrapping_add, wrapping_sub, shift_up, shift_down, is_zero}
use proxyengine.Packet.{Pdu, Endpoint}
use proxyengine.External.{PacketOps}
use proxyengine.Connection.{ProxyConnection, client_sock}
use proxyengine.Forward.{
  Me, FnPayload, processed, shifted_tcp, translated, with_tcp, returned, readdressed,
  client_to_server, server_to_client,
}

module _ ⦃O : PacketOps⦄ where
  -- A payload callback that leaves the connection's translation and addresses alone.
  pub record KeepsTranslation (f : FnPayload) : Type 0 where
    pub seqn : (c : ProxyConnection) (xs : List ℕ) (t : ℕ) → (f c xs t).0.c_seqn ≡ c.c_seqn
    pub inserted :
        (c : ProxyConnection) (xs : List ℕ) (t : ℕ)
        → (f c xs t).0.c2s_inserted_bytes ≡ c.c2s_inserted_bytes
    pub port : (c : ProxyConnection) (xs : List ℕ) (t : ℕ) → (f c xs t).0.proxy_port ≡ c.proxy_port
    pub index :
        (c : ProxyConnection) (xs : List ℕ) (t : ℕ) → (f c xs t).0.server_index ≡ c.server_index

  processed_lem :
      (f : FnPayload) (p : Pdu) (c : ProxyConnection)
      → KeepsTranslation f
      → ((processed f p c).0.tcp ≡ p.tcp)
        × ((processed f p c).1.c_seqn ≡ c.c_seqn)
        × ((processed f p c).1.c2s_inserted_bytes ≡ c.c2s_inserted_bytes)
        × ((processed f p c).1.proxy_port ≡ c.proxy_port)
        × ((processed f p c).1.server_index ≡ c.server_index)
  processed_lem f p c k = elim (Bool-cases (ltb 0 (O.tcp_payload_size p))) [
    | inl some_ ↦ rw some_ (refl, k.seqn c _ _, k.inserted c _ _, k.port c _ _, k.index c _ _)
    | inr none_ ↦ rw none_ (refl, refl, refl, refl, refl)
  ]

  -- A packet that `client_to_server` lets through.
  pub record ToServer (me : Me) (p p' : Pdu) (c c' : ProxyConnection) (s : Endpoint) : Type 0 where
    pub seq : p'.tcp.seq_num ≡ (
        if is_zero c.c2s_inserted_bytes
        then p.tcp.seq_num
        else shift_up p.tcp.seq_num c.c2s_inserted_bytes)
    pub ack : p'.tcp.ack_num ≡ wrapping_sub p.tcp.ack_num c.c_seqn
    pub from_port : p'.tcp.src_port ≡ c.proxy_port
    pub to_port : p'.tcp.dst_port ≡ s.port
    pub from_ip : p'.ip.src ≡ me.ip_s
    pub to_ip : p'.ip.dst ≡ s.ip
    pub flags :
        (p'.tcp.fin_flag ≡ p.tcp.fin_flag)
        × (p'.tcp.ack_flag ≡ p.tcp.ack_flag)
        × (p'.tcp.syn_flag ≡ p.tcp.syn_flag)
        × (p'.tcp.rst_flag ≡ p.tcp.rst_flag)
    pub seqn : c'.c_seqn ≡ c.c_seqn
    pub inserted : c'.c2s_inserted_bytes ≡ c.c2s_inserted_bytes
    pub fin : p.tcp.fin_flag ≡ true → c'.seqn_fin_p2s ≡ shift_up p.tcp.seq_num c.c2s_inserted_bytes

  translated-ToServer :
      (me : Me) (s : Endpoint) (p p₁ : Pdu) (c c₁ : ProxyConnection)
      → p₁.tcp ≡ p.tcp
      → c₁.c_seqn ≡ c.c_seqn
      → c₁.c2s_inserted_bytes ≡ c.c2s_inserted_bytes
      → c₁.proxy_port ≡ c.proxy_port
      → ToServer me p (translated me s p₁ c₁).0 c (translated me s p₁ c₁).1 s
  translated-ToServer me s p p₁ c c₁ e_tcp e_seqn e_ins e_port =
      let headed = O.set_header_tcp s c₁.proxy_port p₁ me.l234.mac me.ip_s in
      let addressed = O.set_header_ip s c₁.proxy_port p₁ me.l234.mac me.ip_s in
      let kept = O.prepare_keeps (
        with_tcp (O.set_header s c₁.proxy_port p₁ me.l234.mac me.ip_s)
          (shifted_tcp c₁ (O.set_header s c₁.proxy_port p₁ me.l234.mac me.ip_s).tcp)) in
      record {
        seq = rw (kept.0, headed, e_tcp, e_ins);
        ack = rw (kept.0, headed, e_tcp, e_seqn);
        from_port = rw (kept.0, headed, e_port);
        to_port = rw (kept.0, headed);
        from_ip = rw (kept.1) addressed.0;
        to_ip = rw (kept.2) addressed.1;
        flags = rw (kept.0, headed, e_tcp) (refl, refl, refl, refl);
        seqn = e_seqn;
        inserted = e_ins;
        fin = λ fin. rw (headed, e_tcp) (rw (fin, e_ins));
      }

  -- With a server selected, a packet is let through, translated.
  pub client_to_server_lem :
      (f : FnPayload) (me : Me) (servers : List Endpoint) (p : Pdu) (c : ProxyConnection)
      (s : Endpoint)
      → KeepsTranslation f
      → get_elem? servers c.server_index ≡ some s
      → (p' : Pdu) × (c' : ProxyConnection) × (client_to_server f me servers p c ≡ ok (p', c'))
        × ToServer me p p' c c' s
  unfolding client_to_server
  client_to_server_lem f me servers p c s k chosen =
      let (e_tcp, e_seqn, e_ins, e_port, e_index) = processed_lem f p c k in
      (
        _,
        _,
        rw (e_index) (rw chosen refl),
        translated-ToServer me s p (processed f p c).0 c (processed f p c).1 e_tcp e_seqn e_ins
            e_port,
      )

  -- A packet that `server_to_client` lets through.
  pub record ToClient (me : Me) (p p' : Pdu) (c c' : ProxyConnection) : Type 0 where
    pub seq : p'.tcp.seq_num ≡ wrapping_add p.tcp.seq_num c.c_seqn
    pub ack : p'.tcp.ack_num ≡ (
        if is_zero c.c2s_inserted_bytes
        then p.tcp.ack_num
        else shift_down p.tcp.ack_num c.c2s_inserted_bytes)
    pub from_port : p'.tcp.src_port ≡ me.l234.port
    pub to_port : p'.tcp.dst_port ≡ c.client_port
    pub from_ip : p'.ip.src ≡ me.l234.ip
    pub to_ip : p'.ip.dst ≡ c.client_ip
    pub flags :
        (p'.tcp.fin_flag ≡ p.tcp.fin_flag)
        × (p'.tcp.ack_flag ≡ p.tcp.ack_flag)
        × (p'.tcp.syn_flag ≡ p.tcp.syn_flag)
        × (p'.tcp.rst_flag ≡ p.tcp.rst_flag)
    pub payload : p'.payload ≡ p.payload
    pub expects : c'.ackn_p2c ≡ shift_down p.tcp.ack_num c.c2s_inserted_bytes
    pub same : c' ≡ record c { ackn_p2c = c'.ackn_p2c; seqn = c'.seqn }

  returned-ToClient :
      (me : Me) (p : Pdu) (c : ProxyConnection)
      → ToClient me p (returned me (client_sock c) p c).0 c (returned me (client_sock c) p c).1
  returned-ToClient me p c =
      let kept = O.prepare_keeps (readdressed me (client_sock c) p c) in
      record {
        seq = rw kept.0;
        ack = rw kept.0;
        from_port = rw kept.0;
        to_port = rw kept.0;
        from_ip = kept.1;
        to_ip = kept.2;
        flags = rw kept.0 (refl, refl, refl, refl);
        payload = kept.3;
        expects = refl;
        same = refl;
      }

  -- For a client with an address, a packet is let through, translated.
  pub server_to_client_lem :
      (me : Me) (p : Pdu) (c : ProxyConnection)
      → 0 < c.client_ip
      → (p' : Pdu) × (c' : ProxyConnection) × (server_to_client me p c ≡ ok (p', c'))
        × ToClient me p p' c c'
  unfolding server_to_client
  server_to_client_lem me p c address =
      (_, _, rw (eq_zero_not c.client_ip address) refl, returned-ToClient me p c)
    where
      eq_zero_not : (a : ℕ) → 0 < a → (a == 0) ≡ false
      eq_zero_not a h = ground arith
