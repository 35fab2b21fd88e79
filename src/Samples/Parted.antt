-- ===== src/Samples/Parted.antt =====
-- A client that closes before it has sent a payload, and its last ACK.
use proxyengine.Base.{◌≡◌, refl, true, ok}
use proxyengine.Packet.{Pdu}
use proxyengine.Tcp.{fin_wait1, last_ack}
use proxyengine.Flow.{Flow}
use proxyengine.Client.{client_packet}
use proxyengine.Client.Unbound.{SentTo, unbound_close}
use proxyengine.Pipeline.{enter}
use proxyengine.Program.Select.{f_process_payload_c_s-IsTame}
use proxyengine.Samples.{order, store, ops}
use proxyengine.Samples.Wheels.{wheel}
use proxyengine.Samples.Forwarded.{target, segment}
use proxyengine.Samples.Handled.{readings}
use proxyengine.Samples.Begun.{given, begun, waiting}

abbrev fin : Pdu
fin = record (segment 301 0) { tcp = record ((segment 301 0).tcp) { fin_flag = true } }

abbrev leaving : Flow
leaving = enter begun waiting fin

unbound_close_example :
    (x₁ : Flow) × (client_packet given readings leaving ≡ ok x₁)
    × (x₁.con.client_state ≡ fin_wait1)
    × (x₁.con.server_state ≡ last_ack)
    × (x₂ : Flow) × (client_packet given readings (record x₁ { pdu = segment 302 1002 }) ≡ ok x₂)
    × SentTo given readings target x₂
unbound_close_example =
    unbound_close given readings leaving (segment 302 1002) target f_process_payload_c_s-IsTame refl
      refl refl refl refl refl
      (record { new = refl; syn = refl; fin = refl; rst = refl; ack = refl; acks = refl }) refl
