-- ===== src/Samples/Passed.antt =====
-- A packet that is not TCP, which the closure hands to the kernel.
use proxyengine.Base.{refl, ok, ◌≡◌}
use proxyengine.Packet.{Pdu}
use proxyengine.Pipeline.{handle, early_return}
use proxyengine.Flow.Groups.{Ends}
use proxyengine.Pipeline.Groups.{handle-Ends}
use proxyengine.Samples.{order, store, ops}
use proxyengine.Samples.Wheels.{wheel}
use proxyengine.Samples.Forwarded.{segment}
use proxyengine.Samples.Handled.{readings}
use proxyengine.Samples.Begun.{given, begun, quiet}

abbrev datagram : Pdu
datagram = record (segment 1 0) { ip = record ((segment 1 0).ip) { protocol = 17 } }

to_kernel : handle given readings quiet 6 datagram begun ≡ ok (2, datagram, begun)
unfolding handle early_return
to_kernel = refl

handle-Ends_example : Ends datagram 2 datagram
handle-Ends_example = handle-Ends given readings quiet 6 datagram datagram begun begun 2 to_kernel
