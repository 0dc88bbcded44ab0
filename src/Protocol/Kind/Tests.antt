-- ===== src/Protocol/Kind/Tests.antt =====
-- The message kinds on concrete bytes.
use my_websocket_net.Prelude.{◌≡◌, refl, none, some}
use my_websocket_net.Protocol.Kind.{from_u8, fin}

reads_fin : from_u8 18 ≡ some fin
unfolding from_u8
reads_fin = refl

refuses_zero : from_u8 0 ≡ none
unfolding from_u8
refuses_zero = refl
