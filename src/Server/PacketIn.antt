-- ===== src/Server/PacketIn.antt =====
-- Whom a provider's packet-in reaches.
use p4rt_standalone.Prelude.{◌≡◌}
use p4rt_standalone.Proto.{StreamMessageResponse}
use p4rt_standalone.Controller.State.{World}
use p4rt_standalone.Controller.Invariant.Defs.{IsValid}
use p4rt_standalone.Controller.PacketIn.{writes-empty_role}
use p4rt_standalone.Server.Provider.{provider_send_packet_in}

-- In a valid state, a provider's packet-in for the empty role name is written to no connection.
pub empty_role_unreachable :
    (response : StreamMessageResponse) (w : World)
    → IsValid w
    → (provider_send_packet_in "" response w).writes ≡ w.writes
unfolding provider_send_packet_in
empty_role_unreachable response w v = writes-empty_role response w v
