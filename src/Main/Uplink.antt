-- ===== src/Main/Uplink.antt =====
-- With no join interface named, the loop of src/main.rs announces its proxy on the ACP interfaces of
-- src/interfaces.rs too.
use rooster.Cbor.{Cbor}
