-- ===== src/Join/Announcement.antt =====
-- What src/join_interface.rs announces, as the decoder of src/grasp.rs and the table of
-- src/acp_interface.rs of another rooster take it.
use rooster.Base.{
  ℕ, ◌<◌, ◌^◌, ◌≡◌, refl, Bool, true, false, List, [], ◌∷◌, All, if◌then◌else◌, arith, some,
}
use rooster.Error.{ok}
use rooster.Net.{IsIpv6}
use rooster.Cbor.{Cbor}
use rooster.Grasp.{GraspObjective}
use rooster.Grasp.Decode.{decode_dull_grasp_message, decode_grasp_message}
use rooster.Grasp.Decode.Wire.{IsWireFlood, IsWireObjective}
use rooster.Grasp.Decode.RoundTrip.{decode-encode}
use rooster.Grasp.Encode.{encode_dull_grasp_message}
use rooster.Acp.{Millis, Heard, announce}
use rooster.Acp.Ports.{http, port_of}
use rooster.Acp.Announce.Single.{announce-http, announce-empty}
use rooster.Interface.{Interface, JoinInterface, ProxiesEnabled}
use rooster.Join.{an_proxy_message, an_proxy_objective, build_an_proxy}

All-if :
    (P : GraspObjective → Type 0) (b : Bool) (os : List GraspObjective)
    → All P os
    → All P (if b then os else [])
All-if P true os h = h
All-if P false os h = tt

an_proxy_message-IsWireFlood :
    (ji : JoinInterface) (ifn : Interface) (proxies : ProxiesEnabled) (id : ℕ)
    → IsIpv6 ifn.linklocal6
    → ji.https_port < 2 ^ 16
    → id < 2 ^ 32
    → IsWireFlood (an_proxy_message ji ifn proxies id)
unfolding an_proxy_message
an_proxy_message-IsWireFlood ji ifn proxies id addr port fits = record {
  floods = refl;
  id_fits = fits;
  ttl_fits = omega arith;
  initiator_fits = addr;
  objectives_fit = All-if IsWireObjective proxies.http_avail (an_proxy_objective ji ifn ∷ []) (
    record {
      flags_fit = omega arith;
      loops_fit = omega arith;
      has_value = tt;
      has_locator = (addr, omega arith, port);
    },
    tt,
  );
}

-- What is announced, of an address of 16 octets, a port of 16 bits and a session id of 32, is
-- decoded to the message that was meant, by both decoders.
pub build_an_proxy-decode :
    ⦃cbor : Cbor⦄ (serialize : cbor.CborType → List ℕ) (ji : JoinInterface) (ifn : Interface)
    (proxies : ProxiesEnabled) (id : ℕ)
    → IsIpv6 ifn.linklocal6
    → ji.https_port < 2 ^ 16
    → id < 2 ^ 32
    → (thing : cbor.CborType) × (build_an_proxy serialize ji ifn proxies id ≡ ok (serialize thing))
      × (decode_grasp_message thing ≡ ok (an_proxy_message ji ifn proxies id))
      × (decode_dull_grasp_message thing ≡ ok (an_proxy_message ji ifn proxies id))
unfolding build_an_proxy encode_dull_grasp_message
build_an_proxy-decode serialize ji ifn proxies id addr port fits =
    let (full, dull) =
      decode-encode (an_proxy_message ji ifn proxies id)
        (an_proxy_message-IsWireFlood ji ifn proxies id addr port fits) in
    (_, refl, full, dull)

-- A rooster that hears another's announcement of its HTTP proxy takes the proxy for a registrar:
-- the name of the objective plays no part.
pub proxy_is_registrar :
    (ji : JoinInterface) (ifn : Interface) (proxies : ProxiesEnabled) (id : ℕ) (clock : ℕ → Millis)
    (s : Heard)
    → proxies.http_avail ≡ true
    → port_of http ifn.linklocal6
        (announce clock (an_proxy_message ji ifn proxies id) s).0.registrars
      ≡ some ji.https_port
unfolding an_proxy_message
proxy_is_registrar ji ifn proxies id clock s h =
    announce-http clock (an_proxy_message ji ifn proxies id) s (an_proxy_objective ji ifn) refl
      (rw h) refl refl

-- An announcement that does not offer the HTTP proxy changes nothing at those who hear it.
pub silent_announcement :
    (ji : JoinInterface) (ifn : Interface) (proxies : ProxiesEnabled) (id : ℕ) (clock : ℕ → Millis)
    (s : Heard)
    → proxies.http_avail ≡ false
    → announce clock (an_proxy_message ji ifn proxies id) s ≡ s
unfolding an_proxy_message
silent_announcement ji ifn proxies id clock s h =
    announce-empty clock (an_proxy_message ji ifn proxies id) s refl (rw h)
