-- ===== src/Join/Pledge.antt =====
-- `JoinInterface::proxy_https` of src/join_interface.rs: a pledge is connected to a registrar.
-- The TCP connection, and how the copying between the two streams ends, are parameters.
use rooster.Base.{◌≡◌, refl, inl, inr, List, Option, none, some, arith, Option-cases}
use rooster.Net.{SocketAddr}
use rooster.Interface.{Ref, World, Map}
use rooster.Interfaces.Registrars.{InMap, YieldsValues, pick_available_https_registrar}
use rooster.Interfaces.Registrars.Choice.{AreTables, Knows, pick_registrar-known}
use rooster.Join.{ErrorKind, not_connected, IoResult, io_ok, io_err}

-- What `TcpStream::connect` gives: an error, or a stream, whose copying may end in one.
pub data Connection : Type 0 where
  refused : ErrorKind → Connection
  connected : Option ErrorKind → Connection

-- How the proxy ends: an error that says the stream was not connected is passed over.
pub copying : Option ErrorKind → IoResult
copying none = io_ok
copying (some not_connected) = io_ok
copying (some e) = io_err e

pub proxying : Connection → IoResult
unfolding copying
proxying (refused not_connected) = io_ok
proxying (refused e) = io_err e
proxying (connected e) = copying e

module _ (values : Map → List Ref) (connect : SocketAddr → Connection) where
  -- Where the pledge is connected to, if anywhere, and how that ends.
  pub proxy_https : World → Option SocketAddr × IoResult
  unfolding proxying
  proxy_https w = elim (pick_available_https_registrar values w) [
    | none ↦ (none, io_ok)
    | some target ↦ (some target, proxying (connect target))
  ]

  pub proxy_https-none :
      (w : World) → pick_available_https_registrar values w ≡ none → proxy_https w ≡ (none, io_ok)
  unfolding proxy_https
  proxy_https-none w e = rw (e, proxy_https) refl

  pub proxy_https-some :
      (w : World) (s : SocketAddr)
      → pick_available_https_registrar values w ≡ some s
      → proxy_https w ≡ (some s, proxying (connect s))
  unfolding proxy_https
  proxy_https-some w s e = rw (e, proxy_https) refl

  -- The pledge is connected to the registrar that is picked, if there is one.
  pub proxy_https-target : (w : World) → (proxy_https w).0 ≡ pick_available_https_registrar values w
  unfolding proxy_https
  proxy_https-target w = elim (Option-cases (pick_available_https_registrar values w)) [
    | inl e ↦ rw (e, proxy_https)
    | inr (s, e) ↦ rw (e, proxy_https)
  ]

  -- With well-formed tables, a pledge is connected to no address but one that the daemon of an ACP
  -- interface has in its table as an HTTP registrar.
  pub proxy_https-known :
      (w : World) (s : SocketAddr)
      → YieldsValues values
      → AreTables w
      → (proxy_https w).0 ≡ some s
      → (r : Ref) × InMap r w.all.acp_interfaces × Knows w r s
  proxy_https-known w s yields tables e =
      pick_registrar-known values w s yields tables (ground (arith, proxy_https-target w))
