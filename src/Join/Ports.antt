-- ===== src/Join/Ports.antt =====
-- `JoinInterface::open_ports` of src/join_interface.rs, with the functions that open its sockets.
-- What they print is left out; what the HTTPS listener gives for its local address is a parameter.
use rooster.Base.{
  ℕ, ◌≡◌, ◌≢◌, ◌⊎◌, inl, inr, refl, ap, subst, List, [], ◌∷◌, ◌++◌, Option, none, some,
}
use rooster.Error.{invalid_data}
use rooster.Net.{Ipv6Addr, unspecified, IpAddr, v4, v6, SocketAddr}
use rooster.Sys.{
  SocketKind, dgram, stream, Call, socket, set_reuse_port, set_reuse_address, set_nonblocking,
  from_std, bind, listen, Os, Answers, call, pure, fail, unwrap, ◌>>=◌,
}
use rooster.Sys.Opens.{
  Opens, IsFinished, Never, bind-Never, call-Opens, unwrap-Opens, bind-Opens, pure-Opens,
}
use rooster.Interface.{IfIndex, JoinInterface}

-- What `open_ports` makes of the local address of the listener.
pub own_ip : IpAddr → ℕ → Os (Ipv6Addr × ℕ)
own_ip (v6 a) port = pure (a, port)
own_ip (v4 _) port = fail invalid_data

pub own_address : Option SocketAddr → Os (Ipv6Addr × ℕ)
unfolding own_ip
own_address none = fail invalid_data
own_address (some local) = own_ip local.ip local.port

-- The calls of a UDP socket that is bound to the address on the interface, at any port.
abbrev pub udp_calls : IfIndex → Ipv6Addr → List Call
udp_calls ifindex v6addr =
    socket dgram
    ∷ set_reuse_port
    ∷ set_reuse_address
    ∷ set_nonblocking
    ∷ bind v6addr 0 ifindex
    ∷ from_std
    ∷ []

-- The calls of a listener that is bound to no address, at any port.
abbrev pub tcp_calls : IfIndex → List Call
tcp_calls ifindex =
    socket stream
    ∷ set_reuse_port
    ∷ set_reuse_address
    ∷ set_nonblocking
    ∷ bind unspecified 0 ifindex
    ∷ listen 128
    ∷ from_std
    ∷ []

-- Three UDP sockets on the link-local address, and the listener.
abbrev pub ports_calls : Ipv6Addr → IfIndex → List Call
ports_calls llv6_addr ifindex =
    udp_calls ifindex llv6_addr
    ++ (udp_calls ifindex llv6_addr ++ (udp_calls ifindex llv6_addr ++ (tcp_calls ifindex ++ [])))

own_ip-cases :
    (ip : IpAddr) (port : ℕ) → ((a : Ipv6Addr) × (ip ≡ v6 a)) ⊎ (own_ip ip port ≡ fail invalid_data)
unfolding own_ip
own_ip-cases (v6 a) port = inl (a, refl)
own_ip-cases (v4 a) port = inr refl

pub own_address-cases :
    (local : Option SocketAddr)
    → ((a : Ipv6Addr) × (port : ℕ) × (local ≡ some (record { ip = v6 a; port = port })))
      ⊎ (own_address local ≡ fail invalid_data)
unfolding own_address own_ip
own_address-cases none = inr refl
own_address-cases (some local) = elim (own_ip-cases local.ip local.port) [
  | inl (a, e) ↦ inl (a, local.port, ap (λ i. some (record { ip = i; port = local.port })) e)
  | inr e ↦ inr e
]

pub own_address-listens :
    (a : Ipv6Addr) (port : ℕ)
    → own_address (some (record { ip = v6 a; port = port })) ≢ fail invalid_data
unfolding own_address own_ip
own_address-listens a port e = subst (λ (m : Os (Ipv6Addr × ℕ)). IsFinished (m []).1) e tt

module _ (answers : Answers) where
  pub open_bound_udpsocket : IfIndex → Ipv6Addr → Os (Unit {0})
  open_bound_udpsocket ifindex v6addr = do
    _ ← unwrap (call answers (socket dgram))
    _ ← unwrap (call answers set_reuse_port)
    _ ← unwrap (call answers set_reuse_address)
    _ ← unwrap (call answers set_nonblocking)
    _ ← call answers (bind v6addr 0 ifindex)
    call answers from_std

  pub open_bound_tcpsocket : IfIndex → ℕ → Os (Unit {0})
  open_bound_tcpsocket ifindex portnum = do
    _ ← unwrap (call answers (socket stream))
    _ ← unwrap (call answers set_reuse_port)
    _ ← unwrap (call answers set_reuse_address)
    _ ← unwrap (call answers set_nonblocking)
    _ ← call answers (bind unspecified portnum ifindex)
    _ ← call answers (listen 128)
    call answers from_std

  pub open_ports : Option SocketAddr → Ipv6Addr → IfIndex → Os JoinInterface
  unfolding open_bound_udpsocket open_bound_tcpsocket own_address
  open_ports local llv6_addr ifindex = do
    _ ← open_bound_udpsocket ifindex llv6_addr
    _ ← open_bound_udpsocket ifindex llv6_addr
    _ ← open_bound_udpsocket ifindex llv6_addr
    _ ← open_bound_tcpsocket ifindex 0
    (a, port) ← own_address local
    pure (record { https_v6addr = a; https_port = port })

  -- The calls with which every socket begins.
  options-Opens :
      (kind : SocketKind) (next : Os (Unit {0})) (cs : List Call)
      → Opens answers next cs tt
      → Opens answers
          (unwrap (call answers (socket kind)) >>= λ _.
            (unwrap (call answers set_reuse_port) >>= λ _.
            (unwrap (call answers set_reuse_address) >>= λ _.
            (unwrap (call answers set_nonblocking) >>= λ _. next))))
          (socket kind ∷ set_reuse_port ∷ set_reuse_address ∷ set_nonblocking ∷ cs)
          tt
  options-Opens kind next cs h =
      let unwrapped =
        λ (c : Call). unwrap-Opens answers (call answers c) (c ∷ []) (call-Opens answers c) in
      bind-Opens answers _ _ (socket kind ∷ []) _ (unwrapped (socket kind)) (
        bind-Opens answers _ _ (set_reuse_port ∷ []) _ (unwrapped set_reuse_port) (
          bind-Opens answers _ _ (set_reuse_address ∷ []) _ (unwrapped set_reuse_address)
            (bind-Opens answers _ _ (set_nonblocking ∷ []) cs (unwrapped set_nonblocking) h)))

  udp-Opens :
      (ifindex : IfIndex) (v6addr : Ipv6Addr)
      → Opens answers (open_bound_udpsocket ifindex v6addr) (udp_calls ifindex v6addr) tt
  unfolding open_bound_udpsocket
  udp-Opens ifindex v6addr = options-Opens dgram _ _ (
      bind-Opens answers _ _ (bind v6addr 0 ifindex ∷ []) (from_std ∷ [])
        (call-Opens answers (bind v6addr 0 ifindex)) (call-Opens answers from_std))

  tcp-Opens :
      (ifindex : IfIndex) → Opens answers (open_bound_tcpsocket ifindex 0) (tcp_calls ifindex) tt
  unfolding open_bound_tcpsocket
  tcp-Opens ifindex = options-Opens stream _ _ (
      bind-Opens answers _ _ (bind unspecified 0 ifindex ∷ []) (listen 128 ∷ from_std ∷ [])
        (call-Opens answers (bind unspecified 0 ifindex))
        (bind-Opens answers _ _ (listen 128 ∷ []) (from_std ∷ []) (call-Opens answers (listen 128))
          (call-Opens answers from_std)))

  -- If the local address of the listener is an IPv6 address, open_ports ends well exactly when the
  -- system grants its sockets; then it makes just these calls, and gives that address and port.
  pub open_ports-Opens :
      (llv6_addr a : Ipv6Addr) (port : ℕ) (ifindex : IfIndex)
      → Opens answers
          (open_ports (some (record { ip = v6 a; port = port })) llv6_addr ifindex)
          (ports_calls llv6_addr ifindex)
          (record { https_v6addr = a; https_port = port })
  unfolding open_ports own_address own_ip
  open_ports-Opens llv6_addr a port ifindex =
      let udp = udp-Opens ifindex llv6_addr in
      bind-Opens answers _ _ (udp_calls ifindex llv6_addr) _ udp (
        bind-Opens answers _ _ (udp_calls ifindex llv6_addr) _ udp (
          bind-Opens answers _ _ (udp_calls ifindex llv6_addr) _ udp (
            bind-Opens answers _ _ (tcp_calls ifindex) [] (tcp-Opens ifindex)
              (pure-Opens answers (record { https_v6addr = a; https_port = port })))))

  -- Without an IPv6 address, open_ports does not end well.
  pub open_ports-Never :
      (local : Option SocketAddr) (llv6_addr : Ipv6Addr) (ifindex : IfIndex)
      → own_address local ≡ fail invalid_data
      → Never (open_ports local llv6_addr ifindex)
  unfolding open_ports
  open_ports-Never local llv6_addr ifindex e =
      let udp = open_bound_udpsocket ifindex llv6_addr in
      let tcp = open_bound_tcpsocket ifindex 0 in
      let rest : Unit {0} → Os JoinInterface =
        λ u. own_address local >>= (λ x. pure (record { https_v6addr = x.0; https_port = x.1 })) in
      let listened = λ (u : Unit {0}). tcp >>= rest in
      let third = λ (u : Unit {0}). udp >>= listened in
      let second = λ (u : Unit {0}). udp >>= third in
      bind-Never udp second (λ _.
        bind-Never udp third
          (λ _. bind-Never udp listened (λ _. bind-Never tcp rest (λ _ calls. rw e (λ u. u)))))
