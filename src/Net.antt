-- ===== src/Net.antt =====
-- The address types of Rust's `std::net` that the program uses.
use rooster.Base.{
  ℕ, ◌+◌, ◌*◌, ◌≡◌, ◌↔◌, Bool, true, false, List, arith, ◌==◌, equality_list, equality_nat, length,
  replicate, get_or, list_beq_iff,
}

-- `Ipv6Addr`, by its sixteen octets.
abbrev pub Ipv6Addr : Type 0
Ipv6Addr = List ℕ

abbrev pub unspecified : Ipv6Addr
unspecified = replicate 16 0

-- `Ipv6Addr::segments()[0]`.
abbrev pub first_segment : Ipv6Addr → ℕ
first_segment a = get_or a 0 0 * 256 + get_or a 1 0

-- `Ipv4Addr`, by its four octets.
abbrev pub Ipv4Addr : Type 0
Ipv4Addr = List ℕ

pub data IpAddr : Type 0 where
  v4 : Ipv4Addr → IpAddr
  v6 : Ipv6Addr → IpAddr

pub record SocketAddr : Type 0 where
  pub ip : IpAddr
  pub port : ℕ

-- `PartialEq<Ipv6Addr> for IpAddr`.
abbrev pub is_v6 : IpAddr → Ipv6Addr → Bool
is_v6 (v4 _) b = false
is_v6 (v6 a) b = a == b

pub is_v6_iff : (a : IpAddr) (b : Ipv6Addr) → (is_v6 a b ≡ true) ↔ (a ≡ v6 b)
is_v6_iff (v4 a) b = ((λ h. cc), (λ h. cc))
is_v6_iff (v6 a) b = ground (arith, list_beq_iff a b)

-- What the Rust type guarantees of a value.
abbrev pub IsIpv6 : Ipv6Addr → Type 0
IsIpv6 a = length a ≡ 16
