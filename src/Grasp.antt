-- ===== src/Grasp.antt =====
-- src/grasp.rs: the data of GRASP messages. The decoder, the encoder and their laws are children.
pub mod Locators
pub mod Objectives
pub mod Decode
pub mod Encode
pub mod Sample
use Prim.Native.Nat.{bit_and}
use rooster.Base.{ℕ, String, Bool, List, Option, ◌==◌, equality_nat}
use rooster.Net.{Ipv6Addr, Ipv4Addr}

abbrev pub grasp_port : ℕ
grasp_port = 7017

pub data GraspMessageType : Type 0 where
  m_noop m_discovery m_response m_req_neg m_req_syn : GraspMessageType
  m_negotiate m_end m_wait m_synch m_flood : GraspMessageType

abbrev pub o_ipv6_locator : ℕ
o_ipv6_locator = 103

abbrev pub o_ipv4_locator : ℕ
o_ipv4_locator = 104

abbrev pub o_fqdn_locator : ℕ
o_fqdn_locator = 105

abbrev pub o_uri_locator : ℕ
o_uri_locator = 106

-- `F_SYNC`, 1 << 2.
abbrev pub f_sync : ℕ
f_sync = 4

-- Address or name, transport protocol, port.
pub data GraspLocator : Type 0 where
  ipv6_locator : Ipv6Addr → ℕ → ℕ → GraspLocator
  ipv4_locator : Ipv4Addr → ℕ → ℕ → GraspLocator
  fqdn_locator : String → ℕ → ℕ → GraspLocator
  uri_locator : String → ℕ → ℕ → GraspLocator

pub record GraspObjective : Type 0 where
  pub objective_name : String
  pub objective_flags : ℕ
  pub loop_count : ℕ
  pub objective_value : Option String
  pub locator : Option GraspLocator

pub is_sync : GraspObjective → Bool
is_sync o = bit_and o.objective_flags f_sync == f_sync

pub record GraspMessage : Type 0 where
  pub mtype : GraspMessageType
  pub session_id : ℕ
  pub initiator : Ipv6Addr
  pub ttl : ℕ
  pub objectives : List GraspObjective
