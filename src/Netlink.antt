-- ===== src/Netlink.antt =====
-- The netlink messages, as src/interfaces.rs reads them: the variants that its matches name, and one
-- that stands for all others.
use rooster.Base.{ℕ, String, Bool, true, false, List}

-- `State` of a link: only `Up` and `Down` are named.
pub data State : Type 0 where
  up down : State
  other_state : ℕ → State

abbrev pub is_up : State → Bool
is_up up = true
is_up _ = false

pub data LinkNla : Type 0 where
  if_name : String → LinkNla
  mtu : ℕ → LinkNla
  address : List ℕ → LinkNla
  oper_state : State → LinkNla
  link : ℕ → LinkNla
  master : ℕ → LinkNla
  other : LinkNla

pub data AddressNla : Type 0 where
  address : List ℕ → AddressNla
  other : AddressNla

pub record LinkMessage : Type 0 where
  pub index : ℕ
  pub nlas : List LinkNla

pub record AddressMessage : Type 0 where
  pub index : ℕ
  pub nlas : List AddressNla
