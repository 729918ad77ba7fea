-- ===== src/Args/Choice.antt =====
-- Which interfaces the options of src/args.rs choose.
use rooster.Base.{
  false, refl, String, true, ◌≡◌, ◌↔◌, ◌⊎◌, List, [], ◌∷◌, ◌++◌, contains, equality_string, eq_iff,
  arith,
}
use rooster.Args.{
  is_empty, RoosterOptions, is_valid_acp_interface, is_valid_joinlink_interface,
  add_joinlink_interface,
}

-- The name stands in the list.
abbrev pub Lists : List String → String → Type 0
Lists [] x = ⊥
Lists (y ∷ ys) x = (y ≡ x) ⊎ Lists ys x

contains_iff : (xs : List String) (x : String) → (contains xs x ≡ true) ↔ Lists xs x
contains_iff [] x = ((λ h. cc), (λ h. absurd h))
contains_iff (y ∷ ys) x = ground (arith, eq_iff y x, contains_iff ys x)

-- An ACP interface is one that is named as such and not ignored.
pub is_valid_acp_interface_iff :
    (o : RoosterOptions) (ifname : String)
    → (is_valid_acp_interface o ifname ≡ true)
      ↔ (¬ Lists o.ignored_interfaces ifname × Lists o.acp_interfaces ifname)
unfolding is_valid_acp_interface
is_valid_acp_interface_iff o ifname =
    ground (arith, contains_iff o.ignored_interfaces ifname, contains_iff o.acp_interfaces ifname)

-- A join interface is one that is not ignored, and is named as such or no name is given at all.
pub is_valid_joinlink_interface_iff :
    (o : RoosterOptions) (ifname : String)
    → (is_valid_joinlink_interface o ifname ≡ true) ↔ (
        ¬ Lists o.ignored_interfaces ifname
        × (Lists o.joinlink_interfaces ifname ⊎ (o.joinlink_interfaces ≡ [])))
unfolding is_valid_joinlink_interface
is_valid_joinlink_interface_iff o ifname =
    ground
      (arith, contains_iff o.ignored_interfaces ifname, contains_iff o.joinlink_interfaces ifname)

-- With no join interface named, an ACP interface is a join interface too: the rule that the source
-- states, that only an interface which matches none of the lists is chosen so, does not hold.
pub acp_is_joinlink :
    (o : RoosterOptions) (ifname : String)
    → o.joinlink_interfaces ≡ []
    → is_valid_acp_interface o ifname ≡ true
    → is_valid_joinlink_interface o ifname ≡ true
unfolding is_valid_acp_interface is_valid_joinlink_interface
acp_is_joinlink o ifname e h = ground arith

Lists-append : (xs : List String) (y x : String) → Lists (xs ++ (y ∷ [])) x ↔ (Lists xs x ⊎ (y ≡ x))
Lists-append [] y x = ground arith
Lists-append (z ∷ xs) y x = ground (arith, Lists-append xs y x)

is_empty-append : (xs : List String) (y : String) → is_empty (xs ++ (y ∷ [])) ≡ false
unfolding is_empty
is_empty-append [] y = refl
is_empty-append (x ∷ xs) y = refl

-- Naming a join interface chooses it, unless it is ignored, and keeps those that were named; any
-- other interface that was chosen only because the list was empty is no longer chosen.
pub add_joinlink_interface-valid :
    (o : RoosterOptions) (name ifname : String)
    → (is_valid_joinlink_interface (add_joinlink_interface o name) ifname ≡ true) ↔ (
        ¬ Lists o.ignored_interfaces ifname
        × (Lists o.joinlink_interfaces ifname ⊎ (name ≡ ifname)))
unfolding is_valid_joinlink_interface add_joinlink_interface
add_joinlink_interface-valid o name ifname = ground (
  arith,
  contains_iff o.ignored_interfaces ifname,
  contains_iff (o.joinlink_interfaces ++ (name ∷ [])) ifname,
  Lists-append o.joinlink_interfaces name ifname,
  is_empty-append o.joinlink_interfaces name,
)
