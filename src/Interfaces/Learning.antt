-- ===== src/Interfaces/Learning.antt =====
-- What src/interfaces.rs knows of an interface, against the messages that it has got about it.
pub mod Messages
use rooster.Base.{
  ℕ, ◌<◌, Bool, true, false, ◌≡◌, ◌≢◌, refl, sym, ap, ◌∙◌, subst, List, [], ◌∷◌, ◌++◌, Option, none,
  some, ◌==◌, equality_nat, if◌then◌else◌, length, get_or, set, replicate, get_or-append,
  get_or-last, get_or-set-cases, get_or-set_self, Option-cases, Bool-cases, nat_beq_iff, arith, inl,
  inr,
}
use rooster.Net.{first_segment}
use rooster.Grasp.Locators.{copy_octets}
use rooster.Netlink.{LinkNla, AddressNla}
use rooster.Interface.{IfIndex, Ref, Interface, empty_interface, World, Map}
use rooster.Interfaces.{
  lookup, cell, set_cell, get_entry_by_ifindex, store_address, store_addresses, store_link,
  store_links, Message, new_link, new_address, ignored_message,
}
use rooster.Interfaces.Invariant.{
  WellFormed, lookup-Leads, lookup-append_none, get_entry-WellFormed,
}

-- An interface but for the daemons that run on it.
abbrev pub bare : Interface → Interface
bare ifn = record ifn { acp_daemon = none; join_daemon = none }

-- What the table holds for an index.
abbrev pub known : IfIndex → World → Option Interface
known k w = elim (lookup k w.all.interfaces) [ some r ↦ some (bare (cell w r)) | none ↦ none ]

-- What a message says of the interface of an index, from what was known of it.
abbrev pub or_empty : IfIndex → Option Interface → Interface
or_empty k (some ifn) = ifn
or_empty k none = empty_interface k

abbrev pub learn : IfIndex → Message → Option Interface → Option Interface
learn k (new_link os lm) x = if lm.index == k then some (store_links (or_empty k x) lm.nlas) else x
learn k (new_address am) x =
    if am.index == k then some (store_addresses (or_empty k x) am.nlas) else x
learn k ignored_message x = x

abbrev pub learn_all : IfIndex → List Message → Option Interface → Option Interface
learn_all k [] x = x
learn_all k (m ∷ ms) x = learn_all k ms (learn k m x)

-- Attributes do not depend on the daemons.
pub bare-store_links :
    (ifn : Interface) (nlas : List LinkNla)
    → bare (store_links ifn nlas) ≡ store_links (bare ifn) nlas
unfolding store_links store_link
bare-store_links ifn [] = refl
bare-store_links ifn (LinkNla.if_name n ∷ nlas) =
    bare-store_links (store_link ifn (LinkNla.if_name n)) nlas
bare-store_links ifn (LinkNla.mtu n ∷ nlas) = bare-store_links (store_link ifn (LinkNla.mtu n)) nlas
bare-store_links ifn (LinkNla.oper_state n ∷ nlas) =
    bare-store_links (store_link ifn (LinkNla.oper_state n)) nlas
bare-store_links ifn (LinkNla.master n ∷ nlas) =
    bare-store_links (store_link ifn (LinkNla.master n)) nlas
bare-store_links ifn (_ ∷ nlas) = bare-store_links ifn nlas

bare-if :
    (b c : Bool) (x y : Interface)
    → bare (if b then (if c then x else y) else y)
      ≡ (if b then (if c then bare x else bare y) else bare y)
bare-if true true x y = refl
bare-if true false x y = refl
bare-if false c x y = refl

bare-store_address :
    (ifn : Interface) (nla : AddressNla)
    → bare (store_address ifn nla) ≡ store_address (bare ifn) nla
unfolding store_address
bare-store_address ifn (AddressNla.address bytes) =
    let llv6 = copy_octets 16 0 bytes (replicate 16 0) in
    bare-if (length bytes == 16) (first_segment llv6 == 0xfe80) (record ifn { linklocal6 = llv6 })
      ifn
bare-store_address ifn AddressNla.other = refl

pub bare-store_addresses :
    (ifn : Interface) (nlas : List AddressNla)
    → bare (store_addresses ifn nlas) ≡ store_addresses (bare ifn) nlas
unfolding store_addresses
bare-store_addresses ifn [] = refl
bare-store_addresses ifn (nla ∷ nlas) =
    bare-store_addresses (store_address ifn nla) nlas
    ∙ ap (λ x. store_addresses x nlas) (bare-store_address ifn nla)

lookup-append_other :
    (k j : IfIndex) (s : Ref) (m : Map)
    → (j == k) ≡ false
    → lookup k (m ++ ((j, s) ∷ [])) ≡ lookup k m
lookup-append_other k j s [] e = rw e refl
lookup-append_other k j s ((i, t) ∷ m) e = ground (arith, lookup-append_other k j s m)

pub known-listed :
    (k : IfIndex) (r : Ref) (w : World)
    → lookup k w.all.interfaces ≡ some r
    → known k w ≡ some (bare (cell w r))
known-listed k r w e = rw (known, e) refl

pub known-missing : (k : IfIndex) (w : World) → lookup k w.all.interfaces ≡ none → known k w ≡ none
known-missing k w e = rw (known, e) refl

-- What an entry is replaced by is known of its index, and nothing of the others changes.
pub known-set_cell :
    (k j : IfIndex) (r : Ref) (ifn : Interface) (w : World)
    → WellFormed w
    → lookup j w.all.interfaces ≡ some r
    → known k (set_cell r ifn w) ≡ (if j == k then some (bare ifn) else known k w)
known-set_cell k j r ifn w h e = elim (Bool-cases (j == k)) [
  | inl same ↦
      let at_k : lookup k w.all.interfaces ≡ some r =
        subst (λ x. lookup x w.all.interfaces ≡ some r) ((nat_beq_iff j k).0 same) e in
      let self =
        get_or-set_self w.cells r ifn (empty_interface 0)
          (lookup-Leads w j r w.all.interfaces h.interfaces_lead e).0 in
      known-listed k r (set_cell r ifn w) at_k ∙ ap (λ c. some (bare c)) self ∙ rw same refl
  | inr other ↦ elim (Option-cases (lookup k w.all.interfaces)) [
    | inl none_there ↦
        known-missing k (set_cell r ifn w) none_there
        ∙ sym (known-missing k w none_there)
        ∙ rw other refl
    | inr (s, there) ↦ elim (get_or-set-cases w.cells r s ifn (empty_interface 0)) [
      | inl (r_is_s, _) ↦
          let at_j = (lookup-Leads w j r w.all.interfaces h.interfaces_lead e).1 in
          let at_k = (lookup-Leads w k s w.all.interfaces h.interfaces_lead there).1 in
          let j_is_k : j ≡ k = sym at_j ∙ ap (λ x. (cell w x).ifindex) r_is_s ∙ at_k in
          ground (arith, other, j_is_k, nat_beq_iff j k)
      | inr kept ↦
          known-listed k s (set_cell r ifn w) there
          ∙ ap (λ c. some (bare c)) kept
          ∙ sym (known-listed k s w there)
          ∙ rw other refl
    ]
  ]
]

-- The world with a new entry.
abbrev grown : IfIndex → World → World
grown j w = record w {
  cells = w.cells ++ (empty_interface j ∷ []);
  all = record w.all { interfaces = w.all.interfaces ++ ((j, length w.cells) ∷ []) };
}

known-grown_self :
    (k : IfIndex) (w : World)
    → lookup k w.all.interfaces ≡ none
    → known k (grown k w) ≡ some (empty_interface k)
known-grown_self k w e =
    known-listed k (length w.cells) (grown k w)
      (lookup-append_none k (length w.cells) w.all.interfaces e)
    ∙ ap (λ c. some (bare c)) (get_or-last w.cells (empty_interface k) (empty_interface 0))

known-grown_other :
    (k j : IfIndex) (w : World) → WellFormed w → (j == k) ≡ false → known k (grown j w) ≡ known k w
known-grown_other k j w h other =
    let same = lookup-append_other k j (length w.cells) w.all.interfaces other in
    elim (Option-cases (lookup k w.all.interfaces)) [
      | inl e ↦ known-missing k (grown j w) (same ∙ e) ∙ sym (known-missing k w e)
      | inr (s, e) ↦
          let fits = (lookup-Leads w k s w.all.interfaces h.interfaces_lead e).0 in
          known-listed k s (grown j w) (same ∙ e)
          ∙ ap (λ c. some (bare c))
              (get_or-append w.cells (empty_interface j ∷ []) s (empty_interface 0) fits)
          ∙ sym (known-listed k s w e)
    ]

-- An entry that is made is empty, and the others stay.
pub known-get_entry :
    (k j : IfIndex) (w : World)
    → WellFormed w
    → known k (get_entry_by_ifindex j w).0
      ≡ (if j == k then some (or_empty k (known k w)) else known k w)
unfolding get_entry_by_ifindex
known-get_entry k j w h = elim (Option-cases (lookup j w.all.interfaces)) [
  | inr (r, e) ↦
      let unchanged : (get_entry_by_ifindex j w).0 ≡ w = rw (e, get_entry_by_ifindex) refl in
      elim (Bool-cases (j == k)) [
        | inl same ↦
            let there =
              known-listed k r w
                (subst (λ x. lookup x w.all.interfaces ≡ some r) ((nat_beq_iff j k).0 same) e) in
            ap (known k) unchanged
            ∙ there
            ∙ sym (ap (λ x. some (or_empty k x)) there)
            ∙ rw same refl
        | inr other ↦ ap (known k) unchanged ∙ rw other refl
      ]
  | inl e ↦
      let changed : (get_entry_by_ifindex j w).0 ≡ grown j w = rw (e, get_entry_by_ifindex) refl in
      elim (Bool-cases (j == k)) [
        | inl same ↦
            let j_is_k = (nat_beq_iff j k).0 same in
            let missing = subst (λ x. lookup x w.all.interfaces ≡ none) j_is_k e in
            ap (known k) (changed ∙ ap (λ x. grown x w) j_is_k)
            ∙ known-grown_self k w missing
            ∙ sym (ap (λ x. some (or_empty k x)) (known-missing k w missing))
            ∙ rw same refl
        | inr other ↦ ap (known k) changed ∙ known-grown_other k j w h other ∙ rw other refl
      ]
]
