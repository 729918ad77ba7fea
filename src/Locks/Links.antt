-- ===== src/Locks/Links.antt =====
-- What `HashMap::values` can yield of the map of join interfaces in src/interfaces.rs.
use rooster.Base.{
  true, ◌≡◌, ◌↔◌, inl, inr, subst, List, [], ◌∷◌, In, contains, equality_nat, nat_beq_iff, ◌==◌,
  Bool-cases, arith,
}
use rooster.Interface.{Ref}
use rooster.Locks.Steps.{IsDistinct}

contains-In : (r : Ref) (rs : List Ref) → contains rs r ≡ true → In r rs
contains-In r [] e = cc
contains-In r (q ∷ rs) e = elim (Bool-cases (q == r)) [
  | inl same ↦ inl ((nat_beq_iff q r).0 same)
  | inr other ↦ inr (contains-In r rs (ground arith))
]

In-contains : (r : Ref) (rs : List Ref) → In r rs → contains rs r ≡ true
In-contains r [] i = absurd i
In-contains r (q ∷ rs) (inl e) = ground (arith, nat_beq_iff q r)
In-contains r (q ∷ rs) (inr i) = ground (arith, In-contains r rs i)

-- The members of a list can be listed once each.
pub IsDistinct-links :
    (js : List Ref) → (links : List Ref) × ((r : Ref) → In r links ↔ In r js) × IsDistinct links
IsDistinct-links [] = ([], (λ r. ((λ i. i), (λ i. i))), tt)
IsDistinct-links (q ∷ js) =
    let (links, same, once) = IsDistinct-links js in
    elim (Bool-cases (contains links q)) [
      | inl there ↦ (
        links,
        (λ r. (
          (λ i. inr ((same r).0 i)),
          (λ i. elim i [
            | inl e ↦ subst (λ x. In x links) e (contains-In q links there)
            | inr k ↦ (same r).1 k
          ]),
        )),
        once,
      )
      | inr absent ↦ (
        q ∷ links,
        (λ r. (
          (λ i. elim i [ inl e ↦ inl e | inr k ↦ inr ((same r).0 k) ]),
          (λ i. elim i [ inl e ↦ inl e | inr k ↦ inr ((same r).1 k) ]),
        )),
        ((λ i. ground (arith, In-contains q links i)), once),
      )
    ]
