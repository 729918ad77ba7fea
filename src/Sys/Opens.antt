-- ===== src/Sys/Opens.antt =====
-- Functions that end well exactly when the system grants a fixed list of calls.
use mathlib.Core.List.{append-nil, append_assoc}
use rooster.Base.{
  sym, subst, ◌↔◌, ◌≡◌, ◌⊎◌, inl, inr, refl, ap, ◌∙◌, List, [], ◌∷◌, ◌++◌, none, arith,
  Option-cases,
}
use rooster.Error.{ErrorKind}
use rooster.Sys.{
  Call, Result, finished, failed, unwound, Os, Answers, call, pure, fail, unwrap, unwrap_result,
  match_result, on_result, ◌>>=◌,
}

-- The system grants the calls, made in this order after the others.
abbrev pub Grants : Answers → List Call → List Call → Type 0
Grants answers calls [] = Unit
Grants answers calls (c ∷ cs) = (answers calls c ≡ none) × Grants answers (calls ++ (c ∷ [])) cs

abbrev pub IsFinished {ℓ} : {A : Type ℓ} → Result A → Type 0
IsFinished (finished _) = Unit
IsFinished _ = ⊥

unwrap_result-unfinished {ℓ} :
    {A : Type ℓ} (r : Result A) → ¬ IsFinished r → ¬ IsFinished (unwrap_result r)
unwrap_result-unfinished (finished a) u = u
unwrap_result-unfinished (failed e) u = λ h. h
unwrap_result-unfinished unwound u = λ h. h

on_result-unfinished {ℓ κ} :
    {A : Type ℓ} {B : Type κ} (x : List Call × Result A) (good : A → Os B) (bad : ErrorKind → Os B)
    → ¬ IsFinished x.1
    → ((e : ErrorKind) (calls : List Call) → ¬ IsFinished (bad e calls).1)
    → ¬ IsFinished (on_result x good bad).1
on_result-unfinished (calls, finished a) good bad u l = absurd (u tt)
on_result-unfinished (calls, failed e) good bad u l = l e calls
on_result-unfinished (calls, unwound) good bad u l = λ h. h

-- However the calls end, the function does not end well.
abbrev pub Never {ℓ} : {A : Type ℓ} → Os A → Type 0
Never m = (calls : List Call) → ¬ IsFinished (m calls).1

on_result-Never {ℓ κ} :
    {A : Type ℓ} {B : Type κ} (x : List Call × Result A) (next : A → Os B)
    → ((a : A) → Never (next a))
    → ¬ IsFinished (on_result x next fail).1
on_result-Never (calls, finished a) next h = h a calls
on_result-Never (calls, failed e) next h = λ u. u
on_result-Never (calls, unwound) next h = λ u. u

pub bind-Never {ℓ κ} :
    {A : Type ℓ} {B : Type κ} (m : Os A) (next : A → Os B)
    → ((a : A) → Never (next a))
    → Never (m >>= next)
bind-Never m next h calls = on_result-Never (m calls) next h

module _ (answers : Answers) where
  -- If the system grants the calls, the function makes just these and returns the value; if it does
  -- not, the function does not end well.
  abbrev pub Opens {ℓ} : {A : Type ℓ} → Os A → List Call → A → Type ℓ
  Opens m cs a =
      (calls : List Call)
      → (Grants answers calls cs × (m calls ≡ (calls ++ cs, finished a)))
        ⊎ ((¬ Grants answers calls cs) × (¬ IsFinished (m calls).1))

  Grants-append :
      (calls cs ds : List Call)
      → Grants answers calls (cs ++ ds)
        ↔ (Grants answers calls cs × Grants answers (calls ++ cs) ds)
  Grants-append calls [] ds =
      subst (λ x. Grants answers calls ds ↔ (Unit {0} × Grants answers x ds))
        (sym (append-nil calls)) ((λ h. (tt, h)), (λ (u, h). h))
  Grants-append calls (c ∷ cs) ds =
      let (there, back) = Grants-append (calls ++ (c ∷ [])) cs ds in
      let same = append_assoc calls (c ∷ []) cs in
      (
        (λ (e, h). ((e, (there h).0), subst (λ x. Grants answers x ds) same (there h).1)),
        (λ ((e, h), k). (e, back (h, subst (λ x. Grants answers x ds) (sym same) k))),
      )

  pub call-Opens : (c : Call) → Opens (call answers c) (c ∷ []) tt
  call-Opens c calls = elim (Option-cases (answers calls c)) [
    | inl e ↦ inl ((e, tt), rw e refl)
    | inr (why, e) ↦ inr ((λ (e', u). ground arith), rw e (λ h. h))
  ]

  pub unwrap-Opens {ℓ} :
      {A : Type ℓ} (m : Os A) (cs : List Call) {a : A} → Opens m cs a → Opens (unwrap m) cs a
  unwrap-Opens m cs h calls = elim (h calls) [
    | inl (g, e) ↦ inl (g, rw e refl)
    | inr (g, u) ↦ inr (g, unwrap_result-unfinished (m calls).1 u)
  ]

  -- The rule for `match`, whose second arm does not end well.
  pub match_result-Opens {ℓ κ} :
      {A : Type ℓ} {B : Type κ} (m : Os A) (good : A → Os B) (bad : ErrorKind → Os B)
      (cs ds : List Call) {a : A} {b : B}
      → Opens m cs a
      → Opens (good a) ds b
      → ((e : ErrorKind) → Never (bad e))
      → Opens (match_result m good bad) (cs ++ ds) b
  match_result-Opens m good bad cs ds {a} {b} h k l calls =
      let (there, back) = Grants-append calls cs ds in
      elim (h calls) [
        | inl (g, e) ↦ elim (k (calls ++ cs)) [
          | inl (g', e') ↦
              inl (back (g, g'), rw e (e' ∙ ap (λ x. (x, finished b)) (append_assoc calls cs ds)))
          | inr (g', u) ↦ inr ((λ x. g' (there x).1), rw e u)
        ]
        | inr (g, u) ↦ inr ((λ x. g (there x).0), on_result-unfinished (m calls) good bad u l)
      ]

  pub bind-Opens {ℓ κ} :
      {A : Type ℓ} {B : Type κ} (m : Os A) (next : A → Os B) (cs ds : List Call) {a : A} {b : B}
      → Opens m cs a
      → Opens (next a) ds b
      → Opens (m >>= next) (cs ++ ds) b
  bind-Opens m next cs ds h k = match_result-Opens m next fail cs ds h k (λ e calls u. u)

  pub pure-Opens {ℓ} : {A : Type ℓ} (a : A) → Opens (pure a) [] a
  pure-Opens a calls = inl (tt, ap (λ x. (x, finished a)) (sym (append-nil calls)))
