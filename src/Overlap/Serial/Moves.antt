-- ===== src/Overlap/Serial/Moves.antt =====
-- What one step of a daemon of src/acp_interface.rs makes of the handlers that are done.
use rooster.Base.{
  ℕ, Bool, true, false, ◌||◌, ◌≡◌, ◌↔◌, ◌⊎◌, inl, inr, refl, sym, ap, ◌∙◌, subst, ◌<◌, List, length,
  set, length-set, get_or-set_self, arith, Bool-cases, ◌==◌, equality_nat, nat_beq_iff,
  if◌then◌else◌,
}
use rooster.Grasp.{GraspMessage}
use rooster.Acp.{Millis, AcpInterface, empty_acp, none_available, announce}
use rooster.Interface.{Ref, World, Map}
use rooster.Interfaces.Registrars.{acp, hear}
use rooster.Overlap.{UpdateAt, outside, looks, AddingAt, listens, Running, goes_to}
use rooster.Overlap.Steps.{set_flag}
use rooster.Overlap.Serial.{At, SeenBy, IsLooking, Follows}
use rooster.Overlap.Serial.Tables.{with_flag, announce-flag, available_among-same, get_or-set-other}

-- One place of the daemons and of the flags that they have set.
abbrev pub set_at : Ref → Bool → (Ref → Bool) → Ref → Bool
set_at a x f b = if b == a then x else f b

by_place : (P : Ref → Type 0) (a b : Ref) → P a → ((b == a) ≡ false → P b) → P b
by_place P a b here there = elim (Bool-cases (b == a)) [
  | inl e ↦ subst P (sym ((nat_beq_iff b a).0 e)) here
  | inr e ↦ there e
]

-- The world once a flood counts that has left a table `t`, and set the flag or not.
abbrev pub done_with : Ref → AcpInterface → Bool → World → World
done_with a t b w = record w {
  acps = set w.acps a t;
  all = record w.all { invalidate_avail = w.all.invalidate_avail || b };
}

pub hear-done :
    (a : Ref) (clock : ℕ → Millis) (msg : GraspMessage) (t : AcpInterface) (b : Bool) (v : World)
    → announce clock msg (acp v a, false) ≡ (t, b)
    → hear a clock msg v ≡ done_with a t b v
unfolding hear
hear-done a clock msg t b v e =
    ap (λ x. record v { acps = set v.acps a x.0; all = record v.all { invalidate_avail = x.1 } })
      (announce-flag clock msg (acp v a) v.all.invalidate_avail
        ∙ ap (with_flag v.all.invalidate_avail) e)

module _ (values : Map → List Ref) (set' : Ref → Bool) (s : Running) (v : World)
    (h : Follows values set' s v) where
  -- A daemon is at another place, with its table as it is or not.
  pub daemon-At :
      (a : Ref) (d : AddingAt) (w : World)
      → At (set' a) d (acp w a) (acp v a)
      → ((b : Ref) → (b == a) ≡ false → acp w b ≡ acp s.world b)
      → (b : Ref) → At (set' b) (goes_to a d s.daemons b) (acp w b) (acp v b)
  daemon-At a d w new old b =
      by_place (λ c. At (set' c) (goes_to a d s.daemons c) (acp w c) (acp v c)) a b
        (rw ((nat_beq_iff a a).1 refl) new) (λ e. rw (e, old b e) (h.tables b))

  pub daemon-there :
      (a : Ref) (d : AddingAt)
      → a < length v.acps
      → (b : Ref) → (goes_to a d s.daemons b ≡ listens) ⊎ (b < length v.acps)
  daemon-there a d fits b =
      by_place (λ c. (goes_to a d s.daemons c ≡ listens) ⊎ (c < length v.acps)) a b (inr fits)
        (λ e. rw e (h.there b))

  pub daemon-Follows :
      (a : Ref) (d : AddingAt)
      → a < length v.acps
      → At (set' a) d (acp s.world a) (acp v a)
      → Follows values set' (record s { daemons = goes_to a d s.daemons }) v
  daemon-Follows a d fits new = record {
    rest = h.rest;
    sizes = h.sizes;
    tables = daemon-At a d s.world new (λ b e. refl);
    there = daemon-there a d fits;
    flag = h.flag;
    seen = h.seen;
    looking = h.looking;
  }

  -- A daemon has added a registrar.
  pub adds-Follows :
      (a : Ref) (d : AddingAt) (t : AcpInterface)
      → a < length v.acps
      → At (set' a) d t (acp v a)
      → Follows values set'
          (record s {
            world = record s.world { acps = set s.world.acps a t };
            daemons = goes_to a d s.daemons;
          })
          v
  adds-Follows a d t fits new =
      let w : World = record s.world { acps = set s.world.acps a t } in
      let got =
        get_or-set_self s.world.acps a t empty_acp (subst (λ n. a < n) (sym h.sizes) fits) in
      record {
        rest = ap (λ (x : World). record x { acps = set s.world.acps a t }) h.rest;
        sizes = length-set s.world.acps a t ∙ h.sizes;
        tables = daemon-At a d w (rw got new) (λ b e. get_or-set-other s.world.acps a b t e);
        there = daemon-there a d fits;
        flag = h.flag;
        seen = h.seen;
        looking = h.looking;
      }

  -- A daemon has set the flag, outside an update.
  pub sets-Follows :
      (a : Ref) (d : AddingAt)
      → a < length v.acps
      → s.main ≡ outside
      → At true d (acp s.world a) (acp v a)
      → Follows values
          (set_at a true set')
          (record s { world = set_flag s.world; daemons = goes_to a d s.daemons })
          v
  sets-Follows a d fits out new = record {
    rest = ap set_flag h.rest;
    sizes = h.sizes;
    tables = λ b.
        by_place
          (λ c. At (set_at a true set' c) (goes_to a d s.daemons c) (acp s.world c) (acp v c)) a b
          (rw ((nat_beq_iff a a).1 refl) new) (λ e. rw e (h.tables b));
    there = daemon-there a d fits;
    flag = ((λ _. inr (a, rw ((nat_beq_iff a a).1 refl) refl)), (λ _. refl));
    seen = subst (λ m. SeenBy values (set_at a true set') v m) (sym out) tt;
    looking = subst (λ m. IsLooking values m true) (sym out) tt;
  }

  either : (x y : Bool) → (x || y) ≡ true → (x ≡ true) ⊎ (y ≡ true)
  either x y e = ground arith

  done-flag :
      (a : Ref)
      → (s.world.all.invalidate_avail ≡ true) ↔ (
          ((v.all.invalidate_avail || set' a) ≡ true)
          ⊎ ((c : Ref) × (set_at a false set' c ≡ true)))
  done-flag a = (
    (λ e. elim (h.flag.0 e) [
      | inl f ↦ inl (ground arith)
      | inr (c, f) ↦ elim (Bool-cases (c == a)) [
        | inl same ↦ inl (ground (arith, ap set' ((nat_beq_iff c a).0 same)))
        | inr other ↦ inr (c, rw other f)
      ]
    ]),
    (λ e. h.flag.1 (elim e [
      | inl f ↦ elim (either v.all.invalidate_avail (set' a) f) [
        | inl g ↦ inl g
        | inr g ↦ inr (a, g)
      ]
      | inr (c, f) ↦ inr (
        c,
        by_place (λ b. set_at a false set' b ≡ true → set' b ≡ true) a c
            (λ g. absurd (ground (arith, nat_beq_iff a a))) (λ other g. rw other at g) f,
      )
    ])),
  )

  -- The table of a daemon that is done with its flood counts now.
  done-At :
      (a : Ref) (b : Ref)
      → a < length v.acps
      → At
          (set_at a false set' b)
          (goes_to a listens s.daemons b)
          (acp s.world b)
          (acp (done_with a (acp s.world a) (set' a) v) b)
  done-At a b fits =
      let t = acp s.world a in
      by_place
        (λ c.
          At (set_at a false set' c) (goes_to a listens s.daemons c) (acp s.world c)
            (acp (done_with a t (set' a) v) c))
        a b (rw ((nat_beq_iff a a).1 refl) (refl, sym (get_or-set_self v.acps a t empty_acp fits)))
        (λ e. rw (e, get_or-set-other v.acps a b t e) (h.tables b))

  -- An update has seen the table as it is, or not yet.
  done-SeenBy :
      (a : Ref) (m : UpdateAt)
      → a < length v.acps
      → (set' a ≡ false → acp s.world a ≡ acp v a)
      → SeenBy values set' v m
      → SeenBy values (set_at a false set') (done_with a (acp s.world a) (set' a) v) m
  done-SeenBy a outside fits same _ = tt
  done-SeenBy a (looks av rs) fits same (seen, parts, so_far, quiet) =
      let t = acp s.world a in
      let v' = done_with a t (set' a) v in
      (
        seen,
        parts,
        so_far
            ∙ available_among-same v v' none_available seen refl (λ r c i e.
              by_place (λ b. set' b ≡ false → acp v b ≡ acp v' b) a c
                (λ f. sym (same f) ∙ sym (get_or-set_self v.acps a t empty_acp fits))
                (λ other f. sym (get_or-set-other v.acps a c t other)) (quiet r c i e)),
        (λ r c i e.
            by_place (λ b. set' b ≡ false → set_at a false set' b ≡ false) a c
              (λ f. rw ((nat_beq_iff a a).1 refl) refl) (λ other f. rw other f) (quiet r c i e)),
      )

  pub done-Follows :
      (a : Ref)
      → a < length v.acps
      → (set' a ≡ false → acp s.world a ≡ acp v a)
      → Follows values
          (set_at a false set')
          (record s { daemons = goes_to a listens s.daemons })
          (done_with a (acp s.world a) (set' a) v)
  done-Follows a fits same =
      let longer = length-set v.acps a (acp s.world a) in
      record {
        rest = h.rest;
        sizes = h.sizes ∙ sym longer;
        tables = λ b. done-At a b fits;
        there = λ b.
            subst (λ n. (goes_to a listens s.daemons b ≡ listens) ⊎ (b < n)) (sym longer)
              (daemon-there a listens fits b);
        flag = done-flag a;
        seen = done-SeenBy a s.main fits same h.seen;
        looking = h.looking;
      }
