-- ===== src/Overlap/Serial/Order.antt =====
-- Whatever steps of src/interfaces.rs and src/acp_interface.rs overlap, the handlers have an order in
-- which they do the same one after the other.
use rooster.Base.{
  ℕ, suc, Bool, true, false, ◌≡◌, inl, inr, refl, sym, ap, ◌∙◌, subst, ◌<◌, List, [], ◌∷◌, length,
  length-set, arith,
}
use rooster.Grasp.{GraspMessage, GraspObjective}
use rooster.Args.{RoosterOptions}
use rooster.Acp.{announce, Millis, AcpInterface, add_registrar, announce_objectives}
use rooster.Interface.{initial_world, Ref, World, Map}
use rooster.Interfaces.{handle_message}
use rooster.Interfaces.Invariant.{initial-WellFormed}
use rooster.System.Invariant.{hear-WellFormed, update-WellFormed}
use rooster.Overlap.Coherence.{OnlyFirstStarts}
use rooster.Overlap.Serial.Messages.{starts_alike, handle_message-IsRegular, told-Follows}
use rooster.Interfaces.Registrars.{YieldsValues, hear, acp, update_available_registrars}
use rooster.Overlap.{AddingAt, listens, hears, has_added, Running, initial_running, goes_to, begins}
use rooster.Overlap.Steps.{
  clear_flag, told, finds_clear, finds_set, looks_at, finishes, receives, passes, gives_up, adds,
  sets_flag, ends, Runs, rests, then_step,
}
use rooster.Overlap.Serial.{
  At, Follows, IsRegular, IsIdle, Handled, untouched, then_handles, then_hears, then_updates,
}
use rooster.Overlap.Serial.Tables.{same_tables}
use rooster.Overlap.Serial.Moves.{
  set_at, done_with, hear-done, daemon-Follows, adds-Follows, sets-Follows, done-Follows,
}
use rooster.Overlap.Serial.Rounds.{listens-At, finds-Follows, looks-Follows, finishes-Follows}
use rooster.Overlap.Serial.Objectives.{
  objectives-passes, objectives-gives_up, objectives-adds, objectives-ends, begins-At,
}

same_flag : (x y : Bool) → (x ≡ true → y ≡ true) → (y ≡ true → x ≡ true) → x ≡ y
same_flag x y there back = ground arith

update-IsRegular :
    (values : Map → List Ref) (v : World)
    → IsRegular v
    → IsRegular (update_available_registrars values v)
unfolding update_available_registrars
update-IsRegular values v (fits, listed) = (update-WellFormed values v fits, listed)

hear-IsRegular :
    (a : Ref) (clock : ℕ → Millis) (msg : GraspMessage) (v : World)
    → IsRegular v
    → IsRegular (hear a clock msg v)
unfolding hear
hear-IsRegular a clock msg v (fits, listed) =
    let longer = length-set v.acps a (announce clock msg (acp v a, v.all.invalidate_avail)).0 in
    (hear-WellFormed a clock msg v fits, (λ c i. listed c (subst (λ n. c < n) longer i)))

module _ (options : RoosterOptions) (values : Map → List Ref) where
  -- Some handlers, one after the other, have done what the tasks have.
  abbrev Does : Running → Type 0
  Does s =
      (v : World) × (f : Ref → Bool) × Handled options values v × IsRegular v × Follows values f s v

  start-Follows : Follows values (λ a. false) initial_running initial_world
  start-Follows = record {
    rest = refl;
    sizes = refl;
    tables = λ a. (refl, refl);
    there = λ a. inl refl;
    flag = ((λ e. inl e), (λ e. elim e [ inl g ↦ g | inr (a, g) ↦ absurd (ground arith) ]));
    seen = tt;
    looking = tt;
  }

  module _ (v : World) (f : Ref → Bool) (s : Running) (past : Handled options values v)
      (listed : IsRegular v) (h : Follows values f s v) where
    -- A daemon that is not waiting for a datagram has a table.
    fits : (a : Ref) (d : AddingAt) → s.daemons a ≡ d → (d ≡ listens → ⊥) → a < length v.acps
    fits a d e busy = elim (h.there a) [ inl quiet ↦ absurd (busy (sym e ∙ quiet)) | inr i ↦ i ]

    table-At : (a : Ref) (d : AddingAt) → s.daemons a ≡ d → At (f a) d (acp s.world a) (acp v a)
    table-At a d e = subst (λ x. At (f a) x (acp s.world a) (acp v a)) e (h.tables a)

    -- The flood of a daemon that is done counts.
    done-Does :
        (a : Ref) (clock : ℕ → Millis) (ttl : Millis) (n : ℕ) (os : List GraspObjective)
        → s.daemons a ≡ hears clock ttl n os
        → announce_objectives clock ttl n os (acp s.world a, f a) ≡ (acp s.world a, f a)
        → Does (record s { daemons = goes_to a listens s.daemons })
    done-Does a clock ttl n os e last =
        let (msg, so_far, same) = table-At a (hears clock ttl n os) e in
        let inside = fits a (hears clock ttl n os) e (λ q. cc) in
        let counts = hear-done a clock msg (acp s.world a) (f a) v (so_far ∙ last) in
        (
          done_with a (acp s.world a) (f a) v,
          set_at a false f,
          subst (Handled options values) counts (then_hears a clock msg past inside),
          subst IsRegular counts (hear-IsRegular a clock msg v listed),
          done-Follows values f s v h a inside same,
        )

  Runs-Does :
      (s : Running)
      → YieldsValues values
      → (r : Runs options values initial_running s) → OnlyFirstStarts options values s r
      → Does s
  Runs-Does _ yields rests q = (
    initial_world,
    (λ a. false),
    untouched,
    (initial-WellFormed, λ a i. absurd (omega arith)),
    start-Follows,
  )
  Runs-Does _ yields (then_step r (told t m e)) (starts, q) =
      let (v, f, past, all, h) = Runs-Does t yields r q in
      let first = starts_alike values f t v h m starts in
      (
        (handle_message options m v).0,
        f,
        then_handles m past,
        handle_message-IsRegular options m v all first,
        told-Follows values f t v h options m e all first,
      )
  Runs-Does _ yields (then_step r (finds_clear t e clear)) q =
      let (v, f, past, all, h) = Runs-Does t yields r q in
      let same : t ≡ record t { world = clear_flag t.world } =
        ap {A = Bool} {B = Running}
          (λ b. record t {
            world = record t.world { all = record t.world.all { invalidate_avail = b } };
          })
          clear in
      (v, f, past, all, subst (λ u. Follows values f u v) same h)
  Runs-Does _ yields (then_step r (finds_set t e flagged)) q =
      let (v, f, past, all, h) = Runs-Does t yields r q in
      (v, f, past, all, finds-Follows values f t v h flagged)
  Runs-Does _ yields (then_step r (looks_at t av i is e free)) q =
      let (v, f, past, all, h) = Runs-Does t yields r q in
      (v, f, past, all, looks-Follows values f t v h av i is e free)
  Runs-Does _ yields (then_step r (finishes t av e)) q =
      let (v, f, past, all, h) = Runs-Does t yields r q in
      (
        update_available_registrars values v,
        f,
        then_updates past,
        update-IsRegular values v all,
        finishes-Follows values f t v h av yields e all,
      )
  Runs-Does _ yields (then_step r (receives t a clock msg inside e)) q =
      let (v, f, past, all, h) = Runs-Does t yields r q in
      let (clear, same) = listens-At values f t v h a e in
      (
        v,
        f,
        past,
        all,
        daemon-Follows values f t v h a (begins clock msg) (subst (λ k. a < k) h.sizes inside)
            (begins-At clock msg (f a) (acp t.world a) (acp v a) clear same),
      )
  Runs-Does _ yields (then_step r (passes t a clock ttl n o os e silent)) q =
      let (v, f, past, all, h) = Runs-Does t yields r q in
      let (msg, so_far, same) = table-At v f t past all h a (hears clock ttl n (o ∷ os)) e in
      (
        v,
        f,
        past,
        all,
        daemon-Follows values f t v h a (hears clock ttl (suc n) os)
            (fits v f t past all h a (hears clock ttl n (o ∷ os)) e (λ c. cc))
            (msg, so_far ∙ objectives-passes clock ttl n o os (acp t.world a, f a) silent, same),
      )
  Runs-Does _ yields (then_step r (gives_up t a clock ttl n o os e silent)) q =
      let (v, f, past, all, h) = Runs-Does t yields r q in
      done-Does v f t past all h a clock ttl n (o ∷ os) e
        (objectives-gives_up clock ttl n o os (acp t.world a, f a) silent)
  Runs-Does _ yields (then_step r (adds t a clock ttl n o os rtype v6addr e says)) q =
      let (v, f, past, all, h) = Runs-Does t yields r q in
      let (msg, so_far, same) = table-At v f t past all h a (hears clock ttl n (o ∷ os)) e in
      (
        v,
        f,
        past,
        all,
        adds-Follows values f t v h a (has_added clock ttl (suc n) os)
            (add_registrar rtype v6addr ttl (clock n) (acp t.world a))
            (fits v f t past all h a (hears clock ttl n (o ∷ os)) e (λ c. cc))
            (
              msg,
              so_far ∙ objectives-adds clock ttl n o os (acp t.world a) (f a) rtype v6addr says,
            ),
      )
  Runs-Does _ yields (then_step r (sets_flag t a clock ttl n os e out)) q =
      let (v, f, past, all, h) = Runs-Does t yields r q in
      let (msg, so_far) = table-At v f t past all h a (has_added clock ttl n os) e in
      (
        v,
        set_at a true f,
        past,
        all,
        sets-Follows values f t v h a (hears clock ttl n os)
            (fits v f t past all h a (has_added clock ttl n os) e (λ c. cc)) out
            (msg, so_far, (λ c. cc)),
      )
  Runs-Does _ yields (then_step r (ends t a clock ttl n e)) q =
      let (v, f, past, all, h) = Runs-Does t yields r q in
      done-Does v f t past all h a clock ttl n [] e
        (objectives-ends clock ttl n (acp t.world a, f a))

  -- However messages, floods and updates overlap, and in whatever order the map yields its interfaces,
  -- as long as no link that had a daemon came up again: when no task is within a handler, the world is
  -- one that the handlers make one after the other.
  pub Runs-Handled :
      (t : Running)
      → YieldsValues values
      → (r : Runs options values initial_running t) → OnlyFirstStarts options values t r
      → IsIdle t
      → Handled options values t.world
  Runs-Handled t yields r q (out, quiet) =
      let (v, f, past, all, h) = Runs-Does t yields r q in
      let tables : t.world.acps ≡ v.acps =
        same_tables t.world.acps v.acps h.sizes (λ a. (listens-At values f t v h a (quiet a)).1) in
      let flags : t.world.all.invalidate_avail ≡ v.all.invalidate_avail =
        same_flag t.world.all.invalidate_avail v.all.invalidate_avail
          (λ e. elim (h.flag.0 e) [
            | inl g ↦ g
            | inr (a, g) ↦ absurd (ground (arith, listens-At values f t v h a (quiet a)))
          ])
          (λ e. h.flag.1 (inl e)) in
      subst (Handled options values)
        (sym (
          h.rest
          ∙ ap {A = List AcpInterface} {B = World}
              (λ ts. record v {
                acps = ts;
                all = record v.all { invalidate_avail = t.world.all.invalidate_avail };
              })
              tables
          ∙ ap {A = Bool} {B = World}
              (λ b. record v { all = record v.all { invalidate_avail = b } }) flags))
        past
