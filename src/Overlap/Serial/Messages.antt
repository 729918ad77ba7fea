-- ===== src/Overlap/Serial/Messages.antt =====
-- What a netlink message of src/interfaces.rs makes of the handlers that are done.
use rooster.Base.{Bool, ◌≡◌, inl, inr, sym, ap, ◌∙◌, subst, List, length, arith}
use rooster.Args.{RoosterOptions}
use rooster.Acp.{AcpInterface}
use rooster.Interface.{Ref, World, Map}
use rooster.Interfaces.{Message, new_link, new_address, ignored_message, handle_message}
use rooster.Interfaces.Blind.{with_heard, handle_message-Beside}
use rooster.Interfaces.Invariant.Messages.{handle_message-WellFormed}
use rooster.Interfaces.Registrars.{acp}
use rooster.Interfaces.Registrars.Listing.{handle_message-Listing}
use rooster.Interfaces.Registrars.Starts.Links.{IsFirstStart}
use rooster.Interfaces.Registrars.Tables.{handle_message-Untouched}
use rooster.Overlap.{outside, Running}
use rooster.Overlap.Serial.{At, SeenBy, IsLooking, Follows, IsRegular}

-- What a message brings up does not depend on what the daemons have heard.
blind_start :
    (ts : List AcpInterface) (b : Bool) (m : Message) (v : World)
    → IsFirstStart m (with_heard ts b v)
    → IsFirstStart m v
blind_start ts b (new_link os lm) v first = first
blind_start ts b (new_address am) v first = first
blind_start ts b ignored_message v first = first

pub handle_message-IsRegular :
    (options : RoosterOptions) (m : Message) (v : World)
    → IsRegular v
    → IsFirstStart m v
    → IsRegular (handle_message options m v).0
handle_message-IsRegular options m v (fits, listed) first =
    let h = handle_message-Listing options m v fits first in
    (
      handle_message-WellFormed options m v fits,
      (λ a i. elim (h.new a i) [ inl before ↦ h.kept a (listed a before) | inr l ↦ l ]),
    )

module _ (values : Map → List Ref) (f : Ref → Bool) (s : Running) (v : World)
    (h : Follows values f s v) where
  pub starts_alike : (m : Message) → IsFirstStart m s.world → IsFirstStart m v
  starts_alike m first =
      blind_start s.world.acps s.world.all.invalidate_avail m v
        (subst (IsFirstStart m) h.rest first)

  -- The listener has handled a message, outside an update.
  pub told-Follows :
      (options : RoosterOptions) (m : Message)
      → s.main ≡ outside
      → IsRegular v
      → IsFirstStart m v
      → Follows values f
          (record s { world = (handle_message options m s.world).0 })
          (handle_message options m v).0
  told-Follows options m out regular first =
      let w' = (handle_message options m s.world).0 in
      let v' = (handle_message options m v).0 in
      let b = s.world.all.invalidate_avail in
      let (ts, sizes, e) = handle_message-Beside b s.world.acps options m v h.sizes in
      let same : w' ≡ with_heard ts b v' =
        ap (λ w. (handle_message options m w).0) h.rest ∙ ap (λ x. x.0) e in
      let acps : w'.acps ≡ ts = ap (λ w. w.acps) same in
      let flags : w'.all.invalidate_avail ≡ b = ap (λ w. w.all.invalidate_avail) same in
      let mine = handle_message-Untouched options m s.world in
      let theirs = handle_message-Untouched options m v in
      record {
        rest =
            same
            ∙ ap (λ us. with_heard us b v') (sym acps)
            ∙ ap (λ c. with_heard w'.acps c v') (sym flags);
        sizes = ap length acps ∙ sizes;
        tables = λ a.
            subst (λ t. At (f a) (s.daemons a) t (acp v' a)) (sym (mine.tables a))
              (subst (At (f a) (s.daemons a) (acp s.world a)) (sym (theirs.tables a)) (h.tables a));
        there = λ a. elim (h.there a) [
          | inl quiet ↦ inl quiet
          | inr i ↦ inr (omega (arith, (handle_message-Listing options m v regular.0 first).grows))
        ];
        flag = (
          (λ x. elim (h.flag.0 (sym mine.flag ∙ x)) [
            | inl g ↦ inl (theirs.flag ∙ g)
            | inr g ↦ inr g
          ]),
          (λ x.
              mine.flag ∙ h.flag.1 (elim x [ inl g ↦ inl (sym theirs.flag ∙ g) | inr g ↦ inr g ])),
        );
        seen = subst (λ x. SeenBy values f v' x) (sym out) tt;
        looking = subst (λ x. IsLooking values x w'.all.invalidate_avail) (sym out) tt;
      }
