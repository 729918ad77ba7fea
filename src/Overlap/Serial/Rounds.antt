-- ===== src/Overlap/Serial/Rounds.antt =====
-- What one step of the main loop in src/interfaces.rs makes of the handlers that are done.
use rooster.Base.{
  Bool, true, false, ◌≡◌, inl, inr, refl, sym, ap, ◌∙◌, subst, List, [], ◌∷◌, ◌++◌, Option, none,
  some, In, arith, if◌then◌else◌, get_or,
}
use rooster.Acp.{Available, none_available}
use rooster.Interface.{Ref, World, Map, empty_interface}
use rooster.Interfaces.{cell}
use rooster.Interfaces.Registrars.{
  YieldsValues, acp, interface_available, daemon_available, or_available, available_among,
  proxies_of, calculate_available_registrars, update_available_registrars,
}
use rooster.Overlap.{outside, looks, listens, Running, IsFree}
use rooster.Overlap.Steps.{finish}
use rooster.Overlap.Serial.{At, SeenBy, IsLooking, Follows, IsRegular}
use rooster.Overlap.Serial.Tables.{daemon_available-same, available_among-append, In-append}

-- Nobody holds the table of an interface.
free-listens :
    (d : Option Ref) (s : Running) → IsFree d s → (a : Ref) → d ≡ some a → s.daemons a ≡ listens
free-listens none s free a e = cc
free-listens (some b) s free a e = ground arith

append_nil : {A : Type 0} (xs : List A) → xs ++ [] ≡ xs
append_nil [] = refl
append_nil (x ∷ xs) = ap (◌∷◌ x) (append_nil xs)

append_one :
    {A : Type 0} (xs : List A) (y : A) (ys : List A) → (xs ++ (y ∷ [])) ++ ys ≡ xs ++ (y ∷ ys)
append_one [] y ys = refl
append_one (x ∷ xs) y ys = ap (◌∷◌ x) (append_one xs y ys)

module _ (values : Map → List Ref) where
  -- What an update does to the proxies and the flag, by what the flag was.
  pub update-finish :
      (v : World)
      → v.all.invalidate_avail ≡ true
      → update_available_registrars values v
        ≡ finish (available_among v none_available (values v.all.acp_interfaces)) v
  unfolding update_available_registrars calculate_available_registrars
  update-finish v e =
      ap {A = Bool} {B = World}
        (λ b. record v {
          all = record v.all {
            proxies =
                if b
                then proxies_of (available_among v none_available (values v.all.acp_interfaces))
                else v.all.proxies;
            invalidate_avail = false;
          };
        })
        e

  module _ (set' : Ref → Bool) (s : Running) (v : World) (h : Follows values set' s v) where
    pub listens-At :
        (a : Ref) → s.daemons a ≡ listens → (set' a ≡ false) × (acp s.world a ≡ acp v a)
    listens-At a e = subst (λ d. At (set' a) d (acp s.world a) (acp v a)) e (h.tables a)

    same_cells : s.world.cells ≡ v.cells
    same_cells = ap (λ w. w.cells) h.rest

    same_map : s.world.all.acp_interfaces ≡ v.all.acp_interfaces
    same_map = ap (λ w. w.all.acp_interfaces) h.rest

    daemon_of_cell : (r : Ref) → (cell s.world r).acp_daemon ≡ (cell v r).acp_daemon
    daemon_of_cell r = ap (λ cs. (get_or cs r (empty_interface 0)).acp_daemon) same_cells

    pub finds-Follows :
        s.world.all.invalidate_avail ≡ true
        → Follows values set'
            (record s { main = looks none_available (values s.world.all.acp_interfaces) })
            v
    unfolding available_among
    finds-Follows e = record {
      rest = h.rest;
      sizes = h.sizes;
      tables = h.tables;
      there = h.there;
      flag = h.flag;
      seen = ([], ap values same_map, refl, (λ r a i. absurd i));
      looking = e;
    }

    pub looks-Follows :
        (av : Available) (r : Ref) (rs : List Ref)
        → s.main ≡ looks av (r ∷ rs)
        → IsFree (cell s.world r).acp_daemon s
        → Follows values set'
            (record s {
              main = looks (or_available av (interface_available s.world (cell s.world r))) rs;
            })
            v
    looks-Follows av r rs e free =
        let (seen, parts, so_far, quiet) = subst (λ m. SeenBy values set' v m) e h.seen in
        let listening : (a : Ref)
            → (cell s.world r).acp_daemon ≡ some a
            → (set' a ≡ false) × (acp s.world a ≡ acp v a) =
          λ a e'. listens-At a (free-listens (cell s.world r).acp_daemon s free a e') in
        let here : interface_available s.world (cell s.world r) ≡ interface_available v (cell v r) =
          daemon_available-same s.world v (cell s.world r).acp_daemon (λ a e'. (listening a e').1)
          ∙ ap (daemon_available v) (daemon_of_cell r) in
        record {
          rest = h.rest;
          sizes = h.sizes;
          tables = h.tables;
          there = h.there;
          flag = h.flag;
          seen = (
            seen ++ (r ∷ []),
            append_one seen r rs ∙ parts,
            ap (or_available av) here
                ∙ ap (λ x. or_available x (interface_available v (cell v r))) so_far
                ∙ sym (available_among-append v none_available seen r),
            (λ q a i e'. elim (In-append q r seen i) [
              | inl j ↦ quiet q a j e'
              | inr same ↦
                  (listening a (
                    daemon_of_cell r ∙ subst (λ p. (cell v p).acp_daemon ≡ some a) (sym same) e')).0
            ]),
          );
          looking = subst (λ m. IsLooking values m s.world.all.invalidate_avail) e h.looking;
        }

    -- At the end of an update no daemon has set the flag for a flood that does not count yet.
    none_set :
        (av : Available)
        → YieldsValues values
        → s.main ≡ looks av []
        → IsRegular v
        → (a : Ref) → set' a ≡ false
    none_set av yields e listed a =
        let (seen, parts, so_far, quiet) = subst (λ m. SeenBy values set' v m) e h.seen in
        elim (h.there a) [
          | inl e' ↦ (listens-At a e').0
          | inr fits ↦
              let (r, i, d) = listed.1 a fits in
              quiet r a
                (subst (In r) (sym (sym (append_nil seen) ∙ parts))
                  ((yields v.all.acp_interfaces r).1 i))
                d
        ]

    flag_counts :
        (av : Available)
        → YieldsValues values
        → s.main ≡ looks av []
        → IsRegular v
        → v.all.invalidate_avail ≡ true
    flag_counts av yields e listed =
        elim (h.flag.0 (subst (λ m. IsLooking values m s.world.all.invalidate_avail) e h.looking)) [
          | inl f ↦ f
          | inr (a, f) ↦ absurd (ground (arith, none_set av yields e listed a))
        ]

    pub finishes-Follows :
        (av : Available)
        → YieldsValues values
        → s.main ≡ looks av []
        → IsRegular v
        → Follows values set'
            (record s { world = finish av s.world; main = outside })
            (update_available_registrars values v)
    finishes-Follows av yields e listed =
        let (seen, parts, so_far, quiet) = subst (λ m. SeenBy values set' v m) e h.seen in
        let all_seen : av ≡ available_among v none_available (values v.all.acp_interfaces) =
          so_far ∙ ap (available_among v none_available) (sym (append_nil seen) ∙ parts) in
        subst (Follows values set' (record s { world = finish av s.world; main = outside }))
          (ap (λ x. finish x v) all_seen ∙ sym (update-finish v (flag_counts av yields e listed)))
          (record {
            rest = ap (finish av) h.rest;
            sizes = h.sizes;
            tables = h.tables;
            there = h.there;
            flag = (
              (λ f. absurd (ground arith)),
              (λ f. elim f [
                | inl g ↦ absurd (ground arith)
                | inr (a, g) ↦ absurd (ground (arith, none_set av yields e listed a))
              ]),
            );
            seen = tt;
            looking = tt;
          })
