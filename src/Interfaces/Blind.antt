-- ===== src/Interfaces/Blind.antt =====
-- What the handlers of netlink messages in src/interfaces.rs do depends neither on what the daemons have
-- heard nor on the flag.
use rooster.Base.{
  ℕ, ◌+◌, Bool, true, false, not, ◌&&◌, ◌≡◌, refl, sym, ap, ◌∙◌, subst, inl, inr, List, [], ◌∷◌,
  ◌++◌, some, length, length-append, Option-cases, Bool-cases, if◌then◌else◌,
}
use rooster.Netlink.{LinkMessage, is_up}
use rooster.Args.{RoosterOptions, is_valid_acp_interface, is_valid_joinlink_interface}
use rooster.Acp.{AcpInterface, empty_acp}
use rooster.Interface.{IfIndex, Ref, World}
use rooster.Interfaces.Registrars.Alike.{get_entry-Alike}
use rooster.Interfaces.{
  lookup, or_insert, cell, set_cell, get_entry_by_ifindex, store_links, store_addresses,
  store_addr_info, Sockets, Ending, done, panicked, start_acp, start_joinlink, open_acp,
  open_joinlink, start_roles, store_link_info, Message, new_link, new_address, ignored_message,
  handle_message,
}

-- The world with other tables and another flag.
abbrev pub with_heard : List AcpInterface → Bool → World → World
with_heard ts b w = record w { acps = ts; all = record w.all { invalidate_avail = b } }

-- Two outcomes differ only in the tables, of which there are as many, and in the flag.
abbrev pub Beside : Bool → World × Ending → World × Ending → Type 0
Beside b x y =
    (ts : List AcpInterface) × (length ts ≡ length y.0.acps) × (x ≡ (with_heard ts b y.0, y.1))

if-Beside :
    (b c : Bool) (x x' y y' : World × Ending)
    → Beside b x y
    → Beside b x' y'
    → Beside b (if c then x else x') (if c then y else y')
if-Beside b true x x' y y' h k = h
if-Beside b false x x' y y' h k = k

module _ (ts : List AcpInterface) (b : Bool) (w : World) (sizes : length ts ≡ length w.acps) where
  done-Beside : Beside b (with_heard ts b w, done) (w, done)
  done-Beside = (ts, sizes, refl)

  get_entry-with_heard :
      (k : IfIndex)
      → get_entry_by_ifindex k (with_heard ts b w)
        ≡ (with_heard ts b (get_entry_by_ifindex k w).0, (get_entry_by_ifindex k w).1)
  unfolding get_entry_by_ifindex
  get_entry-with_heard k = elim (Option-cases (lookup k w.all.interfaces)) [
    | inl e ↦ rw (e, get_entry_by_ifindex) refl
    | inr (r, e) ↦ rw (e, get_entry_by_ifindex) refl
  ]

  -- The world in which the daemon of the interface has got a number.
  abbrev start_at : IfIndex → Ref → ℕ → World
  start_at k r n =
      set_cell r (record (cell w r) { acp_daemon = some n })
        (record w {
          acps = ts ++ (empty_acp ∷ []);
          all = record w.all {
            invalidate_avail = b;
            acp_interfaces = or_insert k r w.all.acp_interfaces;
          };
        })

  open_acp-Beside :
      (os : Sockets) (k : IfIndex) (r : Ref)
      → Beside b (open_acp os k r (with_heard ts b w)) (open_acp os k r w)
  unfolding open_acp start_acp
  open_acp-Beside os k r = elim (Bool-cases os.grasp_bound) [
    | inl e ↦
        rw (e, start_acp)
          (
            ts ++ (empty_acp ∷ []),
            length-append ts (empty_acp ∷ [])
                ∙ ap (λ n. n + 1) sizes
                ∙ sym (length-append w.acps (empty_acp ∷ [])),
            ap (λ n. (start_at k r n, done)) sizes,
          )
    | inr e ↦ rw (e, start_acp) (ts, sizes, refl)
  ]

  open_joinlink-Beside :
      (os : Sockets) (k : IfIndex) (r : Ref)
      → Beside b (open_joinlink os k r (with_heard ts b w)) (open_joinlink os k r w)
  unfolding open_joinlink start_joinlink
  open_joinlink-Beside os k r = elim (Option-cases os.https_local) [
    | inl e ↦ rw (e, start_joinlink) (ts, sizes, refl)
    | inr (l, e) ↦ rw (e, start_joinlink) (ts, sizes, refl)
  ]

second_role-Beside :
    (b : Bool) (os : Sockets) (c : Bool) (k : IfIndex) (r : Ref) (x y : World × Ending)
    → Beside b x y
    → Beside b
        (elim x.1 as (λ _. World × Ending) [
          | panicked ↦ (x.0, panicked)
          | done ↦ if c then open_joinlink os k r x.0 else (x.0, done)
        ])
        (elim y.1 as (λ _. World × Ending) [
          | panicked ↦ (y.0, panicked)
          | done ↦ if c then open_joinlink os k r y.0 else (y.0, done)
        ])
second_role-Beside b os c k r x (v, panicked) (ts, sizes, e) = (
  ts,
  sizes,
  ap
      (λ z. elim z.1 as (λ _. World × Ending) [
        | panicked ↦ (z.0, panicked)
        | done ↦ if c then open_joinlink os k r z.0 else (z.0, done)
      ])
      e,
)
second_role-Beside b os c k r x (v, done) (ts, sizes, e) =
    subst
      (λ z.
        Beside b
          (elim z.1 as (λ _. World × Ending) [
            | panicked ↦ (z.0, panicked)
            | done ↦ if c then open_joinlink os k r z.0 else (z.0, done)
          ])
          (if c then open_joinlink os k r v else (v, done)))
      (sym e)
      (if-Beside b c (open_joinlink os k r (with_heard ts b v)) (with_heard ts b v, done)
        (open_joinlink os k r v) (v, done) (open_joinlink-Beside ts b v sizes os k r)
        (done-Beside ts b v sizes))

start_roles-Beside :
    (b : Bool) (ts : List AcpInterface) (os : Sockets) (options : RoosterOptions) (k : IfIndex)
    (r : Ref) (w : World)
    → length ts ≡ length w.acps
    → Beside b (start_roles os options k r (with_heard ts b w)) (start_roles os options k r w)
unfolding start_roles
start_roles-Beside b ts os options k r w sizes =
    let valid = is_valid_acp_interface options (cell w r).ifname in
    second_role-Beside b os (is_valid_joinlink_interface options (cell w r).ifname) k r
      (if valid then open_acp os k r (with_heard ts b w) else (with_heard ts b w, done))
      (if valid then open_acp os k r w else (w, done))
      (if-Beside b valid (open_acp os k r (with_heard ts b w)) (with_heard ts b w, done)
        (open_acp os k r w) (w, done) (open_acp-Beside ts b w sizes os k r)
        (done-Beside ts b w sizes))

-- `store_link_info` once it has the entry.
stored : Sockets → RoosterOptions → LinkMessage → World × Ref → World × Ending
stored os options lm (w, r) =
    let ifn = store_links (cell w r) lm.nlas in
    let w1 = set_cell r ifn w in
    if not (is_up (cell w r).oper_state) && is_up ifn.oper_state
    then (if ifn.ignored then (w1, done) else start_roles os options lm.index r w1)
    else (w1, done)

stored-Beside :
    (b : Bool) (ts : List AcpInterface) (os : Sockets) (options : RoosterOptions) (lm : LinkMessage)
    (p : World × Ref)
    → length ts ≡ length p.0.acps
    → Beside b (stored os options lm (with_heard ts b p.0, p.1)) (stored os options lm p)
unfolding stored
stored-Beside b ts os options lm (w, r) sizes =
    let ifn = store_links (cell w r) lm.nlas in
    let w1 = set_cell r ifn w in
    let w1' = with_heard ts b w1 in
    let rest = done-Beside ts b w1 sizes in
    if-Beside b (not (is_up (cell w r).oper_state) && is_up ifn.oper_state)
      (if ifn.ignored then (w1', done) else start_roles os options lm.index r w1') (w1', done)
      (if ifn.ignored then (w1, done) else start_roles os options lm.index r w1) (w1, done)
      (if-Beside b ifn.ignored (w1', done) (start_roles os options lm.index r w1') (w1, done)
        (start_roles os options lm.index r w1) rest
        (start_roles-Beside b ts os options lm.index r w1 sizes))
      rest

entry_sizes : (k : IfIndex) (w : World) → length w.acps ≡ length (get_entry_by_ifindex k w).0.acps
entry_sizes k w = ap length (get_entry-Alike k w).tables

-- A message does to a world with other tables and another flag what it does to the world.
pub handle_message-Beside :
    (b : Bool) (ts : List AcpInterface) (options : RoosterOptions) (m : Message) (w : World)
    → length ts ≡ length w.acps
    → Beside b (handle_message options m (with_heard ts b w)) (handle_message options m w)
unfolding handle_message store_link_info store_addr_info stored
handle_message-Beside b ts options (new_link os lm) w sizes =
    subst
      (λ p.
        Beside b (stored os options lm p) (stored os options lm (get_entry_by_ifindex lm.index w)))
      (sym (get_entry-with_heard ts b w sizes lm.index))
      (stored-Beside b ts os options lm (get_entry_by_ifindex lm.index w)
        (sizes ∙ entry_sizes lm.index w))
handle_message-Beside b ts options (new_address am) w sizes = (
  ts,
  sizes ∙ entry_sizes am.index w,
  ap (λ p. (set_cell p.1 (store_addresses (cell p.0 p.1) am.nlas) p.0, done))
      (get_entry-with_heard ts b w sizes am.index),
)
handle_message-Beside b ts options ignored_message w sizes = done-Beside ts b w sizes
