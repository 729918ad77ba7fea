-- ===== src/Interfaces/Scan.antt =====
-- The task of `AllInterfaces::listen_network` in src/interfaces.rs from its start: it scans the
-- interfaces that there are, links first, and then listens. What netlink answers to the scan is an
-- argument: a list of results, of which one that is an error panics.
use rooster.Base.{
  Bool, true, ◌≡◌, refl, sym, ap, ◌∙◌, List, [], ◌∷◌, ◌++◌, map, Option, none, some, if◌then◌else◌,
}
use rooster.Netlink.{LinkMessage, AddressMessage}
use rooster.Args.{RoosterOptions}
use rooster.Interface.{World}
use rooster.Interfaces.{
  Sockets, Ending, done, panicked, store_link_info, store_addr_info, Message, new_link, new_address,
  handle_message, listen_network,
}

-- A link that the scan finds, with what the system would answer to new sockets on it.
abbrev pub Found : Type 0
Found = Sockets × LinkMessage

-- `gather_link_info` and `gather_addr_info`, which lock the table.
unfoldable pub gather_link_info : RoosterOptions → Found → World → World × Ending
gather_link_info options (os, lm) w = store_link_info os options lm w

unfoldable pub gather_addr_info : AddressMessage → World → World × Ending
gather_addr_info am w = (store_addr_info am w, done)

-- The first loop of the scan.
pub scan_links : RoosterOptions → List (Option Found) → World → World × Ending
unfolding gather_link_info
scan_links options [] w = (w, done)
scan_links options (none ∷ links) w = (w, panicked)
scan_links options (some found ∷ links) w =
    let (w', ending) = gather_link_info options found w in
    let rest = scan_links options links w' in
    elim ending [ done ↦ rest | panicked ↦ (w', panicked) ]

-- The second loop.
pub scan_addresses : List (Option AddressMessage) → World → World × Ending
unfolding gather_addr_info
scan_addresses [] w = (w, done)
scan_addresses (none ∷ addrs) w = (w, panicked)
scan_addresses (some am ∷ addrs) w = scan_addresses addrs (gather_addr_info am w).0

pub scan_existing_interfaces :
    RoosterOptions → List (Option Found) → List (Option AddressMessage) → World → World × Ending
unfolding scan_links scan_addresses
scan_existing_interfaces options links addrs w =
    let (w', ending) = scan_links options links w in
    elim ending [ done ↦ scan_addresses addrs w' | panicked ↦ (w', panicked) ]

-- The whole task: a netlink socket that cannot be opened or bound panics.
pub network_task :
    RoosterOptions
    → Bool
    → List (Option Found)
    → List (Option AddressMessage)
    → List Message
    → World
    → World × Ending
unfolding scan_existing_interfaces
network_task options bound links addrs messages w =
    let (w', ending) = scan_existing_interfaces options links addrs w in
    let rest = listen_network options messages w' in
    if bound then (elim ending [ done ↦ rest | panicked ↦ (w', panicked) ]) else (w, panicked)

-- What follows a handler that may have panicked.
abbrev and_then : World × Ending → (World → World × Ending) → World × Ending
and_then (w, done) next = next w
and_then (w, panicked) next = (w, panicked)

abbrev pub as_link : Found → Message
as_link (os, lm) = new_link os lm

scan_links-listen :
    (options : RoosterOptions) (links : List Found) (later : List Message) (w : World)
    → listen_network options (map as_link links ++ later) w
      ≡ and_then (scan_links options (map some links) w) (listen_network options later)
unfolding listen_network handle_message scan_links gather_link_info
scan_links-listen options [] later w = refl
scan_links-listen options ((os, lm) ∷ links) later w =
    let (w', ending) = store_link_info os options lm w in
    elim ending
      as (λ x.
        elim x as (λ _. World × Ending) [
          | done ↦ listen_network options (map as_link links ++ later) w'
          | panicked ↦ (w', panicked)
        ]
        ≡ and_then
            (elim x as (λ _. World × Ending) [
              | done ↦ scan_links options (map some links) w'
              | panicked ↦ (w', panicked)
            ])
            (listen_network options later)) [
              | done ↦ scan_links-listen options links later w'
              | panicked ↦ refl
            ]

scan_addresses-listen :
    (options : RoosterOptions) (addrs : List AddressMessage) (later : List Message) (w : World)
    → listen_network options (map new_address addrs ++ later) w
      ≡ and_then (scan_addresses (map some addrs) w) (listen_network options later)
unfolding listen_network handle_message scan_addresses gather_addr_info
scan_addresses-listen options [] later w = refl
scan_addresses-listen options (am ∷ addrs) later w =
    scan_addresses-listen options addrs later (store_addr_info am w)

and_then-cong :
    (x : World × Ending) {f g : World → World × Ending}
    → ((w : World) → f w ≡ g w)
    → and_then x f ≡ and_then x g
and_then-cong (w, done) h = h w
and_then-cong (w, panicked) h = refl

split_end :
    (y : World × Ending) (next : World → World × Ending)
    → (elim y.1 as (λ _. World × Ending) [ done ↦ next y.0 | panicked ↦ (y.0, panicked) ])
      ≡ and_then y next
split_end (w, done) next = refl
split_end (w, panicked) next = refl

split :
    (x : World × Ending) (scan next : World → World × Ending)
    → let y = (elim x.1 as (λ _. World × Ending) [
      | done ↦ scan x.0
      | panicked ↦ (x.0, panicked)
    ]) in
      (elim y.1 as (λ _. World × Ending) [ done ↦ next y.0 | panicked ↦ (y.0, panicked) ])
      ≡ and_then x (λ w. and_then (scan w) next)
split (w, done) scan next = split_end (scan w) next
split (w, panicked) scan next = refl

-- The task, as what follows what.
network_task-then :
    (options : RoosterOptions) (links : List (Option Found)) (addrs : List (Option AddressMessage))
    (messages : List Message) (w : World)
    → network_task options true links addrs messages w
      ≡ and_then
          (scan_links options links w)
          (λ w'. and_then (scan_addresses addrs w') (listen_network options messages))
unfolding network_task scan_existing_interfaces
network_task-then options links addrs messages w =
    split (scan_links options links w) (scan_addresses addrs) (listen_network options messages)

-- The task, if netlink makes no error, handles the links, then the addresses that the scan finds,
-- then the messages, each as one message of the listener: a panic in any of these ends it there.
pub network_task-listens :
    (options : RoosterOptions) (links : List Found) (addrs : List AddressMessage)
    (messages : List Message) (w : World)
    → network_task options true (map some links) (map some addrs) messages w
      ≡ listen_network options (map as_link links ++ (map new_address addrs ++ messages)) w
network_task-listens options links addrs messages w =
    network_task-then options (map some links) (map some addrs) messages w
    ∙ and_then-cong (scan_links options (map some links) w)
        (λ w'. sym (scan_addresses-listen options addrs messages w'))
    ∙ sym (scan_links-listen options links (map new_address addrs ++ messages) w)

scan_links-broken :
    (options : RoosterOptions) (links : List Found) (more : List (Option Found)) (w : World)
    → scan_links options (map some links ++ (none ∷ more)) w
      ≡ ((listen_network options (map as_link links) w).0, panicked)
unfolding scan_links gather_link_info listen_network handle_message
scan_links-broken options [] more w = refl
scan_links-broken options ((os, lm) ∷ links) more w =
    let (w', ending) = store_link_info os options lm w in
    elim ending
      as (λ x.
        elim x as (λ _. World × Ending) [
          | done ↦ scan_links options (map some links ++ (none ∷ more)) w'
          | panicked ↦ (w', panicked)
        ]
        ≡ (
          (elim x as (λ _. World × Ending) [
            | done ↦ listen_network options (map as_link links) w'
            | panicked ↦ (w', panicked)
          ]).0,
          panicked,
        )) [ done ↦ scan_links-broken options links more w' | panicked ↦ refl ]

-- An error of netlink while the links are scanned ends the task for good: nothing is known but the
-- links that were found before it, and neither addresses nor messages are handled.
pub network_task-broken :
    (options : RoosterOptions) (links : List Found) (more : List (Option Found))
    (addrs : List (Option AddressMessage)) (messages : List Message) (w : World)
    → network_task options true (map some links ++ (none ∷ more)) addrs messages w
      ≡ ((listen_network options (map as_link links) w).0, panicked)
network_task-broken options links more addrs messages w =
    network_task-then options (map some links ++ (none ∷ more)) addrs messages w
    ∙ ap
        (λ x.
          and_then x (λ w'. and_then (scan_addresses addrs w') (listen_network options messages)))
        (scan_links-broken options links more w)
