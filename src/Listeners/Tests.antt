-- ===== src/Listeners/Tests.antt =====
-- The first client of an interface.
use mathlib.Core.List.{head?}
use swift_net.Base.{
  ℕ, ◌≡◌, sym, ap, ◌∙◌, ◌&&◌, none, some, List, [], ◌∷◌, ◌++◌, arith, some_of_none,
}
use swift_net.Base.Buffer.{little_endian}
use swift_net.Hashmap.{create, get, same_key}
use swift_net.Hashmap.Laws.{create_lem, capacity-create, get-view}
use swift_net.Listeners.{
  ConnectionType, connection_type_client, Listeners, new_listener, check_existing_listener,
  remove_listener,
}
use swift_net.Listeners.Connected.{
  IsSound, sound, connections_at, added, check_existing_listener_lem,
}
use swift_net.Listeners.Closed.{remove_listener-check_existing_listener}
use swift_net.Listeners.Maps.{same_type}

-- "lo"
abbrev loopback : List ℕ
loopback = 0x6c ∷ 0x6f ∷ []

abbrev no_listeners : Listeners
no_listeners = record { listeners = create 1; memory = λ p. new_listener 1 }

get_nothing : (n : List ℕ) → get 31 n no_listeners.listeners ≡ none
get_nothing n =
    let made = create_lem {V = ℕ} 31 1 (omega arith) in
    get-view 31 (create 1) n made.0 ∙ ap head? (made.1 n)

no_listeners-IsSound : IsSound 31 no_listeners
no_listeners-IsSound =
    sound (create_lem {V = ℕ} 31 1 (omega arith)).0 (rw (capacity-create ℕ 1) (omega arith))
      (λ n n' p found found'. some_of_none p (sym (get_nothing n) ∙ found))
      (λ n p found. some_of_none p (sym (get_nothing n) ∙ found))

abbrev after : ℕ × Listeners
after = check_existing_listener 31 1 4096 loopback connection_type_client 4000 8192 no_listeners

check_existing_listener_lem_example :
    (get 31 loopback after.1.listeners ≡ some after.0)
    × ((n : List ℕ) (t' : ConnectionType) (port' : ℕ)
        → connections_at 31 after.1 n t' port'
          ≡ connections_at 31 no_listeners n t' port'
            ++ added
                (same_key n loopback
                  && (same_type t' connection_type_client
                      && same_key (little_endian 2 port') (little_endian 2 4000)))
                8192)
check_existing_listener_lem_example =
    check_existing_listener_lem 31 1 4096 4000 8192 loopback connection_type_client no_listeners
      (omega arith) (omega arith) no_listeners-IsSound
      (λ n found. some_of_none 4096 (sym (get_nothing n) ∙ found))

remove_listener-check_existing_listener_example :
    let closed = remove_listener 31 loopback connection_type_client 4000 after.1 in
    get 31 (0x65 ∷ []) closed.listeners ≡ get 31 (0x65 ∷ []) no_listeners.listeners
remove_listener-check_existing_listener_example =
    remove_listener-check_existing_listener 31 1 4096 4000 8192 loopback connection_type_client
      no_listeners (0x65 ∷ []) (omega arith) (create_lem {V = ℕ} 31 1 (omega arith)).0
      (rw (capacity-create ℕ 1) (omega arith)) (get_nothing loopback)
