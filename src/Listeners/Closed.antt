-- ===== src/Listeners/Closed.antt =====
-- A connection comes to an interface without a listener, and goes again.
use mathlib.Core.List.{head?}
use swift_net.Base.{
  ℕ, ◌+◌, ◌%◌, ◌^◌, ◌<◌, ◌≡◌, refl, sym, ap, ◌∙◌, inl, inr, append-nil, none, some, List, [],
  Bool-cases, ==_refl,
}
use swift_net.Base.Buffer.{little_endian}
use swift_net.Hashmap.{HashMap, insert, remove, get, same_key}
use swift_net.Hashmap.Key.{same_key→eq, same_key_refl}
use swift_net.Hashmap.Laws.{insert_lem, remove_lem, get-view}
use swift_net.Hashmap.Sizes.{size-create, size-remove-insert}
use swift_net.Hashmap.View.{view, IsValid}
use swift_net.Listeners.{
  ConnectionType, connection_type_server, connection_type_client, Listeners, insert_connection,
  new_listener, check_existing_listener, remove_connection, remove_listener,
}
use swift_net.Listeners.Maps.{get-insert, empty_of_head}

module _ (seed : ℕ) where
  left_empty :
      (memory_usage port connection : ℕ) (t : ConnectionType)
      → 0 < memory_usage
      → let left =
          remove_connection seed t port
            (insert_connection seed t port connection (new_listener memory_usage)) in
        (left.servers.size + left.client_connections.size) % 2 ^ 32 ≡ 0
  unfolding remove_connection insert_connection new_listener
  left_empty memory_usage port connection connection_type_client some_memory =
      rw
        (
          size-remove-insert {V = ℕ} seed memory_usage (little_endian 2 port) connection
              some_memory,
          size-create ℕ memory_usage,
        )
        refl
  left_empty memory_usage port connection connection_type_server some_memory =
      rw
        (
          size-remove-insert {V = ℕ} seed memory_usage (little_endian 2 port) connection
              some_memory,
          size-create ℕ memory_usage,
        )
        refl

  get-remove-insert :
      (m : HashMap ℕ) (name q : List ℕ) (p : ℕ)
      → IsValid seed m
      → m.capacity < 2 ^ 30
      → get seed name m ≡ none
      → get seed q (remove seed name (insert seed name p m)) ≡ get seed q m
  get-remove-insert m name q p valid small missing =
      let inserted = insert_lem seed m name p small valid in
      let removed = remove_lem seed (insert seed name p m) name inserted.0 in
      let none_stored : view seed m name ≡ [] =
        empty_of_head seed _ (sym (get-view seed m name valid) ∙ missing) in
      get-view seed (remove seed name (insert seed name p m)) q removed.0
      ∙ ap head? (removed.1 q)
      ∙ elim (Bool-cases (same_key q name)) [
        | inl e ↦
            rw (e, same_key→eq q name e, inserted.1 name, same_key_refl name, none_stored, missing)
              refl
        | inr e ↦
            rw (e, inserted.1 q, e, append-nil (view seed m q)) (sym (get-view seed m q valid))
      ]

  -- A connection to an interface that has no listener, and its removal, leave every interface with the
  -- listener that it had, and this one with none. For a table of listeners that is valid and has room
  -- to grow, and a positive memory usage.
  pub remove_listener-check_existing_listener :
      (memory_usage allocated port connection : ℕ) (name : List ℕ) (t : ConnectionType)
      (state : Listeners) (n : List ℕ)
      → 0 < memory_usage
      → IsValid seed state.listeners
      → state.listeners.capacity < 2 ^ 30
      → get seed name state.listeners ≡ none
      → let closed =
          remove_listener seed name t port
            (check_existing_listener seed memory_usage allocated name t port connection state).1 in
        get seed n closed.listeners ≡ get seed n state.listeners
  unfolding check_existing_listener remove_listener
  remove_listener-check_existing_listener memory_usage allocated port connection name t state n
        some_memory valid small missing =
      let there : get seed name (insert seed name allocated state.listeners) ≡ some allocated =
        get-insert seed state.listeners name name allocated valid small missing
        ∙ rw (same_key_refl name) refl in
      simp
        (
          check_existing_listener,
          remove_listener,
          missing,
          there,
          ==_refl allocated,
          left_empty memory_usage port connection t some_memory,
        )
        (get-remove-insert state.listeners name n allocated valid small missing)
