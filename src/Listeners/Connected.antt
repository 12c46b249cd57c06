-- ===== src/Listeners/Connected.antt =====
-- The listeners as a function from interfaces, kinds of connection and ports to connections.
use mathlib.Core.Option.{some-injective}
use swift_net.Base.{
  ℕ, ◌^◌, ◌<◌, ◌≡◌, ◌≢◌, refl, sym, ap, ◌∙◌, inl, inr, append-nil, Bool, false, ◌&&◌, Option, none,
  some, List, [], ◌∷◌, ◌++◌, if◌then◌else◌, ◌==◌, Bool-cases, Option-cases, ==_refl, ==_ne,
  ℕ_discrete, some_of_none,
}
use swift_net.Base.Buffer.{little_endian}
use swift_net.Hashmap.{insert, get, same_key}
use swift_net.Hashmap.Key.{same_key→eq, same_key_refl}
use swift_net.Hashmap.View.{view, IsValid}
use swift_net.Listeners.{
  ConnectionType, ListenerMaps, Listeners, insert_connection, new_listener, check_existing_listener,
}
use swift_net.Listeners.Maps.{
  map_of, same_type, IsReady, insert_connection_lem, new_listener-IsReady, new_listener-view,
  get-insert,
}

-- What a list of connections gets, where it is the one that is added to.
abbrev pub added : Bool → ℕ → List ℕ
added same connection = if same then connection ∷ [] else []

module _ (seed : ℕ) where
  -- The connections of a kind under a port, at the listener that was found.
  unfoldable pub connections : Option ℕ → (ℕ → ListenerMaps) → ConnectionType → List ℕ → List ℕ
  connections none memory t q = []
  connections (some p) memory t q = view seed (map_of t (memory p)) q

  -- What a table of listeners has to be like: the tables are valid and have room to grow, and no two
  -- interfaces share a listener.
  pub data IsSound (state : Listeners) : Type 0 where
    sound :
        IsValid seed state.listeners
        → state.listeners.capacity < 2 ^ 30
        → ((n n' : List ℕ) (p : ℕ)
            → get seed n state.listeners ≡ some p
            → get seed n' state.listeners ≡ some p
            → n ≡ n')
        → ((n : List ℕ) (p : ℕ)
            → get seed n state.listeners ≡ some p
            → IsReady seed (state.memory p))
        → IsSound state

  abbrev pub connections_at : Listeners → List ℕ → ConnectionType → ℕ → List ℕ
  connections_at state n t port =
      connections (get seed n state.listeners) state.memory t (little_endian 2 port)

  different :
      (state : Listeners) (n name : List ℕ) (o : Option ℕ) (p : ℕ)
      → get seed name state.listeners ≡ some p
      → get seed n state.listeners ≡ o
      → o ≢ some p
      → same_key n name ≡ false
  different state n name o p given other ne = elim (Bool-cases (same_key n name)) [
    | inr e ↦ e
    | inl e ↦
        absurd
          (ne (sym other ∙ ap (λ k. get seed k state.listeners) (same_key→eq n name e) ∙ given))
  ]

  existing_lem :
      (port connection : ℕ) (name : List ℕ) (t : ConnectionType) (state : Listeners) (p : ℕ)
      → IsSound state
      → get seed name state.listeners ≡ some p
      → (n : List ℕ) (t' : ConnectionType) (port' : ℕ)
      → connections
          (get seed n state.listeners)
          (λ x.
            if x == p
            then insert_connection seed t port connection (state.memory x)
            else state.memory x)
          t'
          (little_endian 2 port')
        ≡ connections_at state n t' port'
          ++ added
              (same_key n name
                && (same_type t' t && same_key (little_endian 2 port') (little_endian 2 port)))
              connection
  unfolding connections
  existing_lem port connection name t state p (sound valid small apart each) given n t' port' =
      elim (Option-cases (get seed n state.listeners)) [
        | inl missing ↦
            rw (missing, different state n name none p given missing (λ e. some_of_none p e)) refl
        | inr (p', found) ↦ elim (ℕ_discrete p' p) [
          | yes e ↦
              rw (found, e, ==_refl p, apart n name p (found ∙ ap some e) given, same_key_refl name)
                (insert_connection_lem seed t t' port connection (state.memory p)
                  (little_endian 2 port') (each name p given))
          | no ne ↦
              let off : (p' == p) ≡ false = ==_ne p' p ne in
              rw
                (
                  found,
                  off,
                  different state n name (some p') p given found (λ e. ne (some-injective p' p e)),
                  append-nil (view seed (map_of t' (state.memory p')) (little_endian 2 port')),
                )
                refl
        ]
      ]

  new_lem :
      (memory_usage allocated port connection : ℕ) (name : List ℕ) (t : ConnectionType)
      (state : Listeners)
      → 0 < memory_usage
      → memory_usage < 2 ^ 24
      → IsSound state
      → ((n : List ℕ) → get seed n state.listeners ≢ some allocated)
      → get seed name state.listeners ≡ none
      → (n : List ℕ) (t' : ConnectionType) (port' : ℕ)
      → connections
          (get seed n (insert seed name allocated state.listeners))
          (λ x.
            if x == allocated
            then insert_connection seed t port connection (new_listener memory_usage)
            else state.memory x)
          t'
          (little_endian 2 port')
        ≡ connections_at state n t' port'
          ++ added
              (same_key n name
                && (same_type t' t && same_key (little_endian 2 port') (little_endian 2 port)))
              connection
  unfolding connections
  new_lem memory_usage allocated port connection name t state some_memory small_memory
        (sound valid small apart each) fresh missing n t' port' =
      elim (Bool-cases (same_key n name)) [
        | inl e ↦
            rw
              (
                get-insert seed state.listeners name n allocated valid small missing,
                e,
                ==_refl allocated,
                same_key→eq n name e,
                missing,
              )
              (insert_connection_lem seed t t' port connection (new_listener memory_usage)
                  (little_endian 2 port')
                  (new_listener-IsReady seed memory_usage some_memory small_memory)
                ∙ ap
                    (λ l.
                      l
                      ++ added
                          (same_type t' t
                            && same_key (little_endian 2 port') (little_endian 2 port))
                          connection)
                    (new_listener-view seed memory_usage t' (little_endian 2 port') some_memory))
        | inr e ↦ elim (Option-cases (get seed n state.listeners)) [
          | inl none_there ↦
              rw
                (
                  get-insert seed state.listeners name n allocated valid small missing,
                  e,
                  none_there,
                )
                refl
          | inr (p', found) ↦
              let off : (p' == allocated) ≡ false =
                ==_ne p' allocated (λ k. fresh n (found ∙ ap some k)) in
              rw
                (
                  get-insert seed state.listeners name n allocated valid small missing,
                  e,
                  found,
                  off,
                  append-nil (view seed (map_of t' (state.memory p')) (little_endian 2 port')),
                )
                refl
        ]
      ]

  -- check_existing_listener adds the connection behind those of its kind that are under its port at
  -- the interface, and changes nothing at another port, of the other kind, or at another interface,
  -- whether the interface had a listener or not; the listener that it returns is that of the
  -- interface. For tables that are valid and have room to grow, interfaces that share no listener, a
  -- memory usage from 1 to 2^24 - 1, and an address that no listener has.
  pub check_existing_listener_lem :
      (memory_usage allocated port connection : ℕ) (name : List ℕ) (t : ConnectionType)
      (state : Listeners)
      → 0 < memory_usage
      → memory_usage < 2 ^ 24
      → IsSound state
      → ((n : List ℕ) → get seed n state.listeners ≢ some allocated)
      → let after =
          check_existing_listener seed memory_usage allocated name t port connection state in
        (get seed name after.1.listeners ≡ some after.0)
        × ((n : List ℕ) (t' : ConnectionType) (port' : ℕ)
            → connections_at after.1 n t' port'
              ≡ connections_at state n t' port'
                ++ added
                    (same_key n name
                      && (same_type t' t
                          && same_key (little_endian 2 port') (little_endian 2 port)))
                    connection)
  unfolding check_existing_listener
  check_existing_listener_lem memory_usage allocated port connection name t state some_memory
        small_memory (sound valid small apart each) fresh =
      elim (Option-cases (get seed name state.listeners)) [
        | inr (p, given) ↦
            rw (check_existing_listener, given)
              (
                given,
                existing_lem port connection name t state p (sound valid small apart each) given,
              )
        | inl missing ↦
            rw (check_existing_listener, missing)
              (
                get-insert seed state.listeners name name allocated valid small missing
                    ∙ rw (same_key_refl name) refl,
                new_lem memory_usage allocated port connection name t state some_memory small_memory
                    (sound valid small apart each) fresh missing,
              )
      ]
