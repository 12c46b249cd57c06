-- ===== src/Queue/Links.antt =====
-- A queue in memory as the list of its nodes, from the first to the last.
use swift_net.Base.{◌≡◌, ◌≢◌, refl, sym, ◌∙◌, some, List, [], ◌∷◌, ◌++◌, arith}
use swift_net.Queue.{Ptr, null, Node, Queue, Memory, write, empty}

module _ {P : Type 0} where
  -- The address is that of no listed node.
  abbrev pub Absent : Ptr → List (Ptr × P) → Type 0
  Absent p [] = Unit
  Absent p (y ∷ ys) = (p ≢ y.0) × Absent p ys

  -- The nodes at `x` and behind it, each linked to the next, up to `last`.
  abbrev pub Links : Memory P → Ptr → Ptr × P → List (Ptr × P) → Type 0
  Links memory last x [] =
      (x.0 ≢ null) × (last ≡ x.0) × (memory x.0 ≡ some (record { payload = x.1; next = null }))
  Links memory last x (y ∷ ys) =
      (x.0 ≢ null)
      × (memory x.0 ≡ some (record { payload = x.1; next = y.0 }))
      × Absent x.0 (y ∷ ys)
      × Links memory last y ys

  abbrev pub Holds : Memory P → Queue → List (Ptr × P) → Type 0
  Holds memory queue [] = (queue.first_node ≡ null) × (queue.last_node ≡ null)
  Holds memory queue (x ∷ xs) = (queue.first_node ≡ x.0) × Links memory queue.last_node x xs

  -- A write elsewhere leaves the links alone.
  pub Links-write :
      (memory : Memory P) (last p : Ptr) (node : Node P) (x : Ptr × P) (xs : List (Ptr × P))
      → Absent p (x ∷ xs)
      → Links memory last x xs
      → Links (write memory p node) last x xs
  Links-write memory last p node x [] away h = (h.0, h.1, ground arith)
  Links-write memory last p node x (y ∷ ys) away h =
      (h.0, ground arith, h.2, Links-write memory last p node y ys away.1 h.3)

  pub Links-last :
      (memory : Memory P) (last p : Ptr) (x : Ptr × P) (xs : List (Ptr × P))
      → Absent p (x ∷ xs)
      → Links memory last x xs
      → p ≢ last
  Links-last memory last p x [] away h = λ e. away.0 (e ∙ h.1)
  Links-last memory last p x (y ∷ ys) away h = Links-last memory last p y ys away.1 h.3

  pub Absent-append :
      (p q : Ptr) (payload : P) (xs : List (Ptr × P))
      → Absent p xs
      → p ≢ q
      → Absent p (xs ++ ((q, payload) ∷ []))
  Absent-append p q payload [] h n = (n, tt)
  Absent-append p q payload (y ∷ ys) h n = (h.0, Absent-append p q payload ys h.1 n)

  pub last_node_lem :
      (memory : Memory P) (last : Ptr) (x : Ptr × P) (xs : List (Ptr × P))
      → Links memory last x xs
      → (last ≢ null) × (node : Node P) × (memory last ≡ some node)
  last_node_lem memory last x [] h =
      (λ e. h.0 (sym h.1 ∙ e), record { payload = x.1; next = null }, rw h.1 h.2)
  last_node_lem memory last x (y ∷ ys) h = last_node_lem memory last y ys h.3

  -- Linking a node behind the last one.
  pub Links-append :
      (memory : Memory P) (last p : Ptr) (payload : P) (node : Node P) (x : Ptr × P)
      (xs : List (Ptr × P))
      → p ≢ null
      → memory p ≡ some (record { payload = payload; next = null })
      → memory last ≡ some node
      → Absent p (x ∷ xs)
      → Links memory last x xs
      → Links (write memory last (record node { next = p })) p x (xs ++ ((p, payload) ∷ []))
  Links-append memory last p payload node x [] pos new old away h =
      (h.0, ground arith, (λ e. away.0 (sym e), tt), (pos, refl, ground arith))
  Links-append memory last p payload node x (y ∷ ys) pos new old away h =
      let inner : x.0 ≢ last = Links-last memory last x.0 y ys h.2 h.3 in
      (
        h.0,
        ground arith,
        Absent-append x.0 p payload (y ∷ ys) h.2 (λ e. away.0 (sym e)),
        Links-append memory last p payload node y ys pos new old away.1 h.3,
      )

  -- The first node of a queue.
  pub first_node-Holds :
      (memory : Memory P) (queue : Queue) (x : Ptr × P) (xs : List (Ptr × P))
      → Holds memory queue (x ∷ xs)
      → (x.0 ≢ null)
        × Absent x.0 xs
        × (next : Ptr) × (memory x.0 ≡ some (record { payload = x.1; next = next }))
  first_node-Holds memory queue x [] h = (h.1.0, tt, null, h.1.2)
  first_node-Holds memory queue x (y ∷ ys) h = (h.1.0, h.1.2, y.0, h.1.1)

  -- No node is in an empty queue.
  pub empty-Absent :
      (memory : Memory P) (p : Ptr) (xs : List (Ptr × P)) → Holds memory empty xs → Absent p xs
  empty-Absent memory p [] h = tt
  empty-Absent memory p (x ∷ []) h = absurd (h.1.0 (sym h.0))
  empty-Absent memory p (x ∷ y ∷ ys) h = absurd (h.1.0 (sym h.0))
