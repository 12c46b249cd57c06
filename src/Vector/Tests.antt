-- ===== src/Vector/Tests.antt =====
-- A vector with room for one pointer.
use swift_net.Base.{
  ℕ, zero, suc, ◌≤◌, ◌≡◌, refl, ap, some, List, [], ◌∷◌, length, replicate, take, arith,
}
use swift_net.Vector.{Vector, vector_create, vector_push}
use swift_net.Vector.Pushed.{reallocates, IsRoomy, roomy, pointers, vector_push_lem}

-- The first `n` words of a memory, and zeros where it has less.
abbrev realloc : List ℕ → ℕ → List ℕ
realloc memory zero = []
realloc [] (suc n) = 0 ∷ realloc [] n
realloc (x ∷ memory) (suc n) = x ∷ realloc memory n

gives : (memory : List ℕ) (n : ℕ) → length (realloc memory n) ≡ n
gives [] zero = refl
gives (x ∷ memory) zero = refl
gives [] (suc n) = ap suc (gives [] n)
gives (x ∷ memory) (suc n) = ap suc (gives memory n)

keeps :
    (memory : List ℕ) (n k : ℕ)
    → k ≤ n
    → k ≤ length memory
    → take k (realloc memory n) ≡ take k memory
keeps memory n zero le le' = refl
keeps [] n (suc k) le le' = absurd (omega arith)
keeps (x ∷ memory) zero (suc k) le le' = absurd (omega arith)
keeps (x ∷ memory) (suc n) (suc k) le le' =
    ap (◌∷◌ x) (keeps memory n k (omega arith) (omega arith))

abbrev full : Vector
full = record { data_ptr = 4096 ∷ []; size = 1; capacity = 1 }

full_run : vector_push realloc 4096 (vector_create (λ n. replicate n 0) 1) ≡ some full
unfolding vector_push vector_create
full_run = refl

vector_push_lem_example :
    (vector' : Vector) × (vector_push realloc 8192 full ≡ some vector')
    × IsRoomy vector'
    × (pointers vector' ≡ 4096 ∷ 8192 ∷ [])
vector_push_lem_example =
    vector_push_lem realloc 8192 full (reallocates gives keeps)
      (roomy refl (omega arith) (omega arith)) (omega arith)
