-- ===== src/Streams/NumSet.antt =====
-- The key sets of the maps from stream numbers: lists without duplicates.
use gt_bbr.Prelude.{
  ℕ, ◌+◌, ◌≡◌, refl, subst, ◌≢◌, Bool, true, false, List, [], ◌∷◌, arith, ◌==◌, if◌then◌else◌,
  Bool-cases, length,
}

unfoldable pub contains : ℕ → List ℕ → Bool
contains n [] = false
contains n (m ∷ ms) = if n == m then true else contains n ms

-- Go's `delete`.
unfoldable pub delete : ℕ → List ℕ → List ℕ
delete n [] = []
delete n (m ∷ ms) = let rest = delete n ms in if n == m then ms else m ∷ rest

-- No number occurs twice.
abbrev pub HasNoRepeats : List ℕ → Type 0
HasNoRepeats [] = Unit {0}
HasNoRepeats (m ∷ ms) = (contains m ms ≡ false) × HasNoRepeats ms

pub length-delete :
    (n : ℕ) (ms : List ℕ) → contains n ms ≡ true → length (delete n ms) + 1 ≡ length ms
unfolding contains delete
length-delete n [] h = ground arith
length-delete n (m ∷ ms) h = ground (arith, length-delete n ms)

pub contains-delete :
    (k n : ℕ) (ms : List ℕ) → contains k (delete n ms) ≡ true → contains k ms ≡ true
unfolding contains delete
contains-delete k n [] h = h
contains-delete k n (m ∷ ms) h = ground (arith, contains-delete k n ms)

pub delete-HasNoRepeats : (n : ℕ) (ms : List ℕ) → HasNoRepeats ms → HasNoRepeats (delete n ms)
unfolding contains delete
delete-HasNoRepeats n [] s = tt
delete-HasNoRepeats n (m ∷ ms) s = ground (
  arith,
  delete-HasNoRepeats n ms s.1,
  contains-delete m n ms,
  Bool-cases (contains m (delete n ms)),
)

pub contains-deleted : (n : ℕ) (ms : List ℕ) → HasNoRepeats ms → contains n (delete n ms) ≡ false
unfolding contains delete
contains-deleted n [] s = refl
contains-deleted n (m ∷ ms) s = ground (arith, contains-deleted n ms s.1)

pub contains-delete-ne :
    (k n : ℕ) (ms : List ℕ) → HasNoRepeats ms → contains k (delete n ms) ≡ true → k ≢ n
contains-delete-ne k n ms s c e =
    let c' = subst (λ x. contains x (delete n ms) ≡ true) e c in
    ground (arith, contains-deleted n ms s)

pub delete-absent : (n : ℕ) (ms : List ℕ) → contains n ms ≡ false → delete n ms ≡ ms
unfolding contains delete
delete-absent n [] h = refl
delete-absent n (m ∷ ms) h = ground (arith, delete-absent n ms)

pub contains-other :
    (k n : ℕ) (ms : List ℕ) → k ≢ n → contains k ms ≡ true → contains k (delete n ms) ≡ true
unfolding contains delete
contains-other k n [] ne h = h
contains-other k n (m ∷ ms) ne h = ground (arith, contains-other k n ms ne)
