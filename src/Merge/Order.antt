-- ===== src/Merge/Order.antt =====
-- Clients that write to one file queue size updates in any order: updates that do not append commute.
use mathlib.Core.List.{Perm, Permᴰ}
use mathlib.Core.Logic.{∥∥₁_elim}
use native.Mathlib.Nat.{ℕ_set}
use gekko_fwd.Base.{ℕ, max, ◌≤◌, ◌≡◌, refl, List, [], ◌∷◌, map, arith, false, ◌∙◌, ap, All}
use gekko_fwd.Merge.{Operand, increase_size, ok}
use gekko_fwd.Merge.RoundTrip.{resize}
use gekko_fwd.Merge.Refinement.{resize_all}

-- The update that a write which ends at `size` queues.
abbrev pub grow : ℕ → Operand
grow size = increase_size size false

pub largest : List ℕ → ℕ → ℕ
largest [] n = n
largest (x ∷ xs) n = largest xs (max x n)

pub resize_all-grow : (xs : List ℕ) (n : ℕ) → resize_all (map grow xs) n ≡ ok (largest xs n)
unfolding resize_all largest resize
resize_all-grow [] n = refl
resize_all-grow (x ∷ xs) n = resize_all-grow xs (max x n)

largest-Permᴰ : {xs ys : List ℕ} → Permᴰ xs ys → (n : ℕ) → largest xs n ≡ largest ys n
unfolding largest
largest-Permᴰ Permᴰ.nil n = refl
largest-Permᴰ (Permᴰ.cons {a = a} {b = b} {l₂ = ys} e p) n =
    largest-Permᴰ p (max a n) ∙ ap (λ (k : ℕ). largest ys (max k n)) e
largest-Permᴰ (Permᴰ.swap {a = a} {b = b} {a' = c} {b' = d} {l = l} e f) n =
    ap (largest l) (omega arith)
largest-Permᴰ (Permᴰ.trans p q) n = largest-Permᴰ p n ∙ largest-Permᴰ q n

-- The size that a list of updates which do not append leaves does not depend on the order in
-- which they are queued.
pub resize_all-perm :
    (xs ys : List ℕ) (n : ℕ) → Perm xs ys → resize_all (map grow xs) n ≡ resize_all (map grow ys) n
resize_all-perm xs ys n p =
    rw (resize_all-grow xs n, resize_all-grow ys n)
      (ap ok (∥∥₁_elim p (ℕ_set (largest xs n) (largest ys n)) (λ d. largest-Permᴰ d n)))

largest_bound : (xs : List ℕ) (n : ℕ) → (n ≤ largest xs n) × All (λ x. x ≤ largest xs n) xs
unfolding largest
largest_bound [] n = (omega arith, tt)
largest_bound (x ∷ xs) n =
    let (low, each) = largest_bound xs (max x n) in (omega arith, (omega arith, each))

-- Updates which do not append all apply, and the size that they leave is at least the old one
-- and every update's.
pub resize_all-grow_covers :
    (xs : List ℕ) (n : ℕ)
    → (m : ℕ) × (resize_all (map grow xs) n ≡ ok m) × (n ≤ m) × All (λ x. x ≤ m) xs
resize_all-grow_covers xs n =
    let (low, each) = largest_bound xs n in (largest xs n, resize_all-grow xs n, low, each)
