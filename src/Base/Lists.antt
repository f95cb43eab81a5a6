-- ===== src/Base/Lists.antt =====
-- Lists measured by native numbers, under the library's names.
use Prim.Native.Nat.{ℕ, zero, suc, ◌+◌}
use mathlib.Core.Option.{Option, none, some}
use mathlib.Core.Bool.{Bool}
use mathlib.Core.List.{List, [], ◌∷◌, ◌++◌}
use mathlib.Core.Path.{◌≡◌, refl}
use native.Mathlib.Omega.{arith}
use goread.Base.Tests.{if◌then◌else◌}

module _ {ℓ} {A : Type ℓ} where
  abbrev pub length : List A → ℕ
  length [] = 0
  length (x ∷ xs) = suc (length xs)

  abbrev pub take : ℕ → List A → List A
  take zero xs = []
  take (suc n) [] = []
  take (suc n) (x ∷ xs) = x ∷ take n xs

  abbrev pub drop : ℕ → List A → List A
  drop zero xs = xs
  drop (suc n) [] = []
  drop (suc n) (x ∷ xs) = drop n xs

  abbrev pub get_elem? : List A → ℕ → Option A
  get_elem? [] i = none
  get_elem? (x ∷ xs) zero = some x
  get_elem? (x ∷ xs) (suc i) = get_elem? xs i

  pub length-append : (front back : List A) → length (front ++ back) ≡ length front + length back
  length-append [] back = omega arith
  length-append (_ ∷ front) back = omega (arith, length-append front back)

  -- The elements that pass a test, in their order.
  abbrev pub select : (A → Bool) → List A → List A
  select p [] = []
  select p (x ∷ xs) = if p x then x ∷ select p xs else select p xs

-- A predicate on every element, by recursion, so that it computes to tuples.
abbrev pub All {ℓ κ} : {A : Type ℓ} → (A → Type κ) → List A → Type κ
All P [] = Unit
All P (x ∷ xs) = P x × All P xs

module _ {ℓ} {A : Type ℓ} where
  abbrev pub concat : List (List A) → List A
  concat [] = []
  concat (xs ∷ xss) = xs ++ concat xss

  -- What is still put in the first chunk, which has room for some more, and the chunks after it.
  abbrev pub fill : ℕ → ℕ → List A → List A × List (List A)
  fill size room [] = ([], [])
  fill size zero (x ∷ xs) = let (chunk, later) = fill size size xs in ([], (x ∷ chunk) ∷ later)
  fill size (suc room) (x ∷ xs) = let (chunk, later) = fill size room xs in (x ∷ chunk, later)

  -- Chunks of `size + 1` elements, the last of which may be shorter.
  abbrev pub chunks : ℕ → List A → List (List A)
  chunks size [] = []
  chunks size (x ∷ xs) = let (chunk, later) = fill size size xs in (x ∷ chunk) ∷ later

  concat-fill :
      (size room : ℕ) (xs : List A) → (fill size room xs).0 ++ concat (fill size room xs).1 ≡ xs
  concat-fill size room [] = refl
  concat-fill size zero (x ∷ xs) = cc (concat-fill size size xs)
  concat-fill size (suc room) (x ∷ xs) = cc (concat-fill size room xs)

  pub concat-chunks : (size : ℕ) (xs : List A) → concat (chunks size xs) ≡ xs
  concat-chunks size [] = refl
  concat-chunks size (x ∷ xs) = cc (concat-fill size size xs)
