-- ===== src/Base/Maps.antt =====
-- Go's maps: association lists whose order stands for the order in which `range` visits them.
use goread.Base.Tests.{if◌then◌else◌, is_some}
use goread.Base.Eq.{Eq, ◌==◌, beq_refl}
use goread.Base.Lists.{length}
use Prim.Native.Nat.{suc, ◌≤◌, ◌<◌}
use mathlib.Core.Path.{◌≡◌, refl}
use mathlib.Core.Bool.{Bool, true}
use mathlib.Core.Option.{Option, none, some}
use mathlib.Core.List.{List, [], ◌∷◌}
use native.Mathlib.Omega.{arith}

abbrev pub Map {ℓ κ} : Type ℓ → Type κ → Type (ℓ ⊔ κ)
Map K V = List (K × V)

-- `v` if the test passes.
abbrev pub guarded {κ} : {V : Type κ} → (V → Bool) → Option V → Option V
guarded p none = none
guarded p (some v) = if p v then some v else none

module _ {ℓ κ} {K : Type ℓ} {V : Type κ} ⦃e : Eq K⦄ where
  -- delete(m, k)
  unfoldable pub delete : K → Map K V → Map K V
  delete k [] = []
  delete k ((j, w) ∷ m) = if j == k then delete k m else (j, w) ∷ delete k m

  -- m[k] = v
  unfoldable pub insert : K → V → Map K V → Map K V
  insert k v [] = (k, v) ∷ []
  insert k v ((i, w) ∷ rest) = if i == k then (k, v) ∷ rest else (i, w) ∷ insert k v rest

  -- for k, v := range m { if !p(v) { delete(m, k) } }
  unfoldable pub keep : (V → Bool) → Map K V → Map K V
  keep p [] = []
  keep p ((j, w) ∷ m) = if p w then (j, w) ∷ keep p m else keep p m

  -- v, ok := m[k]
  unfoldable pub lookup : K → Map K V → Option V
  lookup k [] = none
  lookup k ((i, w) ∷ rest) = if i == k then some w else lookup k rest

  -- What a read finds after a write.
  pub lookup-insert :
      (written read : K) (value : V) (m : Map K V)
      → lookup read (insert written value m)
        ≡ (if written == read then some value else lookup read m)
  unfolding lookup insert
  lookup-insert k j value [] = refl
  lookup-insert k j value ((i, w) ∷ rest) =
      ground (arith, lookup-insert k j value rest, e.beq_iff i k, e.beq_iff k j, e.beq_iff i j)

  pub lookup-delete :
      (k j : K) (m : Map K V) → lookup j (delete k m) ≡ (if k == j then none else lookup j m)
  unfolding lookup delete
  lookup-delete k j [] = ground arith
  lookup-delete k j ((i, w) ∷ m) =
      ground (arith, e.beq_iff k j, e.beq_iff i k, e.beq_iff i j, lookup-delete k j m)

  -- No key stands twice.
  abbrev pub IsUnique : Map K V → Type κ
  IsUnique [] = Unit
  IsUnique ((k, v) ∷ m) = (lookup k m ≡ none) × IsUnique m

  pub insert-IsUnique : (k : K) (v : V) (m : Map K V) → IsUnique m → IsUnique (insert k v m)
  unfolding insert lookup
  insert-IsUnique k v [] u = (refl, tt)
  insert-IsUnique k v ((j, w) ∷ m) u =
      ground (arith, e.beq_iff j k, e.beq_iff k j, lookup-insert k j v m, insert-IsUnique k v m u.1)

  pub lookup-delete_self : (k : K) (m : Map K V) → lookup k (delete k m) ≡ none
  lookup-delete_self k m = rw (lookup-delete, beq_refl)

  pub delete-IsUnique : (k : K) (m : Map K V) → IsUnique m → IsUnique (delete k m)
  unfolding delete
  delete-IsUnique k [] u = tt
  delete-IsUnique k ((j, w) ∷ m) u =
      ground (arith, e.beq_iff j k, e.beq_iff k j, lookup-delete k j m, delete-IsUnique k m u.1)

  lookup-keep-none :
      (p : V → Bool) (k : K) (m : Map K V) → lookup k m ≡ none → lookup k (keep p m) ≡ none
  unfolding lookup keep
  lookup-keep-none p k [] h = refl
  lookup-keep-none p k ((j, w) ∷ m) h = ground (arith, lookup-keep-none p k m)

  -- Each key keeps its value if the value passes, and is gone if it does not.
  pub lookup-keep :
      (p : V → Bool) (k : K) (m : Map K V)
      → IsUnique m
      → lookup k (keep p m) ≡ guarded p (lookup k m)
  unfolding lookup keep
  lookup-keep p k [] u = refl
  lookup-keep p k ((j, w) ∷ m) u =
      ground (arith, e.beq_iff j k, lookup-keep p k m u.1, lookup-keep-none p k m)

  pub keep-IsUnique : (p : V → Bool) (m : Map K V) → IsUnique m → IsUnique (keep p m)
  unfolding keep
  keep-IsUnique p [] u = tt
  keep-IsUnique p ((j, w) ∷ m) u = ground (arith, lookup-keep-none p j m, keep-IsUnique p m u.1)

  pub length-insert :
      (k : K) (v : V) (m : Map K V)
      → length (insert k v m) ≡ (if is_some (lookup k m) then length m else suc (length m))
  unfolding insert lookup
  length-insert k v [] = refl
  length-insert k v ((j, w) ∷ m) = ground (arith, length-insert k v m)

  pub length-delete-le : (k : K) (m : Map K V) → length (delete k m) ≤ length m
  unfolding delete
  length-delete-le k [] = omega arith
  length-delete-le k ((j, w) ∷ m) = ground (arith, length-delete-le k m)

  pub length-delete-lt :
      (k : K) (m : Map K V) → is_some (lookup k m) ≡ true → length (delete k m) < length m
  unfolding delete lookup
  length-delete-lt k [] h = cc
  length-delete-lt k ((j, w) ∷ m) h = ground (arith, length-delete-lt k m, length-delete-le k m)

  pub length-keep-le : (p : V → Bool) (m : Map K V) → length (keep p m) ≤ length m
  unfolding keep
  length-keep-le p [] = omega arith
  length-keep-le p ((j, w) ∷ m) = ground (arith, length-keep-le p m)
