-- ===== src/Base/Entries.antt =====
-- What holds of every value of an association map.
use goread.Base.Tests.{Bool-cases}
use goread.Base.Eq.{Eq, ◌==◌}
use goread.Base.Maps.{Map, lookup, insert, delete, keep}
use mathlib.Core.Path.{◌≡◌, subst}
use mathlib.Core.Logic.{inl, inr}
use mathlib.Core.Bool.{Bool}
use mathlib.Core.Option.{some}
use mathlib.Core.List.{[], ◌∷◌}
use native.Mathlib.Omega.{arith}

module _ {ℓ κ μ} {K : Type ℓ} {V : Type κ} ⦃e : Eq K⦄ (P : V → Type μ) where
  abbrev pub Every : Map K V → Type μ
  Every [] = Unit
  Every ((_, v) ∷ m) = P v × Every m

  pub Every-insert : (k : K) (v : V) (m : Map K V) → P v → Every m → Every (insert k v m)
  unfolding insert
  Every-insert k v [] p h = (p, tt)
  Every-insert k v ((j, w) ∷ m) p h = elim (Bool-cases (j == k)) [
    | inl here ↦ rw here (p, h.1)
    | inr later ↦ rw later (h.0, Every-insert k v m p h.1)
  ]

  pub Every-delete : (k : K) (m : Map K V) → Every m → Every (delete k m)
  unfolding delete
  Every-delete k [] h = tt
  Every-delete k ((j, w) ∷ m) h = elim (Bool-cases (j == k)) [
    | inl here ↦ rw here (Every-delete k m h.1)
    | inr later ↦ rw later (h.0, Every-delete k m h.1)
  ]

  pub Every-keep : (p : V → Bool) (m : Map K V) → Every m → Every (keep p m)
  unfolding keep
  Every-keep p [] h = tt
  Every-keep p ((j, w) ∷ m) h = elim (Bool-cases (p w)) [
    | inl kept ↦ rw kept (h.0, Every-keep p m h.1)
    | inr dropped ↦ rw dropped (Every-keep p m h.1)
  ]

  pub Every-lookup : (k : K) (v : V) (m : Map K V) → Every m → lookup k m ≡ some v → P v
  unfolding lookup
  Every-lookup k v [] h found = cc
  Every-lookup k v ((j, w) ∷ m) h found = elim (Bool-cases (j == k)) [
    | inl here ↦ let same : w ≡ v = ground arith in subst P same h.0
    | inr later ↦ Every-lookup k v m h.1 (ground arith)
  ]
