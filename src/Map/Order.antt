-- ===== src/Map/Order.antt =====
-- The order of the keys of a map and its operations.
use oxide_kv.Common.{◌≡◌, none, [], ◌∷◌, arith, Ordering}
use oxide_kv.Text.{Str, cmp, eq_of_cmp, lt_of_gt, lt_trans, cmp_refl}
use oxide_kv.Map.{Map, get, insert, remove}

infix 50 ◌≺◌
abbrev pub ◌≺◌ : Str → Str → Type 0
a ≺ b = cmp a b ≡ Ordering.lt

module _ {ℓ} {V : Type ℓ} where
  -- `k` is less than every key.
  abbrev pub Below : Str → Map V → Type 0
  Below k [] = Unit
  Below k ((j, v) ∷ m) = (k ≺ j) × Below k m

  abbrev pub IsSorted : Map V → Type 0
  IsSorted [] = Unit
  IsSorted ((k, v) ∷ m) = Below k m × IsSorted m

  pub Below-trans : (a b : Str) (m : Map V) → a ≺ b → Below b m → Below a m
  Below-trans a b [] h s = tt
  Below-trans a b ((j, v) ∷ m) h s = (lt_trans a b j h s.0, Below-trans a b m h s.1)

  Below-insert : (a k : Str) (v : V) (m : Map V) → a ≺ k → Below a m → Below a (insert k v m)
  unfolding insert
  Below-insert a k v [] h s = (h, tt)
  Below-insert a k v ((j, w) ∷ m) h s = ground (arith, Below-insert a k v m h s.1)

  pub insert-IsSorted : (k : Str) (v : V) (m : Map V) → IsSorted m → IsSorted (insert k v m)
  unfolding insert
  insert-IsSorted k v [] s = (tt, tt)
  insert-IsSorted k v ((j, w) ∷ m) s = ground (
    arith,
    insert-IsSorted k v m s.1,
    Below-insert j k v m,
    Below-trans k j m,
    eq_of_cmp k j,
    lt_of_gt k j,
  )

  Below-remove : (a k : Str) (m : Map V) → Below a m → Below a (remove k m)
  unfolding remove
  Below-remove a k [] s = tt
  Below-remove a k ((j, w) ∷ m) s = ground (arith, Below-remove a k m s.1)

  pub remove-IsSorted : (k : Str) (m : Map V) → IsSorted m → IsSorted (remove k m)
  unfolding remove
  remove-IsSorted k [] s = tt
  remove-IsSorted k ((j, w) ∷ m) s = ground (arith, remove-IsSorted k m s.1, Below-remove j k m s.0)

  -- A key below all others is absent.
  pub get-Below : (k : Str) (m : Map V) → Below k m → get k m ≡ none
  unfolding get
  get-Below k [] s = ground arith
  get-Below k ((j, w) ∷ m) s = ground (arith, get-Below k m s.1, eq_of_cmp j k, cmp_refl k)
