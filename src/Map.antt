-- ===== src/Map.antt =====
-- `BTreeMap<String, V>` and `HashMap<String, V>` of the standard library: an association list in
-- key order. What the program reads of a `HashMap` does not depend on its iteration order, so both
-- are this type.
pub mod Order
pub mod Laws
use oxide_kv.Common.{
  Bool, true, false, Option, none, some, List, [], ◌∷◌, Ordering, if◌then◌else◌, map,
}
use oxide_kv.Text.{Str, cmp, ◌=s◌}

abbrev pub Map {ℓ} : Type ℓ → Type ℓ
Map V = List (Str × V)

module _ {ℓ} {V : Type ℓ} where
  unfoldable pub get : Str → Map V → Option V
  get k [] = none
  get k ((j, v) ∷ m) = if j =s k then some v else get k m

  unfoldable pub insert : Str → V → Map V → Map V
  insert k v [] = (k, v) ∷ []
  insert k v ((j, w) ∷ m) =
      let rest = insert k v m in
      elim (cmp k j) [
        | Ordering.lt ↦ (k, v) ∷ (j, w) ∷ m
        | Ordering.eq ↦ (k, v) ∷ m
        | Ordering.gt ↦ (j, w) ∷ rest
      ]

  unfoldable pub remove : Str → Map V → Map V
  remove k [] = []
  remove k ((j, v) ∷ m) = let rest = remove k m in if j =s k then rest else (j, v) ∷ rest

  abbrev pub contains_key : Str → Map V → Bool
  contains_key k m = elim (get k m) [ none ↦ false | some _ ↦ true ]

  abbrev pub values : Map V → List V
  values m = map (λ e. e.1) m
