-- ===== src/Map/Laws.antt =====
-- What a lookup returns after an insertion or a removal.
use oxide_kv.Common.{◌≡◌, refl, none, some, [], ◌∷◌, arith, if◌then◌else◌}
use oxide_kv.Text.{Str, ◌=s◌, cmp_refl, eq_of_cmp}
use oxide_kv.Map.{Map, get, insert, remove}

module _ {ℓ} {V : Type ℓ} where
  pub get-insert :
      (k j : Str) (v : V) (m : Map V) → get j (insert k v m) ≡ (if k =s j then some v else get j m)
  unfolding get insert
  get-insert k j v [] = refl
  get-insert k j v ((i, w) ∷ m) = ground (
    arith,
    eq_of_cmp k i,
    eq_of_cmp k j,
    eq_of_cmp i j,
    cmp_refl k,
    cmp_refl j,
    cmp_refl i,
    get-insert k j v m,
  )

  pub get-remove : (k j : Str) (m : Map V) → get j (remove k m) ≡ (if k =s j then none else get j m)
  unfolding get remove
  get-remove k j [] = ground arith
  get-remove k j ((i, w) ∷ m) = ground (
    arith,
    eq_of_cmp k j,
    eq_of_cmp i k,
    eq_of_cmp i j,
    cmp_refl k,
    cmp_refl j,
    cmp_refl i,
    get-remove k j m,
  )

  pub get-insert_self : (k : Str) (v : V) (m : Map V) → get k (insert k v m) ≡ some v
  get-insert_self k v m = ground (arith, get-insert k k v m, cmp_refl k)

pub ruleset map_laws = (get-insert, get-remove)
