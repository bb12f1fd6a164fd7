-- ===== src/Text.antt =====
-- Rust's `String` and `str`: the bytes of a text, with the byte order of `Ord for str` that
-- `BTreeMap<String, _>` and the range tests of the SSTables go by.
use oxide_kv.Common.{ℕ, ◌≡◌, refl, ◌↔◌, Bool, true, false, List, [], ◌∷◌, arith, compare, Ordering}

abbrev pub Str : Type 0
Str = List ℕ

-- `str::cmp`
unfoldable pub cmp : Str → Str → Ordering
cmp [] [] = Ordering.eq
cmp [] (y ∷ ys) = Ordering.lt
cmp (x ∷ xs) [] = Ordering.gt
cmp (x ∷ xs) (y ∷ ys) =
    let rest = cmp xs ys in
    elim (compare x y) [
      | Ordering.lt ↦ Ordering.lt
      | Ordering.gt ↦ Ordering.gt
      | Ordering.eq ↦ rest
    ]

infix 50 ◌=s◌
-- `==` of texts
abbrev pub ◌=s◌ : Str → Str → Bool
a =s b = elim (cmp a b) [ Ordering.eq ↦ true | _ ↦ false ]

pub cmp_refl : (a : Str) → cmp a a ≡ Ordering.eq
unfolding cmp
cmp_refl [] = refl
cmp_refl (x ∷ xs) = ground (arith, cmp_refl xs)

pub eq_of_cmp : (a b : Str) → cmp a b ≡ Ordering.eq → a ≡ b
unfolding cmp
eq_of_cmp [] [] h = refl
eq_of_cmp [] (y ∷ ys) h = ground arith
eq_of_cmp (x ∷ xs) [] h = ground arith
eq_of_cmp (x ∷ xs) (y ∷ ys) h = ground (arith, eq_of_cmp xs ys)

pub gt_of_lt : (a b : Str) → cmp a b ≡ Ordering.lt → cmp b a ≡ Ordering.gt
unfolding cmp
gt_of_lt [] [] h = ground arith
gt_of_lt [] (y ∷ ys) h = refl
gt_of_lt (x ∷ xs) [] h = ground arith
gt_of_lt (x ∷ xs) (y ∷ ys) h = ground (arith, gt_of_lt xs ys)

pub lt_of_gt : (a b : Str) → cmp a b ≡ Ordering.gt → cmp b a ≡ Ordering.lt
unfolding cmp
lt_of_gt [] [] h = ground arith
lt_of_gt [] (y ∷ ys) h = ground arith
lt_of_gt (x ∷ xs) [] h = refl
lt_of_gt (x ∷ xs) (y ∷ ys) h = ground (arith, lt_of_gt xs ys)

pub lt_trans : (a b c : Str) → cmp a b ≡ Ordering.lt → cmp b c ≡ Ordering.lt → cmp a c ≡ Ordering.lt
unfolding cmp
lt_trans [] (y ∷ ys) [] h k = ground arith
lt_trans [] (y ∷ ys) (z ∷ zs) h k = refl
lt_trans [] [] c h k = ground arith
lt_trans (x ∷ xs) [] c h k = ground arith
lt_trans (x ∷ xs) (y ∷ ys) [] h k = ground arith
lt_trans (x ∷ xs) (y ∷ ys) (z ∷ zs) h k = ground (arith, lt_trans xs ys zs)

pub =s_iff : (a b : Str) → ((a =s b) ≡ true) ↔ (a ≡ b)
=s_iff a b = (λ h. eq_of_cmp a b (ground arith), λ e. ground (arith, cmp_refl a))
