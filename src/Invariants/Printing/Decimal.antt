-- ===== src/Invariants/Printing/Decimal.antt =====
-- The numbers that raft/invariants.rs prints.
use oxide_kv.Common.{
  ℕ, zero, suc, ◌+◌, ◌-◌, ◌*◌, ◌/◌, ◌%◌, ◌≤◌, ◌≡◌, ap, ◌∙◌, [], ◌∷◌, ltb, arith, Bool-cases, inl,
  inr,
}
use oxide_kv.Text.{Str}
use oxide_kv.Invariants.Printing.{digits, decimal}

-- The number that a text of digits is, after the digits that are read.
unfoldable to_number : ℕ → Str → ℕ
to_number n [] = n
to_number n (d ∷ ds) = to_number (n * 10 + (d - 48)) ds

to_number-digits :
    (fuel n : ℕ) (after : Str) → n ≤ fuel → to_number 0 (digits fuel n after) ≡ to_number n after
unfolding to_number digits
to_number-digits zero n after h = ap (λ k. to_number k after) (omega arith)
to_number-digits (suc fuel) n after h = elim (Bool-cases (ltb n 10)) [
  | inl one ↦ rw one (ap (λ k. to_number k after) (omega arith))
  | inr more ↦
      let smaller : n / 10 ≤ fuel = ground arith in
      let whole : n / 10 * 10 + (48 + n % 10 - 48) ≡ n = omega arith in
      rw more (
        to_number-digits fuel (n / 10) ((48 + n % 10) ∷ after) smaller
        ∙ ap (λ k. to_number k after) whole)
]

-- A printed number is read as the number: its fuel is enough.
to_number-decimal : (n : ℕ) → to_number 0 (decimal n) ≡ n
unfolding decimal to_number
to_number-decimal n = to_number-digits n n [] (omega arith)
