-- ===== src/App/Sizes.antt =====
-- `formatBytes` of cmd/p2papp/main.go: its loop ends, and its index is in range.
use p2papp.Prelude.{
  ℕ, suc, ◌≡◌, refl, ◌∙◌, ap, ◌+◌, ◌/◌, ◌^◌, ◌<◌, ◌≤◌, some, arith, mul64, get_elem?, pos,
  half_word, ◌⊎◌, inl, inr,
}
use p2papp.App.{unit_loop, format_bytes, scaled_by, scaled, unit_letters}

unit_loop-more :
    (fuel n div exp : ℕ)
    → 1024 ≤ n
    → unit_loop (suc fuel) n div exp ≡ unit_loop fuel (n / 1024) (mul64 div 1024) (exp + 1)
unfolding unit_loop
unit_loop-more fuel n div exp large = ground arith

unit_loop-last : (fuel n div exp : ℕ) → n < 1024 → unit_loop (suc fuel) n div exp ≡ some (div, exp)
unfolding unit_loop
unit_loop-last fuel n div exp small = ground arith

-- A size between two powers of 1024 is printed in the unit of the lower one, which has a letter.
abbrev pub IsScaled : ℕ → Type 0
IsScaled n =
    (k letter : ℕ) × (1024 ^ (k + 1) ≤ n)
    × (n < 1024 ^ (k + 2))
    × (get_elem? unit_letters k ≡ some letter)
    × (format_bytes (pos n) ≡ some (scaled n (1024 ^ (k + 1)) (some letter)))

format_bytes-loop :
    (n div k letter : ℕ)
    → 1024 ≤ n
    → get_elem? unit_letters k ≡ some letter
    → unit_loop 7 (n / 1024) 1024 0 ≡ some (div, k)
    → format_bytes (pos n) ≡ some (scaled n div (some letter))
unfolding format_bytes
format_bytes-loop n div k letter large l e =
    ground (arith, ap (scaled_by n) e, ap (λ o. some (scaled n div o)) l)

-- The first rounds of the loop, for a size of that many factors of 1024.
rounds_1 :
    (n : ℕ)
    → 1024 ^ 2 ≤ n
    → unit_loop 7 (n / 1024) 1024 0 ≡ unit_loop 6 (n / 1024 / 1024) (1024 ^ 2) 1
unfolding mul64
rounds_1 n a = unit_loop-more 6 (n / 1024) 1024 0 (omega arith)

rounds_2 :
    (n : ℕ)
    → 1024 ^ 3 ≤ n
    → unit_loop 7 (n / 1024) 1024 0 ≡ unit_loop 5 (n / 1024 / 1024 / 1024) (1024 ^ 3) 2
unfolding mul64
rounds_2 n a =
    rounds_1 n (omega arith) ∙ unit_loop-more 5 (n / 1024 / 1024) (1024 ^ 2) 1 (omega arith)

rounds_3 :
    (n : ℕ)
    → 1024 ^ 4 ≤ n
    → unit_loop 7 (n / 1024) 1024 0 ≡ unit_loop 4 (n / 1024 / 1024 / 1024 / 1024) (1024 ^ 4) 3
unfolding mul64
rounds_3 n a =
    rounds_2 n (omega arith) ∙ unit_loop-more 4 (n / 1024 / 1024 / 1024) (1024 ^ 3) 2 (omega arith)

rounds_4 :
    (n : ℕ)
    → 1024 ^ 5 ≤ n
    → unit_loop 7 (n / 1024) 1024 0
      ≡ unit_loop 3 (n / 1024 / 1024 / 1024 / 1024 / 1024) (1024 ^ 5) 4
unfolding mul64
rounds_4 n a =
    rounds_3 n (omega arith)
    ∙ unit_loop-more 3 (n / 1024 / 1024 / 1024 / 1024) (1024 ^ 4) 3 (omega arith)

rounds_5 :
    (n : ℕ)
    → 1024 ^ 6 ≤ n
    → unit_loop 7 (n / 1024) 1024 0
      ≡ unit_loop 2 (n / 1024 / 1024 / 1024 / 1024 / 1024 / 1024) (1024 ^ 6) 5
unfolding mul64
rounds_5 n a =
    rounds_4 n (omega arith)
    ∙ unit_loop-more 2 (n / 1024 / 1024 / 1024 / 1024 / 1024) (1024 ^ 5) 4 (omega arith)

scaled_in :
    (n div k letter fuel m : ℕ)
    → 1024 ≤ n
    → m < 1024
    → get_elem? unit_letters k ≡ some letter
    → unit_loop 7 (n / 1024) 1024 0 ≡ unit_loop (suc fuel) m div k
    → format_bytes (pos n) ≡ some (scaled n div (some letter))
scaled_in n div k letter fuel m large small l e =
    format_bytes-loop n div k letter large l (e ∙ unit_loop-last fuel m div k small)

order : (a b : ℕ) → (a < b) ⊎ (b ≤ a)
order a b = omega arith

-- A size from 1024 on, as an int64 can hold it, lies between two powers of 1024, and `formatBytes`
-- prints it as its quotient by the lower one, with a letter of the units: the index never
-- passes their end.
pub format_bytes_lem : (n : ℕ) → 1024 ≤ n → n < half_word → IsScaled n
format_bytes_lem n large small = elim (order n (1024 ^ 2)) [
  | inl b0 ↦
      (0, _, large, b0, refl, scaled_in n (1024 ^ 1) 0 _ 6 (n / 1024) large (omega arith) refl refl)
  | inr a1 ↦ elim (order n (1024 ^ 3)) [
    | inl b1 ↦ (
      1,
      _,
      a1,
      b1,
      refl,
      scaled_in n (1024 ^ 2) 1 _ 5 (n / 1024 / 1024) large (omega arith) refl (rounds_1 n a1),
    )
    | inr a2 ↦ elim (order n (1024 ^ 4)) [
      | inl b2 ↦ (
        2,
        _,
        a2,
        b2,
        refl,
        scaled_in n (1024 ^ 3) 2 _ 4 (n / 1024 / 1024 / 1024) large (omega arith) refl
            (rounds_2 n a2),
      )
      | inr a3 ↦ elim (order n (1024 ^ 5)) [
        | inl b3 ↦ (
          3,
          _,
          a3,
          b3,
          refl,
          scaled_in n (1024 ^ 4) 3 _ 3 (n / 1024 / 1024 / 1024 / 1024) large (omega arith) refl
              (rounds_3 n a3),
        )
        | inr a4 ↦ elim (order n (1024 ^ 6)) [
          | inl b4 ↦ (
            4,
            _,
            a4,
            b4,
            refl,
            scaled_in n (1024 ^ 5) 4 _ 2 (n / 1024 / 1024 / 1024 / 1024 / 1024) large (omega arith)
                refl (rounds_4 n a4),
          )
          | inr a5 ↦ (
            5,
            _,
            a5,
            omega arith,
            refl,
            scaled_in n (1024 ^ 6) 5 _ 1 (n / 1024 / 1024 / 1024 / 1024 / 1024 / 1024) large
                (omega arith) refl (rounds_5 n a5),
          )
        ]
      ]
    ]
  ]
]
