-- ===== src/Rfc2544/Rounding.antt =====
-- `_round_rate`: how far it moves a rate, and why the searches make progress.
use native.Mathlib.Decide.{dec_le}
use native.Mathlib.Nat.{div-add-mod', mod-lt}
use trex_cli.Prelude.{ℕ, ◌+◌, ◌-◌, ◌*◌, ◌≤◌, ◌<◌, ◌≡◌, ◌/◌, ◌%◌, ◌⊎◌, inl, inr, arith}
use trex_cli.Rfc2544.{round_half_even, round_rate}

-- The quotient rounded down where the remainder is at most half, and up where it is at least half.
round_half_even_cases :
    (n d : ℕ)
    → ((2 * (n % d) ≤ d) × (round_half_even n d ≡ n / d))
      ⊎ ((d ≤ 2 * (n % d)) × (round_half_even n d ≡ n / d + 1))
unfolding round_half_even
round_half_even_cases n d = ground arith

round_half_even_bounds :
    (n d : ℕ)
    → 0 < d
    → (2 * (round_half_even n d * d) ≤ 2 * n + d) × (2 * n ≤ 2 * (round_half_even n d * d) + d)
round_half_even_bounds n d h = elim (round_half_even_cases n d) [
  | inl (small, down) ↦ rw down (omega (arith, div-add-mod' n d, mod-lt n {m = d} h))
  | inr (large, up) ↦ rw up (omega (arith, div-add-mod' n d, mod-lt n {m = d} h))
]

-- The rounded rate is within half a resolution of the fraction `num / den`.
pub round_rate_error :
    (num den resolution : ℕ)
    → 0 < den
    → 0 < resolution
    → (2 * (round_rate num den resolution * den) ≤ 2 * num + den * resolution)
      × (2 * num ≤ 2 * (round_rate num den resolution * den) + den * resolution)
unfolding round_rate
round_rate_error num den resolution hd hr =
    let bounds = round_half_even_bounds num (den * resolution) (grind arith) in
    (omega (arith, bounds), omega (arith, bounds))

round_half_even_zero : (d : ℕ) → 0 < d → round_half_even 0 d ≡ 0
unfolding round_half_even
round_half_even_zero d h = ground (arith, div-add-mod' 0 d, mod-lt 0 {m = d} h)

round_rate_zero : (resolution : ℕ) → 0 < resolution → round_rate 0 1 resolution ≡ 0
unfolding round_rate
round_rate_zero resolution h =
    rw (round_half_even_zero (1 * resolution) (omega arith)) (omega arith)

-- One step down by the resolution, rounded, is a smaller rate.
pub round_rate-sub-lt :
    (rate resolution : ℕ)
    → 0 < resolution
    → 0 < rate
    → round_rate (rate - resolution) 1 resolution < rate
round_rate-sub-lt rate resolution h p = elim (dec_le resolution rate) [
  | yes le ↦ omega (arith, round_rate_error (rate - resolution) 1 resolution (omega arith) h)
  | no gt ↦ let e : rate - resolution ≡ 0 = omega arith in rw (e, round_rate_zero resolution h) p
]
