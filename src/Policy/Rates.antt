-- ===== src/Policy/Rates.antt =====
-- The rates that `_validate_policy` of src/trex_cli/jobs.py adds up for each egress port and unit.
use trex_cli.Prelude.{
  ℕ, ◌+◌, ◌≤◌, ◌≡◌, refl, inl, inr, Bool, true, false, ◌&&◌, ◌||◌, List, [], ◌∷◌, arith, Bool-cases,
  ◌==◌, if◌then◌else◌,
}
use trex_cli.Policy.{RateUnit, SafetyPolicy, rate_ceiling, Stream}
use trex_cli.Policy.Checks.{same_unit, unit_index, add_rate, stream_rates, rates_exceed}

-- What all streams of one egress and unit send together.
unfoldable pub egress_total : ℕ → RateUnit → List Stream → ℕ
egress_total e u [] = 0
egress_total e u (s ∷ ss) =
    (if s.tx == e && same_unit s.rate.unit u then s.rate.value else 0) + egress_total e u ss

-- What a table has for one egress and unit, all entries added.
unfoldable pub table_total : ℕ → RateUnit → List ((ℕ × RateUnit) × ℕ) → ℕ
table_total e u [] = 0
table_total e u (((e', u'), v) ∷ rest) =
    (if e' == e && same_unit u' u then v else 0) + table_total e u rest

add_rate_total :
    (e : ℕ) (u : RateUnit) (egress : ℕ) (unit : RateUnit) (value : ℕ)
    (table : List ((ℕ × RateUnit) × ℕ))
    → table_total e u (add_rate egress unit value table)
      ≡ (if egress == e && same_unit unit u then value else 0) + table_total e u table
unfolding table_total add_rate same_unit
add_rate_total e u egress unit value [] = ground arith
add_rate_total e u egress unit value (((e', u'), v) ∷ rest) =
    ground (arith, add_rate_total e u egress unit value rest)

stream_rates_total :
    (e : ℕ) (u : RateUnit) (ss : List Stream) (table : List ((ℕ × RateUnit) × ℕ))
    → table_total e u (stream_rates ss table) ≡ egress_total e u ss + table_total e u table
unfolding stream_rates egress_total
stream_rates_total e u [] table = omega arith
stream_rates_total e u (s ∷ ss) table = omega (
  arith,
  stream_rates_total e u ss (add_rate s.tx s.rate.unit s.rate.value table),
  add_rate_total e u s.tx s.rate.unit s.rate.value table,
)

-- Different entries have different keys.
unfoldable pub has_rate : ℕ → RateUnit → List ((ℕ × RateUnit) × ℕ) → Bool
has_rate e u [] = false
has_rate e u (((e', u'), v) ∷ rest) = (e' == e && same_unit u' u) || has_rate e u rest

abbrev pub DistinctRates : List ((ℕ × RateUnit) × ℕ) → Type 0
DistinctRates [] = Unit
DistinctRates (((e, u), v) ∷ rest) = (has_rate e u rest ≡ false) × DistinctRates rest

has_rate_add :
    (e : ℕ) (u : RateUnit) (egress : ℕ) (unit : RateUnit) (value : ℕ)
    (table : List ((ℕ × RateUnit) × ℕ))
    → has_rate e u table ≡ false
    → (egress == e && same_unit unit u) ≡ false
    → has_rate e u (add_rate egress unit value table) ≡ false
unfolding has_rate add_rate
has_rate_add e u egress unit value [] h other = rw other refl
has_rate_add e u egress unit value (((e', u'), v) ∷ rest) h other =
    ground (arith, has_rate_add e u egress unit value rest)

key_swap :
    (e : ℕ) (u : RateUnit) (e' : ℕ) (u' : RateUnit)
    → (e == e' && same_unit u u') ≡ false
    → (e' == e && same_unit u' u) ≡ false
unfolding same_unit
key_swap e u e' u' h = ground arith

add_rate-DistinctRates :
    (egress : ℕ) (unit : RateUnit) (value : ℕ) (table : List ((ℕ × RateUnit) × ℕ))
    → DistinctRates table
    → DistinctRates (add_rate egress unit value table)
unfolding add_rate has_rate
add_rate-DistinctRates egress unit value [] d = (refl, tt)
add_rate-DistinctRates egress unit value (((e', u'), v) ∷ rest) d =
    elim (Bool-cases (e' == egress && same_unit u' unit)) [
      | inl mine ↦ rw mine d
      | inr other ↦ rw other (
        has_rate_add e' u' egress unit value rest d.0 (key_swap e' u' egress unit other),
        add_rate-DistinctRates egress unit value rest d.1,
      )
    ]

stream_rates-DistinctRates :
    (ss : List Stream) (table : List ((ℕ × RateUnit) × ℕ))
    → DistinctRates table
    → DistinctRates (stream_rates ss table)
unfolding stream_rates
stream_rates-DistinctRates [] table d = d
stream_rates-DistinctRates (s ∷ ss) table d =
    stream_rates-DistinctRates ss (add_rate s.tx s.rate.unit s.rate.value table)
      (add_rate-DistinctRates s.tx s.rate.unit s.rate.value table d)

absent_total :
    (e : ℕ) (u : RateUnit) (table : List ((ℕ × RateUnit) × ℕ))
    → has_rate e u table ≡ false
    → table_total e u table ≡ 0
unfolding has_rate table_total
absent_total e u [] h = refl
absent_total e u (((e', u'), v) ∷ rest) h = ground (arith, absent_total e u rest)

same_ceiling :
    (p : SafetyPolicy) (a b : RateUnit) → same_unit a b ≡ true → rate_ceiling p a ≡ rate_ceiling p b
unfolding same_unit unit_index rate_ceiling
same_ceiling p a b h = ground arith

has_rate_same :
    (e : ℕ) (u : RateUnit) (e' : ℕ) (u' : RateUnit) (table : List ((ℕ × RateUnit) × ℕ))
    → (e' == e && same_unit u' u) ≡ true
    → has_rate e' u' table ≡ false
    → has_rate e u table ≡ false
unfolding has_rate same_unit
has_rate_same e u e' u' [] same h = refl
has_rate_same e u e' u' (((a, b), v) ∷ rest) same h =
    ground (arith, has_rate_same e u e' u' rest same)

rest_within :
    (p : SafetyPolicy) (e : ℕ) (u : RateUnit) (v : ℕ) (rest : List ((ℕ × RateUnit) × ℕ))
    → rates_exceed p (((e, u), v) ∷ rest) ≡ false
    → rates_exceed p rest ≡ false
unfolding rates_exceed
rest_within p e u v rest h = ground arith

mine_total :
    (p : SafetyPolicy) (e : ℕ) (u : RateUnit) (e' : ℕ) (u' : RateUnit) (v : ℕ)
    (rest : List ((ℕ × RateUnit) × ℕ))
    → (e' == e && same_unit u' u) ≡ true
    → has_rate e' u' rest ≡ false
    → rates_exceed p (((e', u'), v) ∷ rest) ≡ false
    → v + table_total e u rest ≤ rate_ceiling p u
unfolding rates_exceed
mine_total p e u e' u' v rest mine fresh h =
    ground
      (arith, absent_total e u rest (has_rate_same e u e' u' rest mine fresh), same_ceiling p u' u)

table_total-le :
    (p : SafetyPolicy) (e : ℕ) (u : RateUnit) (table : List ((ℕ × RateUnit) × ℕ))
    → DistinctRates table
    → rates_exceed p table ≡ false
    → table_total e u table ≤ rate_ceiling p u
unfolding table_total rates_exceed
table_total-le p e u [] d h = omega arith
table_total-le p e u (((e', u'), v) ∷ rest) d h = elim (Bool-cases (e' == e && same_unit u' u)) [
  | inl mine ↦ rw mine (mine_total p e u e' u' v rest mine d.0 h)
  | inr other ↦
      rw other (omega (arith, table_total-le p e u rest d.1 (rest_within p e' u' v rest h)))
]

-- Where no rate is refused, all streams of one egress and unit together stay below the ceiling.
pub egress_total-le :
    (p : SafetyPolicy) (ss : List Stream) (e : ℕ) (u : RateUnit)
    → rates_exceed p (stream_rates ss []) ≡ false
    → egress_total e u ss ≤ rate_ceiling p u
unfolding table_total
egress_total-le p ss e u h = omega (
  arith,
  stream_rates_total e u ss [],
  table_total-le p e u (stream_rates ss []) (stream_rates-DistinctRates ss [] tt) h,
)
