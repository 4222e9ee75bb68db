-- ===== src/AddressPolicy/Cover.antt =====
-- The sweep of `ipv4_range_allowed` decides coverage of the whole range.
use trex_cli.Prelude.{
  ℕ, ◌+◌, ◌≤◌, ◌<◌, ◌≡◌, ◌↔◌, ◌⊎◌, inl, inr, true, List, [], ◌∷◌, ltb, arith, All, Bool-cases,
  All-map,
}
use trex_cli.AddressPolicy.{Interval, before, insert, sorted, sweep}

-- The address stands in one of the intervals.
abbrev pub Covered : ℕ → List Interval → Type 0
Covered a [] = ⊥
Covered a ((lower, upper) ∷ rest) = ((lower ≤ a) × (a ≤ upper)) ⊎ Covered a rest

-- Ascending in the lower end.
abbrev pub IsSorted : List Interval → Type 0
IsSorted [] = Unit
IsSorted (x ∷ xs) = All (λ (y : Interval). x.0 ≤ y.0) xs × IsSorted xs

pub sweep_sound :
    (cursor last : ℕ) (is : List Interval)
    → sweep cursor last is ≡ true
    → (a : ℕ) → cursor ≤ a
    → a ≤ last
    → Covered a is
unfolding sweep
sweep_sound cursor last [] h a p q = cc
sweep_sound cursor last ((lower, upper) ∷ rest) h a p q = elim (Bool-cases (ltb upper cursor)) [
  | inl past ↦ inr (sweep_sound cursor last rest (ground arith) a p q)
  | inr here ↦ elim (Bool-cases (ltb upper a)) [
    | inl above ↦ inr (sweep_sound (upper + 1) last rest (ground arith) a (ground arith) q)
    | inr inside ↦ inl (ground arith)
  ]
]

gap_before :
    (a lower : ℕ) (is : List Interval)
    → All (λ (y : Interval). lower ≤ y.0) is
    → a < lower
    → Covered a is
    → ⊥
gap_before a lower [] h lt c = c
gap_before a lower ((l, u) ∷ rest) h lt (inl c) = omega arith
gap_before a lower ((l, u) ∷ rest) h lt (inr c) = gap_before a lower rest h.1 lt c

-- Beyond the end of the first interval the others must cover.
drop_head :
    {a lower upper : ℕ} (rest : List Interval)
    → upper < a
    → Covered a ((lower, upper) ∷ rest)
    → Covered a rest
drop_head rest h (inl c) = absurd (omega arith)
drop_head rest h (inr c) = c

pub sweep_complete :
    (cursor last : ℕ) (is : List Interval)
    → IsSorted is
    → cursor ≤ last
    → ((a : ℕ) → cursor ≤ a → a ≤ last → Covered a is)
    → sweep cursor last is ≡ true
unfolding sweep
sweep_complete cursor last [] s le cover = absurd (cover cursor (omega arith) le)
sweep_complete cursor last ((lower, upper) ∷ rest) s le cover =
    elim (Bool-cases (ltb upper cursor)) [
      | inl past ↦ rw past (
          sweep_complete cursor last rest s.1 le
            (λ a p q. drop_head rest (ground arith) (cover a p q)))
      | inr here ↦ rw here (elim (Bool-cases (ltb cursor lower)) [
        | inl gap ↦ absurd (
            gap_before cursor lower ((lower, upper) ∷ rest) (omega arith, s.0) (ground arith)
              (cover cursor (omega arith) le))
        | inr no_gap ↦ rw no_gap (elim (Bool-cases (ltb last (upper + 1))) [
          | inl done ↦ rw done
          | inr more ↦ rw more (
              sweep_complete (upper + 1) last rest s.1 (ground arith)
                (λ a p q. drop_head rest (omega arith) (cover a (ground arith) q)))
        ])
      ])
    ]

-- `sorted` keeps what is covered, and sorts.
module _ {P : Type 0} {Q : Type 0} {R : Type 0} {S : Type 0} where
  swap_heads : (R → P ⊎ S) → Q ⊎ R → P ⊎ Q ⊎ S
  swap_heads f (inl q) = inr (inl q)
  swap_heads f (inr r) = elim (f r) [ inl p ↦ inl p | inr t ↦ inr (inr t) ]

  swap_back : (P ⊎ S → R) → P ⊎ Q ⊎ S → Q ⊎ R
  swap_back f (inl p) = inr (f (inl p))
  swap_back f (inr (inl q)) = inl q
  swap_back f (inr (inr t)) = inr (f (inr t))

Covered-insert :
    (a : ℕ) (x : Interval) (is : List Interval) → Covered a (insert x is) ↔ Covered a (x ∷ is)
unfolding insert
Covered-insert a x [] = (λ c. c, λ c. c)
Covered-insert a x (y ∷ ys) =
    let (to, from) = Covered-insert a x ys in
    elim (Bool-cases (before y x)) [
      | inl swap ↦ rw swap (swap_heads to, swap_back from)
      | inr keep ↦ rw keep (λ c. c, λ c. c)
    ]

pub Covered-sorted : (a : ℕ) (is : List Interval) → Covered a (sorted is) ↔ Covered a is
unfolding sorted
Covered-sorted a [] = (λ c. c, λ c. c)
Covered-sorted a (x ∷ xs) =
    let (to, from) = Covered-sorted a xs in
    let (into, back) = Covered-insert a x (sorted xs) in
    (
      λ c. elim (into c) [ inl p ↦ inl p | inr q ↦ inr (to q) ],
      λ c. back (elim c [ inl p ↦ inl p | inr q ↦ inr (from q) ]),
    )

All-insert :
    (P : Interval → Type 0) (x : Interval) (is : List Interval)
    → P x
    → All P is
    → All P (insert x is)
unfolding insert
All-insert P x [] p h = (p, tt)
All-insert P x (y ∷ ys) p h = elim (Bool-cases (before y x)) [
  | inl swap ↦ rw swap (h.0, All-insert P x ys p h.1)
  | inr keep ↦ rw keep (p, h)
]

insert-IsSorted : (x : Interval) (is : List Interval) → IsSorted is → IsSorted (insert x is)
unfolding insert
insert-IsSorted x [] h = (tt, tt)
insert-IsSorted x (y ∷ ys) h = elim (Bool-cases (before y x)) [
  | inl swap ↦
      rw swap
        (All-insert (λ (z : Interval). y.0 ≤ z.0) x ys (ground arith) h.0, insert-IsSorted x ys h.1)
  | inr keep ↦
      let le : x.0 ≤ y.0 = ground arith in
      rw keep ((le, All-map _ _ (λ (z : Interval) (p : y.0 ≤ z.0). omega arith) ys h.0), h)
]

pub sorted-IsSorted : (is : List Interval) → IsSorted (sorted is)
unfolding sorted
sorted-IsSorted [] = tt
sorted-IsSorted (x ∷ xs) = insert-IsSorted x (sorted xs) (sorted-IsSorted xs)
