-- ===== src/Sessions/Keys.antt =====
-- The keys of the table of flows of src/trex_cli/session_analysis.py are different, as those of a
-- dictionary are, and a predicate of its flows.
use trex_cli.Prelude.{
  ◌≡◌, refl, inl, inr, Bool, true, false, ◌||◌, Option, none, some, List, [], ◌∷◌, arith,
  Bool-cases,
}
use trex_cli.Sessions.{Endpoint, Flow, same_end}
use trex_cli.Sessions.Table.{find_flow, set_flow, delete_flow, same_key}

unfoldable pub has_key : Endpoint × Endpoint → List ((Endpoint × Endpoint) × Flow) → Bool
has_key k [] = false
has_key k (e ∷ es) = same_key e.0 k || has_key k es

abbrev pub Distinct : List ((Endpoint × Endpoint) × Flow) → Type 0
Distinct [] = Unit
Distinct (e ∷ es) = (has_key e.0 es ≡ false) × Distinct es

pub has_key_find :
    (k : Endpoint × Endpoint) (es : List ((Endpoint × Endpoint) × Flow))
    → has_key k es ≡ false
    → find_flow k es ≡ none
unfolding has_key find_flow
has_key_find k [] h = refl
has_key_find k (e ∷ es) h = ground (arith, has_key_find k es)

pub find_has_key :
    (k : Endpoint × Endpoint) (es : List ((Endpoint × Endpoint) × Flow))
    → find_flow k es ≡ none
    → has_key k es ≡ false
unfolding has_key find_flow
find_has_key k [] h = refl
find_has_key k (e ∷ es) h = ground (arith, find_has_key k es)

same_key_swap : (a b : Endpoint × Endpoint) → same_key a b ≡ false → same_key b a ≡ false
unfolding same_key same_end
same_key_swap a b h = ground arith

same_key_step :
    (a b c : Endpoint × Endpoint)
    → same_key a b ≡ true
    → same_key c a ≡ false
    → same_key c b ≡ false
unfolding same_key same_end
same_key_step a b c h k = ground arith

has_key_same :
    (a b : Endpoint × Endpoint) (es : List ((Endpoint × Endpoint) × Flow))
    → same_key a b ≡ true
    → has_key a es ≡ false
    → has_key b es ≡ false
unfolding has_key
has_key_same a b [] same h = refl
has_key_same a b (e ∷ es) same h =
    ground (arith, has_key_same a b es same, same_key_step a b e.0 same)

has_key_set :
    (k k' : Endpoint × Endpoint) (f : Flow) (es : List ((Endpoint × Endpoint) × Flow))
    → same_key k k' ≡ false
    → has_key k' es ≡ false
    → has_key k' (set_flow k f es) ≡ false
unfolding has_key set_flow
has_key_set k k' f [] other h = rw other refl
has_key_set k k' f (e ∷ es) other h = ground (arith, has_key_set k k' f es other)

has_key_delete :
    (k k' : Endpoint × Endpoint) (es : List ((Endpoint × Endpoint) × Flow))
    → has_key k' es ≡ false
    → has_key k' (delete_flow k es) ≡ false
unfolding has_key delete_flow
has_key_delete k k' [] h = refl
has_key_delete k k' (e ∷ es) h = ground (arith, has_key_delete k k' es)

pub set_flow-Distinct :
    (k : Endpoint × Endpoint) (f : Flow) (es : List ((Endpoint × Endpoint) × Flow))
    → Distinct es
    → Distinct (set_flow k f es)
unfolding set_flow has_key
set_flow-Distinct k f [] d = (refl, tt)
set_flow-Distinct k f (e ∷ es) d = elim (Bool-cases (same_key e.0 k)) [
  | inl same ↦ rw same d
  | inr other ↦
      rw other
        (has_key_set k e.0 f es (same_key_swap e.0 k other) d.0, set_flow-Distinct k f es d.1)
]

pub delete_flow-Distinct :
    (k : Endpoint × Endpoint) (es : List ((Endpoint × Endpoint) × Flow))
    → Distinct es
    → Distinct (delete_flow k es)
unfolding delete_flow
delete_flow-Distinct k [] d = tt
delete_flow-Distinct k (e ∷ es) d = elim (Bool-cases (same_key e.0 k)) [
  | inl same ↦ rw same (d.1)
  | inr other ↦ rw other (has_key_delete k e.0 es d.0, delete_flow-Distinct k es d.1)
]

-- a deleted key is not there
pub has_key_deleted :
    (k : Endpoint × Endpoint) (es : List ((Endpoint × Endpoint) × Flow))
    → Distinct es
    → has_key k (delete_flow k es) ≡ false
unfolding delete_flow has_key
has_key_deleted k [] d = refl
has_key_deleted k (e ∷ es) d = elim (Bool-cases (same_key e.0 k)) [
  | inl same ↦ rw same (has_key_same e.0 k es same d.0)
  | inr other ↦ rw (other, other) (has_key_deleted k es d.1)
]

module _ (P : Flow → Type 0) where
  -- every flow of the table satisfies `P`
  abbrev pub Every : List ((Endpoint × Endpoint) × Flow) → Type 0
  Every [] = Unit
  Every (e ∷ es) = P e.1 × Every es

  pub set_flow-Every :
      (k : Endpoint × Endpoint) (f : Flow) (es : List ((Endpoint × Endpoint) × Flow))
      → P f
      → Every es
      → Every (set_flow k f es)
  unfolding set_flow
  set_flow-Every k f [] p h = (p, tt)
  set_flow-Every k f (e ∷ es) p h = elim (Bool-cases (same_key e.0 k)) [
    | inl same ↦ rw same (p, h.1)
    | inr other ↦ rw other (h.0, set_flow-Every k f es p h.1)
  ]

  pub delete_flow-Every :
      (k : Endpoint × Endpoint) (es : List ((Endpoint × Endpoint) × Flow))
      → Every es
      → Every (delete_flow k es)
  unfolding delete_flow
  delete_flow-Every k [] h = tt
  delete_flow-Every k (e ∷ es) h = elim (Bool-cases (same_key e.0 k)) [
    | inl same ↦ rw same (h.1)
    | inr other ↦ rw other (h.0, delete_flow-Every k es h.1)
  ]

  abbrev pub FoundHas : Option Flow → Type 0
  FoundHas none = Unit
  FoundHas (some f) = P f

  pub find_flow-Every :
      (k : Endpoint × Endpoint) (es : List ((Endpoint × Endpoint) × Flow))
      → Every es
      → FoundHas (find_flow k es)
  unfolding find_flow
  find_flow-Every k [] h = tt
  find_flow-Every k (e ∷ es) h = elim (Bool-cases (same_key e.0 k)) [
    | inl same ↦ rw same (h.0)
    | inr other ↦ rw other (find_flow-Every k es h.1)
  ]
