-- ===== src/Sessions/Sums.antt =====
-- Sums over the table of flows of src/trex_cli/session_analysis.py, and what changes of the table
-- do to them.
use trex_cli.Prelude.{ℕ, ◌+◌, ◌≡◌, refl, none, some, List, [], ◌∷◌, ◌++◌, length, arith}
use trex_cli.Sessions.{Endpoint, Flow}
use trex_cli.Sessions.Table.{find_flow, set_flow, delete_flow}

module _ (g : Flow → ℕ) where
  unfoldable pub table_sum : List ((Endpoint × Endpoint) × Flow) → ℕ
  table_sum [] = 0
  table_sum (e ∷ es) = g e.1 + table_sum es

  unfoldable pub list_sum : List Flow → ℕ
  list_sum [] = 0
  list_sum (f ∷ fs) = g f + list_sum fs

  pub list_sum_append : (fs : List Flow) (f : Flow) → list_sum (fs ++ (f ∷ [])) ≡ list_sum fs + g f
  unfolding list_sum
  list_sum_append [] f = omega arith
  list_sum_append (x ∷ fs) f = omega (arith, list_sum_append fs f)

  pub set_flow_found :
      (k : Endpoint × Endpoint) (f f' : Flow) (es : List ((Endpoint × Endpoint) × Flow))
      → find_flow k es ≡ some f
      → table_sum (set_flow k f' es) + g f ≡ table_sum es + g f'
  unfolding table_sum find_flow set_flow
  set_flow_found k f f' [] found = absurd (cc found)
  set_flow_found k f f' (e ∷ es) found = ground (arith, set_flow_found k f f' es)

  pub set_flow_new :
      (k : Endpoint × Endpoint) (f' : Flow) (es : List ((Endpoint × Endpoint) × Flow))
      → find_flow k es ≡ none
      → table_sum (set_flow k f' es) ≡ table_sum es + g f'
  unfolding table_sum find_flow set_flow
  set_flow_new k f' [] found = omega arith
  set_flow_new k f' (e ∷ es) found = ground (arith, set_flow_new k f' es)

  pub delete_flow_found :
      (k : Endpoint × Endpoint) (f : Flow) (es : List ((Endpoint × Endpoint) × Flow))
      → find_flow k es ≡ some f
      → table_sum (delete_flow k es) + g f ≡ table_sum es
  unfolding table_sum find_flow delete_flow
  delete_flow_found k f [] found = absurd (cc found)
  delete_flow_found k f (e ∷ es) found = ground (arith, delete_flow_found k f es)

pub table_sum-length :
    (es : List ((Endpoint × Endpoint) × Flow)) → table_sum (λ f. 1) es ≡ length es
unfolding table_sum
table_sum-length [] = refl
table_sum-length (e ∷ es) = omega (arith, table_sum-length es)

pub list_sum-length : (fs : List Flow) → list_sum (λ f. 1) fs ≡ length fs
unfolding list_sum
list_sum-length [] = refl
list_sum-length (f ∷ fs) = omega (arith, list_sum-length fs)
