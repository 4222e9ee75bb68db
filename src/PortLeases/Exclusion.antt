-- ===== src/PortLeases/Exclusion.antt =====
-- What `acquire_ports` grants, row by row, and that it changes nothing unless it grants.
use trex_cli.Prelude.{
  ℕ, suc, ◌+◌, ◌≡◌, refl, ap, ◌⊎◌, Bool, true, false, ◌&&◌, not, none, some, List, [], ◌∷◌, map,
  arith, length, if◌then◌else◌,
}
use trex_cli.PortLeases.{
  available, leased, Lease, contains, is_free, held_by_other, is_quarantined, select_rows,
  any_quarantined, any_held, take_row, acquire_sync, acquire_ports, sorted_set, Acquired, granted,
  fence_of, any_free,
}
use trex_cli.PortLeases.Consistency.{Agrees, IsConsistent}

-- A requested row belongs to the job afterwards: it was free, and has the next generation, or was
-- the job's already. Any other row is as before.
abbrev pub GrantRow : ℕ → Bool → Lease → Lease → Type 0
GrantRow job true r r' =
    (r'.port ≡ r.port)
    × (r'.job ≡ some job)
    × (r'.status ≡ leased)
    × (((r.status ≡ available) × (r.job ≡ none) × (r'.generation ≡ r.generation + 1))
        ⊎ ((r.job ≡ some job) × (r'.generation ≡ r.generation)))
GrantRow job false r r' = r' ≡ r

abbrev pub GrantRows : ℕ → List ℕ → List Lease → List Lease → Type 0
GrantRows job ports [] [] = Unit
GrantRows job ports (r ∷ rs) (r' ∷ rs') =
    GrantRow job (contains ports r.port) r r' × GrantRows job ports rs rs'
GrantRows job ports _ _ = ⊥

-- The outcome of a request for a set of ports.
abbrev pub Grants : ℕ → Bool → List ℕ → List Lease → Acquired → List Lease → Type 0
Grants job known ports t (granted fence) t' =
    GrantRows job ports t t'
    × (fence ≡ fence_of (select_rows ports t'))
    × (length fence ≡ length ports)
    × ((any_free (select_rows ports t) && not known) ≡ false)
Grants job known ports t _ t' = t' ≡ t

take_row-GrantRow :
    (job : ℕ) (ports : List ℕ) (r : Lease) (requested : Bool)
    → contains ports r.port ≡ requested
    → Agrees r.job r.status
    → (requested && is_quarantined r.status) ≡ false
    → (requested && held_by_other job r.job) ≡ false
    → GrantRow job requested r (take_row job ports r)
unfolding take_row is_free is_quarantined held_by_other
take_row-GrantRow job ports r true e a q h = ground arith
take_row-GrantRow job ports r false e a q h = rw e

take-GrantRows :
    (job : ℕ) (ports : List ℕ) (t : List Lease)
    → IsConsistent t
    → any_quarantined (select_rows ports t) ≡ false
    → any_held job (select_rows ports t) ≡ false
    → GrantRows job ports t (map (take_row job ports) t)
unfolding any_quarantined any_held select_rows IsConsistent
take-GrantRows job ports [] c q h = tt
take-GrantRows job ports (r ∷ rs) c q h = (
  take_row-GrantRow job ports r (contains ports r.port) refl c.0 (ground arith) (ground arith),
  take-GrantRows job ports rs c.1 (ground arith) (ground arith),
)

port-take_row : (job : ℕ) (ports : List ℕ) (r : Lease) → (take_row job ports r).port ≡ r.port
unfolding take_row
port-take_row job ports r = ground arith

select_rows-take :
    (job : ℕ) (ports asked : List ℕ) (t : List Lease)
    → select_rows asked (map (take_row job ports) t)
      ≡ map (take_row job ports) (select_rows asked t)
unfolding select_rows
select_rows-take job ports asked [] = refl
select_rows-take job ports asked (r ∷ rs) =
    simp (port-take_row job ports r, select_rows-take job ports asked rs)
      (map_if (contains asked r.port) (take_row job ports) r (select_rows asked rs))
  where
    map_if :
        (b : Bool) (f : Lease → Lease) (x : Lease) (xs : List Lease)
        → (if b then f x ∷ map f xs else map f xs) ≡ map f (if b then x ∷ xs else xs)
    map_if true f x xs = refl
    map_if false f x xs = refl

length-fence_of : (f : Lease → Lease) (t : List Lease) → length (fence_of (map f t)) ≡ length t
unfolding fence_of
length-fence_of f [] = refl
length-fence_of f (r ∷ rs) = ap suc (length-fence_of f rs)

acquire_sync-Grants :
    (job : ℕ) (known : Bool) (ports : List ℕ) (t : List Lease)
    → IsConsistent t
    → let (o, t') = acquire_sync job known ports t in Grants job known ports t o t'
unfolding acquire_sync
acquire_sync-Grants job known ports t c = ground (
  arith,
  take-GrantRows job ports t c,
  select_rows-take job ports ports t,
  length-fence_of (take_row job ports) (select_rows ports t),
)

-- In a table whose status column agrees with its holders: a granted request selects as many rows as
-- it has different ports; each of these rows was free and available, and has the next generation,
-- or belonged to the job already, and it belongs to the job afterwards; the fence lists their
-- ports and generations; every other row is unchanged; and the job is known, unless no selected row
-- was free. A request that is not granted changes no row.
pub acquire_ports-Grants :
    (job : ℕ) (known : Bool) (ports : List ℕ) (t : List Lease)
    → IsConsistent t
    → let (o, t') = acquire_ports job known ports t in Grants job known (sorted_set ports) t o t'
unfolding acquire_ports
acquire_ports-Grants job known ports t c = acquire_sync-Grants job known (sorted_set ports) t c
