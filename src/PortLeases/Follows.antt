-- ===== src/PortLeases/Follows.antt =====
-- Fencing: what any sequence of calls does to a row's holder and generation.
use trex_cli.Prelude.{
  ℕ, ◌≤◌, ◌<◌, ◌≡◌, refl, ◌∙◌, ◌⊎◌, inl, inr, Bool, true, false, ◌&&◌, Option, none, some, List, [],
  ◌∷◌, map, arith, ◌==◌, if◌then◌else◌, Bool-cases,
}
use trex_cli.PortLeases.{
  Lease, contains, is_free, take_row, acquire_sync, acquire_ports, release_row, release_ports,
  confirm_row, confirm_ports_available, sorted_set, Call, acquire, release, confirm, step, run,
}

-- A later state of a row: the generation has not gone down, and a holder of the same generation is
-- the holder that the row had.
abbrev pub Held : Option ℕ → ℕ → Option ℕ → ℕ → Type 0
Held j g none g' = Unit
Held j g (some j') g' = (g < g') ⊎ ((j ≡ some j') × (g ≡ g'))

pub record Later (r r' : Lease) : Type 0 where
  pub same_port : r'.port ≡ r.port
  pub grows : r.generation ≤ r'.generation
  pub held : Held r.job r.generation r'.job r'.generation

-- Row by row.
abbrev pub Follows : List Lease → List Lease → Type 0
Follows [] [] = Unit
Follows (r ∷ rs) (r' ∷ rs') = Later r r' × Follows rs rs'
Follows _ _ = ⊥

Held-refl : (j : Option ℕ) (g : ℕ) → Held j g j g
Held-refl none g = tt
Held-refl (some j) g = inr (refl, refl)

Later-refl : (r : Lease) → Later r r
Later-refl r = record { same_port = refl; grows = omega arith; held = Held-refl r.job r.generation }

Held-trans :
    (i j k : Option ℕ) (e f g : ℕ) → e ≤ f → f ≤ g → Held i e j f → Held j f k g → Held i e k g
Held-trans i j none e f g le le' p q = tt
Held-trans i j (some k) e f g le le' p (inl lt) = inl (omega arith)
Held-trans i none (some k) e f g le le' p (inr same) = absurd (cc (same.0))
Held-trans i (some j) (some k) e f g le le' (inl lt) (inr same) = inl (omega arith)
Held-trans i (some j) (some k) e f g le le' (inr before) (inr same) =
    inr (before.0 ∙ same.0, before.1 ∙ same.1)

Later-trans : (a b c : Lease) → Later a b → Later b c → Later a c
Later-trans a b c p q = record {
  same_port = q.same_port ∙ p.same_port;
  grows = omega arith;
  held =
      Held-trans a.job b.job c.job a.generation b.generation c.generation p.grows q.grows p.held
        q.held;
}

take_row-Later : (job : ℕ) (ports : List ℕ) (r : Lease) → Later r (take_row job ports r)
unfolding take_row
take_row-Later job ports r = elim (Bool-cases (contains ports r.port && is_free r.job)) [
  | inl takes ↦
      rw takes (record { same_port = refl; grows = omega arith; held = inl (omega arith) })
  | inr keeps ↦ rw keeps (Later-refl r)
]

release_row-Later : (job : ℕ) (q : Bool) (r : Lease) → Later r (release_row job q r)
unfolding release_row
release_row-Later job q r = ground arith

confirm_row-Later : (ports : List ℕ) (r : Lease) → Later r (confirm_row ports r)
unfolding confirm_row
confirm_row-Later ports r = elim (Bool-cases (contains ports r.port)) [
  | inl named ↦ rw named (record { same_port = refl; grows = omega arith; held = tt })
  | inr other ↦ rw other (Later-refl r)
]

Follows-refl : (t : List Lease) → Follows t t
Follows-refl [] = tt
Follows-refl (r ∷ rs) = (Later-refl r, Follows-refl rs)

Follows-trans : (a b c : List Lease) → Follows a b → Follows b c → Follows a c
Follows-trans [] [] [] p q = tt
Follows-trans (a ∷ xs) (b ∷ bs) (c ∷ cs) p q =
    (Later-trans a b c p.0 q.0, Follows-trans xs bs cs p.1 q.1)
Follows-trans [] [] (c ∷ cs) p q = absurd q
Follows-trans [] (b ∷ bs) c p q = absurd p
Follows-trans (a ∷ xs) [] c p q = absurd p
Follows-trans (a ∷ xs) (b ∷ bs) [] p q = absurd q

Follows-map :
    (f : Lease → Lease) → ((r : Lease) → Later r (f r)) → (t : List Lease) → Follows t (map f t)
Follows-map f h [] = tt
Follows-map f h (r ∷ rs) = (h r, Follows-map f h rs)

acquire_sync-Follows :
    (job : ℕ) (known : Bool) (ports : List ℕ) (t : List Lease)
    → Follows t (acquire_sync job known ports t).1
unfolding acquire_sync
acquire_sync-Follows job known ports t =
    ground (arith, Follows-refl t, Follows-map (take_row job ports) (take_row-Later job ports) t)

step-Follows : (c : Call) (t : List Lease) → Follows t (step c t)
unfolding step acquire_ports release_ports confirm_ports_available
step-Follows (acquire job known ports) t = acquire_sync-Follows job known (sorted_set ports) t
step-Follows (release job q) t = Follows-map (release_row job q) (release_row-Later job q) t
step-Follows (confirm ports) t =
    Follows-map (confirm_row (sorted_set ports)) (confirm_row-Later (sorted_set ports)) t

run-Follows : (cs : List Call) (t : List Lease) → Follows t (run cs t)
unfolding run
run-Follows [] t = Follows-refl t
run-Follows (c ∷ cs) t =
    Follows-trans t (step c t) (run cs (step c t)) (step-Follows c t) (run-Follows cs (step c t))

-- The row of a port.
unfoldable pub row_of : ℕ → List Lease → Option Lease
row_of p [] = none
row_of p (r ∷ rs) = if r.port == p then some r else row_of p rs

abbrev pub LaterRow : Option Lease → Option Lease → Type 0
LaterRow none none = Unit
LaterRow (some r) (some r') = Later r r'
LaterRow _ _ = ⊥

if_LaterRow :
    (b : Bool) {r r' : Lease} (o o' : Option Lease)
    → Later r r'
    → LaterRow o o'
    → LaterRow (if b then some r else o) (if b then some r' else o')
if_LaterRow true o o' h k = h
if_LaterRow false o o' h k = k

row_of-Follows : (p : ℕ) (t t' : List Lease) → Follows t t' → LaterRow (row_of p t) (row_of p t')
unfolding row_of
row_of-Follows p [] [] h = tt
row_of-Follows p (r ∷ rs) [] h = absurd h
row_of-Follows p [] (r' ∷ rs') h = absurd h
row_of-Follows p (r ∷ rs) (r' ∷ rs') h =
    simp h.0.same_port
      (if_LaterRow (r.port == p) (row_of p rs) (row_of p rs') h.0 (row_of-Follows p rs rs' h.1))

-- After any sequence of calls a configured port has the same row: its generation has not gone
-- down, and a job that holds it holds it at a greater generation than before, or held it already
-- at the same one.
pub run-LaterRow :
    (cs : List Call) (t : List Lease) (p : ℕ) → LaterRow (row_of p t) (row_of p (run cs t))
run-LaterRow cs t p = row_of-Follows p t (run cs t) (run-Follows cs t)
