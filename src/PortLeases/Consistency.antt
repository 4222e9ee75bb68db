-- ===== src/PortLeases/Consistency.antt =====
-- The status column: it agrees with the holder, and a quarantine lasts until it is confirmed away.
use trex_cli.Prelude.{
  ℕ, ◌≡◌, ap, ◌∙◌, inl, inr, Bool, false, ◌&&◌, Option, none, some, List, [], ◌∷◌, map, arith, All,
  Bool-cases,
}
use trex_cli.PortLeases.{
  Status, available, leased, quarantined, Lease, contains, is_free, is_quarantined, select_rows,
  any_quarantined, take_row, acquire_sync, acquire_ports, release_row, release_ports, confirm_row,
  confirm_ports_available, sorted_set, Call, acquire, release, confirm, step, run,
}

-- A row is held exactly when its status is LEASED.
abbrev pub Agrees : Option ℕ → Status → Type 0
Agrees none available = Unit
Agrees none quarantined = Unit
Agrees none leased = ⊥
Agrees (some j) leased = Unit
Agrees (some j) _ = ⊥

unfoldable pub IsConsistent : List Lease → Type 0
IsConsistent t = All (λ (r : Lease). Agrees r.job r.status) t

All-rows :
    (P : Lease → Type 0) (f : Lease → Lease) (t : List Lease)
    → ((r : Lease) → P r → P (f r))
    → All P t
    → All P (map f t)
All-rows P f [] step h = tt
All-rows P f (r ∷ rs) step h = (step r h.0, All-rows P f rs step h.1)

take_row-Agrees :
    (job : ℕ) (ports : List ℕ) (r : Lease)
    → Agrees r.job r.status
    → Agrees (take_row job ports r).job (take_row job ports r).status
unfolding take_row
take_row-Agrees job ports r h = ground arith

release_row-Agrees :
    (job : ℕ) (q : Bool) (r : Lease)
    → Agrees r.job r.status
    → Agrees (release_row job q r).job (release_row job q r).status
unfolding release_row
release_row-Agrees job q r h = ground arith

confirm_row-Agrees :
    (ports : List ℕ) (r : Lease)
    → Agrees r.job r.status
    → Agrees (confirm_row ports r).job (confirm_row ports r).status
unfolding confirm_row
confirm_row-Agrees ports r h = ground arith

acquire_sync-IsConsistent :
    (job : ℕ) (known : Bool) (ports : List ℕ) (t : List Lease)
    → IsConsistent t
    → IsConsistent (acquire_sync job known ports t).1
unfolding acquire_sync
acquire_sync-IsConsistent job known ports t h =
    let taken : IsConsistent (map (take_row job ports) t) =
      unfold IsConsistent in All-rows _ (take_row job ports) t (take_row-Agrees job ports) h in
    ground arith

step-IsConsistent : (c : Call) (t : List Lease) → IsConsistent t → IsConsistent (step c t)
unfolding step acquire_ports release_ports confirm_ports_available
step-IsConsistent (acquire job known ports) t h =
    acquire_sync-IsConsistent job known (sorted_set ports) t h
step-IsConsistent (release job q) t h =
    unfold IsConsistent in All-rows _ (release_row job q) t (release_row-Agrees job q) h
step-IsConsistent (confirm ports) t h =
    unfold IsConsistent in
    All-rows _ (confirm_row (sorted_set ports)) t (confirm_row-Agrees (sorted_set ports)) h

-- Every sequence of calls keeps a table in which the rows with status LEASED are the held ones.
pub run-IsConsistent : (cs : List Call) (t : List Lease) → IsConsistent t → IsConsistent (run cs t)
unfolding run
run-IsConsistent [] t h = h
run-IsConsistent (c ∷ cs) t h = run-IsConsistent cs (step c t) (step-IsConsistent c t h)

-- The rows of the port are in quarantine, with no holder.
unfoldable pub InQuarantine : ℕ → List Lease → Type 0
InQuarantine p t = All (λ (r : Lease). r.port ≡ p → (r.status ≡ quarantined) × (r.job ≡ none)) t

-- No call confirms the port.
abbrev pub NotConfirmed : ℕ → List Call → Type 0
NotConfirmed p [] = Unit
NotConfirmed p (confirm ports ∷ cs) = (contains (sorted_set ports) p ≡ false) × NotConfirmed p cs
NotConfirmed p (_ ∷ cs) = NotConfirmed p cs

-- A row that a granted request may name is not in quarantine, so the UPDATE passes it over.
take_row-InQuarantine :
    (p job : ℕ) (ports : List ℕ) (r : Lease)
    → (contains ports r.port && is_quarantined r.status) ≡ false
    → (r.port ≡ p → (r.status ≡ quarantined) × (r.job ≡ none))
    → (take_row job ports r).port ≡ p
    → ((take_row job ports r).status ≡ quarantined) × ((take_row job ports r).job ≡ none)
unfolding take_row is_quarantined
take_row-InQuarantine p job ports r e h =
    elim (Bool-cases (contains ports r.port && is_free r.job)) [
      | inl takes ↦ rw takes (λ q. ground (arith, h q))
      | inr keeps ↦ rw keeps h
    ]

take-InQuarantine :
    (p job : ℕ) (ports : List ℕ) (t : List Lease)
    → any_quarantined (select_rows ports t) ≡ false
    → InQuarantine p t
    → InQuarantine p (map (take_row job ports) t)
unfolding InQuarantine any_quarantined select_rows
take-InQuarantine p job ports [] e h = tt
take-InQuarantine p job ports (r ∷ rs) e h = (
  take_row-InQuarantine p job ports r (ground arith) h.0,
  take-InQuarantine p job ports rs (ground arith) h.1,
)

acquire_sync-InQuarantine :
    (p job : ℕ) (known : Bool) (ports : List ℕ) (t : List Lease)
    → InQuarantine p t
    → InQuarantine p (acquire_sync job known ports t).1
unfolding acquire_sync
acquire_sync-InQuarantine p job known ports t h = ground (arith, take-InQuarantine p job ports t)

release_row-InQuarantine :
    (p job : ℕ) (q : Bool) (r : Lease)
    → (r.port ≡ p → (r.status ≡ quarantined) × (r.job ≡ none))
    → (release_row job q r).port ≡ p
    → ((release_row job q r).status ≡ quarantined) × ((release_row job q r).job ≡ none)
unfolding release_row
release_row-InQuarantine p job q r h e =
    let same : r.port ≡ p = ground arith in ground (arith, h same)

confirm_row-InQuarantine :
    (p : ℕ) (ports : List ℕ) (r : Lease)
    → contains ports p ≡ false
    → (r.port ≡ p → (r.status ≡ quarantined) × (r.job ≡ none))
    → (confirm_row ports r).port ≡ p
    → ((confirm_row ports r).status ≡ quarantined) × ((confirm_row ports r).job ≡ none)
unfolding confirm_row
confirm_row-InQuarantine p ports r n h e =
    let same : r.port ≡ p = ground arith in
    let other : contains ports r.port ≡ false = ap (contains ports) same ∙ n in rw other (h same)

step-InQuarantine :
    (p : ℕ) (c : Call) (t : List Lease)
    → NotConfirmed p (c ∷ [])
    → InQuarantine p t
    → InQuarantine p (step c t)
unfolding step acquire_ports release_ports confirm_ports_available
step-InQuarantine p (acquire job known ports) t n h =
    acquire_sync-InQuarantine p job known (sorted_set ports) t h
step-InQuarantine p (release job q) t n h =
    unfold InQuarantine in
    All-rows _ (release_row job q) t (λ r k. release_row-InQuarantine p job q r k) h
step-InQuarantine p (confirm ports) t n h =
    unfold InQuarantine in
    All-rows _ (confirm_row (sorted_set ports)) t
      (λ r k. confirm_row-InQuarantine p (sorted_set ports) r n.0 k) h

NotConfirmed-split :
    (p : ℕ) (c : Call) (cs : List Call)
    → NotConfirmed p (c ∷ cs)
    → NotConfirmed p (c ∷ []) × NotConfirmed p cs
NotConfirmed-split p (acquire job known ports) cs n = (tt, n)
NotConfirmed-split p (release job q) cs n = (tt, n)
NotConfirmed-split p (confirm ports) cs n = ((n.0, tt), n.1)

-- A port in quarantine stays in quarantine, without a holder, through every sequence of calls that
-- does not confirm it.
pub run-InQuarantine :
    (p : ℕ) (cs : List Call) (t : List Lease)
    → NotConfirmed p cs
    → InQuarantine p t
    → InQuarantine p (run cs t)
unfolding run
run-InQuarantine p [] t n h = h
run-InQuarantine p (c ∷ cs) t n h =
    let (first, rest) = NotConfirmed-split p c cs n in
    run-InQuarantine p cs (step c t) rest (step-InQuarantine p c t first h)
