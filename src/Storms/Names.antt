-- ===== src/Storms/Names.antt =====
-- What `normalize_dns_name` of src/trex_cli/dns_storm.py gives.
use trex_cli.Prelude.{
  ℕ, suc, ◌+◌, ◌≤◌, ◌≡◌, refl, sym, ap, ◌∙◌, inl, inr, true, false, some, List, [], ◌∷◌, ◌++◌, map,
  arith, length, ltb, ◌==◌, Bool-cases, lower_char, every, split, prepend,
}
use trex_cli.Storms.Dns.{
  is_alnum, label_rest, is_label, strip_dot, label_bytes, normalize_candidate, normalize_dns_name,
  drop_last,
}

lower_alnum : (c : ℕ) → is_alnum (lower_char c) ≡ is_alnum c
unfolding is_alnum lower_char
lower_alnum c = ground arith

lower_dash : (c : ℕ) → (lower_char c == b'-') ≡ (c == b'-')
unfolding lower_char
lower_dash c = ground arith

lower_dot : (c : ℕ) → (lower_char c == b'.') ≡ (c == b'.')
unfolding lower_char
lower_dot c = ground arith

pub lower_again : (c : ℕ) → lower_char (lower_char c) ≡ lower_char c
unfolding lower_char
lower_again c = ground arith

length-lower : (w : List ℕ) → length (map lower_char w) ≡ length w
length-lower [] = refl
length-lower (c ∷ w) = ap suc (length-lower w)

map_lower_again : (w : List ℕ) → map lower_char (map lower_char w) ≡ map lower_char w
map_lower_again [] = refl
map_lower_again (c ∷ w) = rw (lower_again c, map_lower_again w) refl

label_rest-lower : (w : List ℕ) → label_rest (map lower_char w) ≡ label_rest w
unfolding label_rest
label_rest-lower [] = refl
label_rest-lower (c ∷ []) = lower_alnum c
label_rest-lower (c ∷ d ∷ w) = rw (lower_alnum c, lower_dash c, label_rest-lower (d ∷ w)) refl

is_label-lower : (w : List ℕ) → is_label (map lower_char w) ≡ is_label w
unfolding is_label
is_label-lower [] = refl
is_label-lower (c ∷ w) = rw (lower_alnum c, label_rest-lower w, length-lower w) refl

prepend-lower :
    (c : ℕ) (ws : List (List ℕ))
    → prepend (lower_char c) (map (map lower_char) ws) ≡ map (map lower_char) (prepend c ws)
unfolding prepend
prepend-lower c [] = refl
prepend-lower c (w ∷ ws) = refl

split-lower :
    (text : List ℕ) → split b'.' (map lower_char text) ≡ map (map lower_char) (split b'.' text)
unfolding split
split-lower [] = refl
split-lower (c ∷ cs) = elim (Bool-cases (c == b'.')) [
  | inl e ↦ rw (lower_dot c, e, split-lower cs) refl
  | inr e ↦ rw (lower_dot c, e, split-lower cs) (prepend-lower c (split b'.' cs))
]

every-lower : (ws : List (List ℕ)) → every is_label (map (map lower_char) ws) ≡ every is_label ws
unfolding every
every-lower [] = refl
every-lower (w ∷ ws) = rw (is_label-lower w, every-lower ws) refl

label_bytes-lower : (ws : List (List ℕ)) → label_bytes (map (map lower_char) ws) ≡ label_bytes ws
unfolding label_bytes
label_bytes-lower [] = refl
label_bytes-lower (w ∷ ws) = rw (length-lower w, label_bytes-lower ws) refl

strip_dot-append : (text : List ℕ) → strip_dot (text ++ b'.' ∷ []) ≡ text
unfolding strip_dot
strip_dot-append [] = refl
strip_dot-append (c ∷ []) = refl
strip_dot-append (c ∷ d ∷ cs) = ap (λ r. c ∷ r) (strip_dot-append (d ∷ cs))

pub drop_last-append : (text : List ℕ) → drop_last (text ++ b'.' ∷ []) ≡ text
unfolding drop_last
drop_last-append [] = refl
drop_last-append (c ∷ []) = refl
drop_last-append (c ∷ d ∷ cs) = ap (λ r. c ∷ r) (drop_last-append (d ∷ cs))

-- The labels of a normalized name are host labels, and fit with their lengths into 255 bytes.
pub normalize-labels :
    (value full : List ℕ)
    → normalize_dns_name value ≡ some full
    → (every is_label (split b'.' (drop_last full)) ≡ true)
      × (label_bytes (split b'.' (drop_last full)) + 1 ≤ 255)
unfolding normalize_dns_name normalize_candidate
normalize-labels value full h =
    let candidate : List ℕ = strip_dot value in
    let whole : map lower_char candidate ++ b'.' ∷ [] ≡ full = ground arith in
    let words : split b'.' (drop_last full) ≡ map (map lower_char) (split b'.' candidate) =
      ap (λ t. split b'.' (drop_last t)) (sym whole)
      ∙ (ap (split b'.') (drop_last-append (map lower_char candidate)) ∙ split-lower candidate) in
    let good : every is_label (split b'.' candidate) ≡ true = ground arith in
    let short : label_bytes (split b'.' candidate) + 1 ≤ 255 = ground arith in
    rw words (
      every-lower (split b'.' candidate) ∙ good,
      rw (label_bytes-lower (split b'.' candidate)) short,
    )

-- A normalized name is normalized to itself.
pub normalize_again :
    (value full : List ℕ)
    → normalize_dns_name value ≡ some full
    → normalize_dns_name full ≡ some full
unfolding normalize_dns_name normalize_candidate
normalize_again value full h =
    let candidate : List ℕ = strip_dot value in
    let whole : map lower_char candidate ++ b'.' ∷ [] ≡ full = ground arith in
    let stripped : strip_dot full ≡ map lower_char candidate =
      ap strip_dot (sym whole) ∙ strip_dot-append (map lower_char candidate) in
    let good : every is_label (split b'.' candidate) ≡ true = ground arith in
    let short : ltb 255 (label_bytes (split b'.' candidate) + 1) ≡ false = ground arith in
    rw
      (
        stripped,
        split-lower candidate,
        every-lower (split b'.' candidate),
        label_bytes-lower (split b'.' candidate),
        good,
        short,
        map_lower_again candidate,
      )
      (ap some whole)
