-- ===== src/Storms/Queries.antt =====
-- A query that `encode_dns_query` of src/trex_cli/dns_storm.py makes, read again.
use trex_cli.Prelude.{
  length-append, ℕ, zero, suc, ◌+◌, ◌^◌, ◌≤◌, ◌<◌, ◌≡◌, refl, ap, Bool, true, false, Option, none,
  some, List, [], ◌∷◌, ◌++◌, arith, length, ltb, ◌==◌, if◌then◌else◌, every, split, to_bytes,
  from_bytes,
}
use trex_cli.Storms.Dns.{
  is_label, label_bytes, normalize_dns_name, QueryType, type_code, drop_last, name_bytes,
  query_flags, query_header, query_payload, payload_of, encode_dns_query, wire_size, at_least_64,
}
use trex_cli.Storms.Discover.{slice, field}
use trex_cli.Storms.Names.{normalize-labels}

unfoldable pub take : ℕ → List ℕ → List ℕ
take zero bs = []
take (suc n) [] = []
take (suc n) (b ∷ bs) = b ∷ take n bs

unfoldable pub drop : ℕ → List ℕ → List ℕ
drop zero bs = bs
drop (suc n) [] = []
drop (suc n) (b ∷ bs) = drop n bs

unfoldable pub cons_label :
    List ℕ → Option (List (List ℕ) × List ℕ) → Option (List (List ℕ) × List ℕ)
cons_label w none = none
cons_label w (some (ws, rest)) = some (w ∷ ws, rest)

-- A name read from bytes, at most so many labels: the labels, and the bytes behind the name.
unfoldable pub read_name : ℕ → List ℕ → Option (List (List ℕ) × List ℕ)
read_name zero bs = none
read_name (suc fuel) [] = none
read_name (suc fuel) (n ∷ bs) =
    let further = read_name fuel (drop n bs) in
    if n == 0 then some ([], bs) else cons_label (take n bs) further

take-append : (w rest : List ℕ) → take (length w) (w ++ rest) ≡ w
unfolding take
take-append [] rest = refl
take-append (c ∷ w) rest = ap (λ r. c ∷ r) (take-append w rest)

drop-append : (w rest : List ℕ) → drop (length w) (w ++ rest) ≡ rest
unfolding drop
drop-append [] rest = refl
drop-append (c ∷ w) rest = drop-append w rest

append_assoc : (xs ys zs : List ℕ) → (xs ++ ys) ++ zs ≡ xs ++ (ys ++ zs)
append_assoc [] ys zs = refl
append_assoc (x ∷ xs) ys zs = ap (λ r. x ∷ r) (append_assoc xs ys zs)

label_size : (w : List ℕ) → is_label w ≡ true → (length w == 0) ≡ false
unfolding is_label
label_size [] h = absurd (cc h)
label_size (c ∷ w) h = ground arith

read_name-name_bytes :
    (fuel : ℕ) (ws : List (List ℕ)) (rest : List ℕ)
    → length ws < fuel
    → every is_label ws ≡ true
    → read_name fuel (name_bytes ws ++ 0 ∷ rest) ≡ some (ws, rest)
unfolding read_name name_bytes every cons_label
read_name-name_bytes zero ws rest enough h = absurd (omega arith)
read_name-name_bytes (suc fuel) [] rest enough h = refl
read_name-name_bytes (suc fuel) (w ∷ ws) rest enough h =
    let inner : read_name fuel (name_bytes ws ++ 0 ∷ rest) ≡ some (ws, rest) =
      read_name-name_bytes fuel ws rest (omega arith) (ground arith) in
    rw
      (
        append_assoc w (name_bytes ws) (0 ∷ rest),
        label_size w (ground arith),
        take-append w (name_bytes ws ++ 0 ∷ rest),
        drop-append w (name_bytes ws ++ 0 ∷ rest),
        inner,
      )
      refl

length-label_bytes : (ws : List (List ℕ)) → length ws ≤ label_bytes ws
unfolding label_bytes
length-label_bytes [] = omega arith
length-label_bytes (w ∷ ws) = omega (arith, length-label_bytes ws)

length-name_bytes : (ws : List (List ℕ)) → length (name_bytes ws) ≡ label_bytes ws
unfolding name_bytes label_bytes
length-name_bytes [] = refl
length-name_bytes (w ∷ ws) = omega (arith, length-append w (name_bytes ws), length-name_bytes ws)

-- A query with one question, for these labels and this type in class IN.
pub record IsQuery (payload : List ℕ) (id flags : ℕ) (labels : List (List ℕ)) (code : ℕ)
    : Type 0 where
  pub transaction : field 0 2 payload ≡ id
  pub flag_word : field 2 2 payload ≡ flags
  pub questions : field 4 2 payload ≡ 1
  pub records : field 6 6 payload ≡ 0
  pub question : read_name 256 (drop 12 payload) ≡ some (labels, to_bytes 2 code ++ to_bytes 2 1)

two_bytes : (n : ℕ) → n < 2 ^ 16 → from_bytes 0 (to_bytes 2 n) ≡ n
unfolding from_bytes to_bytes
two_bytes n h = omega arith

flags_lt : (recursion : Bool) → query_flags recursion < 2 ^ 16
unfolding query_flags
flags_lt true = omega arith
flags_lt false = omega arith

payload-IsQuery :
    (full : List ℕ) (query : QueryType) (recursion : Bool) (id : ℕ)
    → id < 2 ^ 16
    → every is_label (split b'.' (drop_last full)) ≡ true
    → label_bytes (split b'.' (drop_last full)) + 1 ≤ 255
    → IsQuery
        (query_payload full query recursion id)
        id
        (query_flags recursion)
        (split b'.' (drop_last full))
        (type_code query)
unfolding slice query_payload query_header from_bytes to_bytes drop
payload-IsQuery full query recursion id bound good short =
    let ws : List (List ℕ) = split b'.' (drop_last full) in
    record {
      transaction = two_bytes id bound;
      flag_word = two_bytes (query_flags recursion) (flags_lt recursion);
      questions = refl;
      records = refl;
      question = read_name-name_bytes 256 ws _ (omega (arith, length-label_bytes ws)) good;
    }

payload_size :
    (full : List ℕ) (query : QueryType) (recursion : Bool) (id : ℕ)
    → label_bytes (split b'.' (drop_last full)) + 1 ≤ 255
    → (64 ≤ wire_size (query_payload full query recursion id))
      × (wire_size (query_payload full query recursion id) ≤ 317)
unfolding wire_size at_least_64 query_payload query_header to_bytes
payload_size full query recursion id short =
    let ws : List (List ℕ) = split b'.' (drop_last full) in
    let size : length (name_bytes ws ++ 0 ∷ (to_bytes 2 (type_code query) ++ to_bytes 2 1))
        ≡ label_bytes ws + 5 =
      omega (
        arith,
        length-append (name_bytes ws) (0 ∷ (to_bytes 2 (type_code query) ++ to_bytes 2 1)),
        length-name_bytes ws,
      ) in
    ground arith

-- A name that is normalized and a transaction of 16 bits have a query; read again, it has the
-- transaction, the flags, one question, and the labels of the normalized name with the type, and it
-- takes between 64 and 317 bytes on the wire.
pub encode_dns_query-IsQuery :
    (name full : List ℕ) (query : QueryType) (recursion : Bool) (id : ℕ)
    → normalize_dns_name name ≡ some full
    → id < 2 ^ 16
    → (payload : List ℕ) × ((encode_dns_query name query recursion id ≡ some payload)
        × (IsQuery payload id
              (query_flags recursion)
              (split b'.' (drop_last full))
              (type_code query)
            × ((64 ≤ wire_size payload) × (wire_size payload ≤ 317))))
unfolding encode_dns_query payload_of
encode_dns_query-IsQuery name full query recursion id normal bound =
    let (good, short) = normalize-labels name full normal in
    let fits : ltb id (2 ^ 16) ≡ true = ground arith in
    (
      query_payload full query recursion id,
      (
        rw (normal, fits) refl,
        (
          payload-IsQuery full query recursion id bound good short,
          payload_size full query recursion id short,
        ),
      ),
    )
