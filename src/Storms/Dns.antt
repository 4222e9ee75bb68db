-- ===== src/Storms/Dns.antt =====
-- The queries of src/trex_cli/dns_storm.py, on ASCII text. A value is `none` where the code raises
-- an error.
use trex_cli.Prelude.{
  ℕ, ◌+◌, ◌^◌, Bool, true, false, ◌&&◌, ◌||◌, not, Option, none, some, List, [], ◌∷◌, ◌++◌, map,
  length, ltb, leb, ◌==◌, if◌then◌else◌, lower_char, every, split, to_bytes,
}

unfoldable pub is_alnum : ℕ → Bool
is_alnum c = (leb b'A' c && leb c b'Z') || (leb b'a' c && leb c b'z') || (leb b'0' c && leb c b'9')

-- `[A-Za-z0-9-]*[A-Za-z0-9]`, or nothing
unfoldable pub label_rest : List ℕ → Bool
label_rest [] = true
label_rest (c ∷ []) = is_alnum c
label_rest (c ∷ d ∷ cs) = (is_alnum c || c == b'-') && label_rest (d ∷ cs)

-- `_LABEL_RE.fullmatch(label)`
unfoldable pub is_label : List ℕ → Bool
is_label [] = false
is_label (c ∷ cs) = is_alnum c && label_rest cs && leb (length cs) 62

-- `value[:-1] if value.endswith(".") else value`
unfoldable pub strip_dot : List ℕ → List ℕ
strip_dot [] = []
strip_dot (c ∷ []) = if c == b'.' then [] else c ∷ []
strip_dot (c ∷ d ∷ cs) = c ∷ strip_dot (d ∷ cs)

-- `sum(len(label) + 1 for label in labels)`
unfoldable pub label_bytes : List (List ℕ) → ℕ
label_bytes [] = 0
label_bytes (w ∷ ws) = length w + 1 + label_bytes ws

unfoldable pub normalize_candidate : List ℕ → Option (List ℕ)
normalize_candidate candidate =
    if not (every is_label (split b'.' candidate))
    then none
    else (if ltb 255 (label_bytes (split b'.' candidate) + 1)
        then none
        else some (map lower_char candidate ++ b'.' ∷ []))

-- `normalize_dns_name`: the empty candidate has one label, which is empty
unfoldable pub normalize_dns_name : List ℕ → Option (List ℕ)
normalize_dns_name value = normalize_candidate (strip_dot value)

pub data QueryType : Type 0 where
  type_a type_aaaa : QueryType

-- `_QUERY_TYPE`
unfoldable pub type_code : QueryType → ℕ
type_code type_a = 1
type_code type_aaaa = 28

-- `text[:-1]`
unfoldable pub drop_last : List ℕ → List ℕ
drop_last [] = []
drop_last (c ∷ []) = []
drop_last (c ∷ d ∷ cs) = c ∷ drop_last (d ∷ cs)

-- the labels, each behind its length
unfoldable pub name_bytes : List (List ℕ) → List ℕ
name_bytes [] = []
name_bytes (w ∷ ws) = length w ∷ (w ++ name_bytes ws)

unfoldable pub query_flags : Bool → ℕ
query_flags true = 0x0100
query_flags false = 0

-- `struct.pack("!HHHHHH", transaction_id, flags, 1, 0, 0, 0)`
unfoldable pub query_header : ℕ → Bool → List ℕ
query_header transaction_id recursion =
    to_bytes 2 transaction_id
    ++ to_bytes 2 (query_flags recursion)
    ++ to_bytes 2 1
    ++ to_bytes 2 0
    ++ to_bytes 2 0
    ++ to_bytes 2 0

unfoldable pub query_payload : List ℕ → QueryType → Bool → ℕ → List ℕ
query_payload normalized query recursion transaction_id =
    query_header transaction_id recursion
    ++ name_bytes (split b'.' (drop_last normalized))
    ++ 0 ∷ (to_bytes 2 (type_code query) ++ to_bytes 2 1)

unfoldable pub payload_of : Option (List ℕ) → QueryType → Bool → ℕ → Option (List ℕ)
payload_of none query recursion transaction_id = none
payload_of (some normalized) query recursion transaction_id =
    if ltb transaction_id (2 ^ 16)
    then some (query_payload normalized query recursion transaction_id)
    else none

-- `encode_dns_query`
unfoldable pub encode_dns_query : List ℕ → QueryType → Bool → ℕ → Option (List ℕ)
encode_dns_query name query recursion transaction_id =
    payload_of (normalize_dns_name name) query recursion transaction_id

-- `max(64, size)`
unfoldable pub at_least_64 : ℕ → ℕ
at_least_64 size = if ltb 64 size then size else 64

-- `dns_query_wire_size` and `dhcp_discover_wire_size`
unfoldable pub wire_size : List ℕ → ℕ
wire_size payload = at_least_64 (4 + 14 + 20 + 8 + length payload)
