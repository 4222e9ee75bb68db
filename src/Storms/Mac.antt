-- ===== src/Storms/Mac.antt =====
-- MAC addresses as text: `parse_unicast_mac`, `format_mac` and `dhcp_client_mac_end` of
-- src/trex_cli/dhcp_storm.py, `_parse_mac` and `MacVariation` of src/trex_cli/models.py. A value
-- is `none` where the code raises a ValueError.
use trex_cli.Prelude.{
  zero, suc, ℕ, ◌+◌, ◌-◌, ◌*◌, ◌/◌, ◌%◌, ◌^◌, Bool, true, false, ◌&&◌, ◌||◌, not, Option, none,
  some, List, [], ◌∷◌, map, length, ltb, leb, ◌==◌, if◌then◌else◌, lower_char, every, split, join,
  concat, to_bytes,
}

-- `char in "0123456789abcdefABCDEF"`
unfoldable pub is_hex : ℕ → Bool
is_hex c = (leb b'0' c && leb c b'9') || (leb b'a' c && leb c b'f') || (leb b'A' c && leb c b'F')

unfoldable pub hex_value : ℕ → ℕ
hex_value c = if leb c b'9' then c - b'0' else (if leb c b'F' then c - 55 else c - 87)

-- `int(text, 16)` for hexadecimal digits, from the value of the digits before
unfoldable pub hex_number : ℕ → List ℕ → ℕ
hex_number n [] = n
hex_number n (c ∷ cs) = hex_number (n * 16 + hex_value c) cs

-- two hexadecimal digits
unfoldable pub is_octet : List ℕ → Bool
is_octet part = length part == 2 && every is_hex part

-- `value & (1 << 40)`: the group bit of an address
unfoldable pub is_group : ℕ → Bool
is_group n = (n / 2 ^ 40) % 2 == 1

-- `parse_unicast_mac`
unfoldable pub parse_unicast_mac : List ℕ → Option ℕ
parse_unicast_mac value =
    let parts = split b':' value in
    let numeric = hex_number 0 (concat parts) in
    if not (length parts == 6) || not (every is_octet parts)
    then none
    else (if is_group numeric then none else some numeric)

-- `f"{octet:02x}"`
unfoldable pub hex_digit : ℕ → ℕ
hex_digit d = if ltb d 10 then d + b'0' else d + 87

unfoldable pub octet_text : ℕ → List ℕ
octet_text o = hex_digit (o / 16) ∷ hex_digit (o % 16) ∷ []

-- `format_mac`
unfoldable pub format_mac : ℕ → Option (List ℕ)
format_mac value =
    if ltb value (2 ^ 48) then some (join b':' (map octet_text (to_bytes 6 value))) else none

-- the checks of `dhcp_client_mac_end` once the start is parsed
unfoldable pub pool_end : ℕ → ℕ → Option (List ℕ)
pool_end first count =
    let last = first + count - 1 in
    if leb (2 ^ 48) last
    then none
    else (if not (first / 2 ^ 32 == last / 2 ^ 32)
        then none
        else (if is_group last then none else format_mac last))

unfoldable pub pool_end_of : Option ℕ → ℕ → Option (List ℕ)
pool_end_of none count = none
pool_end_of (some first) count = pool_end first count

-- `dhcp_client_mac_end`
unfoldable pub dhcp_client_mac_end : List ℕ → ℕ → Option (List ℕ)
dhcp_client_mac_end start count =
    if ltb count 1 then none else pool_end_of (parse_unicast_mac start) count

-- `re.fullmatch(r"(?:[0-9a-fA-F]{2}:){5}[0-9a-fA-F]{2}", value)`: so many more octets
unfoldable pub matches_mac : ℕ → List ℕ → Bool
matches_mac zero (a ∷ b ∷ []) = is_hex a && is_hex b
matches_mac (suc k) (a ∷ b ∷ c ∷ rest) = is_hex a && is_hex b && c == b':' && matches_mac k rest
matches_mac _ _ = false

-- `value.replace(":", "")`
unfoldable pub without_colons : List ℕ → List ℕ
without_colons [] = []
without_colons (c ∷ cs) = let rest = without_colons cs in if c == b':' then rest else c ∷ rest

unfoldable pub same_text : List ℕ → List ℕ → Bool
same_text [] [] = true
same_text (a ∷ xs) (b ∷ ys) = a == b && same_text xs ys
same_text _ _ = false

-- `ff:ff:ff:ff:ff:ff`
abbrev pub broadcast_mac : List ℕ
broadcast_mac = join b':' (
    (b'f' ∷ b'f' ∷ [])
    ∷ (b'f' ∷ b'f' ∷ [])
    ∷ (b'f' ∷ b'f' ∷ [])
    ∷ (b'f' ∷ b'f' ∷ [])
    ∷ (b'f' ∷ b'f' ∷ [])
    ∷ (b'f' ∷ b'f' ∷ [])
    ∷ [])

-- `_parse_mac`
unfoldable pub parse_mac : List ℕ → Option ℕ
parse_mac value =
    let parsed = hex_number 0 (without_colons value) in
    if not (matches_mac 5 value)
    then none
    else (if same_text (map lower_char value) broadcast_mac || is_group parsed
        then none
        else some parsed)

unfoldable pub range_of : Option ℕ → Option ℕ → List ℕ → List ℕ → Option (List ℕ × List ℕ)
range_of (some first) (some last) start end =
    if ltb last first
    then none
    else (if not (first / 2 ^ 32 == last / 2 ^ 32)
        then none
        else some (map lower_char start, map lower_char end))
range_of _ _ start end = none

-- `MacVariation.valid_range`: the ends in lower case
unfoldable pub valid_range : List ℕ → List ℕ → Option (List ℕ × List ℕ)
valid_range start end = range_of (parse_mac start) (parse_mac end) start end
