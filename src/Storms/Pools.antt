-- ===== src/Storms/Pools.antt =====
-- The identities of `dhcp_client_mac_end` of src/trex_cli/dhcp_storm.py, and a written MAC address
-- read again.
use trex_cli.Prelude.{
  ℕ, ◌+◌, ◌-◌, ◌/◌, ◌%◌, ◌^◌, ◌≤◌, ◌<◌, ◌≡◌, refl, sym, ap, ◌∙◌, inl, inr, true, false, some, List,
  [], ◌∷◌, ◌++◌, map, arith, All, ◌==◌, Option-cases, every, split, join, concat, prepend, to_bytes,
  from_bytes,
}
use trex_cli.Storms.Mac.{
  is_hex, hex_number, is_octet, is_group, parse_unicast_mac, octet_text, format_mac, pool_end,
  pool_end_of, dhcp_client_mac_end,
}
use trex_cli.Storms.MacText.{
  octets, hex_value-hex_digit, hex_digit-is_hex, hex_number-concat, from_bytes-to_bytes,
}

split_word : (w : List ℕ) → every is_hex w ≡ true → split b':' w ≡ w ∷ []
unfolding split every prepend is_hex
split_word [] h = refl
split_word (c ∷ w) h =
    let other : (c == b':') ≡ false = ground arith in rw (other, split_word w (ground arith)) refl

split_append :
    (w rest : List ℕ) → every is_hex w ≡ true → split b':' (w ++ b':' ∷ rest) ≡ w ∷ split b':' rest
unfolding split every prepend is_hex
split_append [] rest h = refl
split_append (c ∷ w) rest h =
    let other : (c == b':') ≡ false = ground arith in
    rw (other, split_append w rest (ground arith)) refl

octet_hex : (w : List ℕ) → is_octet w ≡ true → every is_hex w ≡ true
unfolding is_octet
octet_hex w h = ground arith

split-join :
    (w : List ℕ) (ws : List (List ℕ))
    → every is_octet (w ∷ ws) ≡ true
    → split b':' (join b':' (w ∷ ws)) ≡ w ∷ ws
unfolding join every
split-join w [] h = split_word w (octet_hex w (ground arith))
split-join w (v ∷ ws) h =
    split_append w (join b':' (v ∷ ws)) (octet_hex w (ground arith))
    ∙ ap (λ r. w ∷ r) (split-join v ws (ground arith))

octet_text-is_octet : (b : ℕ) → b < 256 → is_octet (octet_text b) ≡ true
unfolding is_octet octet_text every
octet_text-is_octet b h = ground (arith, hex_digit-is_hex (b / 16), hex_digit-is_hex (b % 16))

hex_number-octet_text : (b : ℕ) → b < 256 → hex_number 0 (octet_text b) ≡ b
unfolding hex_number octet_text
hex_number-octet_text b h =
    omega (
      arith,
      hex_value-hex_digit (b / 16) (omega arith),
      hex_value-hex_digit (b % 16) (omega arith),
    )

texts_good :
    (bs : List ℕ)
    → All (λ b. b < 256) bs
    → (every is_octet (map octet_text bs) ≡ true) × (octets (map octet_text bs) ≡ bs)
unfolding every
texts_good [] h = (refl, refl)
texts_good (b ∷ bs) (hb, hs) =
    let (good, same) = texts_good bs hs in
    (rw (octet_text-is_octet b hb, good) refl, rw (hex_number-octet_text b hb, same) refl)

-- A unicast address that is written is read again as the same number.
pub parse_unicast_mac-format_mac :
    (n : ℕ) (text : List ℕ)
    → is_group n ≡ false
    → format_mac n ≡ some text
    → parse_unicast_mac text ≡ some n
unfolding format_mac parse_unicast_mac to_bytes
parse_unicast_mac-format_mac n text unicast h =
    let bound : n < 2 ^ 48 = ground arith in
    let bs : List ℕ = to_bytes 6 n in
    let small : All (λ b. b < 256) bs = (
      omega arith,
      (omega arith, (omega arith, (omega arith, (omega arith, (omega arith, tt))))),
    ) in
    let (good, same) = texts_good bs small in
    let written : join b':' (map octet_text bs) ≡ text = ground arith in
    let words : split b':' text ≡ map octet_text bs =
      ap (split b':') (sym written) ∙ split-join (octet_text (n / 256 ^ 5 % 256)) _ good in
    let number : hex_number 0 (concat (map octet_text bs)) ≡ n =
      hex_number-concat 0 (map octet_text bs) good
      ∙ (ap (from_bytes 0) same ∙ from_bytes-to_bytes n bound) in
    rw words (rw (good, number, unicast) refl)

-- The identity at this position of a pool that starts at `first`: it fits in 48 bits, is unicast
-- and has the first two octets of `first`.
abbrev pub IdentityInPool : ℕ → ℕ → Type 0
IdentityInPool first i =
    (first + i < 2 ^ 48)
    × ((is_group (first + i) ≡ false) × ((first + i) / 2 ^ 32 ≡ first / 2 ^ 32))

pool_end-IdentityInPool :
    (first count : ℕ) (end : List ℕ)
    → 1 ≤ count
    → pool_end first count ≡ some end
    → (format_mac (first + count - 1) ≡ some end) × ((i : ℕ) → i < count → IdentityInPool first i)
unfolding pool_end is_group
pool_end-IdentityInPool first count end some_identity h =
    (ground arith, λ i hi. (ground arith, (ground arith, ground arith)))

pool_end_exists :
    (first count : ℕ)
    → 1 ≤ count
    → IdentityInPool first (count - 1)
    → (end : List ℕ) × (pool_end first count ≡ some end)
unfolding pool_end is_group format_mac
pool_end_exists first count some_identity (h, (u, p)) =
    (join b':' (map octet_text (to_bytes 6 (first + count - 1))), ground arith)

last_unicast :
    (first count : ℕ)
    → 1 ≤ count
    → ((i : ℕ) → i < count → IdentityInPool first i)
    → is_group (first + count - 1) ≡ false
last_unicast first count enough each =
    let at : first + (count - 1) ≡ first + count - 1 = omega arith in
    rw (sym at) ((each (count - 1) (omega arith)).1.0)

dhcp_end-inv :
    (start end : List ℕ) (count : ℕ)
    → dhcp_client_mac_end start count ≡ some end
    → (1 ≤ count)
      × ((first : ℕ) × ((parse_unicast_mac start ≡ some first) × (pool_end first count ≡ some end)))
unfolding dhcp_client_mac_end pool_end_of
dhcp_end-inv start end count h = elim (Option-cases (parse_unicast_mac start)) [
  | inl e ↦ absurd (ground arith)
  | inr (first, e) ↦ (ground arith, (first, (e, ground arith)))
]

-- A pool that is given an end has an identity: the start is a unicast MAC address, and each of the
-- `count` addresses from it on fits in 48 bits, is unicast and has the first two octets of the
-- start; the end, read again, is the last of them.
pub dhcp_client_mac_end-IdentityInPool :
    (start end : List ℕ) (count : ℕ)
    → dhcp_client_mac_end start count ≡ some end
    → (1 ≤ count)
      × ((first : ℕ) × ((parse_unicast_mac start ≡ some first)
            × ((parse_unicast_mac end ≡ some (first + count - 1))
                × ((i : ℕ) → i < count → IdentityInPool first i))))
dhcp_client_mac_end-IdentityInPool start end count h =
    let (enough, (first, (parsed, ended))) = dhcp_end-inv start end count h in
    let (written, each) = pool_end-IdentityInPool first count end enough ended in
    let unicast : is_group (first + count - 1) ≡ false = last_unicast first count enough each in
    (
      enough,
      (
        first,
        (parsed, (parse_unicast_mac-format_mac (first + count - 1) end unicast written, each)),
      ),
    )

-- A start that is a unicast MAC address, and a count of at least one, are given an end whenever the
-- last identity fits in 48 bits, is unicast and has the first two octets of the start.
pub dhcp_client_mac_end-Given :
    (start : List ℕ) (first count : ℕ)
    → parse_unicast_mac start ≡ some first
    → 1 ≤ count
    → IdentityInPool first (count - 1)
    → (end : List ℕ) × (dhcp_client_mac_end start count ≡ some end)
unfolding dhcp_client_mac_end pool_end_of
dhcp_client_mac_end-Given start first count parsed enough last =
    let (end, e) = pool_end_exists first count enough last in (end, ground arith)
