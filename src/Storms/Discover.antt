-- ===== src/Storms/Discover.antt =====
-- The fields of a DHCP Discover that `encode_dhcp_discover` of src/trex_cli/dhcp_storm.py makes.
use trex_cli.Prelude.{
  ℕ, zero, suc, ◌^◌, ◌<◌, ◌≡◌, refl, false, some, List, [], ◌∷◌, map, arith, length, ltb,
  lower_char, to_bytes, from_bytes,
}
use trex_cli.Storms.Mac.{parse_unicast_mac, format_mac}
use trex_cli.Storms.MacText.{format_mac-parse_unicast_mac, from_bytes-to_bytes}
use trex_cli.Storms.Dns.{wire_size, at_least_64}
use trex_cli.Storms.Dhcp.{encode_dhcp_discover, discover_payload, discover_of, set_bytes, zeros}

-- So many bytes behind so many.
unfoldable pub slice : ℕ → ℕ → List ℕ → List ℕ
slice zero zero bs = []
slice zero (suc n) [] = []
slice zero (suc n) (b ∷ bs) = b ∷ slice zero n bs
slice (suc k) n [] = []
slice (suc k) n (b ∷ bs) = slice k n bs

-- The number that this field of a message holds.
abbrev pub field : ℕ → ℕ → List ℕ → ℕ
field offset size payload = from_bytes 0 (slice offset size payload)

-- A Discover of 244 bytes, a BOOTREQUEST for Ethernet that asks for a broadcast reply, with this
-- transaction and this client.
pub record IsDiscover (payload : List ℕ) (transaction_id mac : ℕ) : Type 0 where
  pub size : length payload ≡ 244
  pub operation : field 0 4 payload ≡ 0x01010600
  pub transaction : field 4 4 payload ≡ transaction_id
  pub broadcast : field 10 2 payload ≡ 0x8000
  pub client : field 28 6 payload ≡ mac
  pub options : field 236 8 payload ≡ 0x63825363350101ff

four_bytes : (n : ℕ) → n < 2 ^ 32 → from_bytes 0 (to_bytes 4 n) ≡ n
unfolding from_bytes to_bytes
four_bytes n h = omega arith

payload-IsDiscover :
    (transaction_id mac : ℕ)
    → transaction_id < 2 ^ 32
    → mac < 2 ^ 48
    → IsDiscover (discover_payload mac transaction_id) transaction_id mac
unfolding slice discover_payload set_bytes zeros from_bytes to_bytes
payload-IsDiscover transaction_id mac ht hm = record {
  size = refl;
  operation = refl;
  transaction = four_bytes transaction_id ht;
  broadcast = refl;
  client = from_bytes-to_bytes mac hm;
  options = refl;
}

-- For a unicast MAC address and a transaction of 32 bits there is a Discover; read again, its
-- fields hold the transaction and the client, which is written back as the same text in lower case,
-- and it takes 290 bytes on the wire.
pub encode_dhcp_discover-IsDiscover :
    (client_mac : List ℕ) (transaction_id mac : ℕ)
    → parse_unicast_mac client_mac ≡ some mac
    → transaction_id < 2 ^ 32
    → (payload : List ℕ) × ((encode_dhcp_discover client_mac transaction_id ≡ some payload)
        × (IsDiscover payload transaction_id mac
            × ((format_mac (field 28 6 payload) ≡ some (map lower_char client_mac))
                × (wire_size payload ≡ 290))))
unfolding encode_dhcp_discover discover_of wire_size at_least_64
encode_dhcp_discover-IsDiscover client_mac transaction_id mac parsed bound =
    let (below, written) = format_mac-parse_unicast_mac client_mac mac parsed in
    let fields : IsDiscover (discover_payload mac transaction_id) transaction_id mac =
      payload-IsDiscover transaction_id mac bound below in
    let small : ltb 0xffff_ffff transaction_id ≡ false = ground arith in
    (
      discover_payload mac transaction_id,
      (rw (small, parsed) refl, (fields, (rw fields.client written, rw fields.size refl))),
    )
