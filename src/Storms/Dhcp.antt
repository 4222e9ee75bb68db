-- ===== src/Storms/Dhcp.antt =====
-- `encode_dhcp_discover` of src/trex_cli/dhcp_storm.py.
use trex_cli.Prelude.{
  ℕ, zero, suc, Option, none, some, List, [], ◌∷◌, ◌++◌, ltb, if◌then◌else◌, to_bytes,
}
use trex_cli.Storms.Mac.{parse_unicast_mac}

unfoldable pub zeros : ℕ → List ℕ
zeros zero = []
zeros (suc n) = 0 ∷ zeros n

-- `target[offset : offset + len(values)] = values`, inside the target
unfoldable pub set_bytes : ℕ → List ℕ → List ℕ → List ℕ
set_bytes zero [] target = target
set_bytes zero (v ∷ vs) [] = v ∷ vs
set_bytes zero (v ∷ vs) (b ∷ bs) = v ∷ set_bytes zero vs bs
set_bytes (suc k) values [] = values
set_bytes (suc k) values (b ∷ bs) = b ∷ set_bytes k values bs

-- BOOTREQUEST, the broadcast flag and the client's address, with the DHCP options
unfoldable pub discover_payload : ℕ → ℕ → List ℕ
discover_payload mac transaction_id =
    set_bytes 28 (to_bytes 6 mac) (
      set_bytes 10 (to_bytes 2 0x8000)
        (set_bytes 4 (to_bytes 4 transaction_id) (set_bytes 0 (1 ∷ 1 ∷ 6 ∷ 0 ∷ []) (zeros 236))))
    ++ 0x63 ∷ 0x82 ∷ 0x53 ∷ 0x63 ∷ 0x35 ∷ 1 ∷ 1 ∷ 0xff ∷ []

unfoldable pub discover_of : Option ℕ → ℕ → Option (List ℕ)
discover_of none transaction_id = none
discover_of (some mac) transaction_id = some (discover_payload mac transaction_id)

-- `encode_dhcp_discover`
unfoldable pub encode_dhcp_discover : List ℕ → ℕ → Option (List ℕ)
encode_dhcp_discover client_mac transaction_id =
    if ltb 0xffff_ffff transaction_id
    then none
    else discover_of (parse_unicast_mac client_mac) transaction_id
