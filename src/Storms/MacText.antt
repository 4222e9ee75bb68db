-- ===== src/Storms/MacText.antt =====
-- The text of a MAC address and its number, for src/trex_cli/dhcp_storm.py.
use trex_cli.Prelude.{
  ℕ, suc, ◌+◌, ◌*◌, ◌/◌, ◌%◌, ◌^◌, ◌<◌, ◌≡◌, refl, sym, ap, ◌∙◌, inl, inr, true, false, some, List,
  [], ◌∷◌, ◌++◌, map, arith, length, All, ◌==◌, Bool-cases, lower_char, every, split, join, concat,
  prepend, to_bytes, from_bytes,
}
use trex_cli.Storms.Mac.{
  format_mac, is_group, octet_text, hex_value, hex_digit, hex_number, is_hex, is_octet,
  parse_unicast_mac,
}

prepend_cons :
    (c : ℕ) (ws : List (List ℕ)) → (w : List ℕ) × ((vs : List (List ℕ)) × (prepend c ws ≡ w ∷ vs))
unfolding prepend
prepend_cons c [] = (c ∷ [], ([], refl))
prepend_cons c (w ∷ ws) = (c ∷ w, (ws, refl))

split_cons :
    (sep : ℕ) (text : List ℕ) → (w : List ℕ) × ((ws : List (List ℕ)) × (split sep text ≡ w ∷ ws))
unfolding split
split_cons sep [] = ([], ([], refl))
split_cons sep (c ∷ cs) = elim (Bool-cases (c == sep)) [
  | inl e ↦ ([], (split sep cs, rw e refl))
  | inr e ↦ let (w, (vs, q)) = prepend_cons c (split sep cs) in (w, (vs, rw e q))
]

join-prepend : (sep c : ℕ) (ws : List (List ℕ)) → join sep (prepend c ws) ≡ c ∷ join sep ws
unfolding join prepend
join-prepend sep c [] = refl
join-prepend sep c (w ∷ []) = refl
join-prepend sep c (w ∷ v ∷ ws) = refl

join_empty :
    (sep : ℕ) (text : List ℕ) → join sep ([] ∷ split sep text) ≡ sep ∷ join sep (split sep text)
unfolding join
join_empty sep text = let (w, (ws, e)) = split_cons sep text in rw e refl

-- The words of a text, joined again, are the text.
pub join-split : (sep : ℕ) (text : List ℕ) → join sep (split sep text) ≡ text
unfolding join split
join-split sep [] = refl
join-split sep (c ∷ cs) = elim (Bool-cases (c == sep)) [
  | inl e ↦
      let q : c ≡ sep = ground arith in
      rw e (join_empty sep cs ∙ (rw (join-split sep cs) (ap (λ s. s ∷ cs) (sym q))))
  | inr e ↦ rw e (join-prepend sep c (split sep cs) ∙ ap (λ w. c ∷ w) (join-split sep cs))
]

hex_digit-hex_value : (c : ℕ) → is_hex c ≡ true → hex_digit (hex_value c) ≡ lower_char c
unfolding is_hex hex_digit hex_value lower_char
hex_digit-hex_value c h = ground arith

hex_value-lt : (c : ℕ) → is_hex c ≡ true → hex_value c < 16
unfolding is_hex hex_value
hex_value-lt c h = ground arith

pub hex_value-hex_digit : (d : ℕ) → d < 16 → hex_value (hex_digit d) ≡ d
unfolding hex_digit hex_value
hex_value-hex_digit d h = ground arith

pub hex_digit-is_hex : (d : ℕ) → d < 16 → is_hex (hex_digit d) ≡ true
unfolding is_hex hex_digit
hex_digit-is_hex d h = ground arith

hex_number-append :
    (n : ℕ) (xs ys : List ℕ) → hex_number n (xs ++ ys) ≡ hex_number (hex_number n xs) ys
unfolding hex_number
hex_number-append n [] ys = refl
hex_number-append n (x ∷ xs) ys = hex_number-append (n * 16 + hex_value x) xs ys

-- An octet's value, its bound and its text.
octet-lt : (w : List ℕ) → is_octet w ≡ true → hex_number 0 w < 256
unfolding is_octet hex_number every
octet-lt [] h = absurd (cc h)
octet-lt (a ∷ []) h = absurd (cc h)
octet-lt (a ∷ b ∷ []) h = ground (arith, hex_value-lt a, hex_value-lt b)
octet-lt (a ∷ b ∷ c ∷ w) h = ground arith

octet-hex_number :
    (n : ℕ) (w : List ℕ) → is_octet w ≡ true → hex_number n w ≡ n * 256 + hex_number 0 w
unfolding is_octet hex_number every
octet-hex_number n [] h = absurd (cc h)
octet-hex_number n (a ∷ []) h = absurd (cc h)
octet-hex_number n (a ∷ b ∷ []) h = omega arith
octet-hex_number n (a ∷ b ∷ c ∷ w) h = ground arith

octet_digits : (x y : ℕ) → y < 16 → octet_text (x * 16 + y) ≡ hex_digit x ∷ hex_digit y ∷ []
unfolding octet_text
octet_digits x y h =
    let high : (x * 16 + y) / 16 ≡ x = omega arith in
    let low : (x * 16 + y) % 16 ≡ y = omega arith in rw (high, low) refl

octet_text-octet : (w : List ℕ) → is_octet w ≡ true → octet_text (hex_number 0 w) ≡ map lower_char w
unfolding is_octet hex_number every octet_text
octet_text-octet [] h = absurd (cc h)
octet_text-octet (a ∷ []) h = absurd (cc h)
octet_text-octet (a ∷ b ∷ []) h =
    let ha : is_hex a ≡ true = ground arith in
    let hb : is_hex b ≡ true = ground arith in
    let start : 0 + hex_value a ≡ hex_value a = omega arith in
    rw start (
      octet_digits (hex_value a) (hex_value b) (hex_value-lt b hb)
      ∙ rw (hex_digit-hex_value a ha, hex_digit-hex_value b hb) refl)
octet_text-octet (a ∷ b ∷ c ∷ w) h = ground arith

-- The value of a text of octets is that of its bytes.
abbrev pub octets : List (List ℕ) → List ℕ
octets ws = map (hex_number 0) ws

pub hex_number-concat :
    (n : ℕ) (ws : List (List ℕ))
    → every is_octet ws ≡ true
    → hex_number n (concat ws) ≡ from_bytes n (octets ws)
unfolding concat from_bytes every hex_number
hex_number-concat n [] h = refl
hex_number-concat n (w ∷ ws) h =
    let hw : is_octet w ≡ true = ground arith in
    let hs : every is_octet ws ≡ true = ground arith in
    hex_number-append n w (concat ws)
    ∙ rw (octet-hex_number n w hw) (hex_number-concat (n * 256 + hex_number 0 w) ws hs)

octets-lt : (ws : List (List ℕ)) → every is_octet ws ≡ true → All (λ b. b < 256) (octets ws)
unfolding every
octets-lt [] h = tt
octets-lt (w ∷ ws) h = (octet-lt w (ground arith), octets-lt ws (ground arith))

octets-octet_text :
    (ws : List (List ℕ))
    → every is_octet ws ≡ true
    → map octet_text (octets ws) ≡ map (map lower_char) ws
unfolding every
octets-octet_text [] h = refl
octets-octet_text (w ∷ ws) h =
    rw (octet_text-octet w (ground arith), octets-octet_text ws (ground arith)) refl

map-append : (f : ℕ → ℕ) (xs ys : List ℕ) → map f (xs ++ ys) ≡ map f xs ++ map f ys
map-append f [] ys = refl
map-append f (x ∷ xs) ys = ap (λ w. f x ∷ w) (map-append f xs ys)

join-lower_char :
    (ws : List (List ℕ)) → join b':' (map (map lower_char) ws) ≡ map lower_char (join b':' ws)
unfolding join lower_char
join-lower_char [] = refl
join-lower_char (w ∷ []) = refl
join-lower_char (w ∷ v ∷ ws) =
    ap (λ r. map lower_char w ++ b':' ∷ r) (join-lower_char (v ∷ ws))
    ∙ sym (map-append lower_char w (b':' ∷ join b':' (v ∷ ws)))

-- Six bytes written and read.
six_bytes :
    (a b c d e f : ℕ)
    → All (λ x. x < 256) (a ∷ b ∷ c ∷ d ∷ e ∷ f ∷ [])
    → to_bytes 6 (from_bytes 0 (a ∷ b ∷ c ∷ d ∷ e ∷ f ∷ [])) ≡ a ∷ b ∷ c ∷ d ∷ e ∷ f ∷ []
unfolding to_bytes from_bytes
six_bytes a b c d e f (ha, (hb, (hc, (hd, (he, (hf, _)))))) =
    let n : ℕ = ((((a * 256 + b) * 256 + c) * 256 + d) * 256 + e) * 256 + f in
    let start : 0 + a ≡ a = omega arith in
    let qa : (n / 1099511627776) % 256 ≡ a = omega arith in
    let qb : (n / 4294967296) % 256 ≡ b = omega arith in
    let qc : (n / 16777216) % 256 ≡ c = omega arith in
    let qd : (n / 65536) % 256 ≡ d = omega arith in
    let qe : (n / 256) % 256 ≡ e = omega arith in
    let qf : (n / 1) % 256 ≡ f = omega arith in rw start (rw (qa, qb, qc, qd, qe, qf) refl)

pub to_bytes-from_bytes :
    (bs : List ℕ)
    → length bs ≡ 6
    → All (λ x. x < 256) bs
    → (to_bytes 6 (from_bytes 0 bs) ≡ bs) × (from_bytes 0 bs < 2 ^ 48)
unfolding from_bytes
to_bytes-from_bytes (a ∷ b ∷ c ∷ d ∷ e ∷ f ∷ []) n h = (six_bytes a b c d e f h, omega arith)
to_bytes-from_bytes [] n h = absurd (omega arith)
to_bytes-from_bytes (a ∷ []) n h = absurd (omega arith)
to_bytes-from_bytes (a ∷ b ∷ []) n h = absurd (omega arith)
to_bytes-from_bytes (a ∷ b ∷ c ∷ []) n h = absurd (omega arith)
to_bytes-from_bytes (a ∷ b ∷ c ∷ d ∷ []) n h = absurd (omega arith)
to_bytes-from_bytes (a ∷ b ∷ c ∷ d ∷ e ∷ []) n h = absurd (omega arith)
to_bytes-from_bytes (a ∷ b ∷ c ∷ d ∷ e ∷ f ∷ g ∷ bs) n h = absurd (omega arith)

pub from_bytes-to_bytes : (n : ℕ) → n < 2 ^ 48 → from_bytes 0 (to_bytes 6 n) ≡ n
unfolding to_bytes from_bytes
from_bytes-to_bytes n h = omega arith

pub length-map : (f : List ℕ → ℕ) (ws : List (List ℕ)) → length (map f ws) ≡ length ws
length-map f [] = refl
length-map f (w ∷ ws) = ap suc (length-map f ws)

-- The text of a unicast address that is parsed, and its number: the number is that of the octets.
pub parse_unicast_mac-octets :
    (text : List ℕ) (n : ℕ)
    → parse_unicast_mac text ≡ some n
    → (length (split b':' text) ≡ 6)
      × ((every is_octet (split b':' text) ≡ true)
          × ((n ≡ from_bytes 0 (octets (split b':' text))) × (is_group n ≡ false)))
unfolding parse_unicast_mac
parse_unicast_mac-octets text n h = ground (arith, hex_number-concat 0 (split b':' text))

-- A unicast MAC address that is parsed is written back as the same text in lower case.
pub format_mac-parse_unicast_mac :
    (text : List ℕ) (n : ℕ)
    → parse_unicast_mac text ≡ some n
    → (n < 2 ^ 48) × (format_mac n ≡ some (map lower_char text))
unfolding format_mac
format_mac-parse_unicast_mac text n h =
    let ws : List (List ℕ) = split b':' text in
    let (six, (good, (value, _))) = parse_unicast_mac-octets text n h in
    let (bytes, bound) =
      to_bytes-from_bytes (octets ws) (length-map (hex_number 0) ws ∙ six) (octets-lt ws good) in
    let below : n < 2 ^ 48 = omega arith in
    let written : join b':' (map octet_text (to_bytes 6 n)) ≡ map lower_char text =
      rw (value, bytes, octets-octet_text ws good)
        (join-lower_char ws ∙ ap (map lower_char) (join-split b':' text)) in
    (below, rw written (ground arith))
