-- ===== src/Storms/Prefixes.antt =====
-- The prefixes of src/trex_cli/address_policy.py and the identities of a DHCP storm: what its two
-- ends have in common, all addresses between them have.
use trex_cli.Prelude.{
  ℕ, ◌/◌, ◌%◌, ◌^◌, ◌≤◌, ◌<◌, ◌≡◌, refl, sym, ap, ◌∙◌, ◌⊎◌, inl, inr, true, some, List, [], ◌∷◌,
  ◌++◌, map, arith, length, All, ◌==◌, lower_char, join, to_bytes,
}
use trex_cli.Policy.Addresses.{starts_with}
use trex_cli.Storms.Mac.{format_mac, octet_text, hex_digit}

-- The first list of bytes is not behind the second.
abbrev pub Before : List ℕ → List ℕ → Type 0
Before [] bs = Unit
Before (a ∷ xs) [] = ⊥
Before (a ∷ xs) (b ∷ bs) = (a < b) ⊎ ((a ≡ b) × Before xs bs)

level {ℓ} : {P : Type ℓ} (a b : ℕ) → a ≤ b → (a ≡ b → P) → (a < b) ⊎ ((a ≡ b) × P)
level a b h k =
    let less_or_same : (a < b) ⊎ (a ≡ b) = omega arith in
    elim less_or_same [ inl less ↦ inl less | inr same ↦ inr (same, k same) ]

-- Bytes are ordered as the numbers.
to_bytes-Before : (n m : ℕ) → n ≤ m → m < 2 ^ 48 → Before (to_bytes 6 n) (to_bytes 6 m)
unfolding to_bytes
to_bytes-Before n m h bound = level _ _ (omega arith) (λ q1. level _ _ (omega arith) (λ q2.
    level _ _ (omega arith) (λ q3.
      level _ _ (omega arith)
        (λ q4. level _ _ (omega arith) (λ q5. level _ _ (omega arith) (λ q6. tt))))))

digit_same :
    (x y c : ℕ)
    → x < 16
    → y < 16
    → (lower_char (hex_digit x) == c) ≡ true
    → (lower_char (hex_digit y) == c) ≡ true
    → x ≡ y
unfolding lower_char hex_digit
digit_same x y c hx hy h g = ground arith

starts_with-octet :
    (o : ℕ) (rest : List ℕ) (c d : ℕ) (p : List ℕ)
    → starts_with (octet_text o ++ rest) (c ∷ d ∷ p) ≡ true
    → (lower_char (hex_digit (o / 16)) == lower_char c ≡ true)
      × ((lower_char (hex_digit (o % 16)) == lower_char d ≡ true) × (starts_with rest p ≡ true))
unfolding starts_with octet_text
starts_with-octet o rest c d p h = ground arith

Before-le : (a b : ℕ) (xs ys : List ℕ) → Before (a ∷ xs) (b ∷ ys) → a ≤ b
Before-le a b xs ys (inl less) = omega arith
Before-le a b xs ys (inr (same, _)) = omega arith

Before-tail : (a b : ℕ) (xs ys : List ℕ) → Before (a ∷ xs) (b ∷ ys) → a ≡ b → Before xs ys
Before-tail a b xs ys (inl less) same = absurd (omega arith)
Before-tail a b xs ys (inr (_, rest)) same = rest

-- The octets behind the first, each behind a colon.
unfoldable colon_octets : List ℕ → List ℕ
colon_octets [] = []
colon_octets (b ∷ bs) = b':' ∷ (octet_text b ++ colon_octets bs)

join-colon_octets :
    (b : ℕ) (bs : List ℕ) → join b':' (map octet_text (b ∷ bs)) ≡ octet_text b ++ colon_octets bs
unfolding join colon_octets octet_text
join-colon_octets b [] = refl
join-colon_octets b (c ∷ bs) = ap (λ r. octet_text b ++ b':' ∷ r) (join-colon_octets c bs)

first_digit :
    (a x b d : ℕ)
    → a ≤ x
    → x ≤ b
    → b < 256
    → (lower_char (hex_digit (a / 16)) == lower_char d) ≡ true
    → (lower_char (hex_digit (b / 16)) == lower_char d) ≡ true
    → (lower_char (hex_digit (x / 16)) == lower_char d) ≡ true
first_digit a x b d lo hi bound ha hb =
    let same : a / 16 ≡ b / 16 =
      digit_same (a / 16) (b / 16) (lower_char d) (omega arith) (omega arith) ha hb in
    let mine : x / 16 ≡ a / 16 = omega arith in rw mine ha

both_digits :
    (a b d e : ℕ)
    → a < 256
    → b < 256
    → (lower_char (hex_digit (a / 16)) == lower_char d) ≡ true
    → (lower_char (hex_digit (b / 16)) == lower_char d) ≡ true
    → (lower_char (hex_digit (a % 16)) == lower_char e) ≡ true
    → (lower_char (hex_digit (b % 16)) == lower_char e) ≡ true
    → a ≡ b
both_digits a b d e ba bb ha hb la lb =
    let high : a / 16 ≡ b / 16 =
      digit_same (a / 16) (b / 16) (lower_char d) (omega arith) (omega arith) ha hb in
    let low : a % 16 ≡ b % 16 =
      digit_same (a % 16) (b % 16) (lower_char e) (omega arith) (omega arith) la lb in
    omega arith

-- Three lists of as many bytes, in order, of which the first and the last begin with this prefix.
abbrev InOrder : List ℕ → List ℕ → List ℕ → Type 0
InOrder xs ys zs =
    (Before xs ys × Before ys zs)
    × (((length xs ≡ length ys) × (length ys ≡ length zs))
        × (All (λ b. b < 256) xs × All (λ b. b < 256) zs))

starts_one :
    (o : ℕ) (rest : List ℕ) (d : ℕ)
    → starts_with (octet_text o ++ rest) (d ∷ [])
      ≡ (lower_char (hex_digit (o / 16)) == lower_char d)
unfolding starts_with octet_text
starts_one o rest d = ground arith

starts_two :
    (o : ℕ) (rest : List ℕ) (d e : ℕ) (p : List ℕ)
    → (lower_char (hex_digit (o / 16)) == lower_char d) ≡ true
    → (lower_char (hex_digit (o % 16)) == lower_char e) ≡ true
    → starts_with rest p ≡ true
    → starts_with (octet_text o ++ rest) (d ∷ e ∷ p) ≡ true
unfolding starts_with octet_text
starts_two o rest d e p h l r = ground arith

body_between :
    (a x b : ℕ) (xs ys zs p : List ℕ)
    → InOrder (a ∷ xs) (x ∷ ys) (b ∷ zs)
    → ((q : List ℕ)
        → InOrder xs ys zs
        → starts_with (colon_octets xs) q ≡ true
        → starts_with (colon_octets zs) q ≡ true
        → starts_with (colon_octets ys) q ≡ true)
    → starts_with (octet_text a ++ colon_octets xs) p ≡ true
    → starts_with (octet_text b ++ colon_octets zs) p ≡ true
    → starts_with (octet_text x ++ colon_octets ys) p ≡ true
unfolding starts_with
body_between a x b xs ys zs [] between further ha hb = refl
body_between a x b xs ys zs (d ∷ []) ((before, behind), (sizes, (sa, sb))) further ha hb =
    starts_one x (colon_octets ys) d
    ∙ first_digit a x b d (Before-le a x xs ys before) (Before-le x b ys zs behind) sb.0
        (sym (starts_one a (colon_octets xs) d) ∙ ha) (sym (starts_one b (colon_octets zs) d) ∙ hb)
body_between a x b xs ys zs (d ∷ e ∷ p) ((before, behind), ((l1, l2), (sa, sb))) further ha hb =
    let (a1, (a2, a3)) = starts_with-octet a (colon_octets xs) d e p ha in
    let (b1, (b2, b3)) = starts_with-octet b (colon_octets zs) d e p hb in
    let ends : a ≡ b = both_digits a b d e sa.0 sb.0 a1 b1 a2 b2 in
    let le1 : a ≤ x = Before-le a x xs ys before in
    let le2 : x ≤ b = Before-le x b ys zs behind in
    let same : a ≡ x = omega arith in
    let inner : InOrder xs ys zs = (
      (Before-tail a x xs ys before same, Before-tail x b ys zs behind (omega arith)),
      ((omega arith, omega arith), (sa.1, sb.1)),
    ) in
    starts_two x (colon_octets ys) d e p (rw (sym same) a1) (rw (sym same) a2)
      (further p inner a3 b3)

colon_between :
    (xs ys zs p : List ℕ)
    → InOrder xs ys zs
    → starts_with (colon_octets xs) p ≡ true
    → starts_with (colon_octets zs) p ≡ true
    → starts_with (colon_octets ys) p ≡ true
unfolding starts_with colon_octets
colon_between (a ∷ xs) (x ∷ ys) (b ∷ zs) [] between ha hb = refl
colon_between (a ∷ xs) (x ∷ ys) (b ∷ zs) (c ∷ p) between ha hb =
    let colon : (lower_char b':' == lower_char c) ≡ true = ground arith in
    let first : starts_with (octet_text a ++ colon_octets xs) p ≡ true = ground arith in
    let last : starts_with (octet_text b ++ colon_octets zs) p ≡ true = ground arith in
    let middle : starts_with (octet_text x ++ colon_octets ys) p ≡ true =
      body_between a x b xs ys zs p between (colon_between xs ys zs) first last in
    rw (colon, middle) refl
colon_between [] [] zs p ((_, _), ((_, l), _)) ha hb = ha
colon_between [] (x ∷ ys) zs p ((_, _), ((l, _), _)) ha hb = absurd (omega arith)
colon_between (a ∷ xs) [] zs p ((_, _), ((l, _), _)) ha hb = absurd (omega arith)
colon_between (a ∷ xs) (x ∷ ys) [] p ((_, _), ((_, l), _)) ha hb = absurd (omega arith)

six_small : (n : ℕ) → All (λ b. b < 256) (to_bytes 6 n)
unfolding to_bytes
six_small n =
    (omega arith, (omega arith, (omega arith, (omega arith, (omega arith, (omega arith, tt))))))

mac_text : ℕ → List ℕ
mac_text n = join b':' (map octet_text (to_bytes 6 n))

mac_text_octets :
    (n : ℕ) → mac_text n ≡ octet_text ((n / 256 ^ 5) % 256) ++ colon_octets (to_bytes 5 n)
unfolding mac_text to_bytes
mac_text_octets n = join-colon_octets ((n / 256 ^ 5) % 256) (to_bytes 5 n)

bytes_between :
    (n x m : ℕ) → n ≤ x → x ≤ m → m < 2 ^ 48 → InOrder (to_bytes 6 n) (to_bytes 6 x) (to_bytes 6 m)
unfolding to_bytes
bytes_between n x m lo hi bound = (
  (to_bytes-Before n x lo (omega arith), to_bytes-Before x m hi bound),
  ((refl, refl), (six_small n, six_small m)),
)

texts_between :
    (n x m : ℕ) (p : List ℕ)
    → n ≤ x
    → x ≤ m
    → m < 2 ^ 48
    → starts_with (mac_text n) p ≡ true
    → starts_with (mac_text m) p ≡ true
    → starts_with (mac_text x) p ≡ true
unfolding to_bytes
texts_between n x m p lo hi bound hn hm =
    sym (ap (λ t. starts_with t p) (sym (mac_text_octets x)))
    ∙ body_between _ _ _ (to_bytes 5 n) (to_bytes 5 x) (to_bytes 5 m) p
        (bytes_between n x m lo hi bound)
        (colon_between (to_bytes 5 n) (to_bytes 5 x) (to_bytes 5 m))
        (ap (λ t. starts_with t p) (sym (mac_text_octets n)) ∙ hn)
        (ap (λ t. starts_with t p) (sym (mac_text_octets m)) ∙ hm)

-- Of three MAC addresses in order, the one between begins with whatever the other two begin with.
pub format_mac-between :
    (n x m : ℕ) (first text last p : List ℕ)
    → n ≤ x
    → x ≤ m
    → format_mac n ≡ some first
    → format_mac x ≡ some text
    → format_mac m ≡ some last
    → starts_with first p ≡ true
    → starts_with last p ≡ true
    → starts_with text p ≡ true
unfolding format_mac mac_text
format_mac-between n x m first text last p lo hi hn hx hm sn sm =
    let bound : m < 2 ^ 48 = ground arith in
    let en : mac_text n ≡ first = ground arith in
    let ex : mac_text x ≡ text = ground arith in
    let em : mac_text m ≡ last = ground arith in
    rw (sym ex) (texts_between n x m p lo hi bound (rw en sn) (rw em sm))
