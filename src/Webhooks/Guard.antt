-- ===== src/Webhooks/Guard.antt =====
-- The guard against requests to internal addresses (services/worker/url_validator.py).
use tmask_tt.Base.{
  ℕ, ◌+◌, ◌*◌, ◌/◌, ◌≤◌, ◌≡◌, ◌⊎◌, inl, inr, String, Bool, true, false, ◌||◌, not, Option, none,
  some, arith, ◌==◌, str_eq, truthy, if◌then◌else◌,
}

-- An address as `ipaddress` holds it: its version and its number.
pub data Address : Type 0 where
  v4 : ℕ → Address
  v6 : ℕ → Address

-- `urllib.parse.urlparse`, `str.lower`, `ipaddress.ip_address` (no address on a `ValueError`) and
-- `socket.gethostbyname` (no text on a `gaierror`).
pub record Network : Type 0 where
  pub scheme : String → String
  pub hostname : String → Option String
  pub lower : String → String
  pub ip_address : String → Option Address
  pub gethostbyname : String → Option String

-- `any(addr in net for net in _BLOCKED_NETWORKS)`: the leading bits of the number are the network's,
-- and a network of the other version holds no address.
unfoldable pub is_blocked : Address → Bool
is_blocked (v4 n) =
    (n / 16_777_216 == 127)
    || (n / 16_777_216 == 10)
    || (n / 1_048_576 == 2_753)
    || (n / 65_536 == 49_320)
    || (n / 65_536 == 43_518)
is_blocked (v6 n) =
    (n == 1)
    || (n / 1_329_227_995_784_915_872_903_807_060_280_344_576 == 253)
    || (n / 332_306_998_946_228_968_225_951_765_070_086_144 == 1_018)

-- `_is_private`
unfoldable pub is_private : Network → String → Bool
is_private N text = elim (N.ip_address text) [ none ↦ false | some a ↦ is_blocked a ]

abbrev pub resolves_private : Network → String → Bool
resolves_private N host = elim (N.gethostbyname host) [
  | none ↦ false
  | some text ↦ is_private N text
]

abbrev pub given : Option String → String
given none = ""
given (some host) = host

-- `block_private_url`: whether it returns, where the code raises `ValueError` else.
unfoldable pub block_private_url : Network → String → Bool
block_private_url N url =
    let host = given (N.hostname url) in
    if not (str_eq (N.scheme url) "http" || str_eq (N.scheme url) "https")
    then false
    else if not (truthy host)
    then false
    else if str_eq (N.lower host) "localhost"
    then false
    else if is_private N host
    then false
    else not (resolves_private N host)

-- `a.b.c.d`
abbrev pub ipv4 : ℕ → ℕ → ℕ → ℕ → ℕ
ipv4 a b c d = a * 16_777_216 + b * 65_536 + c * 256 + d

-- The blocked networks, by their first and last addresses.
abbrev pub IsInternal : ℕ → Type 0
IsInternal n =
    ((ipv4 127 0 0 0 ≤ n) × (n ≤ ipv4 127 255 255 255))
    ⊎ ((ipv4 10 0 0 0 ≤ n) × (n ≤ ipv4 10 255 255 255))
    ⊎ ((ipv4 172 16 0 0 ≤ n) × (n ≤ ipv4 172 31 255 255))
    ⊎ ((ipv4 192 168 0 0 ≤ n) × (n ≤ ipv4 192 168 255 255))
    ⊎ ((ipv4 169 254 0 0 ≤ n) × (n ≤ ipv4 169 254 255 255))

-- The test on the leading bits holds of exactly the addresses between the ends of a network.
is_blocked-IsInternal : (n : ℕ) → IsInternal n → is_blocked (v4 n) ≡ true
unfolding is_blocked
is_blocked-IsInternal n h = elim h [
  | inl r ↦ ground (arith, r)
  | inr (inl r) ↦ ground (arith, r)
  | inr (inr (inl r)) ↦ ground (arith, r)
  | inr (inr (inr (inl r))) ↦ ground (arith, r)
  | inr (inr (inr (inr r))) ↦ ground (arith, r)
]

-- A URL that the guard lets through names no internal address, neither in its host nor in what the
-- host resolves to.
pub block_private_url_external :
    (N : Network) (url : String) (host text : String) (n : ℕ)
    → block_private_url N url ≡ true
    → N.hostname url ≡ some host
    → (text ≡ host) ⊎ (N.gethostbyname host ≡ some text)
    → N.ip_address text ≡ some (v4 n)
    → ¬ IsInternal n
unfolding block_private_url is_private
block_private_url_external N url host text n passed named is_text address internal =
    let blocked = is_blocked-IsInternal n internal in
    elim is_text [ inl same ↦ ground (arith, blocked) | inr found ↦ ground (arith, blocked) ]
