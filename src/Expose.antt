-- ===== src/Expose.antt =====
-- internal/harbor/expose.go: the address that a tunnel is given, and the public address in what it prints.
pub mod Public
pub mod Run
use adb_harbor.Prelude.{
  ℕ, zero, suc, ◌+◌, ◌-◌, ◌==◌, leb, ltb, Bool, true, false, not, ◌&&◌, ◌||◌, Option, none, some,
  List, [], ◌∷◌, ◌++◌, if◌then◌else◌, length, take, drop,
}
use adb_harbor.Text.{Text, text, text_eq, is_empty, has_prefix, contains}

-- strings.LastIndex of a byte, as the text before it and behind it.
abbrev after_byte : ℕ → ℕ → Text → Option (Text × Text) → Option (Text × Text)
after_byte sep c s (some (a, b)) = some (c ∷ a, b)
after_byte sep c s none = if c == sep then some ([], s) else none

unfoldable pub cut_last : Text → ℕ → Option (Text × Text)
cut_last [] sep = none
cut_last (c ∷ s) sep = after_byte sep c s (cut_last s sep)

-- splitHostPort: the host, the port, and whether there is one.
unfoldable pub split_host_port : Text → Text × Text × Bool
unfolding cut_last
split_host_port addr = elim (cut_last addr 58) [
  | none ↦ (addr, [], false)
  | some (host, port) ↦ (host, port, true)
]

-- A program that makes a tunnel, and its arguments for an address.
pub record Backend : Type 0 where
  pub bin : Text
  pub brew : Text
  pub args : Text → List Text

abbrev pub cloudflare : Backend
cloudflare = record {
  bin = text "cloudflared";
  brew = text "cloudflared";
  args =
      λ addr. text "tunnel" ∷ text "--url" ∷ (text "http://" ++ addr) ∷ text "--no-autoupdate" ∷ [];
}

abbrev pub ngrok : Backend
ngrok = record {
  bin = text "ngrok";
  brew = text "ngrok";
  args = λ addr. text "http" ∷ (split_host_port addr).1 ∷ text "--log" ∷ text "stdout" ∷ [];
}

abbrev pub tailscale : Backend
tailscale = record {
  bin = text "tailscale";
  brew = text "tailscale";
  args = λ addr. text "funnel" ∷ (split_host_port addr).1 ∷ [];
}

-- exposeBackends[via]
unfoldable pub backend : Text → Option Backend
unfolding text_eq
backend via =
    if text_eq via (text "cloudflare")
    then some cloudflare
    else if text_eq via (text "ngrok")
    then some ngrok
    else if text_eq via (text "tailscale")
    then some tailscale
    else none

abbrev pub is_alnum : ℕ → Bool
is_alnum c = (leb 48 c && leb c 57) || (leb 65 c && leb c 90) || (leb 97 c && leb c 122)

abbrev pub is_host_byte : ℕ → Bool
is_host_byte c = is_alnum c || (c == 45) || (c == 46)

-- How many bytes the longest run of host bytes at the start has, up to its last letter or digit.
unfoldable pub host_length : Text → ℕ
host_length [] = 0
host_length (c ∷ s) =
    let rest = host_length s in
    if not (is_host_byte c)
    then 0
    else if not (rest == 0)
    then suc rest
    else if is_alnum c
    then 1
    else 0

abbrev pub starts_alnum : Text → Bool
starts_alnum [] = false
starts_alnum (c ∷ s) = is_alnum c

-- How many bytes the expression publicHTTPS takes at the start: `https://`, a letter or digit, host bytes, and a
-- letter or digit; 0 when it does not match there.
unfoldable pub match_length : Text → ℕ
unfolding host_length has_prefix
match_length s =
    let host = drop 8 s in
    if has_prefix s (text "https://") && starts_alnum host && leb 2 (host_length host)
    then 8 + host_length host
    else 0

-- publicHTTPS.FindAllString: the matches from left to right, without overlap; `skip` bytes belong to the last one.
unfoldable pub find_all : ℕ → Text → List Text
unfolding match_length
find_all skip [] = []
find_all (suc skip) (c ∷ s) = find_all skip s
find_all zero (c ∷ s) =
    let n = match_length (c ∷ s) in
    let here = find_all (n - 1) s in
    let next = find_all 0 s in if n == 0 then next else take n (c ∷ s) ∷ here

-- strings.TrimRight(m, ".,);")
unfoldable pub trim_marks : Text → Text
trim_marks [] = []
trim_marks (c ∷ s) =
    let rest = trim_marks s in
    if is_empty rest && ((c == 46) || (c == 44) || (c == 41) || (c == 59)) then [] else c ∷ rest

unfoldable pub is_local : Text → Bool
unfolding contains
is_local m = contains m (text "127.0.0.1") || contains m (text "localhost")

-- The loop of firstPublicURL.
unfoldable pub first_public : List Text → Text
unfolding is_local trim_marks
first_public [] = []
first_public (m ∷ ms) = let rest = first_public ms in if is_local m then rest else trim_marks m

-- firstPublicURL
unfoldable pub first_public_url : Text → Text
unfolding find_all first_public
first_public_url s = first_public (find_all 0 s)
