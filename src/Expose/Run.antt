-- ===== src/Expose/Run.antt =====
-- internal/harbor/expose.go: runExpose. What is installed, the daemon, the address, the token and what the tunnel
-- prints are arguments; the tunnel prints ASCII, in lines that fit the scanner's buffer.
use adb_harbor.Prelude.{
  ◌≡◌, Bool, true, not, Option, none, some, List, [], ◌∷◌, ◌++◌, if◌then◌else◌,
}
use adb_harbor.Text.{Text, text, is_empty, trim_right_byte}
use adb_harbor.Expose.{Backend, backend, first_public_url}
use adb_harbor.Expose.Public.{IsPublicIn}

-- What runExpose finds. `lines` are those that the tunnel prints in its 25 seconds.
pub record Site : Type 0 where
  pub installed : Text → Bool
  pub daemon : Bool
  pub address : Option Text
  pub token : Option Text
  pub starts : Bool
  pub lines : List Text

-- How it ends, up to the wait for the tunnel's end: an unknown tunnel, a program that is missing, with the name of its
-- package, an error before the tunnel, no address in time, where the tunnel is killed; or what it prints.
pub data Exposed : Type 0 where
  unknown_via : Exposed
  missing_binary : (bin brew : Text) → Exposed
  stopped : Exposed
  no_url : (bin : Text) → Exposed
  prints : (args : List Text) (message : Text) → Exposed

-- The goroutine that reads the lines: the first address that it finds, in the text `before` and what follows.
unfoldable pub scan_lines : Text → List Text → Option Text
unfolding first_public_url
scan_lines before [] = none
scan_lines before (line ∷ lines) =
    let seen = before ++ line ++ (10 ∷ []) in
    let rest = scan_lines seen lines in
    if is_empty (first_public_url seen) then rest else some (first_public_url seen)

-- strings.TrimRight(public, "/") + "/mcp"
unfoldable pub mcp_url : Text → Text
unfolding trim_right_byte
mcp_url public = trim_right_byte public 47 ++ text "/mcp"

-- The arrow and the dash of the message, in UTF-8.
abbrev arrow : Text
arrow = 226 ∷ 134 ∷ 146 ∷ []

abbrev dash : Text
dash = 226 ∷ 128 ∷ 148 ∷ []

-- What runExpose prints; `quote` is the verb %q.
unfoldable pub snippet : (Text → Text) → Text → Text → Text
snippet quote url token =
    text "\n"
    ++ (text "public  " ++ url ++ text "\n")
    ++ (text "token   " ++ token ++ text "\n")
    ++ (text "\nCursor Dashboard " ++ arrow ++ text " MCP " ++ arrow ++ text " HTTP:\n")
    ++ (text "  url:     " ++ url ++ text "\n")
    ++ (text "  header:  Authorization: Bearer " ++ token ++ text "\n")
    ++ text "\n{\n  \"adbharbor\": {\n"
    ++ (text "    \"url\": " ++ quote url ++ text ",\n")
    ++ text "    \"headers\": {\n"
    ++ (text "      \"Authorization\": \"Bearer " ++ token ++ text "\"\n")
    ++ text "    }\n  }\n}\n"
    ++ (text "\nCtrl-C stops the tunnel. Local Cursor still uses the CLI "
        ++ dash
        ++ text " no MCP.\n")

abbrev with_url : (Text → Text) → Backend → Text → Text → Option Text → Exposed
with_url quote be addr token none = no_url be.bin
with_url quote be addr token (some url) = prints (be.args addr) (snippet quote (mcp_url url) token)

-- The tunnel, with the address and the token.
unfoldable pub run_tunnel : (Text → Text) → Site → Backend → Option Text → Option Text → Exposed
unfolding scan_lines mcp_url snippet
run_tunnel quote s be none token = stopped
run_tunnel quote s be (some addr) none = stopped
run_tunnel quote s be (some addr) (some token) =
    if not s.starts then stopped else with_url quote be addr token (scan_lines [] s.lines)

abbrev with_backend : (Text → Text) → Site → Option Backend → Exposed
with_backend quote s none = unknown_via
with_backend quote s (some be) =
    if not (s.installed be.bin)
    then missing_binary be.bin be.brew
    else if not s.daemon
    then stopped
    else run_tunnel quote s be s.address s.token

-- runExpose
unfoldable pub run_expose : (Text → Text) → Site → Text → Exposed
unfolding run_tunnel
run_expose quote s via = with_backend quote s (backend via)

abbrev text_of : List Text → Text
text_of [] = []
text_of (line ∷ lines) = line ++ (10 ∷ text_of lines)

-- What is known of a tunnel whose address is printed.
pub record Published (quote : Text → Text) (s : Site) (via : Text) (args : List Text)
    (message : Text) : Type 0 where
  pub be : Backend
  pub addr : Text
  pub token : Text
  pub url : Text
  pub known : backend via ≡ some be
  pub installed : s.installed be.bin ≡ true
  pub reached : s.address ≡ some addr
  pub guarded : s.token ≡ some token
  pub started : s.starts ≡ true
  pub called : args ≡ be.args addr
  pub shown : message ≡ snippet quote (mcp_url url) token
  pub public : IsPublicIn (text_of s.lines) url
