-- ===== src/Wire/Requests.antt =====
-- The requests of the ADB host protocol, as internal/harbor/proxy.go reads them, and the environment of
-- adb's child processes.
use adb_harbor.Prelude.{
  ◌≡◌, refl, sym, ap, subst, ◌∙◌, ℕ, Bool, true, false, not, Option, none, some, List, [], ◌∷◌,
  ◌++◌, arith, if◌then◌else◌, keep, append-nil, mem, ==_refl,
}
use adb_harbor.Text.{Text, text, text_eq, has_prefix, trim_prefix, join, is_empty, cut}
use adb_harbor.Text.Decimal.{decimal}
use adb_harbor.AdbArgs.{AdbInvocation, is_exempt_read_only}
use adb_harbor.Wire.{
  TransportReq, parse_transport, server_choice, transport_header, is_exempt_service,
  is_exempt_command, family_of, env_with_server_port, port_variable, names_port,
}

has_prefix-append : (p s : Text) → has_prefix (p ++ s) p ≡ true
unfolding has_prefix
has_prefix-append [] s = refl
has_prefix-append (c ∷ p) s = ground (arith, has_prefix-append p s)

trim_prefix-append : (p s : Text) → has_prefix s p ≡ true → p ++ trim_prefix s p ≡ s
unfolding trim_prefix has_prefix
trim_prefix-append [] s h = refl
trim_prefix-append (c ∷ p) [] h = cc
trim_prefix-append (c ∷ p) (d ∷ s) h = ground (arith, trim_prefix-append p s)

-- A request for a serial is its header and the serial.
Fits : Text → Option TransportReq → Type 0
Fits req none = Unit
Fits req (some t) = is_empty t.serial ≡ false → transport_header t.tport ++ t.serial ≡ req

server_choice-Fits : (req : Text) → Fits req (server_choice req)
unfolding server_choice Fits
server_choice-Fits req = chosen _ _
  where
    chosen :
        (x y : Bool)
        → Fits req (
            if x
            then some (record { serial = []; tport = false })
            else if y
            then some (record { serial = []; tport = true })
            else none)
    chosen true y = λ e. absurd (cc)
    chosen false true = λ e. absurd (cc)
    chosen false false = tt

-- A test for each header, and what is read when the test holds.
tested-Fits :
    (req s t : Text) (o : Option TransportReq) (x y : Bool)
    → (x ≡ true → transport_header false ++ s ≡ req)
    → (y ≡ true → transport_header true ++ t ≡ req)
    → Fits req o
    → Fits req (
        if x
        then some (record { serial = s; tport = false })
        else if y
        then some (record { serial = t; tport = true })
        else o)
unfolding Fits
tested-Fits req s t o true y f g h = λ _. f refl
tested-Fits req s t o false true f g h = λ _. g refl
tested-Fits req s t o false false f g h = h

parse_transport-Fits : (req : Text) → Fits req (parse_transport req)
unfolding parse_transport
parse_transport-Fits req =
    tested-Fits req (trim_prefix req (transport_header false))
      (trim_prefix req (transport_header true)) (server_choice req)
      (has_prefix req (transport_header false)) (has_prefix req (transport_header true))
      (trim_prefix-append (transport_header false) req)
      (trim_prefix-append (transport_header true) req) (server_choice-Fits req)

-- A request that is read as one for a serial is, byte by byte, the header of its kind and that serial:
-- the lease is taken for the device that the request names.
pub parse_transport-exact :
    (req : Text) (t : TransportReq)
    → parse_transport req ≡ some t
    → is_empty t.serial ≡ false
    → transport_header t.tport ++ t.serial ≡ req
unfolding Fits
parse_transport-exact req t h = subst (Fits req) h (parse_transport-Fits req)

cut-append : (sep : ℕ) (a b : Text) → mem sep a ≡ false → cut (a ++ sep ∷ b) sep ≡ some (a, b)
unfolding cut
cut-append sep [] b h = ground (arith, ==_refl sep)
cut-append sep (c ∷ a) b h = ground (arith, cut-append sep a b)

-- The shim and the proxy agree on what is read-only: the arguments of `adb shell` and `adb exec-out` are
-- exempt from a lease exactly when the services that adb makes of them are, `shell` with options that
-- have no colon, and `exec`.
pub exempt_agree :
    (inv : AdbInvocation) (options : Text) (args prefixes : List Text)
    → mem 58 options ≡ false
    → (is_exempt_read_only (record inv { command = text "shell"; rest = args }) prefixes
        ≡ is_exempt_service (text "shell," ++ options ++ 58 ∷ join args (text " ")) prefixes)
      × (is_exempt_read_only (record inv { command = text "exec-out"; rest = args }) prefixes
          ≡ is_exempt_service (text "exec:" ++ join args (text " ")) prefixes)
unfolding is_exempt_read_only is_exempt_service is_exempt_command family_of text_eq cut
exempt_agree inv options args prefixes h = (
  sym (
      rw (cut-append 58 (text "shell," ++ options) (join args (text " ")) h, is_exempt_service)
        refl),
  refl,
)

keep-twice : (env : List Text) → keep names_port (keep (λ e. not (names_port e)) env) ≡ []
keep-twice [] = refl
keep-twice (e ∷ env) = ground (arith, keep-twice env)

keep-append : (f : Text → Bool) (xs ys : List Text) → keep f (xs ++ ys) ≡ keep f xs ++ keep f ys
keep-append f [] ys = refl
keep-append f (x ∷ xs) ys = ground (arith, keep-append f xs ys)

keep-keep : (f : Text → Bool) (xs : List Text) → keep f (keep f xs) ≡ keep f xs
keep-keep f [] = refl
keep-keep f (x ∷ xs) = ground (arith, keep-keep f xs)

-- Whatever the environment says of the server's port, the child's says it exactly once, with the given
-- port; all other variables are passed on in order.
pub env_with_server_port-once :
    (env : List Text) (port : ℕ)
    → (keep names_port (env_with_server_port env port) ≡ (port_variable ++ decimal port) ∷ [])
      × (keep (λ e. not (names_port e)) (env_with_server_port env port)
          ≡ keep (λ e. not (names_port e)) env)
unfolding env_with_server_port
env_with_server_port-once env port = (
  keep-append names_port (keep (λ e. not (names_port e)) env) (set ∷ [])
      ∙ ap (λ es. es ++ keep names_port (set ∷ [])) (keep-twice env)
      ∙ named,
  keep-append (λ e. not (names_port e)) (keep (λ e. not (names_port e)) env) (set ∷ [])
      ∙ rw (keep-keep (λ e. not (names_port e)) env, unnamed) (append-nil _),
)
  where
    set : Text
    set = port_variable ++ decimal port

    named : keep names_port (set ∷ []) ≡ set ∷ []
    named = rw (has_prefix-append port_variable (decimal port)) refl

    unnamed : keep (λ e. not (names_port e)) (set ∷ []) ≡ []
    unnamed = rw (has_prefix-append port_variable (decimal port)) refl
