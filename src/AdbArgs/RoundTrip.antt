-- ===== src/AdbArgs/RoundTrip.antt =====
-- A command line that is written from flags and a command is read back.
use adb_harbor.Prelude.{◌≡◌, refl, true, false, List, [], ◌∷◌, arith}
use adb_harbor.Text.{Text, text, text_eq, has_prefix}
use adb_harbor.AdbArgs.{
  AdbInvocation, bare_invocation, parse_loop, parse_invocation, flag_kind, is_flag, value_flag,
  other_flag,
}

-- The global flags of a command line.
pub data Flag : Type 0 where
  serial : Text → Flag
  transport : Text → Flag
  usb emulator : Flag
  valued : (name value : Text) → Flag
  plain : (name : Text) → Flag

-- The names of the last two kinds of flags are flags of that kind.
abbrev pub IsNamed : Flag → Type 0
IsNamed (valued name value) = (is_flag name ≡ true) × (flag_kind name ≡ value_flag)
IsNamed (plain name) = (is_flag name ≡ true) × (flag_kind name ≡ other_flag)
IsNamed _ = Unit

abbrev pub AreNamed : List Flag → Type 0
AreNamed [] = Unit
AreNamed (f ∷ fs) = IsNamed f × AreNamed fs

unfoldable pub write_flag : Flag → List Text → List Text
write_flag (serial s) args = text "-s" ∷ s ∷ args
write_flag (transport t) args = text "-t" ∷ t ∷ args
write_flag usb args = text "-d" ∷ args
write_flag emulator args = text "-e" ∷ args
write_flag (valued name value) args = name ∷ value ∷ args
write_flag (plain name) args = name ∷ args

unfoldable pub write_flags : List Flag → List Text → List Text
write_flags [] args = args
write_flags (f ∷ fs) args = write_flag f (write_flags fs args)

-- What the flags say; of two that say the same thing the later one counts.
unfoldable pub meaning : AdbInvocation → List Flag → AdbInvocation
meaning inv [] = inv
meaning inv (serial s ∷ fs) = meaning (record inv { serial = s }) fs
meaning inv (transport t ∷ fs) = meaning (record inv { transport_id = t }) fs
meaning inv (usb ∷ fs) = meaning (record inv { use_usb = true }) fs
meaning inv (emulator ∷ fs) = meaning (record inv { use_emulator = true }) fs
meaning inv (valued name value ∷ fs) = meaning inv fs
meaning inv (plain name ∷ fs) = meaning inv fs

abbrev command_of : AdbInvocation → Text → List Text → AdbInvocation
command_of inv command rest = record inv { command = command; rest = rest }

-- A flag without a value reads no further than itself, whatever follows.
parse_plain :
    (inv : AdbInvocation) (a : Text) (args : List Text)
    → is_flag a ≡ true
    → flag_kind a ≡ other_flag
    → parse_loop inv (a ∷ args) ≡ parse_loop inv args
unfolding parse_loop
parse_plain inv a [] f k = ground arith
parse_plain inv a (v ∷ args) f k = ground arith

parse_usb :
    (inv : AdbInvocation) (args : List Text)
    → parse_loop inv (text "-d" ∷ args) ≡ parse_loop (record inv { use_usb = true }) args
unfolding parse_loop flag_kind is_flag text_eq has_prefix
parse_usb inv [] = refl
parse_usb inv (v ∷ args) = refl

parse_emulator :
    (inv : AdbInvocation) (args : List Text)
    → parse_loop inv (text "-e" ∷ args) ≡ parse_loop (record inv { use_emulator = true }) args
unfolding parse_loop flag_kind is_flag text_eq has_prefix
parse_emulator inv [] = refl
parse_emulator inv (v ∷ args) = refl

parse_serial :
    (inv : AdbInvocation) (s : Text) (args : List Text)
    → parse_loop inv (text "-s" ∷ s ∷ args) ≡ parse_loop (record inv { serial = s }) args
unfolding parse_loop flag_kind is_flag text_eq has_prefix
parse_serial inv s args = refl

parse_transport :
    (inv : AdbInvocation) (t : Text) (args : List Text)
    → parse_loop inv (text "-t" ∷ t ∷ args) ≡ parse_loop (record inv { transport_id = t }) args
unfolding parse_loop flag_kind is_flag text_eq has_prefix
parse_transport inv t args = refl

parse_valued :
    (inv : AdbInvocation) (a v : Text) (args : List Text)
    → is_flag a ≡ true
    → flag_kind a ≡ value_flag
    → parse_loop inv (a ∷ v ∷ args) ≡ parse_loop inv args
unfolding parse_loop
parse_valued inv a v args f k = ground arith

parse_command :
    (inv : AdbInvocation) (a : Text) (rest : List Text)
    → is_flag a ≡ false
    → parse_loop inv (a ∷ rest) ≡ command_of inv a rest
unfolding parse_loop
parse_command inv a [] f = rw f
parse_command inv a (v ∷ rest) f = ground arith

loop-write_flags :
    (inv : AdbInvocation) (fs : List Flag) (a : Text) (rest : List Text)
    → AreNamed fs
    → is_flag a ≡ false
    → parse_loop inv (write_flags fs (a ∷ rest)) ≡ command_of (meaning inv fs) a rest
unfolding write_flags write_flag meaning
loop-write_flags inv [] a rest n h = parse_command inv a rest h
loop-write_flags inv (serial s ∷ fs) a rest n h =
    rw parse_serial (loop-write_flags (record inv { serial = s }) fs a rest n.1 h)
loop-write_flags inv (transport t ∷ fs) a rest n h =
    rw parse_transport (loop-write_flags (record inv { transport_id = t }) fs a rest n.1 h)
loop-write_flags inv (usb ∷ fs) a rest n h =
    rw parse_usb (loop-write_flags (record inv { use_usb = true }) fs a rest n.1 h)
loop-write_flags inv (emulator ∷ fs) a rest n h =
    rw parse_emulator (loop-write_flags (record inv { use_emulator = true }) fs a rest n.1 h)
loop-write_flags inv (valued name value ∷ fs) a rest n h =
    rw (parse_valued inv name value (write_flags fs (a ∷ rest)) n.0.0 n.0.1)
      (loop-write_flags inv fs a rest n.1 h)
loop-write_flags inv (plain name ∷ fs) a rest n h =
    rw (parse_plain inv name (write_flags fs (a ∷ rest)) n.0.0 n.0.1)
      (loop-write_flags inv fs a rest n.1 h)

-- Global flags in any order and number, then a command that is no flag, then any arguments: the parser
-- gives back what the flags say, the command and its arguments as they are. The flags other than -s,
-- -t, -d and -e have names that the parser takes for such flags.
pub parse_invocation-write_flags :
    (fs : List Flag) (command : Text) (rest : List Text)
    → AreNamed fs
    → is_flag command ≡ false
    → parse_invocation (write_flags fs (command ∷ rest))
      ≡ command_of (meaning bare_invocation fs) command rest
unfolding parse_invocation
parse_invocation-write_flags fs command rest n h =
    loop-write_flags bare_invocation fs command rest n h
