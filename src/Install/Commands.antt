-- ===== src/Install/Commands.antt =====
-- internal/harbor/install.go: CmdInstall and CmdUninstall on a file system, with (*Config).Save of
-- internal/harbor/config.go. A path stands for the file that it leads to; the one symbolic link that is told apart is
-- the shim's. Which paths can be written to is an argument; a write fails before it begins, or succeeds.
use adb_harbor.Prelude.{
  ℕ, Bool, true, false, not, ◌||◌, Option, none, some, List, [], ◌∷◌, ◌++◌, if◌then◌else◌, any,
}
use adb_harbor.Text.{Text, text, text_eq, contains}
use adb_harbor.Config.{Config, load_config}
use adb_harbor.Paths.{bin_dir, config_path, pid_path}
use adb_harbor.Shim.RealAdb.{Machine, base, pin_real_adb}
use adb_harbor.Client.Daemon.{stop_quietly}
use adb_harbor.Install.{rc_name, rc_begin, rc_block, strip_rc}

pub data Node : Type 0 where
  file : (content : Text) (mode : ℕ) → Node
  link : (target : Text) → Node

abbrev pub Disk : Type 0
Disk = Text → Option Node

unfoldable pub put : Disk → Text → Option Node → Disk
put d p e q = if text_eq p q then e else d q

-- rcFile, of the home directory, if it is known, and the variable SHELL; none is the empty path.
unfoldable pub rc_file : (List Text → Text) → Option Text → Text → Option Text
unfolding base
rc_file join none shell = none
rc_file join (some home) shell = some (join (home ∷ rc_name (base shell) ∷ []))

-- What the commands find. `data_dir`, `self`, `rc` and `adb_variable` are Dir(), selfPath(), rcFile() and
-- ADB_HARBOR_ADB; `makes_dirs` tells whether EnsureDir succeeds; `encode` is json.MarshalIndent.
pub record Host : Type 0 where
  pub machine : Machine
  pub data_dir : Text
  pub self : Option Text
  pub rc : Option Text
  pub adb_variable : Text
  pub makes_dirs : Bool
  pub writable : Text → Bool
  pub decode : Text → Config → Config
  pub encode : Config → Text

abbrev pub bin : Host → Text
bin h = bin_dir h.machine.join h.data_dir

abbrev pub binary : Host → Text
binary h = h.machine.join (bin h ∷ text "adbharbor" ∷ [])

abbrev pub shim : Host → Text
shim h = h.machine.join (bin h ∷ text "adb" ∷ [])

abbrev pub config_file : Host → Text
config_file h = config_path h.machine.join h.data_dir

abbrev pub content_of : Option Node → Option Text
content_of none = none
content_of (some (file content mode)) = some content
content_of (some (link target)) = none

-- os.ReadFile
unfoldable pub read_file : Disk → Text → Option Text
read_file d p = content_of (d p)

-- The mode of a file that is there stays.
abbrev pub mode_of : Option Node → ℕ → ℕ
mode_of none mode = mode
mode_of (some (file content old)) mode = old
mode_of (some (link target)) mode = mode

-- os.WriteFile, and whether it succeeds, as the functions below.
unfoldable pub write_file : Host → Disk → Text → Text → ℕ → Disk × Bool
unfolding put
write_file h d p content mode =
    if h.writable p then (put d p (some (file content (mode_of (d p) mode))), true) else (d, false)

-- os.Rename
unfoldable pub rename : Host → Disk → Text → Text → Disk × Bool
unfolding put
rename h d from to = if h.writable to then (put (put d to (d from)) from none, true) else (d, false)

-- os.Remove, whose error is ignored
unfoldable pub remove_file : Host → Disk → Text → Disk
unfolding put
remove_file h d p = if h.writable p then put d p none else d

abbrev is_there : Option Node → Bool
is_there none = false
is_there (some e) = true

-- os.Symlink
unfoldable pub symlink : Host → Disk → Text → Text → Disk × Bool
unfolding put
symlink h d target p =
    if is_there (d p) || not (h.writable p)
    then (d, false)
    else (put d p (some (link target)), true)

-- copyFile behind the write to the temporary file
abbrev then_rename : Host → Text → Text → Disk × Bool → Disk × Bool
then_rename h tmp dst (d, false) = (d, false)
then_rename h tmp dst (d, true) = rename h d tmp dst

abbrev pub tmp_of : Text → Text
tmp_of dst = dst ++ text ".tmp"

abbrev copy_content : Host → Disk → Option Text → Text → ℕ → Disk × Bool
copy_content h d none dst mode = (d, false)
copy_content h d (some content) dst mode =
    then_rename h (tmp_of dst) dst (write_file h d (tmp_of dst) content mode)

-- copyFile
unfoldable pub copy_file : Host → Disk → Text → Text → ℕ → Disk × Bool
unfolding rename write_file read_file
copy_file h d src dst mode = copy_content h d (read_file d src) dst mode

-- (*Config).Save
unfoldable pub save : Host → Disk → Config → Disk × Bool
unfolding write_file
save h d cfg =
    if not h.makes_dirs
    then (d, false)
    else write_file h d (config_file h) (h.encode cfg ++ text "\n") 384

abbrev pub or_empty : Option Text → Text
or_empty none = []
or_empty (some content) = content

-- patchRC, with the file that is appended to
unfoldable pub patch_file : Host → Disk → Option Text → Disk × Bool
unfolding write_file read_file
patch_file h d none = (d, true)
patch_file h d (some rc) =
    let content = or_empty (read_file d rc) in
    if contains content rc_begin
    then (d, true)
    else write_file h d rc (content ++ rc_block (bin h)) 420

-- How CmdInstall ends: with the adb that is pinned, or with an error.
pub data Installed : Type 0 where
  installed : (real_adb : Text) → Installed
  failed : Installed

abbrev pub then_step : Disk × Bool → (Disk → Disk × Installed) → Disk × Installed
then_step (d, true) f = f d
then_step (d, false) f = (d, failed)

-- The end of CmdInstall, with the configuration that is saved.
unfoldable pub finish : Host → Bool → Config → Disk → Disk × Installed
unfolding patch_file save
finish h no_rc cfg d = then_step (save h d cfg) λ saved.
    then_step (if no_rc then (saved, true) else patch_file h saved h.rc)
      λ patched. (patched, installed cfg.real_adb)

abbrev pub finish_with : Host → Bool → Config → Option Text → Disk → Disk × Installed
finish_with h no_rc cfg none d = (d, failed)
finish_with h no_rc cfg (some real) d = finish h no_rc (record cfg { real_adb = real }) d

-- CmdInstall behind the symbolic link: it pins the adb.
unfoldable pub pin : Host → Bool → Disk → Disk × Installed
unfolding read_file finish
pin h no_rc d =
    let cfg = load_config h.decode (read_file d (config_file h)) h.adb_variable in
    finish_with h no_rc cfg (pin_real_adb h.machine cfg.real_adb) d

-- The program's file, where it is not in its place.
unfoldable pub place_binary : Host → Text → Disk → Disk × Bool
unfolding copy_file
place_binary h self d =
    if text_eq self (binary h) then (d, true) else copy_file h d self (binary h) 493

abbrev pub place : Host → Bool → Option Text → Disk → Disk × Installed
place h no_rc none d = (d, failed)
place h no_rc (some self) d = then_step (place_binary h self d) λ copied.
    then_step (symlink h (remove_file h copied (shim h)) (text "adbharbor") (shim h)) (pin h no_rc)

-- Whether the rc file is to be left alone.
abbrev pub wants_no_rc : List Text → Bool
wants_no_rc args = any (λ (a : Text). text_eq a (text "--no-rc")) args

-- CmdInstall, of the arguments
unfoldable pub cmd_install : Host → List Text → Disk → Disk × Installed
unfolding place_binary symlink remove_file pin
cmd_install h args d = if not h.makes_dirs then (d, failed) else place h (wants_no_rc args) h.self d

-- The process that CmdInstall and CmdUninstall interrupt.
unfoldable pub interrupts : Host → Disk → Option ℕ
unfolding read_file
interrupts h d = stop_quietly (read_file d (pid_path h.machine.join h.data_dir))

abbrev strip_content : Host → Disk → Text → Option Text → Disk × Bool
strip_content h d rc none = (d, true)
strip_content h d rc (some content) = write_file h d rc (strip_rc content) 420

-- stripRC, with the file
unfoldable pub strip_file : Host → Disk → Option Text → Disk × Bool
unfolding write_file read_file
strip_file h d none = (d, true)
strip_file h d (some rc) = strip_content h d rc (read_file d rc)

-- CmdUninstall, and whether it succeeds
unfoldable pub cmd_uninstall : Host → Disk → Disk × Bool
unfolding strip_file remove_file
cmd_uninstall h d = strip_file h (remove_file h (remove_file h d (shim h)) (binary h)) h.rc
