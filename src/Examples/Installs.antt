-- ===== src/Examples/Installs.antt =====
-- An install and an uninstall, internal/harbor/install.go.
use adb_harbor.Prelude.{◌≡◌, mem, refl, true, false, none, some, [], ◌∷◌, if◌then◌else◌}
use adb_harbor.Text.{
  Text, text, text_eq, has_prefix, contains, split, join, trim_space, trim_left, trim_right,
  is_space, trim_right_byte, one_of,
}
use adb_harbor.Config.{load_config}
use adb_harbor.Paths.{bin_dir, config_path}
use adb_harbor.Install.{rc_begin, is_begin, is_end}
use adb_harbor.Install.Commands.{
  Disk, Host, file, cmd_install, cmd_uninstall, installed, wants_no_rc, bin,
}
use adb_harbor.Install.Frames.{AreApart, text_at}
use adb_harbor.Install.Installing.{InstallSpec, cmd_install-InstallSpec}
use adb_harbor.Install.Restore.{HasNoMarks}
use adb_harbor.Install.Undo.{UninstalledSpec, cmd_uninstall-cmd_install}
use adb_harbor.Shim.RealAdb.{Machine, pin_real_adb}

-- A machine with one adb, and the program in /tmp.
abbrev mac : Machine
mac = record {
  resolve = λ p. some p;
  stat = λ p. true;
  runnable = λ p. true;
  join = λ ps. join ps (text "/");
  rel = λ a b. none;
  self_path = some (text "/tmp/adbharbor");
  data_dir = text "/h/.adbharbor";
  bin_dir = text "/h/.adbharbor/bin";
  path_dirs = text "/opt/bin" ∷ [];
  home = none;
  android_home = [];
  sdk_root = [];
}

abbrev host : Host
host = record {
  machine = mac;
  data_dir = text "/h/.adbharbor";
  self = some (text "/tmp/adbharbor");
  rc = some (text "/h/.zshrc");
  adb_variable = [];
  makes_dirs = true;
  writable = λ p. true;
  decode = λ bytes cfg. cfg;
  encode = λ cfg. cfg.real_adb;
}

abbrev rc_content : Text
rc_content = text "alias ll=ls\n"

abbrev disk : Disk
disk p =
    if text_eq p (text "/tmp/adbharbor")
    then some (file (text "program") 493)
    else if text_eq p (text "/h/.zshrc")
    then some (file rc_content 420)
    else none

host-AreApart : AreApart host (text "/h/.zshrc")
unfolding text_eq join bin_dir config_path
host-AreApart = record {
  rc_foreign = record { not_shim = refl; not_binary = refl; not_tmp = refl; not_config = refl };
  shim_binary = refl;
  shim_config = refl;
  binary_tmp = refl;
  binary_config = refl;
  tmp_config = refl;
}

cmd_install-InstallSpec_example :
    InstallSpec host
      (wants_no_rc [])
      (text "/tmp/adbharbor")
      (text "/h/.zshrc")
      disk
      (cmd_install host [] disk).0
      (cmd_install host [] disk).1
cmd_install-InstallSpec_example =
    cmd_install-InstallSpec host [] (text "/tmp/adbharbor") (text "/h/.zshrc") disk host-AreApart
      refl refl

host-installed : (cmd_install host [] disk).1 ≡ installed (text "/opt/bin/adb")
unfolding cmd_install text_eq join contains has_prefix trim_right_byte split one_of bin_dir
    config_path pin_real_adb load_config
host-installed = refl

host-one_line : mem 10 (bin host) ≡ false
unfolding bin_dir join
host-one_line = refl

disk-plain :
    (contains (text_at disk (text "/h/.zshrc")) rc_begin ≡ false)
    × HasNoMarks (text_at disk (text "/h/.zshrc"))
unfolding contains has_prefix split trim_space trim_left trim_right text_eq is_space is_begin is_end
disk-plain = (refl, ((refl, refl), ((refl, refl), tt)))

cmd_uninstall-cmd_install_example :
    UninstalledSpec host (text "/h/.zshrc") disk (cmd_uninstall host (cmd_install host [] disk).0).0
cmd_uninstall-cmd_install_example =
    cmd_uninstall-cmd_install host [] (text "/tmp/adbharbor") (text "/h/.zshrc")
      (text "/opt/bin/adb") disk host-AreApart refl refl (λ p. refl) refl host-installed
      host-one_line disk-plain.0 disk-plain.1
