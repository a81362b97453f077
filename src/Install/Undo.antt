-- ===== src/Install/Undo.antt =====
-- What CmdUninstall of internal/harbor/install.go leaves on the disk, after CmdInstall too.
use adb_harbor.Prelude.{
  ◌≡◌, ◌≢◌, refl, sym, ap, ◌∙◌, ◌⊎◌, inl, inr, true, false, Option, none, some, List, [], ◌∷◌, ◌++◌,
  arith, mem, Option-cases,
}
use adb_harbor.Text.{Text, text_eq, contains, join, trim_space}
use adb_harbor.Text.Laws.{text_eq_refl, text_eq_sym}
use adb_harbor.Install.{rc_begin, strip_rc}
use adb_harbor.Install.Restore.{HasNoMarks, strip_rc-patch_rc}
use adb_harbor.Install.Commands.{
  Node, Disk, put, Host, bin, binary, shim, content_of, read_file, or_empty, write_file,
  remove_file, Installed, installed, failed, wants_no_rc, cmd_install, strip_file, cmd_uninstall,
}
use adb_harbor.Install.Frames.{IsForeign, AreApart, DifferAtOwnOr, differ_at_own_or, text_at}
use adb_harbor.Install.Installing.{InstallSpec, stopped, complete, cmd_install-InstallSpec}

strip_rc-empty : strip_rc [] ≡ []
unfolding strip_rc trim_space text_eq join
strip_rc-empty = refl

-- The parts of a disk after CmdUninstall, where everything can be written to.
record UninstallSpec (h : Host) (rc : Text) (d e : Disk) : Type 0 where
  rc_stripped : text_at e rc ≡ strip_rc (text_at d rc)
  shim_gone : e (shim h) ≡ none
  binary_gone : e (binary h) ≡ none
  others : DifferAtOwnOr h rc e d

-- What is left of an install.
pub record UninstalledSpec (h : Host) (rc : Text) (d e : Disk) : Type 0 where
  pub rc_back : text_at e rc ≡ text_at d rc ++ (10 ∷ [])
  pub shim_gone : e (shim h) ≡ none
  pub binary_gone : e (binary h) ≡ none
  pub others : DifferAtOwnOr h rc e d

module _ (h : Host) (rc : Text) (apart : AreApart h rc)
    (writable : (p : Text) → h.writable p ≡ true) where
  removed : Disk → Disk
  removed d = remove_file h (remove_file h d (shim h)) (binary h)

  strip_file_lem : (d : Disk) → text_at (strip_file h d (some rc)).0 rc ≡ strip_rc (text_at d rc)
  unfolding strip_file write_file put read_file
  strip_file_lem d = elim (Option-cases (content_of (d rc))) [
    | inl e ↦ rw (e, or_empty, e) (sym strip_rc-empty)
    | inr (s, e) ↦ rw e (ground (arith, writable rc, text_eq_refl rc))
  ]

  strip_file-keeps :
      (d : Disk) (q : Text) → text_eq rc q ≡ false → (strip_file h d (some rc)).0 q ≡ d q
  unfolding strip_file write_file put read_file
  strip_file-keeps d q k = elim (Option-cases (content_of (d rc))) [
    | inl e ↦ rw e refl
    | inr (s, e) ↦ rw e (ground (arith, k))
  ]

  removed-keeps : (d : Disk) (q : Text) → IsForeign h q → removed d q ≡ d q
  unfolding removed remove_file put
  removed-keeps d q foreign = ground (arith, foreign.not_shim, foreign.not_binary)

  cmd_uninstall-UninstallSpec :
      (d : Disk) → UninstallSpec h rc d (strip_file h (removed d) (some rc)).0
  cmd_uninstall-UninstallSpec d = record {
    rc_stripped =
        strip_file_lem (removed d)
        ∙ ap (λ (o : Option Node). strip_rc (or_empty (content_of o)))
            (removed-keeps d rc apart.rc_foreign);
    shim_gone =
        strip_file-keeps (removed d) (shim h) (text_eq_sym rc (shim h) ∙ apart.rc_foreign.not_shim)
        ∙ (unfold removed remove_file put in
            ground (arith, writable (shim h), writable (binary h), text_eq_refl (shim h)));
    binary_gone =
        strip_file-keeps (removed d) (binary h)
          (text_eq_sym rc (binary h) ∙ apart.rc_foreign.not_binary)
        ∙ (unfold removed remove_file put in
            ground (arith, writable (binary h), text_eq_refl (binary h)));
    others =
        differ_at_own_or h rc _ d
          λ q foreign k. strip_file-keeps (removed d) q k ∙ removed-keeps d q foreign;
  }

is_failed : {real : Text} → failed ≢ installed real
is_failed e = cc

differ_trans :
    (h : Host) (rc : Text) {d e f : Disk}
    → DifferAtOwnOr h rc f e
    → DifferAtOwnOr h rc e d
    → DifferAtOwnOr h rc f d
differ_trans h rc later earlier q = by_path (later q) (earlier q) (λ x y. x ∙ y)
  where
    by_path : {own a b c : Type 0} → own ⊎ a → own ⊎ b → (a → b → c) → own ⊎ c
    by_path (inl o) y k = inl o
    by_path (inr x) (inl o) k = inl o
    by_path (inr x) (inr y) k = inr (k x y)

-- Where the path of the program and the rc file are known, the paths that are written to are different files and can
-- be written to, an install without `--no-rc` that succeeds and an uninstall leave the rc file with one newline more at
-- its end, if it had no marks and the directory of the shim is one line; the shim and the program are gone, and no path
-- but these, the configuration and the file that the copy goes through differs from before.
pub cmd_uninstall-cmd_install :
    (h : Host) (args : List Text) (self rc real : Text) (d : Disk)
    → AreApart h rc
    → h.self ≡ some self
    → h.rc ≡ some rc
    → ((p : Text) → h.writable p ≡ true)
    → wants_no_rc args ≡ false
    → (cmd_install h args d).1 ≡ installed real
    → mem 10 (bin h) ≡ false
    → contains (text_at d rc) rc_begin ≡ false
    → HasNoMarks (text_at d rc)
    → UninstalledSpec h rc d (cmd_uninstall h (cmd_install h args d).0).0
unfolding cmd_uninstall removed
cmd_uninstall-cmd_install h args self rc real d apart self_known rc_known writable wanted ok
      one_line new plain =
    by_spec (cmd_install-InstallSpec h args self rc d apart self_known rc_known) ok
  where
    by_spec :
        {r : Installed}
        → InstallSpec h (wants_no_rc args) self rc d (cmd_install h args d).0 r
        → r ≡ installed real
        → UninstalledSpec h rc d (cmd_uninstall h (cmd_install h args d).0).0
    by_spec (stopped k) e = absurd (is_failed e)
    by_spec (complete found p linked copied saved patched others) e = simp rc_known (
        let u = cmd_uninstall-UninstallSpec h rc apart writable (cmd_install h args d).0 in
        record {
          rc_back =
              u.rc_stripped
              ∙ ap strip_rc (patched ∙ rw wanted refl)
              ∙ strip_rc-patch_rc (bin h) (text_at d rc) one_line new plain;
          shim_gone = u.shim_gone;
          binary_gone = u.binary_gone;
          others = differ_trans h rc u.others others;
        })
