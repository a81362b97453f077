-- ===== src/Install/Installing.antt =====
-- What CmdInstall of internal/harbor/install.go leaves on the disk.
use adb_harbor.Prelude.{
  ◌≡◌, refl, sym, ap, ◌∙◌, inl, inr, Bool, true, false, Option, none, some, List, ◌++◌,
  if◌then◌else◌, arith, Bool-cases, Option-cases,
}
use adb_harbor.Text.{Text, text, text_eq}
use adb_harbor.Text.Laws.{text_eq_iff, text_eq_refl, text_eq_sym}
use adb_harbor.Config.{Config, load_config}
use adb_harbor.Shim.RealAdb.{pin_real_adb}
use adb_harbor.Install.{patch_rc}
use adb_harbor.Install.Commands.{
  Node, link, Disk, put, Host, bin, binary, shim, config_file, content_of, read_file, or_empty,
  write_file, rename, remove_file, symlink, tmp_of, copy_file, save, patch_file, Installed,
  installed, failed, then_step, finish, pin, place_binary, finish_with, place, wants_no_rc,
  cmd_install,
}
use adb_harbor.Install.Frames.{
  IsForeign, DifferAtOwn, DifferAtOwnOr, differ_at_own, differ_at_own_or, relink,
  place_binary-keeps, relink-keeps, save-keeps, patch_file-keeps, AreApart, text_at,
}

-- The configuration that an install saves, for the adb that it pins.
abbrev pub pinned : Host → Disk → Text → Config
pinned h d real = record (load_config h.decode (read_file d (config_file h)) h.adb_variable) {
  real_adb = real;
}

-- What an install leaves: where it fails, every file that is not the program's own is as it was, the rc file too;
-- else the shim is there, the program is copied, the configuration is saved with the adb that the search gives, the
-- rc file has the block unless it is not wanted, and the other files are as they were.
pub data InstallSpec (h : Host) (no_rc : Bool) (self rc : Text) (d e : Disk)
    : Installed → Type 0 where
  stopped : DifferAtOwn h e d → InstallSpec h no_rc self rc d e failed
  complete :
      (real : Text)
      → pin_real_adb h.machine
          (load_config h.decode (read_file d (config_file h)) h.adb_variable).real_adb
        ≡ some real
      → e (shim h) ≡ some (link (text "adbharbor"))
      → content_of (e (binary h)) ≡ content_of (d self)
      → content_of (e (config_file h)) ≡ some (h.encode (pinned h d real) ++ text "\n")
      → text_at e rc ≡ (if no_rc then text_at d rc else patch_rc (bin h) (text_at d rc))
      → DifferAtOwnOr h rc e d
      → InstallSpec h no_rc self rc d e (installed real)

then_step-case :
    (P : Disk × Installed → Type 0) (x : Disk × Bool) (f : Disk → Disk × Installed)
    → (x.1 ≡ false → P (x.0, failed))
    → (x.1 ≡ true → P (f x.0))
    → P (then_step x f)
then_step-case P (d, false) f bad good = bad refl
then_step-case P (d, true) f bad good = good refl

module _ (h : Host) (no_rc : Bool) (self rc : Text) (apart : AreApart h rc) (d : Disk) where
  -- The three files of the program, in the place where it has put them.
  record IsPlaced (e : Disk) : Type 0 where
    link_there : e (shim h) ≡ some (link (text "adbharbor"))
    copied : content_of (e (binary h)) ≡ content_of (d self)
    config_kept : e (config_file h) ≡ d (config_file h)

  place_binary-copied :
      (place_binary h self d).1 ≡ true
      → content_of ((place_binary h self d).0 (binary h)) ≡ content_of (d self)
  unfolding place_binary copy_file rename write_file read_file put
  place_binary-copied ok = elim (Bool-cases (text_eq self (binary h))) [
    | inl e ↦ rw e (ap (λ (p : Text). content_of (d p)) (sym ((text_eq_iff self (binary h)).0 e)))
    | inr e ↦ elim (Option-cases (content_of (d self))) [
      | inl k ↦ let bad : ◌≡◌ {A = Bool} false true = rw (e, k) at ok in cc
      | inr (s, k) ↦
          simp (e, k)
            (ground (
              arith,
              ok,
              e,
              k,
              apart.binary_tmp,
              text_eq_refl (binary h),
              text_eq_refl (tmp_of (binary h)),
            ))
    ]
  ]

  relink-IsPlaced :
      (place_binary h self d).1 ≡ true
      → (relink h (place_binary h self d).0).1 ≡ true
      → IsPlaced (relink h (place_binary h self d).0).0
  relink-IsPlaced ok linked = record {
    link_there = unfold symlink remove_file put in ground (arith, linked, text_eq_refl (shim h));
    copied =
        ap content_of (relink-keeps h (binary h) (place_binary h self d).0 apart.shim_binary)
        ∙ place_binary-copied ok;
    config_kept =
        relink-keeps h (config_file h) (place_binary h self d).0 apart.shim_config
        ∙ place_binary-keeps h (config_file h) self d
            (text_eq_sym (binary h) (config_file h) ∙ apart.binary_config) apart.tmp_config;
  }

  -- What the end of the install finds: the files of the program are in place, and the others as they were.
  record IsReady (e : Disk) : Type 0 where
    placed : IsPlaced e
    others : (q : Text) → IsForeign h q → e q ≡ d q

  -- The result of patchRC for the rc file, where it succeeds.
  patch_file_lem :
      (e : Disk)
      → (patch_file h e (some rc)).1 ≡ true
      → text_at (patch_file h e (some rc)).0 rc ≡ patch_rc (bin h) (text_at e rc)
  unfolding patch_file write_file put patch_rc read_file
  patch_file_lem e ok = ground (arith, ok, text_eq_refl rc)

  -- A patch that fails changes nothing.
  patch_file-stays :
      (e : Disk)
      → (patch_file h e (some rc)).1 ≡ false
      → (q : Text) → (patch_file h e (some rc)).0 q ≡ e q
  unfolding patch_file write_file put
  patch_file-stays e bad q = ground (arith, bad)

  save_lem :
      (e : Disk) (cfg : Config)
      → (save h e cfg).1 ≡ true
      → content_of ((save h e cfg).0 (config_file h)) ≡ some (h.encode cfg ++ text "\n")
  unfolding save write_file put
  save_lem e cfg ok = ground (arith, ok, text_eq_refl (config_file h))

  -- The step of the rc file, if it is wanted.
  abbrev patched_if : Bool → Disk → Disk × Bool
  patched_if skip e = if skip then (e, true) else patch_file h e (some rc)

  patched_if-keeps :
      (skip : Bool) (e : Disk) (q : Text) → text_eq rc q ≡ false → (patched_if skip e).0 q ≡ e q
  patched_if-keeps true e q k = refl
  patched_if-keeps false e q k = patch_file-keeps h q e rc k

  patched_if-stays :
      (skip : Bool) (e : Disk)
      → (patched_if skip e).1 ≡ false
      → (q : Text) → (patched_if skip e).0 q ≡ e q
  patched_if-stays true e bad q = cc
  patched_if-stays false e bad q = patch_file-stays e bad q

  patched_if_lem :
      (skip : Bool) (e : Disk)
      → (patched_if skip e).1 ≡ true
      → text_at (patched_if skip e).0 rc
        ≡ (if skip then text_at e rc else patch_rc (bin h) (text_at e rc))
  patched_if_lem true e ok = refl
  patched_if_lem false e ok = patch_file_lem e ok

  abbrev Spec : Disk × Installed → Type 0
  Spec x = InstallSpec h no_rc self rc d x.0 x.1

  stopped_by : {e : Disk} → ((q : Text) → IsForeign h q → e q ≡ d q) → Spec (e, failed)
  stopped_by {e = e} k = stopped (differ_at_own h e d k)

  finish-Spec :
      (rc_known : h.rc ≡ some rc) (e : Disk) (real : Text)
      → IsReady e
      → pin_real_adb h.machine
          (load_config h.decode (read_file d (config_file h)) h.adb_variable).real_adb
        ≡ some real
      → Spec (finish h no_rc (pinned h d real) e)
  unfolding finish
  finish-Spec rc_known e real ready found = simp rc_known (
      then_step-case Spec (save h e cfg) _
        (λ bad.
          stopped_by
            (λ q foreign. save-keeps h q e cfg foreign.not_config ∙ ready.others q foreign))
        (λ ok.
          then_step-case Spec (patched_if no_rc (save h e cfg).0) _
            (λ bad. stopped_by (λ q foreign.
              patched_if-stays no_rc (save h e cfg).0 bad q
              ∙ save-keeps h q e cfg foreign.not_config
              ∙ ready.others q foreign))
            (λ fine.
              complete real found
                (kept (shim h) (text_eq_sym rc (shim h) ∙ apart.rc_foreign.not_shim)
                    (text_eq_sym (config_file h) (shim h) ∙ apart.shim_config)
                  ∙ ready.placed.link_there)
                (ap content_of (
                    kept (binary h) (text_eq_sym rc (binary h) ∙ apart.rc_foreign.not_binary)
                      apart.binary_config)
                  ∙ ready.placed.copied)
                (ap content_of (
                    patched_if-keeps no_rc (save h e cfg).0 (config_file h)
                      (text_eq_sym rc (config_file h) ∙ apart.rc_foreign.not_config))
                  ∙ save_lem e cfg ok)
                (patched_if_lem no_rc (save h e cfg).0 fine
                  ∙ ap
                      (λ (o : Option Node).
                        if no_rc
                        then or_empty (content_of o)
                        else patch_rc (bin h) (or_empty (content_of o)))
                      (save-keeps h rc e cfg apart.rc_foreign.not_config
                        ∙ ready.others rc apart.rc_foreign))
                (differ_at_own_or h rc _ d
                  λ q foreign k. kept q k foreign.not_config ∙ ready.others q foreign))))
    where
      cfg : Config
      cfg = pinned h d real

      kept :
          (q : Text)
          → text_eq rc q ≡ false
          → text_eq (config_file h) q ≡ false
          → (patched_if no_rc (save h e cfg).0).0 q ≡ e q
      kept q not_rc not_config =
          patched_if-keeps no_rc (save h e cfg).0 q not_rc ∙ save-keeps h q e cfg not_config

  pin-Spec : (rc_known : h.rc ≡ some rc) (e : Disk) → IsReady e → Spec (pin h no_rc e)
  unfolding pin read_file
  pin-Spec rc_known e ready = rw ready.placed.config_kept (by_search _ refl)
    where
      by_search :
          (o : Option Text)
          → pin_real_adb h.machine
              (load_config h.decode (content_of (d (config_file h))) h.adb_variable).real_adb
            ≡ o
          → Spec (
              finish_with h no_rc
                (load_config h.decode (content_of (d (config_file h))) h.adb_variable)
                o
                e)
      by_search none k = stopped_by ready.others
      by_search (some real) k = finish-Spec rc_known e real ready k

  place-Spec : (rc_known : h.rc ≡ some rc) → Spec (place h no_rc (some self) d)
  place-Spec rc_known =
      then_step-case Spec (place_binary h self d) _ (λ bad. stopped_by placed_keeps)
        (λ ok.
          then_step-case Spec (relink h (place_binary h self d).0) _
            (λ bad. stopped_by relinked_keeps)
            (λ linked.
              pin-Spec rc_known (relink h (place_binary h self d).0).0
                (record { placed = relink-IsPlaced ok linked; others = relinked_keeps })))
    where
      placed_keeps : (q : Text) → IsForeign h q → (place_binary h self d).0 q ≡ d q
      placed_keeps q foreign = place_binary-keeps h q self d foreign.not_binary foreign.not_tmp

      relinked_keeps : (q : Text) → IsForeign h q → (relink h (place_binary h self d).0).0 q ≡ d q
      relinked_keeps q foreign =
          relink-keeps h q (place_binary h self d).0 foreign.not_shim ∙ placed_keeps q foreign

-- What CmdInstall leaves, where the path of the program and the rc file are known and the paths that it writes to are
-- different files: if it fails, every file but the program's own is as it was, the rc file too; else the shim's link
-- is there, the program is copied, the configuration is saved with the adb that the search gives, the rc file has
-- the block unless `--no-rc` is given, and the other files are as they were.
pub cmd_install-InstallSpec :
    (h : Host) (args : List Text) (self rc : Text) (d : Disk)
    → AreApart h rc
    → h.self ≡ some self
    → h.rc ≡ some rc
    → InstallSpec h (wants_no_rc args) self rc d (cmd_install h args d).0 (cmd_install h args d).1
unfolding cmd_install
cmd_install-InstallSpec h args self rc d apart self_known rc_known =
    elim (Bool-cases h.makes_dirs) [
      | inl e ↦ simp (e, self_known) (place-Spec h (wants_no_rc args) self rc apart d rc_known)
      | inr e ↦ simp e (stopped (λ q. inr refl))
    ]
