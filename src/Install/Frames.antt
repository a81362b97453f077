-- ===== src/Install/Frames.antt =====
-- What the steps of CmdInstall, internal/harbor/install.go, leave alone on the disk.
use adb_harbor.Prelude.{
  ◌≡◌, refl, ◌⊎◌, inl, inr, Bool, true, false, ◌||◌, some, arith, Bool-cases, Option-cases,
}
use adb_harbor.Text.{Text, text, text_eq}
use adb_harbor.Config.{Config}
use adb_harbor.Install.Commands.{
  Disk, put, Host, binary, shim, config_file, content_of, read_file, or_empty, write_file, rename,
  remove_file, symlink, tmp_of, copy_file, save, patch_file, place_binary,
}

-- A path that is none of those that the two commands write to, but for the rc file.
pub record IsForeign (h : Host) (q : Text) : Type 0 where
  pub not_shim : text_eq (shim h) q ≡ false
  pub not_binary : text_eq (binary h) q ≡ false
  pub not_tmp : text_eq (tmp_of (binary h)) q ≡ false
  pub not_config : text_eq (config_file h) q ≡ false

-- The paths that an install writes to, but for the rc file.
abbrev pub is_own : Host → Text → Bool
is_own h q =
    text_eq (shim h) q
    || text_eq (binary h) q
    || text_eq (tmp_of (binary h)) q
    || text_eq (config_file h) q

is_own-or_IsForeign : (h : Host) (q : Text) → (is_own h q ≡ true) ⊎ IsForeign h q
is_own-or_IsForeign h q = elim (Bool-cases (is_own h q)) [
  | inl e ↦ inl e
  | inr e ↦ inr (record {
    not_shim = ground (arith, e);
    not_binary = ground (arith, e);
    not_tmp = ground (arith, e);
    not_config = ground (arith, e);
  })
]

-- Two disks differ at those paths only, or at the rc file too.
abbrev pub DifferAtOwn : Host → Disk → Disk → Type 0
DifferAtOwn h e d = (q : Text) → (is_own h q ≡ true) ⊎ (e q ≡ d q)

abbrev pub DifferAtOwnOr : Host → Text → Disk → Disk → Type 0
DifferAtOwnOr h rc e d = (q : Text) → ((text_eq rc q || is_own h q) ≡ true) ⊎ (e q ≡ d q)

pub differ_at_own :
    (h : Host) (e d : Disk) → ((q : Text) → IsForeign h q → e q ≡ d q) → DifferAtOwn h e d
differ_at_own h e d k q = elim (is_own-or_IsForeign h q) [
  | inl own ↦ inl own
  | inr foreign ↦ inr (k q foreign)
]

pub differ_at_own_or :
    (h : Host) (rc : Text) (e d : Disk)
    → ((q : Text) → IsForeign h q → text_eq rc q ≡ false → e q ≡ d q)
    → DifferAtOwnOr h rc e d
differ_at_own_or h rc e d k q = elim (Bool-cases (text_eq rc q)) [
  | inl own ↦ inl (ground (arith, own))
  | inr other ↦ elim (is_own-or_IsForeign h q) [
    | inl own ↦ inl (ground (arith, own))
    | inr foreign ↦ inr (k q foreign other)
  ]
]

-- The shim's link, made anew.
abbrev pub relink : Host → Disk → Disk × Bool
relink h d = symlink h (remove_file h d (shim h)) (text "adbharbor") (shim h)

module _ (h : Host) (q : Text) where
  pub place_binary-keeps :
      (self : Text) (d : Disk)
      → text_eq (binary h) q ≡ false
      → text_eq (tmp_of (binary h)) q ≡ false
      → (place_binary h self d).0 q ≡ d q
  unfolding place_binary copy_file rename write_file put
  place_binary-keeps self d not_binary not_tmp = elim (Bool-cases (text_eq self (binary h))) [
    | inl e ↦ rw e refl
    | inr e ↦ elim (Option-cases (read_file d self)) [
      | inl k ↦ rw (e, k) refl
      | inr (s, k) ↦ rw (e, k) (ground (arith, not_binary, not_tmp))
    ]
  ]

  pub relink-keeps : (d : Disk) → text_eq (shim h) q ≡ false → (relink h d).0 q ≡ d q
  unfolding symlink remove_file put
  relink-keeps d not_shim = ground (arith, not_shim)

  pub save-keeps :
      (d : Disk) (cfg : Config) → text_eq (config_file h) q ≡ false → (save h d cfg).0 q ≡ d q
  unfolding save write_file put
  save-keeps d cfg not_config = ground (arith, not_config)

  pub patch_file-keeps :
      (d : Disk) (rc : Text) → text_eq rc q ≡ false → (patch_file h d (some rc)).0 q ≡ d q
  unfolding patch_file write_file put
  patch_file-keeps d rc not_rc = ground (arith, not_rc)

-- The paths that the commands write to are different files, and the rc file is none of them.
pub record AreApart (h : Host) (rc : Text) : Type 0 where
  pub rc_foreign : IsForeign h rc
  pub shim_binary : text_eq (shim h) (binary h) ≡ false
  pub shim_config : text_eq (shim h) (config_file h) ≡ false
  pub binary_tmp : text_eq (tmp_of (binary h)) (binary h) ≡ false
  pub binary_config : text_eq (config_file h) (binary h) ≡ false
  pub tmp_config : text_eq (tmp_of (binary h)) (config_file h) ≡ false

-- The content of a file, empty where there is none.
abbrev pub text_at : Disk → Text → Text
text_at d p = or_empty (content_of (d p))
