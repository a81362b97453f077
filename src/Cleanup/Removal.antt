-- ===== src/Cleanup/Removal.antt =====
-- What the session cleanup of internal/harbor/cleanup.go uninstalls.
use adb_harbor.Prelude.{◌≡◌, refl, Bool, true, not, ◌&&◌, some, List, [], ◌∷◌, arith, keep, ap}
use adb_harbor.Text.{Text, text_eq, one_of}
use adb_harbor.Text.Laws.{text_eq→eq}
use adb_harbor.Broker.{Broker, Lease}
use adb_harbor.Cleanup.{
  is_protected_package, new_packages_to_remove, uninstall_all, cleanup_outcome,
}

-- Two texts that are equal are in the same lists, and have the same prefixes.
one_of-cong : (s t : Text) (ts : List Text) → text_eq s t ≡ true → one_of s ts ≡ one_of t ts
one_of-cong s t ts e = ap (λ u. one_of u ts) (text_eq→eq s t e)

protected-cong :
    (s t : Text) (ps : List Text)
    → text_eq s t ≡ true
    → is_protected_package s ps ≡ is_protected_package t ps
protected-cong s t ps e = ap (λ u. is_protected_package u ps) (text_eq→eq s t e)

-- A package is to be removed exactly when it is installed now, was not when the lease began, and has no
-- protected prefix.
pub new_packages_iff :
    (p : Text) (current baseline protected : List Text)
    → one_of p (new_packages_to_remove current baseline protected)
      ≡ (one_of p current && not (one_of p baseline) && not (is_protected_package p protected))
unfolding new_packages_to_remove one_of
new_packages_iff p [] baseline protected = refl
new_packages_iff p (q ∷ current) baseline protected = ground (
  arith,
  new_packages_iff p current baseline protected,
  one_of-cong p q baseline,
  protected-cong p q protected,
)

-- The packages that are uninstalled, and those where that fails, share out the ones that are given.
uninstall_all-keep :
    (works : Text → Bool) (pkgs : List Text)
    → uninstall_all works pkgs ≡ (keep works pkgs, keep (λ p. not (works p)) pkgs)
unfolding uninstall_all
uninstall_all-keep works [] = refl
uninstall_all-keep works (p ∷ pkgs) = ground (arith, uninstall_all-keep works pkgs)

one_of-keep :
    (p : Text) (works : Text → Bool) (ts : List Text)
    → one_of p (keep works ts) ≡ (one_of p ts && works p)
unfolding one_of
one_of-keep p works [] = refl
one_of-keep p works (t ∷ ts) = ground (arith, one_of-keep p works ts, text_eq→eq p t, ap works)

-- When a lease is cleaned up, a package counts as removed exactly when it is installed now, was not when
-- the lease began, is not protected, and its uninstall works; it counts as failed exactly when the same
-- holds except that its uninstall fails. So no package that predates the lease, and no protected one, is
-- ever uninstalled, and each of the others is tried.
pub cleanup_outcome_iff :
    (b : Broker) (l : Lease) (current : List Text) (works : Text → Bool) (p : Text)
    → (one_of p (cleanup_outcome b l (some current) works).0 ≡ (
        one_of p current
        && not (one_of p l.baseline)
        && not (is_protected_package p b.cfg.protected_packages)
        && works p))
      × (one_of p (cleanup_outcome b l (some current) works).1 ≡ (
          one_of p current
          && not (one_of p l.baseline)
          && not (is_protected_package p b.cfg.protected_packages)
          && not (works p)))
unfolding cleanup_outcome
cleanup_outcome_iff b l current works p =
    let pkgs = new_packages_to_remove current l.baseline b.cfg.protected_packages in
    ground (
      arith,
      uninstall_all-keep works pkgs,
      one_of-keep p works pkgs,
      one_of-keep p (λ q. not (works q)) pkgs,
      new_packages_iff p current l.baseline b.cfg.protected_packages,
    )
