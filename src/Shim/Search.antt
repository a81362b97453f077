-- ===== src/Shim/Search.antt =====
-- Which adb the search of internal/harbor/shim.go finds.
use adb_harbor.Prelude.{
  ◌≡◌, refl, sym, ap, ◌∙◌, inl, inr, Bool, true, false, not, ◌&&◌, Option, none, some, List, [],
  ◌∷◌, if◌then◌else◌, arith, Bool-cases,
}
use adb_harbor.Text.{Text, text, one_of}
use adb_harbor.Text.Laws.{text_eq_iff, text_eq_refl}
use adb_harbor.Shim.RealAdb.{
  Machine, base, leads_out, stays_in, equals, in_data_dir, resolved_is_self, is_self, candidates,
  scan, discover_real_adb, resolve_real_adb, pin_real_adb,
}

-- An executable file that is not the program itself.
abbrev pub is_usable : Machine → Text → Bool
is_usable m p = m.runnable p && not (is_self m p)

-- The first entry that passes a test.
abbrev pub first_where : (Text → Bool) → List Text → Option Text
first_where p [] = none
first_where p (x ∷ xs) = let rest = first_where p xs in if p x then some x else rest

-- What has been seen is not usable.
AreUseless : Machine → List Text → Type 0
AreUseless m seen = (p : Text) → one_of p seen ≡ true → is_usable m p ≡ false

AreUseless-cons :
    (m : Machine) (p : Text) (seen : List Text)
    → is_usable m p ≡ false
    → AreUseless m seen
    → AreUseless m (p ∷ seen)
unfolding AreUseless one_of
AreUseless-cons m p seen k u q h = ground (arith, text_eq_iff q p, u q, ap (is_usable m))

-- The tests of one round, with their results.
tests :
    (runnable self : Bool) (p : Text) (next rest : Option Text)
    → ((runnable && not self) ≡ false → next ≡ rest)
    → (if not runnable then next else if self then next else some p)
      ≡ (if runnable && not self then some p else rest)
tests true true p next rest e = e refl
tests true false p next rest e = refl
tests false true p next rest e = e refl
tests false false p next rest e = e refl

scan-first_where :
    (m : Machine) (seen ps : List Text)
    → AreUseless m seen
    → scan m seen ps ≡ first_where (is_usable m) ps
unfolding scan AreUseless one_of
scan-first_where m seen [] u = refl
scan-first_where m seen (p ∷ ps) u = elim (Bool-cases (one_of p seen)) [
  | inl e ↦ rw (e, u p e) (scan-first_where m seen ps u)
  | inr e ↦ rw e (
      tests (m.runnable p) (is_self m p) p (scan m (p ∷ seen) ps) (first_where (is_usable m) ps)
        (λ k. scan-first_where m (p ∷ seen) ps (AreUseless-cons m p seen k u)))
]

-- DiscoverRealADB gives the first candidate that is an executable file and not the program itself; that it skips
-- what it has seen changes nothing.
pub discover_real_adb-first_where :
    (m : Machine) → discover_real_adb m ≡ first_where (is_usable m) (candidates m)
unfolding discover_real_adb AreUseless one_of
discover_real_adb-first_where m = scan-first_where m [] (candidates m) (λ p h. cc)

first_where-holds :
    (t : Text → Bool) (xs : List Text) (p : Text) → first_where t xs ≡ some p → t p ≡ true
first_where-holds t [] p e = cc
first_where-holds t (x ∷ xs) p e = elim (Bool-cases (t x)) [
  | inl k ↦ ground (arith, k, e, ap t)
  | inr k ↦ first_where-holds t xs p (ground (arith, k, e))
]

discovered : (m : Machine) (p : Text) → discover_real_adb m ≡ some p → is_usable m p ≡ true
discovered m p e =
    first_where-holds (is_usable m) (candidates m) p (sym (discover_real_adb-first_where m) ∙ e)

-- The file `r` does not lie in the harbor's data directory: that is not there, it has no path to the file, or the
-- path leads out of it.
pub data LiesOutside (m : Machine) (r : Text) : Type 0 where
  absent : m.resolve m.data_dir ≡ none → LiesOutside m r
  unrelated : {dir : Text} → m.resolve m.data_dir ≡ some dir → m.rel dir r ≡ none → LiesOutside m r
  leads_away :
      {dir rel : Text}
      → m.resolve m.data_dir ≡ some dir
      → m.rel dir r ≡ some rel
      → leads_out rel ≡ true
      → LiesOutside m r

-- The file `r` is another program: not the one that runs, not named as the harbor is, and not in its data directory.
pub record IsForeign (m : Machine) (r : Text) : Type 0 where
  pub other_file : ¬ (m.self_path ≡ some r)
  pub other_name : ¬ (base r ≡ text "adbharbor")
  pub outside : LiesOutside m r

LiesOutside-related :
    (m : Machine) (r dir : Text) (o : Option Text)
    → m.resolve m.data_dir ≡ some dir
    → m.rel dir r ≡ o
    → stays_in o ≡ false
    → LiesOutside m r
LiesOutside-related m r dir none d e k = unrelated d e
LiesOutside-related m r dir (some rel) d e k = leads_away d e (ground arith)

LiesOutside-resolved :
    (m : Machine) (r : Text) (o : Option Text)
    → m.resolve m.data_dir ≡ o
    → in_data_dir m o r ≡ false
    → LiesOutside m r
unfolding in_data_dir
LiesOutside-resolved m r none d k = absent d
LiesOutside-resolved m r (some dir) d k = LiesOutside-related m r dir (m.rel dir r) d refl k

equals-some : (o : Option Text) (r : Text) → o ≡ some r → equals o r ≡ true
equals-some none r e = cc
equals-some (some s) r e = ground (arith, e, text_eq_refl r, text_eq_iff r s)

-- What isSelf denies of a file is not the program.
is_self-IsForeign :
    (m : Machine) (p r : Text) → m.resolve p ≡ some r → is_self m p ≡ false → IsForeign m r
unfolding is_self resolved_is_self
is_self-IsForeign m p r e k = by_tests (ap (resolved_is_self m) (sym e) ∙ k)
  where
    by_tests : resolved_is_self m (some r) ≡ false → IsForeign m r
    by_tests h = record {
      other_file = λ s. absurd (ground (arith, h, equals-some m.self_path r s));
      other_name = λ s. absurd (ground (arith, h, text_eq_iff (base r) (text "adbharbor"), s));
      outside = LiesOutside-resolved m r (m.resolve m.data_dir) refl (ground (arith, h));
    }

-- The adb that ResolveRealADB gives is never the program itself, whatever the configuration pins, so that the shim does
-- not wrap itself: where the path that it gives resolves to a file, that is not the file of the running program, is not
-- named adbharbor, and does not lie in the data directory.
pub resolve_real_adb-IsForeign :
    (m : Machine) (pinned p r : Text)
    → resolve_real_adb m pinned ≡ some p
    → m.resolve p ≡ some r
    → IsForeign m r
unfolding resolve_real_adb
resolve_real_adb-IsForeign m pinned p r e f =
    is_self-IsForeign m p r f (ground (arith, e, discovered m p, ap (is_self m)))

-- The adb that `install` pins is an executable file and not the program itself.
pub pin_real_adb-usable :
    (m : Machine) (pinned p : Text) → pin_real_adb m pinned ≡ some p → is_usable m p ≡ true
unfolding pin_real_adb
pin_real_adb-usable m pinned p e = ground (arith, e, discovered m p, ap (is_usable m))
