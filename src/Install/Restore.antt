-- ===== src/Install/Restore.antt =====
-- What `adbharbor install` and `adbharbor uninstall` do to the shell's rc file, internal/harbor/install.go.
use adb_harbor.Prelude.{
  ◌≡◌, refl, sym, ap, ◌∙◌, ℕ, true, false, List, [], ◌∷◌, ◌++◌, arith, if◌then◌else◌, mem,
  append_assoc, All, mem-append,
}
use adb_harbor.Text.{
  Text, text, text_eq, contains, trim_space, trim_left, trim_right, split, join, is_space,
}
use adb_harbor.Text.Lines.{split-append, split-single, join-split-snoc, contains-append}
use adb_harbor.Install.{
  rc_begin, rc_end, export_line, rc_block, patch_rc, is_begin, is_end, skips_after, strip_lines,
  strip_rc,
}

-- No line of a text is a mark.
abbrev pub IsPlain : Text → Type 0
IsPlain line = (is_begin line ≡ false) × (is_end line ≡ false)

abbrev pub HasNoMarks : Text → Type 0
HasNoMarks content = All IsPlain (split content 10)

-- A block that holds the mark it is looked for by is added once.
add_once : Text → Text → Text → Text
add_once mark block content = if contains content mark then content else content ++ block

add_once_idempotent :
    (mark block content : Text)
    → contains (content ++ block) mark ≡ true
    → add_once mark block (add_once mark block content) ≡ add_once mark block content
unfolding add_once
add_once_idempotent mark block content h = ground (arith, h)

-- To install twice is to install once.
pub patch_rc_idempotent :
    (bin_dir content : Text)
    → patch_rc bin_dir (patch_rc bin_dir content) ≡ patch_rc bin_dir content
unfolding patch_rc add_once rc_block
patch_rc_idempotent bin_dir content = add_once_idempotent rc_begin (rc_block bin_dir) content (
    ap (λ t. contains t rc_begin) (sym (append_assoc content (10 ∷ []) (rc_begin ++ after)))
    ∙ contains-append (content ++ (10 ∷ [])) rc_begin after)
  where
    after : Text
    after = 10 ∷ (export_line bin_dir ++ (10 ∷ (rc_end ++ (10 ∷ []))))

strip_lines-append :
    (lines rest : List Text)
    → All IsPlain lines
    → strip_lines false (lines ++ rest) ≡ lines ++ strip_lines false rest
unfolding strip_lines skips_after
strip_lines-append [] rest h = refl
strip_lines-append (l ∷ lines) rest h = ground (arith, strip_lines-append lines rest h.1, h.0)

trim_right-cons : (c : ℕ) (s : Text) → is_space c ≡ false → trim_right (c ∷ s) ≡ c ∷ trim_right s
unfolding trim_right
trim_right-cons c s h = ground (arith, h)

-- A line that starts with an `e` is no mark.
starts-IsPlain : (s : Text) → IsPlain (101 ∷ s)
unfolding trim_space trim_left text_eq is_space
starts-IsPlain s = (
  ap (λ t. text_eq t rc_begin) (trim_right-cons 101 s refl),
  ap (λ t. text_eq t rc_end) (trim_right-cons 101 s refl),
)

export_line-IsPlain : (bin_dir : Text) → IsPlain (export_line bin_dir)
export_line-IsPlain bin_dir = starts-IsPlain (text "xport PATH=\"" ++ bin_dir ++ text ":$PATH\"")

split-framed :
    (content b x e : Text)
    → mem 10 b ≡ false
    → mem 10 x ≡ false
    → mem 10 e ≡ false
    → split (content ++ (10 ∷ (b ++ (10 ∷ (x ++ (10 ∷ (e ++ (10 ∷ [])))))))) 10
      ≡ split content 10 ++ (b ∷ x ∷ e ∷ [] ∷ [])
unfolding split
split-framed content b x e h k l =
    split-append content _ 10
    ∙ ap (λ ls. split content 10 ++ ls)
        (split-append b (x ++ (10 ∷ (e ++ (10 ∷ [])))) 10
          ∙ rw (split-single b 10 h) (
              ap (λ ls. b ∷ ls)
                (split-append x (e ++ (10 ∷ [])) 10
                  ∙ rw (split-single x 10 k)
                      (ap (λ ls. x ∷ ls) (split-append e [] 10 ∙ rw (split-single e 10 l) refl)))))

-- The lines of the block, and the empty one behind it.
block_lines : Text → List Text
block_lines bin_dir = rc_begin ∷ export_line bin_dir ∷ rc_end ∷ [] ∷ []

strip_lines-framed :
    (b x e : Text)
    → is_begin b ≡ true
    → is_begin x ≡ false
    → is_begin e ≡ false
    → is_end e ≡ true
    → strip_lines false (b ∷ x ∷ e ∷ [] ∷ []) ≡ [] ∷ []
unfolding strip_lines skips_after trim_space trim_left text_eq
strip_lines-framed b x e h k l m = ground (arith, h, k, l, m)

export_line-one_line :
    (bin_dir : Text) → mem 10 bin_dir ≡ false → mem 10 (export_line bin_dir) ≡ false
export_line-one_line bin_dir h = rw (mem-append 10 bin_dir (text ":$PATH\""), h) refl

-- The content of a file that has no marks, and whose directory is one line, comes back from an install and an
-- uninstall, with one newline more at its end.
pub strip_rc-patch_rc :
    (bin_dir content : Text)
    → mem 10 bin_dir ≡ false
    → contains content rc_begin ≡ false
    → HasNoMarks content
    → strip_rc (patch_rc bin_dir content) ≡ content ++ (10 ∷ [])
unfolding strip_rc patch_rc rc_block block_lines trim_space trim_left trim_right text_eq is_space
strip_rc-patch_rc bin_dir content h new plain =
    rw new (ap (λ ls. join (strip_lines false ls) (10 ∷ [])) lines ∙ rw kept joined)
  where
    lines : split (content ++ rc_block bin_dir) 10 ≡ split content 10 ++ block_lines bin_dir
    lines =
        split-framed content rc_begin (export_line bin_dir) rc_end refl
          (export_line-one_line bin_dir h) refl

    kept :
        strip_lines false (split content 10 ++ block_lines bin_dir) ≡ split content 10 ++ ([] ∷ [])
    kept =
        strip_lines-append (split content 10) (block_lines bin_dir) plain
        ∙ ap (λ ls. split content 10 ++ ls)
            (strip_lines-framed rc_begin (export_line bin_dir) rc_end refl
              (export_line-IsPlain bin_dir).0 refl refl)

    joined : join (split content 10 ++ ([] ∷ [])) (10 ∷ []) ≡ content ++ (10 ∷ [])
    joined = join-split-snoc content 10
