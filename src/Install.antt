-- ===== src/Install.antt =====
-- internal/harbor/install.go: the block that the installer adds to the shell's rc file, and how it is taken
-- out. A file's content is a Text, and `none` when there is no such file.
pub mod Restore
pub mod Commands
pub mod Frames
pub mod Installing
pub mod Undo
use adb_harbor.Prelude.{
  Bool, true, false, not, ◌&&◌, ◌||◌, Option, none, some, List, [], ◌∷◌, ◌++◌, if◌then◌else◌,
}
use adb_harbor.Text.{Text, text, text_eq, is_empty, contains, trim_space, split, join}

abbrev pub rc_begin : Text
rc_begin = text "# >>> adbharbor >>>"

abbrev pub rc_end : Text
rc_end = text "# <<< adbharbor <<<"

-- The file that rcFile names, in the home directory.
unfoldable pub rc_name : Text → Text
rc_name shell = if text_eq shell (text "bash") then text ".bashrc" else text ".zshrc"

abbrev pub export_line : Text → Text
export_line bin_dir = text "export PATH=\"" ++ bin_dir ++ text ":$PATH\""

-- The block that patchRC appends.
unfoldable pub rc_block : Text → Text
rc_block bin_dir = 10 ∷ (rc_begin ++ (10 ∷ (export_line bin_dir ++ (10 ∷ (rc_end ++ (10 ∷ []))))))

-- The content of the rc file after patchRC; a file that cannot be read counts as empty.
unfoldable pub patch_rc : Text → Text → Text
unfolding rc_block
patch_rc bin_dir content =
    if contains content rc_begin then content else content ++ rc_block bin_dir

abbrev pub is_begin : Text → Bool
is_begin line = text_eq (trim_space line) rc_begin

abbrev pub is_end : Text → Bool
is_end line = text_eq (trim_space line) rc_end

-- Whether stripRC skips the lines behind this one.
unfoldable pub skips_after : Bool → Text → Bool
skips_after skip line = if is_begin line then true else if is_end line then false else skip

-- The lines that stripRC keeps.
unfoldable pub strip_lines : Bool → List Text → List Text
unfolding skips_after
strip_lines skip [] = []
strip_lines skip (line ∷ lines) =
    let rest = strip_lines (skips_after skip line) lines in
    if is_begin line || is_end line || skip then rest else line ∷ rest

-- stripRC
unfoldable pub strip_rc : Text → Text
unfolding strip_lines split join
strip_rc content = join (strip_lines false (split content 10)) (10 ∷ [])
