-- ===== src/LogFile/Cleanup.antt =====
-- logger.go: `cleanupOldLogs`, which a timer calls once a day. Which texts are dates is the parameter
-- `parses`, and a time is a number.
pub mod Removal
use xlorm.Common.{
  ℕ, ◌+◌, ◌-◌, List, [], ◌∷◌, Bool, true, false, ◌&&◌, ◌||◌, not, if◌then◌else◌, Option, none, some,
  length, drop, take, get_or, ltb, leb,
}
use xlorm.Text.{Text, codes, eq_text}
use xlorm.Tags.{split, has_prefix}
use xlorm.LogFile.{FileHandler}

-- `strings.HasSuffix(s, suffix)`
unfoldable pub has_suffix : Text → Text → Bool
has_suffix s suffix =
    leb (length suffix) (length s) && eq_text (drop (length s - length suffix) s) suffix

-- `strings.TrimSuffix(s, suffix)`
unfoldable pub trim_suffix : Text → Text → Text
unfolding has_suffix
trim_suffix s suffix = if has_suffix s suffix then take (length s - length suffix) s else s

-- An entry of the directory; `info` is the time of its last change, or the error of `Info`.
pub record DirEntry : Type 0 where
  pub name : Text
  pub is_dir : Bool
  pub info : Option ℕ

-- The part of a name between its first two underscores, without `.log` at its end.
unfoldable pub date_part : Text → Option Text
unfolding split has_suffix trim_suffix
date_part name =
    let part = get_or (split name b'_') 1 [] in
    if ltb (length (split name b'_')) 2 || not (has_suffix part (codes ".log"))
    then none
    else some (trim_suffix part (codes ".log"))

module _ (parses : Text → Bool) (max_age now : ℕ) where
  -- What the loop removes: a file, by its name, its date and its time.
  unfoldable pub is_old : Text → DirEntry → Bool
  unfolding has_prefix has_suffix date_part
  is_old base e =
      if not e.is_dir && (has_prefix e.name base && has_suffix e.name (codes ".log"))
      then elim (date_part e.name) [
        | none ↦ false
        | some date ↦ elim e.info [ none ↦ false | some t ↦ parses date && ltb (t + max_age) now ]
      ]
      else false

  -- The loop, which returns the names that it removes.
  unfoldable pub remove_old : Text → List DirEntry → List Text
  unfolding is_old
  remove_old base [] = []
  remove_old base (e ∷ es) =
      let rest = remove_old base es in if is_old base e then e.name ∷ rest else rest

  -- `cleanupOldLogs`, over the entries of the directory (`none`: it cannot be read).
  unfoldable pub cleanup_old_logs : FileHandler → Option (List DirEntry) → List Text
  unfolding remove_old
  cleanup_old_logs h entries =
      if not h.rotation_enabled
      then []
      else elim entries [ none ↦ [] | some es ↦ remove_old h.base_file_name es ]
