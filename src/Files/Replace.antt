-- ===== src/Files/Replace.antt =====
-- A replacement either installs the new contents or leaves the old ones where a start finds them.
use Prim.Native.String.append
use free_model_router.Files.{
  Os, FileRead, no_file, Called, backup_name, replace_file, installed, moved_aside, renamed,
  failure, not_exist,
}
use free_model_router.Files.Laws.{OsLaws, IsRename}
use free_model_router.Prelude.{
  String, ◌≡◌, sym, ap, ◌∙◌, ◌≢◌, ◌⊎◌, Bool, true, false, none, some, inl, inr,
}
use mathlib.Core.Bool.{false≢true}

unfoldable pub tail_or_self : String → String
tail_or_self String.[] = ""
tail_or_self (String.◌∷◌ c s) = s

unfoldable pub is_empty_text : String → Bool
is_empty_text String.[] = true
is_empty_text (String.◌∷◌ c s) = false

pub backup_name-other : (target : String) → target ≢ backup_name target
unfolding tail_or_self is_empty_text
backup_name-other String.[] e = absurd (false≢true (sym (ap is_empty_text (e ∙ append.nil ".bak"))))
backup_name-other (String.◌∷◌ c s) e =
    backup_name-other s (ap tail_or_self (e ∙ append.cons c s ".bak"))

module _ {W : Type 0} (os : Os W) (laws : OsLaws os) where
  -- The old contents stand at the target, or at its backup while there is no target.
  abbrev pub IsRecoverable : FileRead → String → W → Type 0
  IsRecoverable old target w =
      (os.read_file w target ≡ old)
      ⊎ ((os.read_file w target ≡ no_file) × (os.read_file w (backup_name target) ≡ old))

  -- What a call that replaces the target has to achieve.
  abbrev pub IsReplaced : FileRead → FileRead → String → Called W → Type 0
  IsReplaced old new target (w, none) = os.read_file w target ≡ new
  IsReplaced old new target (w, some e) = IsRecoverable old target w ⊎ (os.read_file w target ≡ new)

  restored-IsRecoverable :
      (old : FileRead) (target : String) (w : W) (o : Called W)
      → os.read_file w target ≡ no_file
      → os.read_file w (backup_name target) ≡ old
      → IsRename os w (backup_name target) target o
      → IsRecoverable old target o.0
  restored-IsRecoverable old target w (after, none) gone kept r = inl (r.0 ∙ kept)
  restored-IsRecoverable old target w (after, some e) gone kept r =
      inr (r target ∙ gone, r (backup_name target) ∙ kept)

  pub installed-IsReplaced_moved :
      (old new : FileRead) (temp target : String) (w : W) (o : Called W)
      → os.read_file w target ≡ no_file
      → os.read_file w (backup_name target) ≡ old
      → os.read_file w temp ≡ new
      → IsRename os w temp target o
      → IsReplaced old new target (installed os true target o)
  installed-IsReplaced_moved old new temp target w (after, none) gone kept full r =
      laws.remove_keeps after (backup_name target) target (backup_name-other target) ∙ r.0 ∙ full
  installed-IsReplaced_moved old new temp target w (after, some e) gone kept full r = inl (
      restored-IsRecoverable old target after _ (r target ∙ gone) (r (backup_name target) ∙ kept)
        (laws.rename_moves after (backup_name target) target))

  installed-IsReplaced_kept :
      (old new : FileRead) (temp target : String) (w : W) (o : Called W)
      → os.read_file w target ≡ old
      → os.read_file w temp ≡ new
      → IsRename os w temp target o
      → IsReplaced old new target (installed os false target o)
  installed-IsReplaced_kept old new temp target w (after, none) kept full r = r.0 ∙ full
  installed-IsReplaced_kept old new temp target w (after, some e) kept full r =
      inl (inl (r target ∙ kept))

  moved_aside-IsReplaced :
      (old new : FileRead) (temp target : String) (w : W) (o : Called W)
      → temp ≢ target
      → temp ≢ backup_name target
      → os.read_file w target ≡ old
      → os.read_file w temp ≡ new
      → IsRename os w target (backup_name target) o
      → IsReplaced old new target (moved_aside os temp target o)
  moved_aside-IsReplaced old new temp target w (after, none) n m kept full r =
      installed-IsReplaced_moved old new temp target after _ (r.1 (backup_name-other target))
        (r.0 ∙ kept) (r.2 temp n m ∙ full) (laws.rename_moves after temp target)
  moved_aside-IsReplaced old new temp target w (after, some not_exist) n m kept full r =
      installed-IsReplaced_kept old new temp target after _ (r target ∙ kept) (r temp ∙ full)
        (laws.rename_moves after temp target)
  moved_aside-IsReplaced old new temp target w (after, some (failure s)) n m kept full r =
      inl (inl (r target ∙ kept))

  renamed-IsReplaced :
      (old new : FileRead) (temp target : String) (w : W) (o : Called W)
      → temp ≢ target
      → temp ≢ backup_name target
      → os.read_file w target ≡ old
      → os.read_file w temp ≡ new
      → IsRename os w temp target o
      → IsReplaced old new target (renamed os temp target o)
  renamed-IsReplaced old new temp target w (after, none) n m kept full r = r.0 ∙ full
  renamed-IsReplaced old new temp target w (after, some e) n m kept full r =
      let bak = backup_name target in
      let cleared = (os.remove after bak).0 in
      moved_aside-IsReplaced old new temp target cleared _ n m
        (laws.remove_keeps after bak target (backup_name-other target) ∙ r target ∙ kept)
        (laws.remove_keeps after bak temp m ∙ r temp ∙ full) (laws.rename_moves cleared target bak)

  -- Replacing a target that has the old contents by a temporary file with the new ones.
  pub replace_file-IsReplaced :
      (old new : FileRead) (w : W) (temp target : String)
      → temp ≢ target
      → temp ≢ backup_name target
      → os.read_file w target ≡ old
      → os.read_file w temp ≡ new
      → IsReplaced old new target (replace_file os w temp target)
  unfolding replace_file
  replace_file-IsReplaced old new w temp target n m kept full =
      renamed-IsReplaced old new temp target w _ n m kept full (laws.rename_moves w temp target)
