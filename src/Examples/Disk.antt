-- ===== src/Examples/Disk.antt =====
-- A file system in memory that, like some, refuses to rename a file over another.
use free_model_router.Files.{
  Os, FileRead, contents, no_file, unreadable, Called, not_exist, failure, backup_name, OsError,
}
use free_model_router.Files.Laws.{OsLaws, IsRename, IsTemp}
use free_model_router.Files.Replace.{tail_or_self, is_empty_text}
use free_model_router.Prelude.Text.{str_discrete}
use Prim.Native.String.{◌++◌ as append}
use Prim.Native.String.append
use free_model_router.Prelude.{
  String, ◌≡◌, refl, sym, ap, ◌∙◌, ◌≢◌, none, some, [], arith, Result, ok, err, Option,
}
use mathlib.Core.Logic.{ite}
use mathlib.Core.Bool.{false≢true}

abbrev pub Disk : Type 0
Disk = String → FileRead

abbrev put : String → FileRead → Disk → Disk
put name f w p = ite (str_discrete p name) f (w p)

abbrev moved : String → String → FileRead → FileRead → Disk → Called Disk
moved a b no_file there w = (w, some not_exist)
moved a b f no_file w = (put b f (put a no_file w), none)
moved a b f there w = (w, some (failure "file exists"))

abbrev created : FileRead → Disk → Disk × Result String
created no_file w = (put "t" (contents []) w, ok "t")
created f w = (w, err "no name left")

abbrev stat_of : FileRead → Option OsError
stat_of no_file = some not_exist
stat_of f = none

abbrev pub disk : Os Disk
disk = record {
  dir = λ p. "";
  read_file = λ w p. w p;
  stat = λ w p. stat_of (w p);
  mkdir_all = λ w p. (w, none);
  chmod = λ w p. (w, none);
  create_temp = λ w d pattern. created (w "t") w;
  write = λ w name bytes. (put name (contents bytes) w, none);
  sync = λ w p. (w, none);
  close = λ w p. (w, none);
  rename = λ w a b. moved a b (w a) (w b) w;
  remove = λ w p. (put p no_file w, none);
}

put-same : (name : String) (f : FileRead) (w : Disk) → put name f w name ≡ f
put-same name f w = ground arith

put-other : (name p : String) (f : FileRead) (w : Disk) → p ≢ name → put name f w p ≡ w p
put-other name p f w n = ground (arith, n)

moved-facts :
    (w : Disk) (a b : String) (f : FileRead)
    → w a ≡ f
    → (put b f (put a no_file w) b ≡ w a)
      × (a ≢ b → put b f (put a no_file w) a ≡ no_file)
      × ((p : String) → p ≢ a → p ≢ b → put b f (put a no_file w) p ≡ w p)
moved-facts w a b f e = (
  put-same b f (put a no_file w) ∙ sym e,
  λ n. put-other b a f (put a no_file w) n ∙ put-same a no_file w,
  λ p n m. put-other b p f (put a no_file w) m ∙ put-other a p no_file w n,
)

moved-IsRename :
    (w : Disk) (a b : String) (f g : FileRead)
    → w a ≡ f
    → w b ≡ g
    → IsRename disk w a b (moved a b f g w)
moved-IsRename w a b no_file g e k = λ p. refl
moved-IsRename w a b (contents c) (contents d) e k = λ p. refl
moved-IsRename w a b (contents c) (unreadable d) e k = λ p. refl
moved-IsRename w a b (unreadable c) (contents d) e k = λ p. refl
moved-IsRename w a b (unreadable c) (unreadable d) e k = λ p. refl
moved-IsRename w a b (contents c) no_file e k = moved-facts w a b (contents c) e
moved-IsRename w a b (unreadable c) no_file e k = moved-facts w a b (unreadable c) e

short_name : (p : String) → "t" ≢ backup_name p
unfolding is_empty_text tail_or_self
short_name String.[] e =
    absurd (false≢true (sym (ap (λ s. is_empty_text (tail_or_self s)) (e ∙ append.nil ".bak"))))
short_name (String.◌∷◌ c s) e = go s (ap tail_or_self (e ∙ append.cons c s ".bak"))
  where
    go : (s : String) → "" ≡ append s ".bak" → ⊥
    go String.[] k = false≢true (sym (ap is_empty_text (k ∙ append.nil ".bak")))
    go (String.◌∷◌ d s) k = false≢true (sym (ap is_empty_text (k ∙ append.cons d s ".bak")))

created-IsTemp : (w : Disk) (f : FileRead) → w "t" ≡ f → IsTemp disk w (created f w)
created-IsTemp w no_file e = (e, short_name, λ p n. put-other "t" p (contents []) w n)
created-IsTemp w (contents b) e = λ p. refl
created-IsTemp w (unreadable s) e = λ p. refl

pub disk-OsLaws : OsLaws disk
disk-OsLaws = record {
  mkdir_all_keeps = λ w d p. refl;
  chmod_keeps = λ w q p. refl;
  sync_keeps = λ w q p. refl;
  close_keeps = λ w q p. refl;
  create_temp_makes = λ w d pattern. created-IsTemp w (w "t") refl;
  write_fills = λ w name bytes.
      (put-same name (contents bytes) w, λ p n. put-other name p (contents bytes) w n);
  rename_moves = λ w a b. moved-IsRename w a b (w a) (w b) refl refl;
  remove_keeps = λ w q p n. put-other q p no_file w n;
}
