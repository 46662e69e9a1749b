-- ===== src/Files.antt =====
-- The operating system's files as the program uses them, and the replacement of a file: the shared text
-- of internal/scoring/cache.go and internal/config/config.go. The calls of package os are parameters,
-- with what the documentation says of them as laws; any call may fail. A program that stops midway is
-- one whose remaining calls all fail without an effect.
pub mod Laws
pub mod Replace
pub mod Install
use Prim.Native.String.{◌++◌ as append}
use free_model_router.Prelude.{
  ℕ, zero, suc, ◌+◌, ◌-◌, ◌*◌, ◌/◌, ◌%◌, ◌^◌, ◌≤◌, ◌<◌, String, ◌≡◌, refl, sym, ap, ◌∙◌, ◌≢◌, ◌↔◌,
  ◌⊎◌, inl, inr, Bool, true, false, not, ◌&&◌, ◌||◌, Option, none, some, List, [], ◌∷◌, ◌++◌, arith,
  ltb, leb, ◌==◌, if◌then◌else◌, Bool-cases, Option-cases, &&_iff, bool_ext, Result, ok, err,
  Result-cases, length, All, length-append, All-append, In, In-append_left, In-append_right,
  In-append_cases, All-In,
}

abbrev pub Bytes : Type 0
Bytes = List ℕ

pub data OsError : Type 0 where
  not_exist : OsError
  failure : String → OsError

-- What `os.ReadFile` gives.
pub data FileRead : Type 0 where
  contents : Bytes → FileRead
  no_file : FileRead
  unreadable : String → FileRead

abbrev pub Called : Type 0 → Type 0
Called W = W × Option OsError

-- `W` is the state of the file system.
pub record Os (W : Type 0) : Type 0 where
  pub dir : String → String
  pub read_file : W → String → FileRead
  pub stat : W → String → Option OsError
  pub mkdir_all : W → String → Called W
  pub chmod : W → String → Called W
  pub create_temp : W → String → String → W × Result String
  pub write : W → String → Bytes → Called W
  pub sync : W → String → Called W
  pub close : W → String → Called W
  pub rename : W → String → String → Called W
  pub remove : W → String → Called W

abbrev pub backup_name : String → String
backup_name target = append target ".bak"

module _ {W : Type 0} (os : Os W) where
  -- The next call, unless one failed.
  abbrev pub and_then : Called W → (W → Called W) → Called W
  and_then (w, none) k = k w
  and_then (w, some e) k = (w, some e)

  -- `_ = tmp.Close()` where a call on the temporary file failed
  abbrev pub closing : String → Called W → Called W
  closing name (w, none) = (w, none)
  closing name (w, some e) = ((os.close w name).0, some e)

  abbrev pub remove_if : Bool → W → String → W
  remove_if true w name = (os.remove w name).0
  remove_if false w name = w

  abbrev pub restore_if : Bool → W → String → W
  restore_if true w target = (os.rename w (backup_name target) target).0
  restore_if false w target = w

  -- The end of `replaceFile`, from its second rename of the temporary file on.
  abbrev pub installed : Bool → String → Called W → Called W
  installed moved target (w, none) = (remove_if moved w (backup_name target), none)
  installed moved target (w, some e) = (restore_if moved w target, some e)

  abbrev pub moved_aside : String → String → Called W → Called W
  moved_aside temp target (w, none) = installed true target (os.rename w temp target)
  moved_aside temp target (w, some not_exist) = installed false target (os.rename w temp target)
  moved_aside temp target (w, some e) = (w, some e)

  abbrev pub renamed : String → String → Called W → Called W
  renamed temp target (w, none) = (w, none)
  renamed temp target (w, some e) =
      moved_aside temp target
        (os.rename (os.remove w (backup_name target)).0 target (backup_name target))

  -- `replaceFile`
  unfoldable pub replace_file : W → String → String → Called W
  replace_file w temp target = renamed temp target (os.rename w temp target)

  -- What is done to a temporary file once it exists: it is written, put in the place of the target
  -- by `replace`, and the target is protected.
  unfoldable pub fill : (W → String → String → Called W) → W → String → Bytes → String → Called W
  fill replace w name bytes target = and_then (closing name (os.chmod w name)) (λ w1.
      and_then (closing name (os.write w1 name bytes)) (λ w2.
        and_then (closing name (os.sync w2 name)) (λ w3.
          and_then (os.close w3 name)
            (λ w4. and_then (replace w4 name target) (λ w5. os.chmod w5 target)))))

  -- `defer os.Remove(tmpName)`
  abbrev pub dropping : String → Called W → Called W
  dropping name (w, e) = ((os.remove w name).0, e)

  abbrev pub with_temp :
      (W → String → String → Called W) → Bytes → String → W × Result String → Called W
  with_temp replace bytes target (w, err e) = (w, some (failure e))
  with_temp replace bytes target (w, ok name) = dropping name (fill replace w name bytes target)

  -- `os.CreateTemp` and what follows it
  unfoldable pub install : (W → String → String → Called W) → String → W → Bytes → String → Called W
  unfolding fill
  install replace pattern w bytes target =
      with_temp replace bytes target (os.create_temp w (os.dir target) pattern)
