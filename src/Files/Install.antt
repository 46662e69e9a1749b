-- ===== src/Files/Install.antt =====
-- The whole write of a file, from its temporary file to its protection.
use free_model_router.Files.{
  Os, FileRead, contents, no_file, Called, Bytes, backup_name, and_then, closing, fill, with_temp,
  install, dropping,
}
use free_model_router.Files.Laws.{OsLaws, IsWrite, IsTemp}
use free_model_router.Files.Replace.{IsReplaced}
use free_model_router.Prelude.{
  String, ◌≡◌, refl, sym, ap, ◌∙◌, ◌≢◌, inl, inr, Bool, true, false, none, some, Result, ok, err,
}
use mathlib.Core.Bool.{false≢true}

is_missing : FileRead → Bool
is_missing no_file = true
is_missing _ = false

no_file≢contents : (bytes : Bytes) → no_file ≢ contents bytes
unfolding is_missing
no_file≢contents bytes e = false≢true (sym (ap is_missing e))

module _ {W : Type 0} (os : Os W) (laws : OsLaws os) where
  -- A way to put a temporary file in the place of the target that loses neither content.
  abbrev pub Replaces : (W → String → String → Called W) → FileRead → String → Type 0
  Replaces replace old target =
      (new : FileRead) (w : W) (temp : String)
      → temp ≢ target
      → temp ≢ backup_name target
      → os.read_file w target ≡ old
      → os.read_file w temp ≡ new
      → IsReplaced os laws old new target (replace w temp target)

  abbrev OnOk : (W → Type 0) → Called W → Type 0
  OnOk R (w, none) = R w
  OnOk R (w, some e) = Unit

  and_then-IsReplaced :
      (old new : FileRead) (target : String) (R : W → Type 0) (o : Called W) (k : W → Called W)
      → OnOk R o
      → os.read_file o.0 target ≡ old
      → ((w : W) → R w → os.read_file w target ≡ old → IsReplaced os laws old new target (k w))
      → IsReplaced os laws old new target (and_then os o k)
  and_then-IsReplaced old new target R (w, none) k r kept next = next w r kept
  and_then-IsReplaced old new target R (w, some e) k r kept next = inl (inl kept)

  -- The last call, which protects the target.
  protect-IsReplaced :
      (old new : FileRead) (target : String) (o : Called W)
      → IsReplaced os laws old new target o
      → IsReplaced os laws old new target (and_then os o (λ w. os.chmod w target))
  protect-IsReplaced old new target (w, some e) r = r
  protect-IsReplaced old new target (w, none) r =
      go (os.chmod w target) (laws.chmod_keeps w target target ∙ r)
    where
      go : (o : Called W) → os.read_file o.0 target ≡ new → IsReplaced os laws old new target o
      go (after, none) e = e
      go (after, some x) e = inr e

  closing-keeps :
      (name p : String) (o : Called W) → os.read_file (closing os name o).0 p ≡ os.read_file o.0 p
  closing-keeps name p (w, none) = refl
  closing-keeps name p (w, some e) = laws.close_keeps w name p

  OnOk-any : (R : W → Type 0) (o : Called W) → R o.0 → OnOk R o
  OnOk-any R (w, none) r = r
  OnOk-any R (w, some e) r = tt

  write-OnOk :
      (name : String) (bytes : Bytes) (w : W) (o : Called W)
      → IsWrite os w name bytes o
      → OnOk (λ x. os.read_file x name ≡ contents bytes) (closing os name o)
  write-OnOk name bytes w (after, none) r = r.0
  write-OnOk name bytes w (after, some e) r = tt

  write-keeps :
      (name p : String) (bytes : Bytes) (w : W) (o : Called W)
      → p ≢ name
      → IsWrite os w name bytes o
      → os.read_file o.0 p ≡ os.read_file w p
  write-keeps name p bytes w (after, none) n r = r.1 p n
  write-keeps name p bytes w (after, some e) n r = r p n

  fill-IsReplaced :
      (replace : W → String → String → Called W) (old : FileRead) (target : String) (w : W)
      (name : String) (bytes : Bytes)
      → Replaces replace old target
      → name ≢ target
      → name ≢ backup_name target
      → os.read_file w target ≡ old
      → IsReplaced os laws old (contents bytes) target (fill os replace w name bytes target)
  unfolding fill
  fill-IsReplaced replace old target w name bytes h n m kept =
      let new = contents bytes in
      let Full = λ (x : W). os.read_file x name ≡ new in
      and_then-IsReplaced old new target (λ _. Unit) (closing os name (os.chmod w name)) _
        (OnOk-any (λ _. Unit) (closing os name (os.chmod w name)) tt)
        (closing-keeps name target (os.chmod w name) ∙ laws.chmod_keeps w name target ∙ kept)
        (λ w1 _ k1.
          and_then-IsReplaced old new target Full (closing os name (os.write w1 name bytes)) _
            (write-OnOk name bytes w1 _ (laws.write_fills w1 name bytes))
            (closing-keeps name target (os.write w1 name bytes)
              ∙ write-keeps name target bytes w1 _ (λ e. n (sym e)) (laws.write_fills w1 name bytes)
              ∙ k1)
            (λ w2 f2 k2.
              and_then-IsReplaced old new target Full (closing os name (os.sync w2 name)) _
                (OnOk-any Full _
                  (closing-keeps name name (os.sync w2 name) ∙ laws.sync_keeps w2 name name ∙ f2))
                (closing-keeps name target (os.sync w2 name) ∙ laws.sync_keeps w2 name target ∙ k2)
                (λ w3 f3 k3.
                  and_then-IsReplaced old new target Full (os.close w3 name) _
                    (OnOk-any Full _ (laws.close_keeps w3 name name ∙ f3))
                    (laws.close_keeps w3 name target ∙ k3)
                    (λ w4 f4 k4.
                      protect-IsReplaced old new target (replace w4 name target)
                        (h new w4 name n m k4 f4)))))

  dropping-IsReplaced :
      (old new : FileRead) (name target : String) (o : Called W)
      → name ≢ target
      → name ≢ backup_name target
      → IsReplaced os laws old new target o
      → IsReplaced os laws old new target (dropping os name o)
  dropping-IsReplaced old new name target (w, none) n m r =
      laws.remove_keeps w name target (λ e. n (sym e)) ∙ r
  dropping-IsReplaced old new name target (w, some e) n m (inr r) =
      inr (laws.remove_keeps w name target (λ e. n (sym e)) ∙ r)
  dropping-IsReplaced old new name target (w, some e) n m (inl (inl r)) =
      inl (inl (laws.remove_keeps w name target (λ e. n (sym e)) ∙ r))
  dropping-IsReplaced old new name target (w, some e) n m (inl (inr r)) = inl (
      inr (
        laws.remove_keeps w name target (λ e. n (sym e)) ∙ r.0,
        laws.remove_keeps w name (backup_name target) (λ e. m (sym e)) ∙ r.1,
      ))

  with_temp-IsReplaced :
      (replace : W → String → String → Called W) (old : Bytes) (path : String) (w : W)
      (bytes : Bytes) (o : W × Result String)
      → Replaces replace (contents old) path
      → os.read_file w path ≡ contents old
      → IsTemp os w o
      → IsReplaced os laws (contents old) (contents bytes) path (with_temp os replace bytes path o)
  with_temp-IsReplaced replace old path w bytes (after, err e) h kept r = inl (inl (r path ∙ kept))
  with_temp-IsReplaced replace old path w bytes (after, ok name) h kept r =
      let other =
        λ (e : name ≡ path). no_file≢contents old (sym r.0 ∙ ap (os.read_file w) e ∙ kept) in
      dropping-IsReplaced (contents old) (contents bytes) name path _ other (r.1 path) (
        fill-IsReplaced replace (contents old) path after name bytes h other (r.1 path)
          (r.2 path (λ e. other (sym e)) ∙ kept))

  -- Writing a file that is there: either its contents are the new ones afterwards, or the write
  -- reports an error and the old ones are still where a start finds them.
  pub install-IsReplaced :
      (replace : W → String → String → Called W) (pattern : String) (old : Bytes) (path : String)
      (w : W) (bytes : Bytes)
      → Replaces replace (contents old) path
      → os.read_file w path ≡ contents old
      → IsReplaced os laws
          (contents old)
          (contents bytes)
          path
          (install os replace pattern w bytes path)
  unfolding install
  install-IsReplaced replace pattern old path w bytes h kept =
      with_temp-IsReplaced replace old path w bytes _ h kept
        (laws.create_temp_makes w (os.dir path) pattern)

  -- A call before the write that does not touch the file.
  pub on_directory-IsReplaced :
      (old : Bytes) (new : FileRead) (path : String) (o : Called W) (k : W → Called W)
      → os.read_file o.0 path ≡ contents old
      → ((w : W)
          → os.read_file w path ≡ contents old
          → IsReplaced os laws (contents old) new path (k w))
      → IsReplaced os laws (contents old) new path (and_then os o k)
  on_directory-IsReplaced old new path (w, none) k kept next = next w kept
  on_directory-IsReplaced old new path (w, some e) k kept next = inl (inl kept)
