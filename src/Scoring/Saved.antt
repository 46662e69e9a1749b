-- ===== src/Scoring/Saved.antt =====
-- The last-known-good snapshot: what a load finds of it, and what a save of another one leaves.
use free_model_router.Files.{
  Os, Bytes, contents, Called, backup_name, and_then, replace_file, no_file,
}
use free_model_router.Files.Laws.{OsLaws, IsRename}
use free_model_router.Files.Replace.{IsRecoverable, IsReplaced, replace_file-IsReplaced}
use free_model_router.Files.Install.{install-IsReplaced}
use free_model_router.Scoring.{Snapshot, validate}
use free_model_router.Scoring.Cache.{
  Cache, max_snapshot_bytes, save, save_locked, save_encoded, load, parsed, after_recovery,
}
use free_model_router.Prelude.{
  ℕ, ◌≤◌, String, ◌≡◌, refl, ◌∙◌, ◌⊎◌, inl, inr, Bool, false, Option, none, some, arith, ltb,
  Bool-cases, ok, length, true, err,
}
use free_model_router.Prelude.Text.{str_eq}

not_larger : (n : ℕ) → n ≤ max_snapshot_bytes → ltb max_snapshot_bytes n ≡ false
not_larger n h = ground arith

module _ {F W : Type 0} (os : Os W) (laws : OsLaws os) (trim_space : String → String)
    (is_finite : F → Bool) (encode : Snapshot F → Option Bytes)
    (decode : Bytes → Option (Snapshot F)) where
  -- Bytes that load as the snapshot.
  pub record Reads (bytes : Bytes) (s : Snapshot F) : Type 0 where
    pub decodes : decode bytes ≡ some s
    pub small : length bytes ≤ max_snapshot_bytes
    pub valid : validate trim_space is_finite s ≡ ok tt

  parsed-Reads :
      (bytes : Bytes) (s : Snapshot F)
      → Reads bytes s
      → parsed os trim_space is_finite encode decode (contents bytes) ≡ ok s
  parsed-Reads bytes s r = rw (not_larger (length bytes) r.small, r.decodes, r.valid) refl

  pub load-contents :
      (c : Cache) (w : W) (bytes : Bytes) (s : Snapshot F)
      → str_eq (trim_space c.path) "" ≡ false
      → Reads bytes s
      → os.read_file w c.path ≡ contents bytes
      → (load os trim_space is_finite encode decode c w).1 ≡ ok s
  unfolding load
  load-contents c w bytes s named r e = rw (named, e) (parsed-Reads bytes s r)

  -- A file over the limit does not load.
  pub load-oversized :
      (c : Cache) (w : W) (bytes : Bytes)
      → str_eq (trim_space c.path) "" ≡ false
      → ltb max_snapshot_bytes (length bytes) ≡ true
      → os.read_file w c.path ≡ contents bytes
      → (load os trim_space is_finite encode decode c w).1 ≡ err "snapshot exceeds its size"
  unfolding load
  load-oversized c w bytes named large e = rw (named, e, large) refl

  after_recovery-ok :
      (path : String) (w : W) (bytes : Bytes) (s : Snapshot F) (o : Called W)
      → Reads bytes s
      → os.read_file w (backup_name path) ≡ contents bytes
      → IsRename os w (backup_name path) path o
      → o.1 ≡ none
      → (after_recovery os trim_space is_finite encode decode path o).1 ≡ ok s
  after_recovery-ok path w bytes s (after, none) r e k works = rw (k.0, e) (parsed-Reads bytes s r)
  after_recovery-ok path w bytes s (after, some x) r e k works = cc

  -- A recoverable snapshot loads, where its backup can be put in its place.
  pub load-IsRecoverable :
      (c : Cache) (w : W) (bytes : Bytes) (s : Snapshot F)
      → str_eq (trim_space c.path) "" ≡ false
      → Reads bytes s
      → (os.read_file w c.path ≡ no_file → (os.rename w (backup_name c.path) c.path).1 ≡ none)
      → IsRecoverable os laws (contents bytes) c.path w
      → (load os trim_space is_finite encode decode c w).1 ≡ ok s
  unfolding load
  load-IsRecoverable c w bytes s named r works (inl e) = load-contents c w bytes s named r e
  load-IsRecoverable c w bytes s named r works (inr e) =
      rw (named, e.0)
        (after_recovery-ok c.path w bytes s _ r e.1
          (laws.rename_moves w (backup_name c.path) c.path) (works e.0))

  -- What a save of a valid snapshot over the old one achieves.
  abbrev pub IsSaved : Bytes → String → Snapshot F → Called W → Type 0
  IsSaved old path s (w, none) =
      (b : Bytes) × (encode s ≡ some b) × (os.read_file w path ≡ contents b)
  IsSaved old path s (w, some e) =
      IsRecoverable os laws (contents old) path w
      ⊎ ((b : Bytes) × (encode s ≡ some b) × (os.read_file w path ≡ contents b))

  replaced-IsSaved :
      (old b : Bytes) (path : String) (s : Snapshot F) (o : Called W)
      → encode s ≡ some b
      → IsReplaced os laws (contents old) (contents b) path o
      → IsSaved old path s o
  replaced-IsSaved old b path s (w, none) e r = (b, e, r)
  replaced-IsSaved old b path s (w, some x) e (inl r) = inl r
  replaced-IsSaved old b path s (w, some x) e (inr r) = inr (b, e, r)

  save_encoded-IsSaved :
      (old : Bytes) (path : String) (w : W) (s : Snapshot F) (o : Option Bytes)
      → encode s ≡ o
      → os.read_file w path ≡ contents old
      → IsSaved old path s (save_encoded os trim_space is_finite encode decode w path o)
  save_encoded-IsSaved old path w s none e kept = inl (inl kept)
  save_encoded-IsSaved old path w s (some b) e kept = replaced-IsSaved old b path s _ e (
      install-IsReplaced os laws (replace_file os) ".snapshot-*.tmp" old path w b
        (λ new v temp n m k f.
          replace_file-IsReplaced os laws (contents old) new v temp path n m k f)
        kept)

  made-IsSaved :
      (old : Bytes) (path : String) (s : Snapshot F) (o : Called W)
      → os.read_file o.0 path ≡ contents old
      → IsSaved old path s (
          and_then os o
            (λ w1. save_encoded os trim_space is_finite encode decode w1 path (encode s)))
  made-IsSaved old path s (w, none) kept = save_encoded-IsSaved old path w s (encode s) refl kept
  made-IsSaved old path s (w, some e) kept = inl (inl kept)

  save_locked-IsSaved :
      (old : Bytes) (path : String) (w : W) (s : Snapshot F)
      → os.read_file w path ≡ contents old
      → IsSaved old path s (save_locked os trim_space is_finite encode decode w path s)
  unfolding save_locked
  save_locked-IsSaved old path w s kept = elim (Bool-cases (str_eq (trim_space path) "")) [
    | inl h ↦ rw h (inl (inl kept))
    | inr h ↦ rw h (
        made-IsSaved old path s (os.mkdir_all w (os.dir path))
          (laws.mkdir_all_keeps w (os.dir path) path ∙ kept))
  ]

  pub save-IsSaved :
      (c : Cache) (old : Bytes) (w : W) (s : Snapshot F)
      → validate trim_space is_finite s ≡ ok tt
      → os.read_file w c.path ≡ contents old
      → IsSaved old c.path s (save os trim_space is_finite encode decode c w s)
  unfolding save
  save-IsSaved c old w s v kept = rw v (save_locked-IsSaved old c.path w s kept)
