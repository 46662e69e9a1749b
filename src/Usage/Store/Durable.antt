-- ===== src/Usage/Store/Durable.antt =====
-- The store and its file: what an append leaves in both, whether it fails or not.
use free_model_router.Files.{OsError, failure, Os, FileRead, contents, Bytes, Called, backup_name}
use free_model_router.Files.Laws.{OsLaws, IsRename}
use free_model_router.Files.Replace.{
  IsRecoverable, IsReplaced, installed-IsReplaced_moved, backup_name-other,
}
use free_model_router.Files.Install.{on_directory-IsReplaced, install-IsReplaced, Replaces}
use free_model_router.Usage.{RequestRecord, normalize_record}
use free_model_router.Usage.Retention.{prune_records, max_bytes}
use free_model_router.Usage.Store.{
  Store, moved_aside, renamed, replace_usage_file, persist, appended, append_encoded, append_record,
  encoded,
}
use free_model_router.Prelude.{
  ℕ, String, ◌≡◌, refl, ◌∙◌, ◌≢◌, ◌⊎◌, inl, inr, Bool, true, false, Option, none, some, List, [],
  ◌∷◌, ◌++◌, ltb, if◌then◌else◌, Bool-cases, length,
}
use free_model_router.Prelude.Text.{str_eq}

module _ {W : Type 0} (os : Os W) (laws : OsLaws os) (encode : RequestRecord → Option Bytes) where
  moved_aside-IsReplaced :
      (old new : FileRead) (temp target : String) (w : W) (o : Called W)
      → temp ≢ target
      → temp ≢ backup_name target
      → os.read_file w target ≡ old
      → os.read_file w temp ≡ new
      → IsRename os w target (backup_name target) o
      → IsReplaced os laws old new target (moved_aside os encode temp target o)
  moved_aside-IsReplaced old new temp target w (after, none) n m kept full r =
      installed-IsReplaced_moved os laws old new temp target after _
        (r.1 (backup_name-other target)) (r.0 ∙ kept) (r.2 temp n m ∙ full)
        (laws.rename_moves after temp target)
  moved_aside-IsReplaced old new temp target w (after, some e) n m kept full r =
      inl (inl (r target ∙ kept))

  renamed-IsReplaced :
      (old new : FileRead) (temp target : String) (w : W) (o : Called W)
      → temp ≢ target
      → temp ≢ backup_name target
      → os.read_file w target ≡ old
      → os.read_file w temp ≡ new
      → IsRename os w temp target o
      → IsReplaced os laws old new target (renamed os encode temp target o)
  renamed-IsReplaced old new temp target w (after, none) n m kept full r = r.0 ∙ full
  renamed-IsReplaced old new temp target w (after, some e) n m kept full r =
      let bak = backup_name target in
      let cleared = (os.remove after bak).0 in
      moved_aside-IsReplaced old new temp target cleared _ n m
        (laws.remove_keeps after bak target (backup_name-other target) ∙ r target ∙ kept)
        (laws.remove_keeps after bak temp m ∙ r temp ∙ full) (laws.rename_moves cleared target bak)

  replace_usage_file-Replaces :
      (old : FileRead) (target : String)
      → Replaces os laws (replace_usage_file os encode) old target
  unfolding replace_usage_file
  replace_usage_file-Replaces old target new w temp n m kept full =
      renamed-IsReplaced old new temp target w _ n m kept full (laws.rename_moves w temp target)

  persist-IsReplaced :
      (old : Bytes) (path : String) (w : W) (records : List RequestRecord)
      → str_eq path "" ≡ false
      → os.read_file w path ≡ contents old
      → IsReplaced os laws
          (contents old)
          (contents (encoded encode records))
          path
          (persist os encode w path records)
  unfolding persist
  persist-IsReplaced old path w records named kept =
      let dir = os.dir path in
      rw named (
        on_directory-IsReplaced os laws old (contents (encoded encode records)) path
          (os.mkdir_all w dir) _ (laws.mkdir_all_keeps w dir path ∙ kept)
          (λ w1 k1.
            on_directory-IsReplaced os laws old (contents (encoded encode records)) path
              (os.chmod w1 dir) _ (laws.chmod_keeps w1 dir path ∙ k1)
              (λ w2 k2.
                install-IsReplaced os laws (replace_usage_file os encode) ".fmr-usage-*.tmp" old
                  path w2 (encoded encode records) (replace_usage_file-Replaces (contents old) path)
                  k2)))

  -- The file holds the encoding of the records.
  abbrev pub IsSynced : Store → W → Type 0
  IsSynced s w = os.read_file w s.path ≡ contents (encoded encode s.records)

  -- What an append of a normalised record has to achieve.
  abbrev pub IsAppended : Store → W → ℕ → RequestRecord → Store × Called W → Type 0
  IsAppended s w now r (after, (w2, none)) =
      (after.records ≡ prune_records encode now (s.records ++ r ∷ []))
      × IsSynced after w2
      × (after.published ≡ s.published ++ r ∷ [])
      × (after.path ≡ s.path)
  IsAppended s w now r (after, (w2, some e)) =
      (after ≡ s)
      × (IsRecoverable os laws (contents (encoded encode s.records)) s.path w2
          ⊎ (os.read_file w2 s.path
              ≡ contents (encoded encode (prune_records encode now (s.records ++ r ∷ [])))))

  appended-IsAppended :
      (s : Store) (w : W) (now : ℕ) (r : RequestRecord) (o : Called W)
      → IsReplaced os laws
          (contents (encoded encode s.records))
          (contents (encoded encode (prune_records encode now (s.records ++ r ∷ []))))
          s.path
          o
      → IsAppended s w now r
          (appended os encode s (prune_records encode now (s.records ++ r ∷ [])) r o)
  appended-IsAppended s w now r (after, none) h = (refl, h, refl, refl)
  appended-IsAppended s w now r (after, some e) h = (refl, h)

  append_encoded-IsAppended :
      (s : Store) (w : W) (r : RequestRecord) (now : ℕ) (o : Option Bytes)
      → str_eq s.path "" ≡ false
      → IsSynced s w
      → IsAppended s w now r (append_encoded os encode s w r now o)
  append_encoded-IsAppended s w r now none named synced = (refl, inl (inl synced))
  append_encoded-IsAppended s w r now (some line) named synced =
      elim (Bool-cases (ltb max_bytes (length line))) [
        | inl big ↦ rw big (refl, inl (inl synced))
        | inr fits ↦ rw fits (
            appended-IsAppended s w now r _
              (persist-IsReplaced (encoded encode s.records) s.path w _ named synced))
      ]

  closed-IsAppended :
      (s : Store) (w : W) (now : ℕ) (r : RequestRecord) (b : Bool) (e : OsError)
      (rest : Store × Called W)
      → IsSynced s w
      → IsAppended s w now r rest
      → IsAppended s w now r (if b then (s, (w, some e)) else rest)
  closed-IsAppended s w now r true e rest synced h = (refl, inl (inl synced))
  closed-IsAppended s w now r false e rest synced h = h

  -- An append to a store whose file holds its records. Where it succeeds, the store holds the retained
  -- part of its records and the normalised new one, its file the encoding of exactly these, and the
  -- record is published once. Where it fails, whichever call did, the store is unchanged, nothing is
  -- published, and the file holds the old records, or they are in its backup while there is no file,
  -- or it holds the new ones already.
  pub append_record-IsAppended :
      (s : Store) (w : W) (fresh_id : String) (now : ℕ) (r : RequestRecord)
      → str_eq s.path "" ≡ false
      → IsSynced s w
      → IsAppended s w now
          (normalize_record fresh_id r now)
          (append_record os encode s w fresh_id now r)
  unfolding append_record
  append_record-IsAppended s w fresh_id now r named synced =
      closed-IsAppended s w now (normalize_record fresh_id r now) s.closed
        (failure "usage store is closed")
        (append_encoded os encode s w (normalize_record fresh_id r now) now
          (encode (normalize_record fresh_id r now)))
        synced
        (append_encoded-IsAppended s w (normalize_record fresh_id r now) now
          (encode (normalize_record fresh_id r now)) named synced)
