-- ===== src/Usage/Store/Reopened.antt =====
-- A store that is opened again after an append.
use free_model_router.Files.{Os, Bytes, Called, contents}
use free_model_router.Files.Laws.{OsLaws}
use free_model_router.Usage.{RequestRecord, normalize_record}
use free_model_router.Usage.Store.{Store, append_record, encoded}
use free_model_router.Usage.Store.Durable.{IsSynced, IsAppended, append_record-IsAppended}
use free_model_router.Usage.Store.Reload.{ReadsBack, open_store, opened, open_store-encoded}
use free_model_router.Prelude.{ℕ, String, ◌≡◌, false, Option, none, some, ok, All}
use free_model_router.Prelude.Text.{str_eq}
use free_model_router.Usage.Retention.{prune_changes}
use mathlib.Core.Path.{subst}

module _ {W : Type 0} (os : Os W) (laws : OsLaws os) (encode : RequestRecord → Option Bytes)
    (decode : Bytes → Option RequestRecord) (trim : Bytes → Bytes) where
  appended-IsSynced :
      (s : Store) (w : W) (now : ℕ) (r : RequestRecord) (o : Store × Called W)
      → IsAppended os laws encode s w now r o
      → o.1.1 ≡ none
      → os.read_file o.1.0 s.path ≡ contents (encoded encode o.0.records)
  appended-IsSynced s w now r (after, (w2, none)) h e =
      subst (λ q. os.read_file w2 q ≡ contents (encoded encode after.records)) h.3 h.1
  appended-IsSynced s w now r (after, (w2, some x)) h e = cc

  -- After an append that succeeds, opening the file again gives the records that the store holds, as
  -- long as these read back from their encoding and none is due to go by then.
  pub open_store-append_record :
      (s : Store) (w : W) (fresh_id : String) (now later : ℕ) (r : RequestRecord)
      → str_eq s.path "" ≡ false
      → IsSynced os laws encode s w
      → (append_record os encode s w fresh_id now r).1.1 ≡ none
      → let after = append_record os encode s w fresh_id now r in
        All (ReadsBack decode trim encode) after.0.records
        → prune_changes encode later after.0.records ≡ false
        → open_store os encode decode trim after.1.0 s.path later
          ≡ (after.1.0, ok (opened os encode decode trim s.path after.0.records))
  open_store-append_record s w fresh_id now later r named synced worked h same =
      open_store-encoded os encode decode trim _ s.path later _ named
        (appended-IsSynced s w now (normalize_record fresh_id r now)
          (append_record os encode s w fresh_id now r)
          (append_record-IsAppended os laws encode s w fresh_id now r named synced) worked)
        h same
