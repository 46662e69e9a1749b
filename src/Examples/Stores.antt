-- ===== src/Examples/Stores.antt =====
-- The usage store and the benchmark cache on a disk that refuses to rename a file over another.
use free_model_router.Usage.Retention.{prune_changes}
use free_model_router.Usage.Retention.{prune_records}
use free_model_router.Files.{replace_file}
use free_model_router.Files.{install}
use free_model_router.Usage.Retention.{
  is_expired, unexpired, prune_records, IsLongest, prune_records-IsLongest,
}
use free_model_router.Scoring.{validate}
use free_model_router.Prelude.Text.{str_discrete}
use free_model_router.Files.{Bytes, contents, no_file}
use free_model_router.Examples.Disk.{Disk, disk, disk-OsLaws}
use free_model_router.Usage.{RequestRecord, normalize_record}
use free_model_router.Usage.Store.{Store, append_record, encoded}
use free_model_router.Usage.Store.Durable.{IsSynced, IsAppended, append_record-IsAppended}
use free_model_router.Usage.Store.Reload.{ReadsBack, open_store, opened}
use free_model_router.Usage.Store.Reopened.{open_store-append_record}
use free_model_router.Gateway.Usage.{success}
use free_model_router.Gateway.Attempt.{no_tokens}
use free_model_router.Scoring.{Snapshot}
use free_model_router.Scoring.Cache.{Cache, resolve}
use free_model_router.Scoring.Saved.{Reads}
use free_model_router.Scoring.Kept.{IsCodec, IsServedOrOversized, resolve-resolve}
use free_model_router.Prelude.{
  ℕ, String, ◌≡◌, refl, sym, ◌≢◌, inl, inr, Bool, true, false, Option, none, some, [], ◌∷◌, arith,
  if◌then◌else◌, ok, err, All, In,
}
use free_model_router.Prelude.Text.{str_eq}
use free_model_router.Prelude.Int.{pos}

abbrev request_at : ℕ → ℕ → RequestRecord
request_at started completed = record {
  id = "fmr-1";
  started_at = started;
  completed_at = completed;
  provider = "oc";
  final_model = "oc/pickle";
  final_route = "oc::pickle";
  attempts = [];
  result = success;
  fallback = false;
  total_tokens = no_tokens;
}

-- A line of two bytes for the two times.
abbrev write_times : RequestRecord → Option Bytes
write_times r = some (r.started_at ∷ r.completed_at ∷ [])

abbrev read_times : Bytes → Option RequestRecord
read_times (a ∷ b ∷ []) = some (request_at a b)
read_times _ = none

abbrev untrimmed : Bytes → Bytes
untrimmed b = b

abbrev usage_disk : Disk
usage_disk p = if str_eq p "usage.jsonl" then contents (5 ∷ 7 ∷ b'\n' ∷ []) else no_file

abbrev usage_store : Store
usage_store = record {
  path = "usage.jsonl";
  records = request_at 5 7 ∷ [];
  closed = false;
  published = [];
}

usage_store-IsSynced : IsSynced disk disk-OsLaws write_times usage_store usage_disk
unfolding str_discrete encoded
usage_store-IsSynced = refl

append_record-IsAppended_example :
    IsAppended disk disk-OsLaws write_times usage_store usage_disk 20
      (normalize_record "fmr-2" (request_at 11 0) 20)
      (append_record disk write_times usage_store usage_disk "fmr-2" 20 (request_at 11 0))
unfolding str_discrete
append_record-IsAppended_example =
    append_record-IsAppended disk disk-OsLaws write_times usage_store usage_disk "fmr-2" 20
      (request_at 11 0) refl usage_store-IsSynced

prune_records-IsLongest_example :
    All (λ r. is_expired 20 r ≡ false) (prune_records write_times 20 (request_at 5 7 ∷ []))
    × IsLongest write_times
        (unexpired 20 (request_at 5 7 ∷ []))
        (prune_records write_times 20 (request_at 5 7 ∷ []))
prune_records-IsLongest_example = prune_records-IsLongest write_times 20 (request_at 5 7 ∷ [])

not_newline : (a : ℕ) → a ≢ b'\n' → (b : ℕ) → b ≢ b'\n' → In b'\n' (a ∷ b ∷ []) → ⊥
not_newline a n b m (inl e) = n (sym e)
not_newline a n b m (inr (inl e)) = m (sym e)
not_newline a n b m (inr (inr x)) = absurd x

times-ReadsBack :
    All (ReadsBack read_times untrimmed write_times) (request_at 5 7 ∷ request_at 11 11 ∷ [])
unfolding str_discrete normalize_record
times-ReadsBack = (
  record {
    line = 5 ∷ 7 ∷ [];
    written = refl;
    one_line = not_newline 5 (λ e. omega (arith, e)) 7 (λ e. omega (arith, e));
    trimmed = refl;
    present = refl;
    read = refl;
    normal = refl;
  },
  (
    record {
      line = 11 ∷ 11 ∷ [];
      written = refl;
      one_line = not_newline 11 (λ e. omega (arith, e)) 11 (λ e. omega (arith, e));
      trimmed = refl;
      present = refl;
      read = refl;
      normal = refl;
    },
    tt,
  ),
)

open_store-append_record_example :
    let after =
      append_record disk write_times usage_store usage_disk "fmr-2" 20 (request_at 11 0) in
    open_store disk write_times read_times untrimmed after.1.0 "usage.jsonl" 30
    ≡ (after.1.0, ok (opened disk write_times read_times untrimmed "usage.jsonl" after.0.records))
unfolding str_discrete append_record install prune_records prune_changes
open_store-append_record_example =
    open_store-append_record disk disk-OsLaws write_times read_times untrimmed usage_store
      usage_disk "fmr-2" 20 30 (request_at 11 0) refl usage_store-IsSynced refl times-ReadsBack refl

-- Snapshots that differ in their time only.
abbrev snapshot_at : ℕ → Snapshot ℕ
snapshot_at n = record {
  version = "1";
  source = "evals";
  retrieved_at = n;
  benchmarks = [];
  models = some [];
  provenance = none;
}

abbrev write_snapshot : Snapshot ℕ → Option Bytes
write_snapshot s = some (s.retrieved_at ∷ [])

abbrev read_snapshot : Bytes → Option (Snapshot ℕ)
read_snapshot (n ∷ []) = some (snapshot_at n)
read_snapshot _ = none

abbrev same_text : String → String
same_text s = s

abbrev every_finite : ℕ → Bool
every_finite n = true

abbrev cache_disk : Disk
cache_disk p = if str_eq p "b.json" then contents (4 ∷ []) else no_file

abbrev cache : Cache
cache = record { path = "b.json"; max_age = pos 9 }

snapshot_at-Reads :
    Reads disk disk-OsLaws same_text every_finite write_snapshot read_snapshot
      (4 ∷ [])
      (snapshot_at 4)
unfolding validate str_discrete
snapshot_at-Reads = record { decodes = refl; small = omega arith; valid = refl }

snapshot_at-IsCodec :
    IsCodec disk disk-OsLaws same_text every_finite write_snapshot read_snapshot
      (ok (snapshot_at 6))
snapshot_at-IsCodec t b e f = cc

resolve-resolve_example :
    let first =
      resolve disk same_text every_finite write_snapshot read_snapshot cache cache_disk
        (ok (snapshot_at 6))
        8 in
    IsServedOrOversized disk disk-OsLaws same_text every_finite write_snapshot read_snapshot
      (snapshot_at 4)
      (ok (snapshot_at 6))
      first.1
      (resolve disk same_text every_finite write_snapshot read_snapshot cache first.0
        (err "offline")
        9).1
unfolding str_discrete resolve validate install replace_file
resolve-resolve_example =
    resolve-resolve disk disk-OsLaws same_text every_finite write_snapshot read_snapshot cache
      cache_disk (4 ∷ []) (snapshot_at 4) (ok (snapshot_at 6)) 8 9 "offline" refl snapshot_at-Reads
      snapshot_at-IsCodec refl (λ e. cc)
