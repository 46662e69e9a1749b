-- ===== src/Scoring/Cache.antt =====
-- internal/scoring/cache.go: the cached snapshot in its file, and the choice between the live source,
-- the cache and nothing. `os` is the operating system; `encode` and `decode` are package json.
use free_model_router.Files.{
  Os, Bytes, FileRead, contents, no_file, unreadable, Called, OsError, failure, and_then, install,
  replace_file, backup_name,
}
use free_model_router.Scoring.{Snapshot, empty_snapshot, is_stale, validate}
use free_model_router.Prelude.Int.{ℤ, pos, is_positive}
use free_model_router.Prelude.{
  ℕ, String, Bool, true, false, Option, none, some, ltb, if◌then◌else◌, Result, ok, err, length,
}
use free_model_router.Prelude.Text.{str_eq}

-- `Cache`
pub record Cache : Type 0 where
  pub path : String
  pub max_age : ℤ

-- `DefaultCacheMaxAge`, 7 days
abbrev pub default_cache_max_age : ℤ
default_cache_max_age = pos 604_800_000_000_000

abbrev pub max_snapshot_bytes : ℕ
max_snapshot_bytes = 16_777_216

-- `NewCache`
unfoldable pub new_cache : String → ℤ → Cache
new_cache path max_age = record {
  path = path;
  max_age = if is_positive max_age then max_age else default_cache_max_age;
}

-- `SourceKind`
pub data SourceKind : Type 0 where
  source_live source_cache source_default : SourceKind

-- `Resolution`; an error keeps its message.
pub record Resolution (F : Type 0) : Type 0 where
  pub snapshot : Snapshot F
  pub source : SourceKind
  pub used_cache : Bool
  pub stale : Bool
  pub live_error : Option String
  pub cache_error : Option String

abbrev pub message : Option OsError → Option String
message none = none
message (some e) = some "cache"

module _ {F W : Type 0} (os : Os W) (trim_space : String → String) (is_finite : F → Bool)
    (encode : Snapshot F → Option Bytes) (decode : Bytes → Option (Snapshot F)) where
  -- The part of `saveLocked` that follows the directory.
  abbrev pub save_encoded : W → String → Option Bytes → Called W
  save_encoded w path none = (w, some (failure "encode snapshot"))
  save_encoded w path (some bytes) = install os (replace_file os) ".snapshot-*.tmp" w bytes path

  -- `saveLocked`
  unfoldable pub save_locked : W → String → Snapshot F → Called W
  save_locked w path s =
      if str_eq (trim_space path) ""
      then (w, some (failure "cache path must not be empty"))
      else and_then os (os.mkdir_all w (os.dir path)) (λ w1. save_encoded w1 path (encode s))

  abbrev pub save_valid : W → String → Snapshot F → Result (Unit {0}) → Called W
  save_valid w path s (err e) = (w, some (failure e))
  save_valid w path s (ok u) = save_locked w path s

  -- `Save`; `Clone` is the value itself.
  unfoldable pub save : Cache → W → Snapshot F → Called W
  unfolding save_locked
  save c w s = save_valid w c.path s (validate trim_space is_finite s)

  abbrev pub if_valid : Snapshot F → Result (Unit {0}) → Result (Snapshot F)
  if_valid s (ok u) = ok s
  if_valid s (err e) = err e

  abbrev pub decoded : Option (Snapshot F) → Result (Snapshot F)
  decoded none = err "decode snapshot"
  decoded (some s) = if_valid s (validate trim_space is_finite s)

  -- What `loadLocked` makes of what it read.
  abbrev pub parsed : FileRead → Result (Snapshot F)
  parsed no_file = err "no snapshot"
  parsed (unreadable e) = err e
  parsed (contents bytes) =
      if ltb max_snapshot_bytes (length bytes)
      then err "snapshot exceeds its size"
      else decoded (decode bytes)

  abbrev pub after_recovery : String → Called W → W × Result (Snapshot F)
  after_recovery path (w, none) = (w, parsed (os.read_file w path))
  after_recovery path (w, some e) = (w, err "no snapshot")

  -- Where there is no file, the backup is put in its place first.
  abbrev pub load_read : W → String → FileRead → W × Result (Snapshot F)
  load_read w path no_file = after_recovery path (os.rename w (backup_name path) path)
  load_read w path (unreadable e) = (w, parsed (unreadable e))
  load_read w path (contents bytes) = (w, parsed (contents bytes))

  -- `Load`, and `loadLocked`
  unfoldable pub load : Cache → W → W × Result (Snapshot F)
  load c w =
      if str_eq (trim_space c.path) ""
      then (w, err "cache path must not be empty")
      else load_read w c.path (os.read_file w c.path)

  -- The end of `Resolve`, where the live source failed.
  abbrev pub from_cache : Cache → ℕ → Option String → W × Result (Snapshot F) → W × Resolution F
  from_cache c now e (w, ok s) = (
    w,
    record {
      snapshot = s;
      source = source_cache;
      used_cache = true;
      stale = is_stale s now c.max_age;
      live_error = e;
      cache_error = none;
    },
  )
  from_cache c now e (w, err x) = (
    w,
    record {
      snapshot = empty_snapshot;
      source = source_default;
      used_cache = false;
      stale = false;
      live_error = e;
      cache_error = some x;
    },
  )

  abbrev pub from_live : Snapshot F → Called W → W × Resolution F
  from_live s (w, e) = (
    w,
    record {
      snapshot = s;
      source = source_live;
      used_cache = false;
      stale = false;
      live_error = none;
      cache_error = message e;
    },
  )

  -- A fetched snapshot that is not valid counts as an error of the live source.
  abbrev pub checked : Result (Snapshot F) → Result (Snapshot F)
  checked (err e) = err e
  checked (ok s) = if_valid s (validate trim_space is_finite s)

  abbrev pub resolve_checked : Cache → W → ℕ → Result (Snapshot F) → W × Resolution F
  resolve_checked c w now (ok s) = from_live s (save c w s)
  resolve_checked c w now (err e) = from_cache c now (some e) (load c w)

  -- `Resolve`, with what the fetch returned
  unfoldable pub resolve : Cache → W → Result (Snapshot F) → ℕ → W × Resolution F
  unfolding save load
  resolve c w fetched now = resolve_checked c w now (checked fetched)
