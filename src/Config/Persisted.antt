-- ===== src/Config/Persisted.antt =====
-- internal/config/config.go: loading and saving the configuration. `encode` and `decode` are package
-- json, `decode` into the defaults with a schema version of zero.
use free_model_router.Files.{
  Os, Bytes, FileRead, contents, no_file, unreadable, Called, OsError, failure, and_then, install,
  replace_file, not_exist,
}
use free_model_router.Config.{
  PersistedConfig, persisted_defaults, default_providers, current_schema_version, validate, Parsers,
  append,
}
use free_model_router.Prelude.Int.{pos, eq_ℤ, ltb_ℤ}
use free_model_router.Prelude.Text.{str_eq}
use free_model_router.Prelude.{
  ℕ, zero, suc, ◌+◌, String, Bool, true, false, ◌&&◌, Option, none, some, List, [], ◌∷◌, ltb,
  if◌then◌else◌, Result, ok, err, length,
}

-- `maxConfigBytes`
abbrev pub max_config_bytes : ℕ
max_config_bytes = 1_048_576

abbrev pub has_none : {A : Type 0} → List A → Bool
has_none [] = true
has_none (x ∷ xs) = false

-- The defaults that `SavePersisted` fills in.
unfoldable pub to_save : PersistedConfig → PersistedConfig
to_save c = record c {
  schema_version =
      if eq_ℤ c.schema_version (pos 0) then current_schema_version else c.schema_version;
  management_bind =
      if str_eq c.management_bind "" then persisted_defaults.management_bind else c.management_bind;
  model_pool_mode =
      if str_eq c.model_pool_mode "" then persisted_defaults.model_pool_mode else c.model_pool_mode;
}

-- An old configuration without providers gets the default ones.
abbrev pub with_providers : PersistedConfig → PersistedConfig
with_providers c =
    if ltb_ℤ c.schema_version (pos 2) && has_none c.providers
    then record c { providers = default_providers }
    else c

module _ {W : Type 0} (os : Os W) (ps : Parsers) (encode : PersistedConfig → Option Bytes)
    (decode : Bytes → Option PersistedConfig) where
  abbrev pub protect_dir : String → W → Called W
  protect_dir dir w = if str_eq dir "." then (w, none) else os.chmod w dir

  -- `atomicWriteFile`
  unfoldable pub atomic_write_file : W → String → Bytes → Called W
  atomic_write_file w path bytes =
      if str_eq (ps.trim_space path) ""
      then (w, some (failure "path must not be empty"))
      else and_then os (os.mkdir_all w (os.dir path)) (λ w1.
        and_then os (protect_dir (os.dir path) w1)
          (λ w2. install os (replace_file os) ".fmr-config-*.tmp" w2 bytes path))

  abbrev pub write_encoded : W → String → Option Bytes → Called W
  write_encoded w path none = (w, some (failure "marshal config"))
  write_encoded w path (some bytes) = atomic_write_file w path bytes

  abbrev pub save_valid : W → String → PersistedConfig → Result (Unit {0}) → Called W
  save_valid w path c (err e) = (w, some (failure e))
  save_valid w path c (ok u) = write_encoded w path (encode c)

  -- `SavePersisted`
  unfoldable pub save_persisted : W → String → PersistedConfig → Called W
  unfolding to_save atomic_write_file
  save_persisted w path c = save_valid w path (to_save c) (validate ps (to_save c))

  abbrev pub loaded : PersistedConfig → Called W → W × Result PersistedConfig
  loaded c (w, none) = (w, ok c)
  loaded c (w, some e) = (w, err "persist config")

  abbrev pub default_at : String → PersistedConfig
  default_at path = record persisted_defaults { source_path = path }

  abbrev pub restore_default : String → Called W → W × Result PersistedConfig
  restore_default path (w, some e) = (w, err "recover corrupt config")
  restore_default path (w, none) =
      loaded (default_at path) (save_persisted w path (default_at path))

  -- The names that `quarantineCorruptConfig` tries.
  abbrev pub candidate : String → ℕ → String
  candidate backup n = append backup (append "." (ps.itoa n))

  -- Its loop from a number on, for as many numbers as the bound says.
  unfoldable pub free_candidate : ℕ → W → String → ℕ → Result String
  free_candidate zero w backup n = err "no free name within the bound"
  free_candidate (suc tries) w backup n =
      let rest = free_candidate tries w backup (n + 1) in
      elim (os.stat w (candidate backup n)) [
        | none ↦ rest
        | some not_exist ↦ ok (candidate backup n)
        | some (failure e) ↦ err e
      ]

  abbrev pub backup_of : ℕ → W → String → Option OsError → Result String
  backup_of tries w backup none = free_candidate tries w backup 1
  backup_of tries w backup (some not_exist) = ok backup
  backup_of tries w backup (some (failure e)) = err e

  abbrev pub move_to : W → String → Result String → Called W
  move_to w path (err e) = (w, some (failure e))
  move_to w path (ok backup) = os.rename w path backup

  -- `quarantineCorruptConfig`
  unfoldable pub quarantine_corrupt_config : ℕ → W → String → Called W
  unfolding free_candidate
  quarantine_corrupt_config tries w path =
      let backup = append path ".corrupt" in
      move_to w path (backup_of tries w backup (os.stat w backup))

  -- `recoverCorruptConfig`
  unfoldable pub recover_corrupt_config : ℕ → W → String → W × Result PersistedConfig
  unfolding save_persisted quarantine_corrupt_config
  recover_corrupt_config tries w path =
      restore_default path (quarantine_corrupt_config tries w path)

  abbrev pub migrated :
      W → String → PersistedConfig → Result (Unit {0}) → W × Result PersistedConfig
  migrated w path c (err e) = (w, err e)
  migrated w path c (ok u) =
      let current = record c { schema_version = current_schema_version } in
      if eq_ℤ c.schema_version current_schema_version
      then (w, ok current)
      else loaded current (save_persisted w path current)

  abbrev pub on_decoded : ℕ → W → String → Option PersistedConfig → W × Result PersistedConfig
  on_decoded tries w path none = recover_corrupt_config tries w path
  on_decoded tries w path (some d) =
      let c = with_providers (record d { source_path = path }) in
      if ltb_ℤ current_schema_version d.schema_version
      then (w, err "config schema version is newer than supported")
      else migrated w path c (validate ps c)

  abbrev pub on_read : ℕ → W → String → FileRead → W × Result PersistedConfig
  on_read tries w path no_file = (w, ok (default_at path))
  on_read tries w path (unreadable e) = (w, err "read config")
  on_read tries w path (contents bytes) =
      if ltb max_config_bytes (length bytes)
      then recover_corrupt_config tries w path
      else on_decoded tries w path (decode bytes)

  -- `LoadPersisted`
  unfoldable pub load_persisted : ℕ → W → String → W × Result PersistedConfig
  unfolding save_persisted recover_corrupt_config
  load_persisted tries w path =
      if str_eq (ps.trim_space path) ""
      then (w, err "config path must not be empty")
      else on_read tries w path (os.read_file w path)
