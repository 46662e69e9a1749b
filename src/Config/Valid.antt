-- ===== src/Config/Valid.antt =====
-- A configuration that loads is a valid one.
use free_model_router.Files.{Os, Bytes, FileRead, contents, no_file, unreadable, Called}
use free_model_router.Config.{
  Parsers, PersistedConfig, persisted_defaults, current_schema_version, validate, validate_settings,
}
use free_model_router.Config.Persisted.{
  loaded, default_at, restore_default, recover_corrupt_config, quarantine_corrupt_config, migrated,
  on_decoded, on_read, load_persisted, save_persisted, with_providers, max_config_bytes,
}
use free_model_router.Prelude.Int.{ℤ, pos, eq_ℤ, ltb_ℤ}
use free_model_router.Prelude.{
  ℕ, String, ◌≡◌, refl, ◌∙◌, inl, inr, Option, none, some, arith, ltb, Bool-cases, Result, ok, err,
  length,
}
use free_model_router.Prelude.Text.{str_eq}

module _ {W : Type 0} (os : Os W) (ps : Parsers) (encode : PersistedConfig → Option Bytes)
    (decode : Bytes → Option PersistedConfig)
    (defaults_valid : validate_settings ps persisted_defaults ≡ ok tt) where
  -- What the rest of the program may rely on.
  pub record IsValid (path : String) (c : PersistedConfig) : Type 0 where
    pub valid : validate ps c ≡ ok tt
    pub current : c.schema_version ≡ current_schema_version
    pub from : c.source_path ≡ path

  abbrev pub GivesValid : String → W × Result PersistedConfig → Type 0
  GivesValid path (w, ok c) = IsValid path c
  GivesValid path (w, err e) = Unit

  loaded-GivesValid :
      (path : String) (c : PersistedConfig) (o : Called W)
      → IsValid path c
      → GivesValid path (loaded os ps encode decode c o)
  loaded-GivesValid path c (w, none) v = v
  loaded-GivesValid path c (w, some e) v = tt

  default_at-IsValid : (path : String) → IsValid path (default_at os ps encode decode path)
  unfolding validate validate_settings
  default_at-IsValid path = record { valid = defaults_valid; current = refl; from = refl }

  restore_default-GivesValid :
      (path : String) (o : Called W) → GivesValid path (restore_default os ps encode decode path o)
  restore_default-GivesValid path (w, some e) = tt
  restore_default-GivesValid path (w, none) =
      loaded-GivesValid path _
        (save_persisted os ps encode decode w path (default_at os ps encode decode path))
        (default_at-IsValid path)

  validate_settings-version :
      (c : PersistedConfig) (v : ℤ)
      → validate_settings ps (record c { schema_version = v }) ≡ validate_settings ps c
  unfolding validate_settings
  validate_settings-version c v = refl

  settings_of : (c : PersistedConfig) → validate ps c ≡ ok tt → validate_settings ps c ≡ ok tt
  unfolding validate
  settings_of c v = elim (Bool-cases (ltb_ℤ c.schema_version (pos 0))) [
    | inl h ↦ cc (rw (h, validate) at v)
    | inr h ↦ elim (Bool-cases (ltb_ℤ current_schema_version c.schema_version)) [
      | inl k ↦ cc (rw (h, k, validate) at v)
      | inr k ↦ rw (h, k, validate) at v
    ]
  ]

  -- A valid configuration of an older schema is valid as one of the current schema.
  validate-current :
      (c : PersistedConfig)
      → validate ps c ≡ ok tt
      → validate ps (record c { schema_version = current_schema_version }) ≡ ok tt
  unfolding validate
  validate-current c v = validate_settings-version c current_schema_version ∙ settings_of c v

  migrated-GivesValid :
      (w : W) (path : String) (c : PersistedConfig) (r : Result (Unit {0}))
      → validate ps c ≡ r
      → c.source_path ≡ path
      → GivesValid path (migrated os ps encode decode w path c r)
  migrated-GivesValid w path c (err e) v f = tt
  migrated-GivesValid w path c (ok u) v f =
      let good : IsValid path (record c { schema_version = current_schema_version }) = record {
        valid = validate-current c v;
        current = refl;
        from = f;
      } in
      elim (Bool-cases (eq_ℤ c.schema_version current_schema_version)) [
        | inl same ↦ rw same good
        | inr old ↦ rw old (loaded-GivesValid path _ _ good)
      ]

  recover_corrupt_config-GivesValid :
      (tries : ℕ) (w : W) (path : String)
      → GivesValid path (recover_corrupt_config os ps encode decode tries w path)
  unfolding recover_corrupt_config
  recover_corrupt_config-GivesValid tries w path =
      restore_default-GivesValid path (quarantine_corrupt_config os ps encode decode tries w path)

  with_providers-path : (c : PersistedConfig) → (with_providers c).source_path ≡ c.source_path
  with_providers-path c = ground arith

  on_decoded-GivesValid :
      (tries : ℕ) (w : W) (path : String) (o : Option PersistedConfig)
      → GivesValid path (on_decoded os ps encode decode tries w path o)
  on_decoded-GivesValid tries w path none = recover_corrupt_config-GivesValid tries w path
  on_decoded-GivesValid tries w path (some d) =
      let c = with_providers (record d { source_path = path }) in
      elim (Bool-cases (ltb_ℤ current_schema_version d.schema_version)) [
        | inl newer ↦ rw newer tt
        | inr known ↦ rw known (
            migrated-GivesValid w path c (validate ps c) refl
              (with_providers-path (record d { source_path = path })))
      ]

  on_read-GivesValid :
      (tries : ℕ) (w : W) (path : String) (f : FileRead)
      → GivesValid path (on_read os ps encode decode tries w path f)
  on_read-GivesValid tries w path no_file = default_at-IsValid path
  on_read-GivesValid tries w path (unreadable e) = tt
  on_read-GivesValid tries w path (contents bytes) =
      elim (Bool-cases (ltb max_config_bytes (length bytes))) [
        | inl h ↦ rw h (recover_corrupt_config-GivesValid tries w path)
        | inr h ↦ rw h (on_decoded-GivesValid tries w path (decode bytes))
      ]

  -- Whatever the file holds, nothing, a configuration of this schema or of an older one, an invalid
  -- or a newer one, or something that is none: what `LoadPersisted` returns, if not an error, is a
  -- configuration of the current schema that passes the validation and names its file.
  pub load_persisted-GivesValid :
      (tries : ℕ) (w : W) (path : String)
      → GivesValid path (load_persisted os ps encode decode tries w path)
  unfolding load_persisted
  load_persisted-GivesValid tries w path = elim (Bool-cases (str_eq (ps.trim_space path) "")) [
    | inl h ↦ rw h tt
    | inr h ↦ rw h (on_read-GivesValid tries w path (os.read_file w path))
  ]
