-- ===== src/Config/Saved.antt =====
-- A configuration that was saved is the one that the next start loads.
use free_model_router.Files.{Os, Bytes, contents, Called, replace_file}
use free_model_router.Files.Laws.{OsLaws}
use free_model_router.Files.Replace.{IsReplaced, IsRecoverable, replace_file-IsReplaced}
use free_model_router.Files.Install.{install-IsReplaced, on_directory-IsReplaced}
use free_model_router.Config.{
  Parsers, PersistedConfig, current_schema_version, validate, validate_settings, persisted_defaults,
  default_providers, validate_providers, ProviderConfig,
}
use free_model_router.Config.Persisted.{
  to_save, atomic_write_file, write_encoded, save_valid, save_persisted, load_persisted,
  max_config_bytes, protect_dir, has_none,
}
use free_model_router.Prelude.Int.{ℤ}
use free_model_router.Prelude.{
  ℕ, ◌≤◌, String, ◌≡◌, refl, sym, ◌∙◌, ◌⊎◌, inl, inr, false, Option, none, some, arith, ltb,
  Bool-cases, Result, ok, err, length, true, if◌then◌else◌, ◌<◌, [], List,
}
use free_model_router.Prelude.Text.{str_eq, str_discrete}
use mathlib.Core.Path.{subst}
use free_model_router.Catalog.Pool.{contains}

not_larger : (n : ℕ) → n ≤ max_config_bytes → ltb max_config_bytes n ≡ false
not_larger n h = ground arith

ltb→lt : {n : ℕ} → ltb max_config_bytes n ≡ true → max_config_bytes < n
ltb→lt h = ground (arith, h)

not_over : (n : ℕ) → ltb max_config_bytes n ≡ false → n ≤ max_config_bytes
not_over n h = ground (arith, h)

-- The providers are omitted where there are none, and those of the defaults stand in for them.
abbrev pub reloaded : PersistedConfig → PersistedConfig
reloaded c = record c {
  providers = if has_none c.providers then default_providers else c.providers;
}

default_providers-valid :
    (ps : Parsers)
    → validate_settings ps persisted_defaults ≡ ok tt
    → validate_providers ps [] default_providers ≡ ok tt
unfolding validate_settings str_discrete contains
default_providers-valid ps h = h

-- Other providers in a valid configuration that are valid themselves leave it valid.
validate-providers :
    (ps : Parsers) (c : PersistedConfig) (new : List ProviderConfig)
    → validate ps c ≡ ok tt
    → validate_providers ps [] new ≡ ok tt
    → validate ps (record c { providers = new }) ≡ ok tt
unfolding validate validate_settings
validate-providers ps c new h k = ground (arith, h, k)

validate-reloaded :
    (ps : Parsers)
    → validate_settings ps persisted_defaults ≡ ok tt
    → (c : PersistedConfig) → validate ps c ≡ ok tt
    → validate ps (reloaded c) ≡ ok tt
validate-reloaded ps defaults c valid = elim (Bool-cases (has_none c.providers)) [
  | inl e ↦
      rw e (validate-providers ps c default_providers valid (default_providers-valid ps defaults))
  | inr e ↦ rw e valid
]

module _ {W : Type 0} (os : Os W) (laws : OsLaws os) (ps : Parsers)
    (encode : PersistedConfig → Option Bytes) (decode : Bytes → Option PersistedConfig)
    (defaults : validate_settings ps persisted_defaults ≡ ok tt) where
  validate-source_path :
      (c : PersistedConfig) (path : String)
      → validate ps (record c { source_path = path }) ≡ validate ps c
  unfolding validate validate_settings
  validate-source_path c path = refl

  -- A valid file of the current schema is read as it stands.
  load_persisted-current :
      (tries : ℕ) (w : W) (path : String) (bytes : Bytes) (c : PersistedConfig)
      → str_eq (ps.trim_space path) "" ≡ false
      → os.read_file w path ≡ contents bytes
      → length bytes ≤ max_config_bytes
      → decode bytes ≡ some (record c { schema_version = current_schema_version })
      → validate ps (record c { schema_version = current_schema_version }) ≡ ok tt
      → load_persisted os ps encode decode tries w path
        ≡ (w, ok (record c { schema_version = current_schema_version; source_path = path }))
  unfolding load_persisted
  load_persisted-current tries w path bytes c named kept small decoded v =
      rw
        (
          named,
          kept,
          not_larger (length bytes) small,
          decoded,
          validate-source_path (record c { schema_version = current_schema_version }) path,
          v,
        )
        refl

  protect_dir-keeps :
      (dir path : String) (w : W)
      → os.read_file (protect_dir os ps encode decode dir w).0 path ≡ os.read_file w path
  protect_dir-keeps dir path w = elim (Bool-cases (str_eq dir ".")) [
    | inl h ↦ rw h refl
    | inr h ↦ rw h (laws.chmod_keeps w dir path)
  ]

  atomic_write_file-IsReplaced :
      (old bytes : Bytes) (w : W) (path : String)
      → str_eq (ps.trim_space path) "" ≡ false
      → os.read_file w path ≡ contents old
      → IsReplaced os laws
          (contents old)
          (contents bytes)
          path
          (atomic_write_file os ps encode decode w path bytes)
  unfolding atomic_write_file
  atomic_write_file-IsReplaced old bytes w path named kept = rw named (
      on_directory-IsReplaced os laws old (contents bytes) path (os.mkdir_all w (os.dir path)) _
        (laws.mkdir_all_keeps w (os.dir path) path ∙ kept)
        (λ w1 k1.
          on_directory-IsReplaced os laws old (contents bytes) path
            (protect_dir os ps encode decode (os.dir path) w1) _
            (protect_dir-keeps (os.dir path) path w1 ∙ k1)
            (λ w2 k2.
              install-IsReplaced os laws (replace_file os) ".fmr-config-*.tmp" old path w2 bytes
                (λ new v temp n m k f.
                  replace_file-IsReplaced os laws (contents old) new v temp path n m k f)
                k2)))

  -- What `json` promises: the encoding, which leaves out the path and an empty list of providers, is read
  -- over the defaults as the configuration with these two as the defaults have them.
  abbrev pub IsCodec : PersistedConfig → Type 0
  IsCodec c =
      (bytes : Bytes)
      → encode c ≡ some bytes
      → (path : String) × (decode bytes ≡ some (record (reloaded c) { source_path = path }))

  -- The file holds a configuration whose encoding is over the limit that a load has and a save has not.
  abbrev pub IsOversized : String → PersistedConfig → W → Type 0
  IsOversized path c w =
      (bytes : Bytes) × (encode c ≡ some bytes)
      × (max_config_bytes < length bytes)
      × (os.read_file w path ≡ contents bytes)

  -- After a save the new configuration loads, or the old file is still there or in its backup.
  abbrev pub IsSaved : ℕ → Bytes → String → PersistedConfig → Called W → Type 0
  IsSaved tries old path c (w, none) =
      (load_persisted os ps encode decode tries w path
        ≡ (w, ok (record (reloaded c) { source_path = path })))
      ⊎ IsOversized path c w
  IsSaved tries old path c (w, some e) =
      IsRecoverable os laws (contents old) path w
      ⊎ ((bytes : Bytes) × (encode c ≡ some bytes) × (os.read_file w path ≡ contents bytes))

  reloaded-loads :
      (tries : ℕ) (bytes : Bytes) (path read_path : String) (w : W) (c : PersistedConfig)
      → str_eq (ps.trim_space path) "" ≡ false
      → c.schema_version ≡ current_schema_version
      → validate ps (reloaded c) ≡ ok tt
      → decode bytes ≡ some (record (reloaded c) { source_path = read_path })
      → os.read_file w path ≡ contents bytes
      → length bytes ≤ max_config_bytes
      → load_persisted os ps encode decode tries w path
        ≡ (w, ok (record (reloaded c) { source_path = path }))
  reloaded-loads tries bytes path read_path w c named v valid read kept small =
      let P = λ (s : ℤ).
        decode bytes ≡ some (record (reloaded c) { schema_version = s; source_path = read_path })
        → validate ps (record (reloaded c) { schema_version = s }) ≡ ok tt
        → load_persisted os ps encode decode tries w path
          ≡ (w, ok (record (reloaded c) { schema_version = s; source_path = path })) in
      subst P (sym v)
        (λ d u.
          load_persisted-current tries w path bytes
            (record (reloaded c) { source_path = read_path }) named kept small d
            (validate-source_path (record (reloaded c) { schema_version = current_schema_version })
                read_path
              ∙ u))
        read valid

  replaced-IsSaved :
      (tries : ℕ) (old bytes : Bytes) (path : String) (c : PersistedConfig) (o : Called W)
      → str_eq (ps.trim_space path) "" ≡ false
      → c.schema_version ≡ current_schema_version
      → validate ps c ≡ ok tt
      → IsCodec c
      → encode c ≡ some bytes
      → IsReplaced os laws (contents old) (contents bytes) path o
      → IsSaved tries old path c o
  replaced-IsSaved tries old bytes path c (w, none) named v valid codec e r =
      let read = codec bytes e in
      elim (Bool-cases (ltb max_config_bytes (length bytes))) [
        | inl large ↦ inr (bytes, e, ltb→lt large, r)
        | inr small ↦ inl (
            reloaded-loads tries bytes path read.0 w c named v
              (validate-reloaded ps defaults c valid) read.1 r (not_over (length bytes) small))
      ]
  replaced-IsSaved tries old bytes path c (w, some x) named v valid codec e (inl r) = inl r
  replaced-IsSaved tries old bytes path c (w, some x) named v valid codec e (inr r) =
      inr (bytes, e, r)

  encoded-IsSaved :
      (tries : ℕ) (old : Bytes) (path : String) (w : W) (c : PersistedConfig) (o : Option Bytes)
      → str_eq (ps.trim_space path) "" ≡ false
      → c.schema_version ≡ current_schema_version
      → validate ps c ≡ ok tt
      → IsCodec c
      → os.read_file w path ≡ contents old
      → encode c ≡ o
      → IsSaved tries old path c (write_encoded os ps encode decode w path o)
  encoded-IsSaved tries old path w c none named v valid codec kept e = inl (inl kept)
  encoded-IsSaved tries old path w c (some bytes) named v valid codec kept e =
      replaced-IsSaved tries old bytes path c _ named v valid codec e
        (atomic_write_file-IsReplaced old bytes w path named kept)

  valid-IsSaved :
      (tries : ℕ) (old : Bytes) (path : String) (w : W) (c : PersistedConfig)
      (r : Result (Unit {0}))
      → str_eq (ps.trim_space path) "" ≡ false
      → c.schema_version ≡ current_schema_version
      → IsCodec c
      → os.read_file w path ≡ contents old
      → validate ps c ≡ r
      → IsSaved tries old path c (save_valid os ps encode decode w path c r)
  valid-IsSaved tries old path w c (err e) named v codec kept valid = inl (inl kept)
  valid-IsSaved tries old path w c (ok u) named v codec kept valid =
      encoded-IsSaved tries old path w c (encode c) named v valid codec kept refl

  -- Saving a configuration of the current schema, or of none, over a file that is there, where the parsers
  -- accept the defaults and an encoding is read over the defaults as what was encoded, but for empty
  -- providers. Where the save succeeds, the next start loads exactly this configuration, with the defaults
  -- that the save filled in and with the default providers where it has none, and leaves the file as it is;
  -- only an encoding of more than 1 MiB, which the save does not refuse, is excepted. Where the save fails,
  -- at its validation or at any call on the files, the old file is still there, or in its backup while there
  -- is none, or it holds the new configuration already.
  pub load_persisted-save_persisted :
      (tries : ℕ) (old : Bytes) (path : String) (w : W) (c : PersistedConfig)
      → str_eq (ps.trim_space path) "" ≡ false
      → (to_save c).schema_version ≡ current_schema_version
      → IsCodec (to_save c)
      → os.read_file w path ≡ contents old
      → IsSaved tries old path (to_save c) (save_persisted os ps encode decode w path c)
  unfolding save_persisted
  load_persisted-save_persisted tries old path w c named v codec kept =
      valid-IsSaved tries old path w (to_save c) (validate ps (to_save c)) named v codec kept refl
