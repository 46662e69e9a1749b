-- ===== src/Examples/Configs.antt =====
-- The configuration on a disk that refuses to rename a file over another.
use free_model_router.Catalog.Pool.{contains}
use free_model_router.Model.Identity.{matches_provider}
use free_model_router.Prelude.Text.{str_discrete}
use free_model_router.Files.{Bytes, contents, no_file}
use free_model_router.Examples.Disk.{Disk, disk, disk-OsLaws}
use free_model_router.Config.{Parsers, PersistedConfig, persisted_defaults, validate_settings}
use free_model_router.Config.Persisted.{load_persisted, save_persisted, to_save}
use free_model_router.Config.Valid.{GivesValid, load_persisted-GivesValid}
use free_model_router.Config.Saved.{reloaded, IsCodec, IsSaved, load_persisted-save_persisted}
use free_model_router.Prelude.Int.{pos, to_ℕ}
use free_model_router.Prelude.{
  ℕ, String, ◌≡◌, refl, ap, false, Option, none, some, [], ◌∷◌, if◌then◌else◌, ok,
}
use free_model_router.Prelude.Text.{str_eq}
use mathlib.Core.Path.{subst}

abbrev parsers : Parsers
parsers = record {
  trim_space = λ s. s;
  trim_prefix = λ s p. s;
  trim_suffix = λ s p. s;
  equal_fold = str_eq;
  has_control = λ s. false;
  parse_url = λ s. some (record {
    scheme = "https";
    host = "opencode.ai";
    hostname = "opencode.ai";
    has_user = false;
    fragment = "";
    raw_query = "";
  });
  is_loopback_ip = λ s. false;
  itoa = λ n. "1";
}

abbrev at_revision : ℕ → PersistedConfig
at_revision n = record persisted_defaults { config_revision = pos n }

-- A configuration that differs from the defaults in its revision only.
abbrev write_revision : PersistedConfig → Option Bytes
write_revision c = some (to_ℕ c.config_revision ∷ [])

abbrev read_revision : Bytes → Option PersistedConfig
read_revision (n ∷ []) = some (at_revision n)
read_revision _ = none

abbrev config_disk : Disk
config_disk p = if str_eq p "c.json" then contents (3 ∷ []) else no_file

defaults_valid : validate_settings parsers persisted_defaults ≡ ok tt
unfolding validate_settings str_discrete matches_provider contains
defaults_valid = refl

load_persisted-GivesValid_example :
    GivesValid disk parsers write_revision read_revision defaults_valid "c.json"
      (load_persisted disk parsers write_revision read_revision 5 config_disk "c.json")
load_persisted-GivesValid_example =
    load_persisted-GivesValid disk parsers write_revision read_revision defaults_valid 5 config_disk
      "c.json"

bytes_of : Option Bytes → Bytes
bytes_of none = []
bytes_of (some b) = b

at_revision-IsCodec :
    IsCodec disk disk-OsLaws parsers write_revision read_revision defaults_valid
      (to_save (at_revision 7))
unfolding bytes_of to_save str_discrete
at_revision-IsCodec bytes e =
    subst
      (λ b.
        (path : String) × (read_revision b
          ≡ some (record (reloaded (to_save (at_revision 7))) { source_path = path })))
      (ap bytes_of e) ("", refl)

load_persisted-save_persisted_example :
    IsSaved disk disk-OsLaws parsers write_revision read_revision defaults_valid 5
      (3 ∷ [])
      "c.json"
      (to_save (at_revision 7))
      (save_persisted disk parsers write_revision read_revision config_disk "c.json"
        (at_revision 7))
unfolding str_discrete to_save
load_persisted-save_persisted_example =
    load_persisted-save_persisted disk disk-OsLaws parsers write_revision read_revision
      defaults_valid 5 (3 ∷ []) "c.json" config_disk (at_revision 7) refl refl at_revision-IsCodec
      refl
