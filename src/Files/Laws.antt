-- ===== src/Files/Laws.antt =====
-- What the documentation of package os says of the calls.
use free_model_router.Files.{Os, contents, no_file, Called, Bytes, backup_name}
use free_model_router.Prelude.{String, ◌≡◌, ◌≢◌, none, some, Result, ok, err}

module _ {W : Type 0} (os : Os W) where
  abbrev pub Keeps : W → String → W → Type 0
  Keeps w p after = os.read_file after p ≡ os.read_file w p

  -- A rename that succeeds moves one file and no other; one that fails moves none.
  abbrev pub IsRename : W → String → String → Called W → Type 0
  IsRename w a b (after, none) =
      (os.read_file after b ≡ os.read_file w a)
      × (a ≢ b → os.read_file after a ≡ no_file)
      × ((p : String) → p ≢ a → p ≢ b → Keeps w p after)
  IsRename w a b (after, some e) = (p : String) → Keeps w p after

  -- A temporary file is a new one, and its name ends in `.tmp`, not in `.bak`.
  abbrev pub IsTemp : W → W × Result String → Type 0
  IsTemp w (after, ok name) =
      (os.read_file w name ≡ no_file)
      × ((p : String) → name ≢ backup_name p)
      × ((p : String) → p ≢ name → Keeps w p after)
  IsTemp w (after, err e) = (p : String) → Keeps w p after

  abbrev pub IsWrite : W → String → Bytes → Called W → Type 0
  IsWrite w name bytes (after, none) =
      (os.read_file after name ≡ contents bytes) × ((p : String) → p ≢ name → Keeps w p after)
  IsWrite w name bytes (after, some e) = (p : String) → p ≢ name → Keeps w p after

  pub record OsLaws : Type 0 where
    pub mkdir_all_keeps : (w : W) (d p : String) → Keeps w p (os.mkdir_all w d).0
    pub chmod_keeps : (w : W) (q p : String) → Keeps w p (os.chmod w q).0
    pub sync_keeps : (w : W) (q p : String) → Keeps w p (os.sync w q).0
    pub close_keeps : (w : W) (q p : String) → Keeps w p (os.close w q).0
    pub create_temp_makes : (w : W) (d pattern : String) → IsTemp w (os.create_temp w d pattern)
    pub write_fills :
        (w : W) (name : String) (bytes : Bytes) → IsWrite w name bytes (os.write w name bytes)
    pub rename_moves : (w : W) (a b : String) → IsRename w a b (os.rename w a b)
    pub remove_keeps : (w : W) (q p : String) → p ≢ q → Keeps w p (os.remove w q).0
