-- ===== src/Scoring/Kept.antt =====
-- The last-known-good snapshot over a refresh that may fail anywhere.
use free_model_router.Files.{Os, Bytes, contents, Called, backup_name, no_file}
use free_model_router.Files.Laws.{OsLaws}
use free_model_router.Files.Replace.{IsRecoverable}
use free_model_router.Scoring.{Snapshot, validate}
use free_model_router.Scoring.Cache.{
  Cache, Resolution, source_cache, source_default, source_live, max_snapshot_bytes, resolve,
  resolve_checked, save, load, from_live, from_cache, if_valid,
}
use free_model_router.Prelude.{
  ltb, ◌<◌, ℕ, ◌≤◌, String, ◌≡◌, refl, ◌≢◌, ◌⊎◌, inl, inr, Bool, false, Option, none, some,
  Bool-cases, Result, ok, err, length, true, arith,
}
use free_model_router.Prelude.Text.{str_eq}
use free_model_router.Scoring.Saved.{
  load-oversized, Reads, IsSaved, load-contents, load-IsRecoverable, save-IsSaved,
}

ltb→lt : {n : ℕ} → ltb max_snapshot_bytes n ≡ true → max_snapshot_bytes < n
ltb→lt h = ground (arith, h)

not_over : (n : ℕ) → ltb max_snapshot_bytes n ≡ false → n ≤ max_snapshot_bytes
not_over n h = ground (arith, h)

module _ {F W : Type 0} (os : Os W) (laws : OsLaws os) (trim_space : String → String)
    (is_finite : F → Bool) (encode : Snapshot F → Option Bytes)
    (decode : Bytes → Option (Snapshot F)) where
  -- After a refresh the old snapshot is recoverable, or the file holds the one that the refresh took.
  abbrev IsKept : Bytes → String → Result (Snapshot F) → W × Resolution F → Type 0
  IsKept old path fetched (w, r) =
      (IsRecoverable os laws (contents old) path w
        × (r.source ≡ source_live → r.cache_error ≢ none))
      ⊎ ((b : Bytes) × (fetched ≡ ok r.snapshot)
          × (encode r.snapshot ≡ some b)
          × (validate trim_space is_finite r.snapshot ≡ ok tt)
          × (os.read_file w path ≡ contents b))

  from_live-IsKept :
      (old : Bytes) (path : String) (fetched : Result (Snapshot F)) (s : Snapshot F) (o : Called W)
      → fetched ≡ ok s
      → validate trim_space is_finite s ≡ ok tt
      → IsSaved os laws trim_space is_finite encode decode old path s o
      → IsKept old path fetched (from_live os trim_space is_finite encode decode s o)
  from_live-IsKept old path fetched s (w, none) f v h = inr (h.0, f, h.1, v, h.2)
  from_live-IsKept old path fetched s (w, some e) f v (inl h) = inl (h, λ _ k. cc)
  from_live-IsKept old path fetched s (w, some e) f v (inr h) = inr (h.0, f, h.1, v, h.2)

  from_cache-IsKept :
      (c : Cache) (old : Bytes) (fetched : Result (Snapshot F)) (now : ℕ) (e : Option String)
      (o : W × Result (Snapshot F))
      → IsRecoverable os laws (contents old) c.path o.0
      → IsKept old c.path fetched (from_cache os trim_space is_finite encode decode c now e o)
  from_cache-IsKept c old fetched now e (w, ok t) h = inl (h, λ k j. cc)
  from_cache-IsKept c old fetched now e (w, err x) h = inl (h, λ k j. cc)

  load-kept :
      (c : Cache) (old : Bytes) (w : W)
      → os.read_file w c.path ≡ contents old
      → os.read_file (load os trim_space is_finite encode decode c w).0 c.path ≡ contents old
  unfolding load
  load-kept c old w kept = elim (Bool-cases (str_eq (trim_space c.path) "")) [
    | inl h ↦ rw h kept
    | inr h ↦ rw (h, kept) kept
  ]

  offline-IsKept :
      (c : Cache) (old : Bytes) (fetched : Result (Snapshot F)) (w : W) (e : String) (now : ℕ)
      → os.read_file w c.path ≡ contents old
      → IsKept old c.path fetched
          (resolve_checked os trim_space is_finite encode decode c w now (err e))
  offline-IsKept c old fetched w e now kept =
      from_cache-IsKept c old fetched now (some e) (load os trim_space is_finite encode decode c w)
        (inl (load-kept c old w kept))

  if_valid-IsKept :
      (c : Cache) (old : Bytes) (w : W) (s : Snapshot F) (now : ℕ) (r : Result (Unit {0}))
      → validate trim_space is_finite s ≡ r
      → os.read_file w c.path ≡ contents old
      → IsKept old c.path (ok s) (
          resolve_checked os trim_space is_finite encode decode c w now
            (if_valid os trim_space is_finite encode decode s r))
  if_valid-IsKept c old w s now (ok u) v kept =
      from_live-IsKept old c.path (ok s) s (save os trim_space is_finite encode decode c w s) refl v
        (save-IsSaved os laws trim_space is_finite encode decode c old w s v kept)
  if_valid-IsKept c old w s now (err e) v kept = offline-IsKept c old (ok s) w e now kept

  resolve-IsKept :
      (c : Cache) (old : Bytes) (w : W) (fetched : Result (Snapshot F)) (now : ℕ)
      → os.read_file w c.path ≡ contents old
      → IsKept old c.path fetched (resolve os trim_space is_finite encode decode c w fetched now)
  unfolding resolve
  resolve-IsKept c old w (err e) now kept = offline-IsKept c old (err e) w e now kept
  resolve-IsKept c old w (ok s) now kept =
      if_valid-IsKept c old w s now (validate trim_space is_finite s) refl kept

  from_cache-ok :
      (c : Cache) (now : ℕ) (e : Option String) (o : W × Result (Snapshot F)) (s : Snapshot F)
      → o.1 ≡ ok s
      → let r = (from_cache os trim_space is_finite encode decode c now e o).1 in
        (r.source ≡ source_cache) × (r.snapshot ≡ s)
  from_cache-ok c now e (w, ok t) s h = (refl, cc)
  from_cache-ok c now e (w, err x) s h = cc

  from_cache-err :
      (c : Cache) (now : ℕ) (e : Option String) (o : W × Result (Snapshot F)) (x : String)
      → o.1 ≡ err x
      → (from_cache os trim_space is_finite encode decode c now e o).1.source ≡ source_default
  from_cache-err c now e (w, ok t) x h = cc
  from_cache-err c now e (w, err y) x h = refl

  -- What a refresh without the live source then gives.
  abbrev pub IsServed : Snapshot F → Resolution F → Resolution F → Type 0
  IsServed old first second =
      (second.source ≡ source_cache)
      × ((second.snapshot ≡ old) ⊎ (second.snapshot ≡ first.snapshot))
      × (first.source ≡ source_live → first.cache_error ≡ none → second.snapshot ≡ first.snapshot)

  -- The first refresh took a snapshot whose encoding is over the limit that a load has and a save has
  -- not, and the second gives the default.
  abbrev pub IsOversized : Result (Snapshot F) → Resolution F → Resolution F → Type 0
  IsOversized fetched first second =
      (b : Bytes) × (fetched ≡ ok first.snapshot)
      × (encode first.snapshot ≡ some b)
      × (max_snapshot_bytes < length b)
      × (second.source ≡ source_default)

  abbrev pub IsServedOrOversized :
      Snapshot F → Result (Snapshot F) → Resolution F → Resolution F → Type 0
  IsServedOrOversized old fetched first second =
      IsServed old first second ⊎ IsOversized fetched first second

  -- What `json` promises: the encoding of the fetched snapshot is read as that snapshot.
  abbrev pub IsCodec : Result (Snapshot F) → Type 0
  IsCodec fetched =
      (t : Snapshot F) (b : Bytes) → fetched ≡ ok t → encode t ≡ some b → decode b ≡ some t

  offline-IsServed :
      (c : Cache) (bytes : Bytes) (old : Snapshot F) (fetched : Result (Snapshot F))
      (first : W × Resolution F) (later : ℕ) (e : String)
      → str_eq (trim_space c.path) "" ≡ false
      → Reads os laws trim_space is_finite encode decode bytes old
      → IsCodec fetched
      → (os.read_file first.0 c.path ≡ no_file
          → (os.rename first.0 (backup_name c.path) c.path).1 ≡ none)
      → IsKept bytes c.path fetched first
      → IsServedOrOversized old fetched first.1
          (from_cache os trim_space is_finite encode decode c later
            (some e)
            (load os trim_space is_finite encode decode c first.0)).1
  offline-IsServed c bytes old fetched first later e named r codec works (inl h) =
      let seen = from_cache-ok c later (some e) _ old (
        load-IsRecoverable os laws trim_space is_finite encode decode c first.0 bytes old named r
          works h.0) in
      inl (seen.0, inl seen.1, λ live fine. absurd (h.1 live fine))
  offline-IsServed c bytes old fetched first later e named r codec works (inr h) =
      elim (Bool-cases (ltb max_snapshot_bytes (length h.0))) [
        | inl large ↦ inr (
          h.0,
          h.1,
          h.2,
          ltb→lt large,
          from_cache-err c later (some e) _ "snapshot exceeds its size" (
              load-oversized os laws trim_space is_finite encode decode c first.0 h.0 named large
                h.4),
        )
        | inr small ↦
            let seen = from_cache-ok c later (some e) _ first.1.snapshot (
              load-contents os laws trim_space is_finite encode decode c first.0 h.0
                first.1.snapshot named
                (record {
                  decodes = codec first.1.snapshot h.0 h.1 h.2;
                  small = not_over (length h.0) small;
                  valid = h.3;
                })
                h.4) in
            inl (seen.0, inr seen.1, λ live fine. seen.1)
      ]

  -- A cache that holds a good snapshot, a refresh in which anything may fail, the fetch, any call on
  -- the files or the program itself midway, and a later refresh without the live source that can move
  -- the backup back, where the encoding of a fetched snapshot is read as that snapshot. The later one
  -- serves the old snapshot or the one the first took, and the first one's where that was live and its
  -- save reported no error; only where the first took a snapshot whose encoding is larger than 16 MiB
  -- the later one serves the default.
  pub resolve-resolve :
      (c : Cache) (w : W) (bytes : Bytes) (old : Snapshot F) (fetched : Result (Snapshot F))
      (now later : ℕ) (e : String)
      → str_eq (trim_space c.path) "" ≡ false
      → Reads os laws trim_space is_finite encode decode bytes old
      → IsCodec fetched
      → os.read_file w c.path ≡ contents bytes
      → let first = resolve os trim_space is_finite encode decode c w fetched now in
        (os.read_file first.0 c.path ≡ no_file
          → (os.rename first.0 (backup_name c.path) c.path).1 ≡ none)
        → IsServedOrOversized old fetched first.1
            (resolve os trim_space is_finite encode decode c first.0 (err e) later).1
  unfolding resolve
  resolve-resolve c w bytes old fetched now later e named r codec kept works =
      offline-IsServed c bytes old fetched
        (resolve os trim_space is_finite encode decode c w fetched now) later e named r codec works
        (resolve-IsKept c bytes w fetched now kept)
