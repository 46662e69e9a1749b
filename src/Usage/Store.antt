-- ===== src/Usage/Store.antt =====
-- internal/usage/usage.go: the store of records and its file. A method is one step on the store and the
-- file system; `os` is the operating system, `encode` is `json.Marshal`.
pub mod Durable
pub mod Reload
pub mod Reopened
use free_model_router.Files.{
  Os, Bytes, Called, OsError, failure, not_exist, and_then, installed, install, backup_name,
}
use free_model_router.Usage.{RequestRecord, Query, normalize_record, matches}
use free_model_router.Usage.Retention.{prune_records, prune_changes, max_bytes}
use free_model_router.Prelude.Int.{ℤ, pos, negsuc, ltb_ℤ, to_ℕ, is_positive}
use free_model_router.Prelude.{
  ℕ, zero, suc, ◌+◌, ◌-◌, ◌*◌, ◌/◌, ◌%◌, ◌^◌, ◌≤◌, ◌<◌, String, ◌≡◌, refl, sym, ap, ◌∙◌, ◌≢◌, ◌↔◌,
  ◌⊎◌, inl, inr, Bool, true, false, not, ◌&&◌, ◌||◌, Option, none, some, List, [], ◌∷◌, ◌++◌, arith,
  ltb, leb, ◌==◌, if◌then◌else◌, Bool-cases, Option-cases, &&_iff, bool_ext, Result, ok, err,
  Result-cases, length, All, length-append, All-append, In, In-append_left, In-append_right,
  In-append_cases, All-In,
}
use free_model_router.Prelude.Text.{str_eq}

-- What the store keeps; `published` is what it handed to the event hub, in order.
pub record Store : Type 0 where
  pub path : String
  pub records : List RequestRecord
  pub closed : Bool
  pub published : List RequestRecord

-- `NewMemory`
abbrev pub new_memory : Store
new_memory = record { path = ""; records = []; closed = false; published = [] }

abbrev pub with_line : Option Bytes → Bytes → Bytes
with_line none rest = rest
with_line (some line) rest = line ++ b'\n' ∷ rest

-- `encodedLocked`: a record that cannot be encoded is left out.
unfoldable pub encoded : (RequestRecord → Option Bytes) → List RequestRecord → Bytes
encoded encode [] = []
encoded encode (r ∷ rs) = with_line (encode r) (encoded encode rs)

-- The loop of `List`, from the last record to the first.
unfoldable pub newest_first :
    (String → String → Bool) → Query → List RequestRecord → List RequestRecord
newest_first equal_fold q [] = []
newest_first equal_fold q (r ∷ rs) =
    let later = newest_first equal_fold q rs in
    if matches equal_fold r q then later ++ r ∷ [] else later

unfoldable pub drop : ℕ → List RequestRecord → List RequestRecord
drop n [] = []
drop n (r ∷ rs) = if n == 0 then r ∷ rs else drop (n - 1) rs

unfoldable pub take : ℕ → List RequestRecord → List RequestRecord
take n [] = []
take n (r ∷ rs) = let rest = take (n - 1) rs in if n == 0 then [] else r ∷ rest

-- The page of a result that a query asks for.
unfoldable pub page : Query → List RequestRecord → List RequestRecord
unfolding drop take
page q result =
    if leb (length result) (to_ℕ q.offset)
    then []
    else let shown = drop (to_ℕ q.offset) result in
      if is_positive q.limit && ltb (to_ℕ q.limit) (length shown)
      then take (to_ℕ q.limit) shown
      else shown

-- `List`
unfoldable pub list : (String → String → Bool) → Store → Query → Result (List RequestRecord)
unfolding newest_first page
list equal_fold s q =
    if s.closed
    then err "usage store is closed"
    else if ltb_ℤ q.offset (pos 0) || ltb_ℤ q.limit (pos 0)
    then err "usage query offset and limit must not be negative"
    else ok (page q (newest_first equal_fold q s.records))

-- `Close`
unfoldable pub close_store : Store → Store
close_store s = record s { closed = true }

module _ {W : Type 0} (os : Os W) (encode : RequestRecord → Option Bytes) where
  abbrev pub moved_aside : String → String → Called W → Called W
  moved_aside temp target (w, none) = installed os true target (os.rename w temp target)
  moved_aside temp target (w, some e) = (w, some e)

  abbrev pub renamed : String → String → Called W → Called W
  renamed temp target (w, none) = (w, none)
  renamed temp target (w, some e) =
      moved_aside temp target
        (os.rename (os.remove w (backup_name target)).0 target (backup_name target))

  -- `replaceUsageFile`, which unlike `replaceFile` gives up where there is no target
  unfoldable pub replace_usage_file : W → String → String → Called W
  replace_usage_file w temp target = renamed temp target (os.rename w temp target)

  -- `persistLocked`, of a store that holds these records
  unfoldable pub persist : W → String → List RequestRecord → Called W
  unfolding replace_usage_file encoded
  persist w path records =
      if str_eq path ""
      then (w, none)
      else and_then os (os.mkdir_all w (os.dir path)) (λ w1.
        and_then os (os.chmod w1 (os.dir path))
          (λ w2. install os replace_usage_file ".fmr-usage-*.tmp" w2 (encoded encode records) path))

  abbrev pub appended : Store → List RequestRecord → RequestRecord → Called W → Store × Called W
  appended s records r (w, some e) = (s, (w, some e))
  appended s records r (w, none) =
      (record s { records = records; published = s.published ++ r ∷ [] }, (w, none))

  abbrev pub append_encoded : Store → W → RequestRecord → ℕ → Option Bytes → Store × Called W
  append_encoded s w r now none = (s, (w, some (failure "encode usage record")))
  append_encoded s w r now (some line) =
      if ltb max_bytes (length line)
      then (s, (w, some (failure "usage record exceeds retention size")))
      else let kept = prune_records encode now (s.records ++ r ∷ []) in
        appended s kept r (persist w s.path kept)

  -- `Append`, with the id that a record without one gets
  unfoldable pub append_record : Store → W → String → ℕ → RequestRecord → Store × Called W
  unfolding persist normalize_record
  append_record s w fresh_id now r =
      if s.closed
      then (s, (w, some (failure "usage store is closed")))
      else let normalized = normalize_record fresh_id r now in
        append_encoded s w normalized now (encode normalized)

  -- `Prune` at a given time, or at the clock's where none is given; the pruned records stay in memory
  -- even where they cannot be written.
  unfoldable pub prune : Store → W → ℕ → ℕ → Store × Called W
  unfolding persist
  prune s w given clock =
      let now = if given == 0 then clock else given in
      let kept = prune_records encode now s.records in
      if s.closed then (s, (w, some (failure "usage store is closed"))) else (
        record s { records = kept },
        if prune_changes encode now s.records then persist w s.path kept else (w, none),
      )
