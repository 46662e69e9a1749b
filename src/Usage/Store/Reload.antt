-- ===== src/Usage/Store/Reload.antt =====
-- internal/usage/usage.go: reading the file of the store. `decode` is `json.Unmarshal` and `trim` is
-- `strings.TrimSpace` on a line.
use free_model_router.Files.{Os, Bytes, FileRead, contents, no_file, unreadable, Called}
use free_model_router.Usage.{RequestRecord, normalize_record}
use free_model_router.Usage.Store.{Store, encoded, new_memory, persist}
use free_model_router.Usage.Retention.{prune_records, prune_changes, prune_records-same}
use free_model_router.Prelude.{
  ℕ, zero, suc, ◌≤◌, String, ◌≡◌, refl, inl, inr, Bool, true, false, Option, none, some, List, [],
  ◌∷◌, ◌++◌, arith, ◌==◌, if◌then◌else◌, Bool-cases, Result, ok, err, length, All, length-append,
  In,
}
use free_model_router.Prelude.Text.{str_eq}

-- `cutLine`: the line before the first newline, and what is behind it where there is one.
unfoldable pub cut_line : Bytes → Bytes × Option Bytes
cut_line [] = ([], none)
cut_line (b ∷ bs) =
    let rest = cut_line bs in if b == b'\n' then ([], some bs) else (b ∷ rest.0, rest.1)

abbrev pub is_blank : Bytes → Bool
is_blank [] = true
is_blank (b ∷ bs) = false

module _ (decode : Bytes → Option RequestRecord) (trim : Bytes → Bytes) where
  abbrev pub onto : Option RequestRecord → Result (List RequestRecord) → Result (List RequestRecord)
  onto none rest = err "usage log is corrupt"
  onto (some r) (ok rs) = ok (normalize_record "" r 0 ∷ rs)
  onto (some r) (err e) = err e

  abbrev pub on_line : Bytes → Result (List RequestRecord) → Result (List RequestRecord)
  on_line line rest = if is_blank line then rest else onto (decode line) rest

  abbrev pub on_rest :
      (Bytes → Result (List RequestRecord)) → Option Bytes → Result (List RequestRecord)
  on_rest k none = ok []
  on_rest k (some b) = k b

  -- `decodeJSONL`, with a bound on the number of lines.
  unfoldable pub decode_lines : ℕ → Bytes → Result (List RequestRecord)
  decode_lines zero bytes = ok []
  decode_lines (suc n) bytes =
      if is_blank bytes
      then ok []
      else on_line (trim (cut_line bytes).0) (on_rest (λ b. decode_lines n b) (cut_line bytes).1)

  -- `decodeJSONL`: a line takes a byte at least, so there are no more lines than bytes.
  unfoldable pub decode_jsonl : Bytes → Result (List RequestRecord)
  unfolding decode_lines
  decode_jsonl bytes = decode_lines (length bytes) bytes

  -- A line that reads back as the record it was written from.
  pub record ReadsBack (encode : RequestRecord → Option Bytes) (r : RequestRecord) : Type 0 where
    pub line : Bytes
    pub written : encode r ≡ some line
    pub one_line : In b'\n' line → ⊥
    pub trimmed : trim line ≡ line
    pub present : is_blank line ≡ false
    pub read : decode line ≡ some r
    pub normal : normalize_record "" r 0 ≡ r

  cut_line-append :
      (line rest : Bytes)
      → (In b'\n' line → ⊥)
      → cut_line (line ++ b'\n' ∷ rest) ≡ (line, some rest)
  unfolding cut_line
  cut_line-append [] rest h = refl
  cut_line-append (b ∷ line) rest h = elim (Bool-cases (b == b'\n')) [
    | inl e ↦ absurd (h (inl (ground arith)))
    | inr e ↦ rw (e, cut_line, cut_line-append line rest (λ i. h (inr i))) refl
  ]

  is_blank-append : (line : Bytes) (b : ℕ) (rest : Bytes) → is_blank (line ++ b ∷ rest) ≡ false
  is_blank-append [] b rest = refl
  is_blank-append (c ∷ line) b rest = refl

  length-encoded :
      (encode : RequestRecord → Option Bytes) (rs : List RequestRecord)
      → All (ReadsBack encode) rs
      → length rs ≤ length (encoded encode rs)
  unfolding encoded
  length-encoded encode [] h = omega arith
  length-encoded encode (r ∷ rs) h =
      rw (h.0.written, length-append h.0.line (b'\n' ∷ encoded encode rs))
        (omega (arith, length-encoded encode rs h.1))

  decode_lines-encoded :
      (encode : RequestRecord → Option Bytes) (n : ℕ) (rs : List RequestRecord)
      → All (ReadsBack encode) rs
      → length rs ≤ n
      → decode_lines n (encoded encode rs) ≡ ok rs
  unfolding decode_lines encoded
  decode_lines-encoded encode zero [] h k = refl
  decode_lines-encoded encode (suc n) [] h k = refl
  decode_lines-encoded encode zero (r ∷ rs) h k = ground (arith, k)
  decode_lines-encoded encode (suc n) (r ∷ rs) h k =
      let line = h.0.line in
      rw
        (
          h.0.written,
          is_blank-append line b'\n' (encoded encode rs),
          cut_line-append line (encoded encode rs) h.0.one_line,
          h.0.trimmed,
          h.0.present,
          h.0.read,
          decode_lines-encoded encode n rs h.1 (omega (arith, k)),
          h.0.normal,
        )
        refl

  -- Reading what was written.
  decode_jsonl-encoded :
      (encode : RequestRecord → Option Bytes) (rs : List RequestRecord)
      → All (ReadsBack encode) rs
      → decode_jsonl (encoded encode rs) ≡ ok rs
  unfolding decode_jsonl
  decode_jsonl-encoded encode rs h =
      decode_lines-encoded encode (length (encoded encode rs)) rs h (length-encoded encode rs h)

-- `New`, with the time at which it prunes
module _ {W : Type 0} (os : Os W) (encode : RequestRecord → Option Bytes)
    (decode : Bytes → Option RequestRecord) (trim : Bytes → Bytes) where
  abbrev pub opened : String → List RequestRecord → Store
  opened path records = record { path = path; records = records; closed = false; published = [] }

  abbrev pub after_persist : Store → Called W → W × Result Store
  after_persist s (w, none) = (w, ok s)
  after_persist s (w, some e) = (w, err "rewrite retained usage log")

  abbrev pub on_decoded : W → String → ℕ → Result (List RequestRecord) → W × Result Store
  on_decoded w path now (err e) = (w, err e)
  on_decoded w path now (ok rs) =
      let kept = prune_records encode now rs in
      if prune_changes encode now rs
      then after_persist (opened path kept) (persist os encode w path kept)
      else (w, ok (opened path kept))

  abbrev pub on_read : W → String → ℕ → FileRead → W × Result Store
  on_read w path now no_file = (w, ok (opened path []))
  on_read w path now (unreadable e) = (w, err "read usage log")
  on_read w path now (contents bytes) = on_decoded w path now (decode_jsonl decode trim bytes)

  unfoldable pub open_store : W → String → ℕ → W × Result Store
  unfolding decode_jsonl persist
  open_store w path now =
      if str_eq path "" then (w, ok new_memory) else on_read w path now (os.read_file w path)

  -- Opening a file that holds the encoding of records which read back, none of which is due to go.
  pub open_store-encoded :
      (w : W) (path : String) (now : ℕ) (rs : List RequestRecord)
      → str_eq path "" ≡ false
      → os.read_file w path ≡ contents (encoded encode rs)
      → All (ReadsBack decode trim encode) rs
      → prune_changes encode now rs ≡ false
      → open_store w path now ≡ (w, ok (opened path rs))
  unfolding open_store
  open_store-encoded w path now rs named kept h same =
      rw
        (
          named,
          kept,
          decode_jsonl-encoded decode trim encode rs h,
          same,
          prune_records-same encode now rs same,
        )
        refl
