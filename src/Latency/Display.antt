-- ===== src/Latency/Display.antt =====
-- `Snapshot` for the display, against `FreshTTFT` for the routing.
use free_model_router.Latency.{snapshot, fresh_ttft, value, Registry, Stats, view_of, fresh_of}
use free_model_router.Prelude.{ℕ, String, ◌≡◌, refl, Bool, Option, none, some, arith, if◌then◌else◌}
use free_model_router.Prelude.Int.{ℤ}
use free_model_router.Prelude.Dict.{lookup}

module _ {F : Type 0} (zero_ms : F) (mix : F → F → F) (is_known : F → Bool) where
  -- What the display shows as fresh is what the routing uses, and nothing else is: at any state of the
  -- registry, the value of a view marked fresh is the one that FreshTTFT returns, and where the view is
  -- not fresh it returns none.
  pub snapshot-fresh_ttft :
      (r : Registry F) (id : String) (now : ℕ) (max_age : ℤ)
      → let v = snapshot zero_ms mix is_known r id now max_age in
        (if v.fresh then v.value else none) ≡ fresh_ttft zero_ms mix is_known r id now max_age
  unfolding snapshot fresh_ttft value
  snapshot-fresh_ttft r id now max_age = go (lookup id r)
    where
      go :
          (o : Option (Stats F))
          → (let v = view_of zero_ms mix is_known now max_age o in
              (if v.fresh then v.value else none) ≡ fresh_of zero_ms mix is_known now max_age o)
      go none = refl
      go (some s) = ground arith
