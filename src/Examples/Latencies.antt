-- ===== src/Examples/Latencies.antt =====
-- The latencies at concrete inputs, with whole milliseconds in place of floats.
use free_model_router.Prelude.Text.{str_discrete}
use free_model_router.Latency.{fresh_ttft}
use free_model_router.Latency.Fresh.{
  Event, begins, probed, failed, requested, handle_all, fresh_ttft-handle_all,
}
use free_model_router.Prelude.{ℕ, ◌+◌, ◌*◌, ◌/◌, ◌≡◌, Bool, some, List, [], ◌∷◌, ltb}
use free_model_router.Prelude.Int.{pos}

abbrev mix : ℕ → ℕ → ℕ
mix sample old = (sample + 3 * old) / 4

abbrev is_known : ℕ → Bool
is_known ms = ltb 0 ms

abbrev events : List (Event ℕ)
events =
    begins "oc::pickle" 1
    ∷ probed "oc::pickle" 80 2
    ∷ probed "xai::grok" 10 3
    ∷ failed "oc::pickle" "timeout"
    ∷ probed "oc::pickle" 40 5
    ∷ requested "oc::pickle" 0 90 6
    ∷ []

fresh_ttft-handle_all_example :
    fresh_ttft 0 mix is_known (handle_all 0 mix is_known [] events) "oc::pickle" 9 (pos 4) ≡ some 70
unfolding str_discrete
fresh_ttft-handle_all_example = fresh_ttft-handle_all 0 mix is_known events "oc::pickle" 9 (pos 4)
