-- ===== src/Examples/Slots.antt =====
-- The health manager at concrete inputs.
use free_model_router.Prelude.Dict.{lookup}
use free_model_router.Prelude.Text.{str_discrete}
use free_model_router.Prelude.{◌≡◌, refl, false, [], ◌∷◌, arith, ltb, if◌then◌else◌}
use free_model_router.Health.{
  available, Acquire, acquire_round, Manager, set_provider_cap, new_manager, has_room, acquired,
  provider_cap, state_of, flying, notify, change_channel, waits,
}
use free_model_router.Health.Slots.{System, Reach, start, Inv, next, here, set_cap, acquire, count}
use free_model_router.Health.Cooldown.{handle_all, fails, succeeds, available-handle_all}
use free_model_router.Health.Slots.Safety.{Reach-Inv, acquire_round-held}
use free_model_router.Prelude.Int.{pos, suc_int64}
use free_model_router.Prelude.Dict.{assign}

available-handle_all_example :
    available
      (handle_all new_manager
        (fails "oc::pickle" (pos 0) 5 ∷ fails "xai::grok" (pos 3) 6 ∷ succeeds "xai::grok" ∷ []))
      "oc::pickle"
      9
    ≡ false
unfolding str_discrete state_of lookup
available-handle_all_example =
    available-handle_all new_manager "oc::pickle"
      (fails "oc::pickle" (pos 0) 5 ∷ fails "xai::grok" (pos 3) 6 ∷ succeeds "xai::grok" ∷ []) 9

abbrev capped : System
capped = record start { manager = set_provider_cap new_manager "oc" (pos 2) }

capped-Reach : Reach start capped
capped-Reach = next here (set_cap "oc" (pos 2) refl)

abbrev manager_after : Acquire → Manager
manager_after (acquired m) = m
manager_after _ = new_manager

abbrev one_held : System
one_held = record capped {
  manager = manager_after (acquire_round capped.manager false "oc");
  held = "oc" ∷ [];
}

one_held-Reach : Reach start one_held
unfolding acquire_round set_provider_cap has_room provider_cap flying notify change_channel lookup
    assign str_discrete
one_held-Reach =
    next capped-Reach (
      acquire "oc" (manager_after (acquire_round capped.manager false "oc")) (omega arith) refl
        refl)

Reach-Inv_example : Inv one_held
Reach-Inv_example = Reach-Inv one_held one_held-Reach

acquire_round-held_example : acquire_round one_held.manager false "oc" ≡ (
    if ltb (count "oc" one_held.held) 2
    then acquired (record one_held.manager {
      in_flight =
          assign "oc" (suc_int64 (pos (count "oc" one_held.held))) one_held.manager.in_flight;
    })
    else waits (change_channel one_held.manager "oc").0 (change_channel one_held.manager "oc").1)
unfolding acquire_round set_provider_cap has_room provider_cap flying notify change_channel lookup
    assign str_discrete
acquire_round-held_example = acquire_round-held one_held "oc" 1 one_held-Reach refl
