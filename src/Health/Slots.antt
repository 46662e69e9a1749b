-- ===== src/Health/Slots.antt =====
-- The concurrency slots under any interleaving of requests: how many are held, and who waits.
pub mod Counts
pub mod Safety
use free_model_router.Prelude.{
  ℕ, suc, ◌<◌, ◌≡◌, Bool, true, false, String, some, List, [], ◌∷◌, ◌++◌, if◌then◌else◌, ◌==◌, In,
  length,
}
use free_model_router.Prelude.Int.{ℤ, pos, max_int64}
use free_model_router.Prelude.Text.{str_eq}
use free_model_router.Prelude.Dict.{lookup}
use free_model_router.Health.{
  Manager, new_manager, flying, has_room, set_provider_cap, acquired, waits, acquire_round,
  release_slot,
}

-- The manager; the provider of each slot that was acquired and not yet released (a release function
-- acts at its first call only); and each caller that waits, with its provider and its channel.
pub record System : Type 0 where
  pub manager : Manager
  pub held : List String
  pub waiting : List (String × ℕ)

-- A request may do one thing at a time under the lock, in any order with the others. The bound on
-- the slots held is the range of `int`.
pub data Step (s t : System) : Type 0 where
  set_cap :
      (p : String) (n : ℤ) → t ≡ record s { manager = set_provider_cap s.manager p n } → Step s t
  acquire :
      (p : String) (m : Manager)
      → length s.held < max_int64
      → acquire_round s.manager false p ≡ acquired m
      → t ≡ record s { manager = m; held = p ∷ s.held }
      → Step s t
  wait :
      (p : String) (m : Manager) (ch : ℕ)
      → acquire_round s.manager false p ≡ waits m ch
      → t ≡ record s { manager = m; waiting = (p, ch) ∷ s.waiting }
      → Step s t
  release :
      (p : String) (before after : List String)
      → s.held ≡ before ++ p ∷ after
      → t ≡ record s { manager = release_slot s.manager p; held = before ++ after }
      → Step s t
  leave :
      (w : String × ℕ) (before after : List (String × ℕ))
      → s.waiting ≡ before ++ w ∷ after
      → t ≡ record s { waiting = before ++ after }
      → Step s t

pub data Reach (s : System) : System → Type 0 where
  here : Reach s s
  next : {t u : System} → Reach s t → Step t u → Reach s u

abbrev pub start : System
start = record { manager = new_manager; held = []; waiting = [] }

abbrev pub count : String → List String → ℕ
count p [] = 0
count p (x ∷ xs) = let rest = count p xs in if str_eq x p then suc rest else rest

-- `close` was called on the channel.
abbrev pub is_closed : List ℕ → ℕ → Bool
is_closed [] ch = false
is_closed (c ∷ cs) ch = if c == ch then true else is_closed cs ch

-- A caller that waits on a channel still open waits on its provider's current channel, and its
-- provider has no slot to give.
abbrev pub IsBlocked : Manager → String × ℕ → Type 0
IsBlocked m (p, ch) =
    is_closed m.closed ch ≡ false → (lookup p m.changed ≡ some ch) × (has_room m p ≡ false)

pub record Inv (s : System) : Type 0 where
  pub counted : (p : String) → flying s.manager p ≡ pos (count p s.held)
  pub blocked : (w : String × ℕ) → In w s.waiting → IsBlocked s.manager w
