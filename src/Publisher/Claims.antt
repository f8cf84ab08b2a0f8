-- ===== src/Publisher/Claims.antt =====
-- The claim under which a message is sent.
use novena_gateway.Common.{ℕ, ◌≡◌, String, true, List, [], ◌∷◌, ◌++◌}
use novena_gateway.Json.{Value, eq_value}
use novena_gateway.Storage.Buffer.{EventStorage}
use novena_gateway.Publisher.{Event, Wire, Publisher}
use novena_gateway.Publisher.Replay.{Flags}
use novena_gateway.Publisher.Run.{Op, replay_next}

-- Each event is of a claim that has the property.
abbrev pub AllOwn : (Value → Type 0) → List Event → Type 0
AllOwn Claim [] = Unit {0}
AllOwn Claim (e ∷ es) =
    ((claim : Value) × Claim claim × (eq_value e.claim_id claim ≡ true)) × AllOwn Claim es

-- The list of messages handed over grows, by messages of such claims only.
pub record Sends (Claim : Value → Type 0) (before after : List Event) : Type 0 where
  pub new : List Event
  pub grown : after ≡ before ++ new
  pub own : AllOwn Claim new

-- The claim of the publisher, and one that the loop of a replay reads.
abbrev pub Present : {S : Type 0} → Publisher S → Value → Type 0
Present s claim = claim ≡ s.claim_id

abbrev pub ReadIn : (ℕ → Flags) → Value → Type 0
ReadIn flags claim = (i : ℕ) × (claim ≡ (flags i).claim_id)

module _ {S : Type 0} (storage : EventStorage S String) (wire : Wire) where
  -- The claims that count for a step: those that its replay reads, or the present one.
  unfoldable pub ClaimOf : Op storage → Publisher S → Value → Type 0
  ClaimOf (replay_next flags) s = ReadIn flags
  ClaimOf _ s = Present s
