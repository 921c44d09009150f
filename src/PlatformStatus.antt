-- ===== src/PlatformStatus.antt =====
-- wolk/service/platform_status/PlatformStatusService.{h,cpp}.
use wolk_connect_task.Prelude.{ℕ, Option, none, some, List, [], ◌∷◌, ◌++◌}

-- `PlatformStatusProtocol`; `Status` stands for the enumeration of the SDK.
pub record PlatformStatusProtocol (Wire Status : Type 0) : Type 0 where
  pub parse_platform_status_message : Wire → Option Status

-- The command buffer holds the statuses that wait, and `heard` those that the listener got.
pub record PlatformStatusService (Status : Type 0) : Type 0 where
  pub listener : Option ℕ
  pub command_buffer : List Status
  pub heard : List (ℕ × Status)

unfoldable pub message_received :
    {Wire Status : Type 0}
    → PlatformStatusProtocol Wire Status
    → Wire
    → PlatformStatusService Status
    → PlatformStatusService Status
message_received protocol wire s = elim (protocol.parse_platform_status_message wire) [
  | none ↦ s
  | some parsed ↦ elim s.listener [
    | none ↦ s
    | some listener ↦ record s { command_buffer = s.command_buffer ++ parsed ∷ [] }
  ]
]

-- The buffer runs its oldest command.
unfoldable pub run_next :
    {Status : Type 0} → PlatformStatusService Status → PlatformStatusService Status
run_next s = elim s.listener [
  | none ↦ s
  | some listener ↦ elim s.command_buffer [
    | [] ↦ s
    | parsed ∷ rest ↦ record s { command_buffer = rest; heard = s.heard ++ (listener, parsed) ∷ [] }
  ]
]
