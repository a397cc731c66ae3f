-- ===== src/Procedure/Report.antt =====
-- src/procedure/report.ts (ReportProcedure): the repeated sending of a report, and the bytes in it.
-- Timestamps, memory and load are left out.
use distributed_rpc_js.Common.{
  ℕ, zero, suc, ◌+◌, ◌^◌, ◌≤◌, ◌<◌, ◌⊎◌, ◌≡◌, Bool, true, false, ◌&&◌, ◌||◌, Option, none, some,
  List, [], ◌∷◌, if◌then◌else◌, ltb, leb, arith,
}
use distributed_rpc_js.Network.Server.{TcpServer}
use distributed_rpc_js.Network.Client.{TcpClient}

-- A task of the map `tasks`.
pub data Task : Type 0 where
  server : TcpServer → Task
  client : TcpClient → Task
  other : Task

-- What comes of an ask and of its promise, which may never settle.
pub data Ask : Type 0 where
  succeeds refused unsettled : Ask

abbrev pub is_success : Ask → Bool
is_success succeeds = true
is_success refused = false
is_success unsettled = false

-- What `execute` gives, and how many times it has asked.
pub record Sent : Type 0 where
  pub success : Bool
  pub asked : ℕ

-- The loop of `execute` from one value of `attempt` on: `asks k` is the ask at that value. `none` is
-- a loop that has used up the fuel, or that waits for ever.
unfoldable pub report_loop : (ℕ → Ask) → ℕ → ℕ → ℕ → Option Sent
report_loop asks max_retries zero attempt = none
report_loop asks max_retries (suc fuel) attempt =
    let rest = report_loop asks max_retries fuel (attempt + 1) in
    if leb attempt max_retries
    then elim (asks attempt) [
      | succeeds ↦ some (record { success = true; asked = attempt + 1 })
      | refused ↦
          if ltb max_retries (attempt + 1)
          then some (record { success = false; asked = attempt + 1 })
          else rest
      | unsettled ↦ none
    ]
    else some (record { success = false; asked = attempt })

-- `reportConfig?.max_retries ?? 3`
abbrev pub retries_or_default : Option ℕ → ℕ
retries_or_default none = 3
retries_or_default (some n) = n

abbrev pub is_client : Option Task → Bool
is_client (some (client c)) = true
is_client (some (server s)) = false
is_client (some other) = false
is_client none = false

-- `execute`, with the task of the manager; without a client of it nothing is sent.
unfoldable pub execute_report : (ℕ → Ask) → Option ℕ → ℕ → Option Task → Option Sent
execute_report asks max_retries fuel task =
    if is_client task
    then report_loop asks (retries_or_default max_retries) fuel 0
    else some (record { success = true; asked = 0 })

-- The sums of `_collectReportData`.
unfoldable pub total_tx_bytes : List Task → ℕ
total_tx_bytes [] = 0
total_tx_bytes (server s ∷ tasks) = s.tx_bytes + total_tx_bytes tasks
total_tx_bytes (client c ∷ tasks) = c.tx_bytes + total_tx_bytes tasks
total_tx_bytes (other ∷ tasks) = total_tx_bytes tasks

unfoldable pub total_rx_bytes : List Task → ℕ
total_rx_bytes [] = 0
total_rx_bytes (server s ∷ tasks) = s.rx_bytes + total_rx_bytes tasks
total_rx_bytes (client c ∷ tasks) = c.rx_bytes + total_rx_bytes tasks
total_rx_bytes (other ∷ tasks) = total_rx_bytes tasks

-- The loop of `_formatBytes`, from one value of `unitIndex` on: `size` is bytes / 1024 ^ unitIndex,
-- which a floating-point number holds without rounding. The list of units has a length of 4.
unfoldable pub scale : ℕ → ℕ → ℕ → ℕ
scale bytes zero unit_index = unit_index
scale bytes (suc fuel) unit_index =
    let rest = scale bytes fuel (unit_index + 1) in
    if leb (1024 ^ (unit_index + 1)) bytes && ltb unit_index 3 then rest else unit_index

-- `_formatBytes`: the unit, by its index among B, KB, MB and GB.
unfoldable pub unit_of_bytes : ℕ → ℕ
unit_of_bytes bytes = scale bytes 4 0

-- Whether one of the next asks succeeds, and how many are made until then.
unfoldable pub any_ask : (ℕ → Ask) → ℕ → ℕ → Bool
any_ask asks attempt zero = false
any_ask asks attempt (suc left) = is_success (asks attempt) || any_ask asks (attempt + 1) left

unfoldable pub asks_made : (ℕ → Ask) → ℕ → ℕ → ℕ
asks_made asks attempt zero = 0
asks_made asks attempt (suc left) =
    let rest = asks_made asks (attempt + 1) left in
    if is_success (asks attempt) then 1 else 1 + rest

-- The unit is the largest that is not above the bytes.
pub unit_of_bytes-bounds :
    (bytes : ℕ)
    → let i = unit_of_bytes bytes in
      (i ≤ 3) × ((i ≡ 0) ⊎ (1024 ^ i ≤ bytes)) × ((i ≡ 3) ⊎ (bytes < 1024 ^ (i + 1)))
unfolding unit_of_bytes scale
unit_of_bytes-bounds bytes = ground arith
