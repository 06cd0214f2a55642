-- ===== src/Core/Route/Correlated.antt =====
-- How an answer is correlated with the command that it answers.
use ferredge.Prelude.{◌≡◌, String, Option, none, some}
use ferredge.Core.Route.{Address, Correlation}

-- The command's own correlation; without one, the command's id and the resource it is aimed at.
abbrev pub IsCorrelated : String → String → Option Correlation → Option Correlation → Type 0
IsCorrelated id resource (some own) correlation = correlation ≡ some own
IsCorrelated id resource none correlation =
    correlation ≡ some (record { request_id = id; reply_to = some (Address.resource resource) })
