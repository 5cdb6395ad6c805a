-- ===== src/Cli/Commands/Inbox.antt =====
-- internal/cli/commands.go over internal/api/readmodel/crdsource: the printed blockers.
use keleustes.Base.{Bool, ◌&&◌, ◌||◌, Str, ◌==◌, []}
use keleustes.Api.Resources
use keleustes.Api.Resources.{phase_blocked}
use keleustes.Api.Wire

-- A promotion resource that blocks the promotion of an application to an environment.
abbrev pub is_blocking : (app to_env : Str) → Resources.Promotion → Bool
is_blocking app to_env p =
    p.application == app
    && (p.status.phase == phase_blocked && (to_env == [] || p.to_environment == to_env))
