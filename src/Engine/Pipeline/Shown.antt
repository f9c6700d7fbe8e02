-- ===== src/Engine/Pipeline/Shown.antt =====
-- The fixed texts of a check.
use avvalo.Prelude.{◌≡◌, some}
use avvalo.Engine.Types.{CheckResult}
use avvalo.Engine.Format.Copy.{format_status_message, heading_fallback}

-- The text of a result is one of the fixed messages.
pub data IsFixed (r : CheckResult) : Type 0 where
  message : r.text ≡ some (format_status_message r.status r.language) → IsFixed r
  fallback : r.text ≡ some (heading_fallback r.language) → IsFixed r
