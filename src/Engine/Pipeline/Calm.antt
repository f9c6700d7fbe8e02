-- ===== src/Engine/Pipeline/Calm.antt =====
-- Services that raise nothing but what app/engine/pipeline.py handles.
use avvalo.Prelude.{ℕ, String, List, some, ◌≡◌}
use avvalo.Raises.{Raises, ok, raised}
use avvalo.Engine.Pipeline.Types.{Outcome, OcrFailure, OcrResult, Provider, Services}

-- A value, or a failure that the pipeline handles.
unfoldable pub IsHandled : {E A : Type 0} → Outcome E A → Type 0
IsHandled (Outcome.crashed error) = ⊥
IsHandled _ = Unit

-- No service raises an unforeseen exception.
pub record IsCalm (services : Services) : Type 0 where
  pub provider :
      (attempt : ℕ) (system user : String) (most : ℕ)
      → IsHandled (services.provider attempt system user most)
  pub fallback :
      (f : Provider) (attempt : ℕ) (system user : String) (most : ℕ)
      → services.fallback_provider ≡ some f
      → IsHandled (f attempt system user most)
  pub decode_qr : (bytes : List ℕ) → IsHandled (services.decode_qr bytes)
  pub ocr :
      (f : List ℕ → Outcome OcrFailure OcrResult) (bytes : List ℕ)
      → services.ocr ≡ some f
      → IsHandled (f bytes)

unfoldable pub IsReturned : {A : Type 0} → Raises A → Type 0
IsReturned (ok a) = Unit
IsReturned (raised error) = ⊥
