-- ===== src/Web/Abuse/Capped.antt =====
-- How much of a body an application is handed.
use avvalo.Prelude.{
  ℕ, ◌+◌, ◌-◌, ◌≤◌, String, true, false, List, [], ◌∷◌, Option, ◌≡◌, refl, ap, arith,
}
use avvalo.Web.Abuse.{Message, App, and_then, run_app, run_limited, is_capped, is_over, call}

-- The bytes of the parts
abbrev pub total : List Message → ℕ
total [] = 0
total (Message.part bytes ∷ messages) = bytes + total messages
total (Message.other ∷ messages) = total messages

module _ (max_body_bytes : ℕ) where
  total-run_limited :
      (app : App) (messages : List Message) (received : ℕ)
      → total (run_limited max_body_bytes app messages received).0 ≤ max_body_bytes - received
  unfolding run_limited
  total-run_limited (App.answers text) messages received = omega arith
  total-run_limited App.lets_through messages received = omega arith
  total-run_limited (App.receives go caught) [] received = omega arith
  total-run_limited (App.receives go caught) (Message.other ∷ messages) received =
      total-run_limited (go Message.other) messages received
  total-run_limited (App.receives go caught) (Message.part bytes ∷ messages) received = ground (
    arith,
    total-run_limited caught messages (received + bytes),
    total-run_limited (go (Message.part bytes)) messages (received + bytes),
  )

  -- Whatever length is declared and whatever the application does with the refusal, it is handed at
  -- most the cap of a body by POST, PUT or PATCH.
  pub total-call :
      (kind method : String) (content_length : Option ℕ) (app : App) (messages : List Message)
      → is_capped max_body_bytes kind method ≡ true
      → total (call max_body_bytes kind method content_length app messages).0 ≤ max_body_bytes
  unfolding call
  total-call kind method content_length app messages h =
      ground (arith, total-run_limited app messages 0)

  run_limited-run_app :
      (app : App) (messages : List Message) (received : ℕ)
      → received + total messages ≤ max_body_bytes
      → run_limited max_body_bytes app messages received ≡ run_app app messages
  unfolding run_limited run_app
  run_limited-run_app (App.answers text) messages received h = refl
  run_limited-run_app App.lets_through messages received h = refl
  run_limited-run_app (App.receives go caught) [] received h = refl
  run_limited-run_app (App.receives go caught) (Message.other ∷ messages) received h =
      ap (and_then Message.other) (run_limited-run_app (go Message.other) messages received h)
  run_limited-run_app (App.receives go caught) (Message.part bytes ∷ messages) received h =
      ground (arith, run_limited-run_app (go (Message.part bytes)) messages (received + bytes))

  -- A request whose body is within the cap, as is its declared length, is answered as without the cap.
  call-run_app :
      (kind method : String) (content_length : Option ℕ) (app : App) (messages : List Message)
      → is_over max_body_bytes content_length ≡ false
      → total messages ≤ max_body_bytes
      → call max_body_bytes kind method content_length app messages ≡ run_app app messages
  unfolding call
  call-run_app kind method content_length app messages d h =
      ground (arith, run_limited-run_app app messages 0 (omega arith))
