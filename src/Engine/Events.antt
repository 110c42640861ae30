-- ===== src/Engine/Events.antt =====
-- internal/engine/event_handler.go: `EventHandlerChain`. A handler is what it does to the world and
-- whether it fails; the chain calls each in turn and goes on after a failure.
use matchengine.Prelude.{Bool, ◌≡◌, refl, List, [], ◌∷◌, ◌++◌}
use matchengine.Engine.Process.{Event}

-- `OnTrade` and `OnOrderUpdate` of one handler, on the world `W`; true is an error.
abbrev pub EventHandler : Type 0 → Type 0 → Type 0
EventHandler A W = Event A → W → Bool × W

module _ {A W : Type 0} where
  -- The error is dropped, and the chain itself returns nil.
  unfoldable pub notify_chain : List (EventHandler A W) → Event A → W → W
  notify_chain [] e w = w
  notify_chain (h ∷ hs) e w = notify_chain hs e (h e w).1

  pub notify_chain-append :
      (hs ks : List (EventHandler A W)) (e : Event A) (w : W)
      → notify_chain (hs ++ ks) e w ≡ notify_chain ks e (notify_chain hs e w)
  unfolding notify_chain
  notify_chain-append [] ks e w = refl
  notify_chain-append (h ∷ hs) ks e w = notify_chain-append hs ks e (h e w).1
