-- ===== src/Server/Safety/History.antt =====
-- The states that a server reaches by the messages that it handles and by the steps of the worker's
-- thread of its process between them.
use activebsp.Base.{◌≡◌, refl, List, ◌∷◌, some, ok}
use activebsp.Store.Futures.{take_key}
use activebsp.Server.State.{Server, Request, IntraComm, set_intra_actor_comm}
use activebsp.Server.Fetch.{DvCodec}
use activebsp.Server.Route.{Incoming, handle}
use activebsp.Server.Safety.{IsSafe, Same-IsSafe}
use activebsp.Server.Safety.Messages.{IsProper, route_message-IsSafe}

-- One step: a proper message, the worker's thread that sets the communicator of the actor, takes the
-- next request from its queue, or takes a key.
pub data Step (codec : DvCodec) (s : Server) : Server → Type 0 where
  handles :
      (m : Incoming) {t : Server}
      → IsProper codec m.gathered m.heard s m.message
      → handle codec s m ≡ ok t
      → Step codec s t
  sets_comm : (comm : IntraComm) → Step codec s (set_intra_actor_comm s comm)
  takes_request :
      (req : Request) (queue : List Request)
      → s.worker ≡ some (req ∷ queue)
      → Step codec s (record s { worker = some queue })
  takes_key : Step codec s (record s { next_key = (take_key s.next_key).1 })

pub data Reaches (codec : DvCodec) (s : Server) : Server → Type 0 where
  here : Reaches codec s s
  next : {t u : Server} → Reaches codec s t → Step codec t u → Reaches codec s u

module _ (codec : DvCodec) where
  Step-IsSafe : {s t : Server} → Step codec s t → IsSafe s → IsSafe t
  unfolding handle set_intra_actor_comm
  Step-IsSafe {s = s} (handles m p h) v =
      route_message-IsSafe codec m.gathered m.heard s m.src m.message v p h
  Step-IsSafe {s = s} {t = t} (sets_comm comm) v = Same-IsSafe s t (refl, refl) v
  Step-IsSafe {s = s} {t = t} (takes_request req queue e) v = Same-IsSafe s t (refl, refl) v
  Step-IsSafe {s = s} {t = t} (takes_key) v = Same-IsSafe s t (refl, refl) v

  -- A server that has its store valid and its mutex free keeps them so whatever history of proper
  -- messages and steps of the worker's thread it goes through. A message is proper if the ranges that
  -- it asks for lie in their parts, of fewer than 2 ^ 31 bytes, as far as these are available when it
  -- is handled, and if the chunk that it brings ends below 2 ^ 64.
  pub Reaches-IsSafe : {s t : Server} → Reaches codec s t → IsSafe s → IsSafe t
  Reaches-IsSafe here v = v
  Reaches-IsSafe (next before step) v = Step-IsSafe step (Reaches-IsSafe before v)
