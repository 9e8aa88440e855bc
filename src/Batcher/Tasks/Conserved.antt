-- ===== src/Batcher/Tasks/Conserved.antt =====
-- No operation that was pushed is lost before the sends, or sent by two flushes, however the tasks take
-- turns.
use tantylla.Base.{ℕ, ◌≡◌, refl, String, List, [], ◌∷◌, ◌++◌}
use tantylla.Base.Assoc.{lookup}
use tantylla.Indexer.{IndexOperation}
use tantylla.Batcher.Service.{World, Service, SendResult, ok, err, NodeBatches, Delivered, or_empty}
use tantylla.Batcher.Grouping.{operations_for}
use tantylla.Batcher.Tasks.{Caller, Task, answered, hands, System}

module _ (world : World) where
  open world use {State, try_send_batch}

  -- The operations for a node in the batches of several flushes.
  abbrev pub handed_to : String → List NodeBatches → List IndexOperation
  handed_to node [] = []
  handed_to node (batches ∷ rest) = or_empty (lookup node batches) ++ handed_to node rest

  -- For every node: the operations of what was pushed are those of the batches that the flushes went on to
  -- send, and those of what is in the buffer.
  abbrev pub IsConserved : System world → Type 0
  IsConserved y =
      (node : String)
      → operations_for world node y.pushed
        ≡ handed_to node y.handed ++ operations_for world node y.service.buffer

  -- What a step hands on and leaves, in one list.
  abbrev handed_and_left : String → Task → Task × Service × State → List IndexOperation
  handed_and_left node task r =
      handed_to node (hands world task r.0) ++ operations_for world node r.1.buffer

  pub answered-service :
      (caller : Caller) (node : String) (ops : List IndexOperation) (left attempt : ℕ)
      (batches : NodeBatches) (d : Delivered) (s : Service) (r : SendResult String) (w : State)
      → (answered world caller node ops left attempt batches d s r w).1 ≡ s
  unfolding answered
  answered-service caller node ops left attempt batches d s (ok response) w = refl
  answered-service caller node ops left attempt batches d s (err e) w = refl
