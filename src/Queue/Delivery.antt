-- ===== src/Queue/Delivery.antt =====
-- What the replay of a queue promises: the events are delivered in their order, and one leaves the queue
-- only with a receipt.
use jenn_shooting_operations.Prelude.{
  ℕ, ◌+◌, ◌≡◌, ◌⊎◌, true, Option, none, some, List, [], ◌∷◌, ◌++◌, length,
}
use jenn_shooting_operations.Prelude.Results.{ok, err}
use jenn_shooting_operations.Json.{Json}
use jenn_shooting_operations.Queue.Values.{Protocol}
use jenn_shooting_operations.Queue.Responses.{Response, applied}
use jenn_shooting_operations.Queue.State.{State}
use jenn_shooting_operations.Queue.Storage.{Storage, load_state, commit_state}
use jenn_shooting_operations.Queue.Replay.{tail, Answer, Reply, returned, waits}

module _ (S : Storage) (p : Protocol) where
  -- What is committed over the state that was loaded, with its items or all but the first, is what is loaded
  -- next, and has the items that it was given.
  pub record IsLawful : Type 0 where
    pub commit_law :
        (store store' : S.Store) (base next s : State)
        → load_state S p store ≡ ok base
        → (next.items ≡ base.items) ⊎ (next.items ≡ tail base.items)
        → commit_state S p store base next ≡ (store', ok s)
        → (load_state S p store' ≡ ok s) × (s.items ≡ next.items)

  -- Nobody else changes what is loaded.
  abbrev pub IsQuiet : (S.Store → S.Store) → Type 0
  IsQuiet others = (store : S.Store) → load_state S p (others store) ≡ load_state S p store

  abbrev pub AllQuiet : List (Answer S p) → Type 0
  AllQuiet [] = Unit
  AllQuiet (a ∷ answers) = IsQuiet a.others × AllQuiet answers

  -- The response is a receipt of the item.
  abbrev pub Acknowledges : Option Response → Json → Type 0
  Acknowledges none item = ⊥
  Acknowledges (some r) item = applied p r item ≡ true

  -- The items are acknowledged by the first answers, each by its own.
  abbrev pub AllAcknowledged : List Json → List (Answer S p) → Type 0
  AllAcknowledged [] answers = Unit
  AllAcknowledged (item ∷ items) [] = ⊥
  AllAcknowledged (item ∷ items) (a ∷ answers) =
      Acknowledges a.response item × AllAcknowledged items answers

  -- The items are those that were acknowledged, and then those that are left. The number of the first is
  -- reported; where the answers ran out, all of them were receipts.
  abbrev pub IsDelivered : ℕ → List Json → List (Answer S p) → Reply S p → Type 0
  IsDelivered n items answers (returned (err f)) = ⊥
  IsDelivered n items answers (returned (ok o)) =
      (acknowledged : List Json) × (items ≡ acknowledged ++ o.state.items)
      × (o.processed ≡ n + length acknowledged)
      × AllAcknowledged acknowledged answers
  IsDelivered n items answers (waits head) =
      (acknowledged : List Json) × (rest : List Json) × (items ≡ acknowledged ++ head ∷ rest)
      × (length acknowledged ≡ length answers)
      × AllAcknowledged acknowledged answers
