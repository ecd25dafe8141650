-- ===== src/MatchingService/Rollback.antt =====
-- services/matching-engine/kafka/consumer.go: the books after a create command, whether it is kept or
-- taken back by RestoreSymbol.
use tradesphere.Base.{ℕ, ◌≡◌, sym, inl, inr, some, List}
use mathlib.Core.Path.{subst}
use tradesphere.Int.{InInt64}
use tradesphere.Text.{Text}
use tradesphere.Model.{Order, OrderCommand, World, update_self}
use tradesphere.Engine.{MatchingEngine, allocate}
use tradesphere.Engine.Books.{HasValidBooks, process_order-HasValidBooks}
use tradesphere.Engine.Settled.{
  IsSettled, IsIteration, allocate-IsSettled, allocate-IsNewTo, rollback-HasValidBooks,
}
use tradesphere.MatchingService.Database.{Session, Host}
use tradesphere.MatchingService.Consumer.{process_create_command}
use tradesphere.MatchingService.Atomic.{process_create_command_atomic}
use tradesphere.MatchingService.Effect.{process_create_command_effect}

module _ (h : Host) (w : World) (range pick : List ℕ → List ℕ) where
  -- If the engine is settled (its books are valid and hold objects older than its next one, and each
  -- live order of its map rests in its book), the new order's quantities are int64, and the iterations
  -- of SnapshotSymbol visit only what the map has, then all books are valid after
  -- processCreateCommand, whether the command was there before, is kept, or is taken back by
  -- RestoreSymbol since a call of the database failed.
  pub process_create_command-HasValidBooks :
      (command : OrderCommand) (order : Order) (group : Text) (me : MatchingEngine) (s : Session)
      → IsIteration pick
      → IsSettled me
      → InInt64 order.quantity
      → InInt64 order.remaining_quantity
      → command.order ≡ some order
      → HasValidBooks (process_create_command h w range pick command group me s).1
  process_create_command-HasValidBooks command order group me s iteration settled whole left e =
      let me1 = allocate order me in
      let settled1 = allocate-IsSettled me order settled left in
      let fresh = allocate-IsNewTo me order settled left in
      let ranged =
        subst (λ x. InInt64 x.quantity) (sym (update_self me.store.cells me.next order)) whole in
      elim (process_create_command_atomic h w range pick command order group me s e) [
        | inl done ↦
            let kept =
              (process_create_command_effect h w range pick command order group me s e done).1 in
            subst HasValidBooks (sym kept)
              (process_order-HasValidBooks w range me.next me1 settled1.valid fresh ranged)
        | inr (_, inl same) ↦ subst HasValidBooks (sym same) settled1.valid
        | inr (_, inr back) ↦ subst HasValidBooks (sym back) (
            rollback-HasValidBooks w range pick me1 me.next settled1 iteration settled1.valid fresh
              ranged)
      ]
