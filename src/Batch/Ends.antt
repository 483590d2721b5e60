-- ===== src/Batch/Ends.antt =====
-- How a batch ends its transaction.
use xlorm.Text.{Text}
use xlorm.Value.{Value}
use xlorm.Row.{Row}
use xlorm.Transaction.Ends.{Ends}
use xlorm.Batch.Answered.{Answered}
