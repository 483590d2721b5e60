-- ===== src/Builder/Errors.antt =====
-- The errors that a builder collects.
use xlorm.Text.{Text}
use xlorm.Value.{Value}
use xlorm.Builder.{Builder}
