-- ===== src/Ejson/Shell.antt =====
-- What a request may change, whatever driver and connection there is.
use ta2mongo.Prelude.{◌≡◌, Bool, false, ◌&&◌, ◌||◌, Option, none, some, is_some, ◌==◌}
use ta2mongo.Value.{Fields}
use ta2mongo.Ejson.{Request, Options, Target, Driver, find_one, find}

-- The request asks for a write and carries what the write needs. An aggregation may write by its
-- last stage.
abbrev pub may_write : Request → Bool
may_write req =
    (req.action == "insertOne" && is_some req.document)
    || ((req.action == "updateOne" && is_some req.update)
        || (req.action == "deleteOne" || req.action == "aggregate"))

abbrev pub may_write_request : Option Request → Bool
may_write_request none = false
may_write_request (some req) = may_write req

-- The queries of the driver, and reading a cursor, leave the stored data alone.
pub record Reads {E Cursor W D : Type 0} (driver : Driver E Cursor W) (stored : W → D)
    : Type 0 where
  pub find_one_reads :
      (target : Target) (filter : Fields) (options : Options) (w : W)
      → stored (driver.find_one target filter options w).1 ≡ stored w
  pub find_reads :
      (target : Target) (filter : Fields) (options : Options) (w : W)
      → stored (driver.find target filter options w).1 ≡ stored w
  pub all_reads : (cursor : Cursor) (w : W) → stored (driver.all cursor w).1 ≡ stored w
