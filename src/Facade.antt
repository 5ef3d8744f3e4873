-- ===== src/Facade.antt =====
-- sluice.go: the write that goes to the datastore when Redis refuses it. The write contract and the
-- sink's Write are the caller's.
pub mod Degraded
pub mod Idempotent
pub mod Builder
pub mod Old
pub mod Fresh
pub mod Types
pub mod Reads
pub mod Writes
pub mod Query
pub mod Close
pub mod Sweeper
pub mod Bulk
use sluice_go.Redis.{Redis}
use sluice_go.Shield.Calls.{Config}
use sluice_go.Shield.World.{World, Result, ok, err, Error}
use sluice_go.Shield.DeadLetters.{has_pending_version}
use sluice_go.Sink.{WriteModel}
use sluice_go.Engine.Types.{Contract}
use sluice_go.Prelude.{Bool, true, false, Option, none, some, Bytes}

-- unsafe: refused, with the error of the probe, if it failed; otherwise what the contract or the
-- sink made of it.
pub data DegradedResult (V : Type 0) : Type 0 where
  unsafe : Option Error → DegradedResult V
  contract_failed : DegradedResult V
  direct : WriteModel V → Bool → DegradedResult V

module _ {V : Type 0} (contract : Contract V) (write : WriteModel V → Bool) (ck : Bytes) where
  unfoldable pub write_direct : Option (WriteModel V) → DegradedResult V
  write_direct none = contract_failed
  write_direct (some wm) =
      let model : WriteModel V = record wm { correlation_key = ck } in direct model (write model)

  unfoldable pub after_probe : Bytes → Result Bool → DegradedResult V
  unfolding write_direct
  after_probe body (err e) = unsafe (some e)
  after_probe body (ok true) = unsafe none
  after_probe body (ok false) = write_direct (contract ck body)

  -- `degradedWrite`
  unfoldable pub degraded_write :
      (r : Redis) (c : Config) → Bytes → World r.State → DegradedResult V × World r.State
  unfolding after_probe has_pending_version
  degraded_write r c body w = let (o, w1) = has_pending_version r c ck w in (after_probe body o, w1)
