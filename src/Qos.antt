-- ===== src/Qos.antt =====
-- internal/qos/qos.go. State.antt holds the service and the stable class ids, Activity.antt the
-- sampling and the judgement of who is active, Plan.antt the classes that are wanted, Commands.antt
-- the tc and ip commands, Apply.antt their application and the control loop's round. The proofs
-- are in the other modules below.
pub mod State
pub mod Activity
pub mod Plan
pub mod Commands
pub mod Apply
pub mod Reconcile
pub mod Ids
pub mod Shares
pub mod Applied
pub mod Cleared
pub mod Rounds
pub mod Hysteresis
