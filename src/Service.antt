-- ===== src/Service.antt =====
-- pkg/pipeline/service/pipeline_service.go: the state machine of a pair.
pub mod State
pub mod Stages
pub mod Process
pub mod Recovery
pub mod Refinement
pub mod Isolation
pub mod Progress
pub mod Opening
pub mod Branches
pub mod Turn
pub mod Once
pub mod Endings
pub mod Contexts
pub mod Consistency
pub mod Interleaving
pub mod Neighbour
pub mod Restart
pub mod Races
