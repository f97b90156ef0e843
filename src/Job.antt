-- ===== src/Job.antt =====
-- The durable companion job (src/nova_voice/companion/jobs.py and its records in
-- src/nova_voice/durable/models.py).
pub mod Record
pub mod Attempts
pub mod Validators
pub mod Moves
pub mod Endings
pub mod History
pub mod Events
pub mod Identity
mod Redelivery
pub mod Settled
pub mod Validity
pub mod Ownership
pub mod Finish
mod Progress
mod Careful
pub mod Samples
mod Tests
