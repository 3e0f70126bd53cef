-- ===== src/Tests.antt =====
-- Tests of the definitions at concrete inputs, and the theorems at inputs that meet their hypotheses.
mod Recovery
mod Actions
mod Controller
mod Reserve
mod Pressure
mod Joint
mod Store
mod Cooldowns
mod Outbox
mod Risk
mod Shedding
mod Revalidation
mod Notices
