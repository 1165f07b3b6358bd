-- ===== src/Tests.antt =====
-- Runs of the theorems on concrete inputs.
mod Fixtures
mod Server
mod Source
mod Conditions
mod World
mod Mode
mod Sink
mod Overrides
mod Poll
mod Stream
mod Run
mod Admission
mod Admitted
mod Api
mod DeepCopy
mod Environment
mod Process
mod Controller
mod Injection
mod Informers
mod WebhookLib
mod Webhook
mod Running
mod Wiring
mod Watches
mod Clients
