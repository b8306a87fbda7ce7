-- ===== src/Tests.antt =====
-- Concrete runs: each theorem that has hypotheses, where they hold.
mod Channel
mod Queues
mod Params
mod Streaming
mod Requests
mod Bodies
mod Live
mod Answers
mod Dispatch
mod Display
