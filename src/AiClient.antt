-- ===== src/AiClient.antt =====
-- internal/adapter/ai/real/client.go: the client of the AI providers. The children are its parts: the
-- keys and blocks of the accounts, the spacing of calls, the choice of a model, the switching between
-- models and providers, the refusal tests, and the reader of streamed answers.
pub mod Accounts
pub mod Pacing
pub mod Selection
pub mod Refusals
pub mod Switching
pub mod Providers
pub mod Requests
pub mod GroqRequests
