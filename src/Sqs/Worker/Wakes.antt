-- ===== src/Sqs/Worker/Wakes.antt =====
-- The timer of the worker of core/internal/resources/sqs/application/worker.go, and when messages
-- become visible.
use mildstack.Sqs.Service.{Service}
