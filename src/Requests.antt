-- ===== src/Requests.antt =====
-- What stands before and after the services in a request: backend/src/middleware/errorHandler.ts,
-- backend/src/middleware/authenticate.ts, backend/src/modules/idempotency/validate.ts and
-- backend/src/utils/requestId.ts.
pub mod ErrorHandler
pub mod Headers
pub mod Authenticate
mod Tests
