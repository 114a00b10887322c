-- ===== src/Requests/Tests.antt =====
-- Headers and errors as they come.
use split_bill_app.Prelude.{ℕ, ◌≡◌, ◌↔◌, refl, ◌∷◌, ◌++◌, none, some, length}
use split_bill_app.Effects.{Result, ok}
use split_bill_app.Metrics.Table.{Text, codes}
use split_bill_app.Requests.ErrorHandler.{Thrown, error_handler, error_handler_hides}
use split_bill_app.Requests.Headers.{trim, is_space, require_idempotency_key}
use split_bill_app.Requests.Headers.Laws.{IsKey, require_idempotency_key-eq-ok_iff}
use split_bill_app.Requests.Authenticate.{authenticate, authenticate-bearer}

-- An error of a client library that names a table.
abbrev table_missing : Thrown
table_missing = record {
  zod_issues = none;
  type = none;
  status = none;
  app_error = none;
  message = "relation \"User\" does not exist";
}

error_handler_hides_example :
    error_handler (some 5) (record table_missing { message = "timeout" })
    ≡ error_handler (some 5) table_missing
error_handler_hides_example = error_handler_hides (some 5) table_missing "timeout" refl

require_idempotency_key-eq-ok_iff_example :
    (require_idempotency_key (some (codes "  pay-2024.01 ")) ≡ ok (codes "pay-2024.01"))
    ↔ ((codes "pay-2024.01" ≡ trim (codes "  pay-2024.01 ")) × IsKey (codes "pay-2024.01"))
require_idempotency_key-eq-ok_iff_example =
    require_idempotency_key-eq-ok_iff (codes "  pay-2024.01 ") (codes "pay-2024.01")

-- The key is let through.
key_read : require_idempotency_key (some (codes "  pay-2024.01 ")) ≡ ok (codes "pay-2024.01")
unfolding require_idempotency_key is_space
key_read = refl

-- The user is the length of the token.
abbrev by_length : Text → Result ℕ
by_length token = ok (length token)

authenticate-bearer_example :
    authenticate by_length (some (codes "Bearer" ++ 32 ∷ codes "a.b.c")) ≡ ok 5
unfolding is_space
authenticate-bearer_example =
    authenticate-bearer by_length (codes "Bearer") (codes "a.b.c") refl refl refl refl
