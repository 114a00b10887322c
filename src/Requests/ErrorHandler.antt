-- ===== src/Requests/ErrorHandler.antt =====
-- `errorHandler` and `notFoundHandler` (backend/src/middleware/errorHandler.ts): the one response to
-- an error.
use split_bill_app.Prelude.{
  ℕ, ◌≡◌, refl, List, Option, none, some, Bool, true, false, ◌==◌, ◌||◌, String, if◌then◌else◌,
  arith,
}
use split_bill_app.Errors.{AppError, status_code}

-- The field and the message of an issue.
pub record Issue : Type 0 where
  pub field : String
  pub message : String

-- The `type` of an error of the body parser, as far as it is looked at.
pub data BodyError : Type 0 where
  parse_failed too_large another : BodyError

-- An error as the handler looks at it: the issues of a ZodError, the properties `type` and `status`,
-- the AppError that it is an instance of, and its message.
pub record Thrown : Type 0 where
  pub zod_issues : Option (List Issue)
  pub type : Option BodyError
  pub status : Option ℕ
  pub app_error : Option AppError
  pub message : String

pub record ErrorResponse : Type 0 where
  pub message : String
  pub errors : Option (List Issue)

-- The status, the body and the header X-Request-Id.
pub record Answer : Type 0 where
  pub status : ℕ
  pub body : ErrorResponse
  pub request_id : Option ℕ

abbrev plain : String → ErrorResponse
plain message = record { message = message; errors = none }

abbrev pub format_zod_error : List Issue → ErrorResponse
format_zod_error issues = record { message = "Validation failed"; errors = some issues }

abbrev pub is_parse_failure : Option BodyError → Bool
is_parse_failure (some parse_failed) = true
is_parse_failure type = false

abbrev pub is_too_large : Option BodyError → Bool
is_too_large (some too_large) = true
is_too_large type = false

abbrev pub has_status : ℕ → Option ℕ → Bool
has_status expected none = false
has_status expected (some status) = status == expected

abbrev pub answer_rest : Option ℕ → Thrown → Option AppError → Answer
answer_rest request_id err (some error) = record {
  status = status_code error;
  body = plain err.message;
  request_id = request_id;
}
answer_rest request_id err none = record {
  status = 500;
  body = plain "Something went wrong on our side. Please try again later.";
  request_id = request_id;
}

abbrev pub answer_unvalidated : Option ℕ → Thrown → Option (List Issue) → Answer
answer_unvalidated request_id err (some issues) = record {
  status = 400;
  body = format_zod_error issues;
  request_id = request_id;
}
answer_unvalidated request_id err none =
    if is_parse_failure err.type || has_status 400 err.status
    then record { status = 400; body = plain "Invalid JSON request body."; request_id = request_id }
    else if is_too_large err.type || has_status 413 err.status
    then record { status = 413; body = plain "Request body too large."; request_id = request_id }
    else answer_rest request_id err err.app_error

unfoldable pub error_handler : Option ℕ → Thrown → Answer
error_handler request_id err = answer_unvalidated request_id err err.zod_issues

unfoldable pub not_found_handler : Option ℕ → Answer
not_found_handler request_id = record {
  status = 404;
  body = plain "Endpoint not found.";
  request_id = request_id;
}

hides_rest :
    (request_id : Option ℕ) (err : Thrown) (m : String) (o : Option (List Issue))
    → err.app_error ≡ none
    → answer_unvalidated request_id (record err { message = m }) o
      ≡ answer_unvalidated request_id err o
hides_rest request_id err m (some issues) h = refl
hides_rest request_id err m none h = ground (arith, h)

-- The message of an error that is no AppError does not reach the client: with any other message the
-- answer is the same, whichever kind of error it is.
pub error_handler_hides :
    (request_id : Option ℕ) (err : Thrown) (m : String)
    → err.app_error ≡ none
    → error_handler request_id (record err { message = m }) ≡ error_handler request_id err
unfolding error_handler
error_handler_hides request_id err m h = hides_rest request_id err m err.zod_issues h

-- An AppError that is no error of the body parser is answered with its own status and message.
pub error_handler-app :
    (request_id : Option ℕ) (err : Thrown) (error : AppError)
    → err.zod_issues ≡ none
    → err.type ≡ none
    → err.status ≡ none
    → err.app_error ≡ some error
    → error_handler request_id err ≡ record {
      status = status_code error;
      body = record { message = err.message; errors = none };
      request_id = request_id;
    }
unfolding error_handler
error_handler-app request_id err error a b c d = ground (arith, a, b, c, d)
