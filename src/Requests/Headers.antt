-- ===== src/Requests/Headers.antt =====
-- The checks of two headers: `requireIdempotencyKey` (backend/src/modules/idempotency/validate.ts)
-- and `sanitizeRequestId` (backend/src/utils/requestId.ts). A text is the list of its code units.
pub mod Laws
use split_bill_app.Prelude.{
  ℕ, ◌≡◌, ◌≤◌, refl, sym, ap, ◌∙◌, inl, inr, List, [], ◌∷◌, ◌++◌, Option, none, some, Bool, true,
  false, not, ◌&&◌, ◌||◌, ◌==◌, leb, ltb, length, if◌then◌else◌, Bool-cases, arith,
}
use mathlib.Core.List.{reverse}
use split_bill_app.Errors.{app, bad_request_error, idempotency_key_missing, idempotency_key_invalid}
use split_bill_app.Effects.{Result, ok, err}
use split_bill_app.Metrics.Table.{Text}

-- The white space of `trim` and of `\s`.
unfoldable pub is_space : ℕ → Bool
is_space c =
    (leb 9 c && leb c 13)
    || c == 32
    || c == 160
    || c == 5760
    || (leb 8192 c && leb c 8202)
    || c == 8232
    || c == 8233
    || c == 8239
    || c == 8287
    || c == 12288
    || c == 65279

abbrev pub trim_start : Text → Text
trim_start [] = []
trim_start (c ∷ cs) = if is_space c then trim_start cs else c ∷ cs

-- The text without the white space at its end.
abbrev pub trim_end : Text → Text
trim_end [] = []
trim_end (c ∷ cs) = elim (trim_end cs) [
  | [] ↦ if is_space c then [] else c ∷ []
  | ◌∷◌ d ds ↦ c ∷ d ∷ ds
]

abbrev pub trim : Text → Text
trim text = trim_end (trim_start text)

-- /[A-Za-z0-9._-]/
abbrev pub is_safe : ℕ → Bool
is_safe c =
    (leb 97 c && leb c 122)
    || (leb 65 c && leb c 90)
    || (leb 48 c && leb c 57)
    || c == 46
    || c == 95
    || c == 45

abbrev pub all_safe : Text → Bool
all_safe [] = true
all_safe (c ∷ cs) = is_safe c && all_safe cs

abbrev pub is_blank : Text → Bool
is_blank [] = true
is_blank (c ∷ cs) = false

-- `idempotencyKeySchema.safeParse`: 8 to 128 safe characters after `trim`.
abbrev pub safe_parse : Text → Option Text
safe_parse key =
    if leb 8 (length (trim key)) && leb (length (trim key)) 128 && all_safe (trim key)
    then some (trim key)
    else none

abbrev pub accepted_key : Option Text → Result Text
accepted_key none = err (app (bad_request_error idempotency_key_invalid))
accepted_key (some key) = ok key

-- The key that the request carries on, or the error.
unfoldable pub require_idempotency_key : Option Text → Result Text
require_idempotency_key none = err (app (bad_request_error idempotency_key_missing))
require_idempotency_key (some raw) =
    if is_blank (trim raw)
    then err (app (bad_request_error idempotency_key_missing))
    else accepted_key (safe_parse raw)

-- REQUEST_ID_MAX_LENGTH and REQUEST_ID_SAFE_PATTERN
unfoldable pub sanitize_request_id : Text → Option Text
sanitize_request_id raw =
    if ltb 128 (length raw)
    then none
    else if not (not (is_blank raw) && all_safe raw)
    then none
    else some raw
