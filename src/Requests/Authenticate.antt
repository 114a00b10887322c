-- ===== src/Requests/Authenticate.antt =====
-- `authenticate` (backend/src/middleware/authenticate.ts): the user of a request, from its header
-- `Authorization`. What `AuthService.verifyToken` says of a token is a parameter.
use split_bill_app.Prelude.{
  ℕ, ◌+◌, ◌≡◌, refl, sym, ap, ◌∙◌, List, [], ◌∷◌, ◌++◌, Option, none, some, Bool, true, false, not,
  ◌&&◌, ◌||◌, leb, if◌then◌else◌, arith,
}
use split_bill_app.Errors.{app, unauthorized_error, token_missing}
use split_bill_app.Effects.{Result, err}
use split_bill_app.Metrics.Table.{Text, codes, same_text}
use split_bill_app.Requests.Headers.{is_space, is_blank, trim, trim_start, trim_end}
use mathlib.Core.List.{append-nil, append_assoc}

-- `split(/\s+/)`: a run of white space ends a part and starts the next one. The first argument tells
-- whether a run was read last, the second is the part so far.
abbrev pub split_spaces : Bool → Text → Text → List Text
split_spaces in_run part [] = part ∷ []
split_spaces true part (c ∷ cs) =
    if is_space c then split_spaces true part cs else split_spaces false (part ++ c ∷ []) cs
split_spaces false part (c ∷ cs) =
    if is_space c then part ∷ split_spaces true [] cs else split_spaces false (part ++ c ∷ []) cs

-- `toLowerCase` on the letters that can give one of "bearer".
abbrev pub lower : Text → Text
lower [] = []
lower (c ∷ cs) = (if leb 65 c && leb c 90 then c + 32 else c) ∷ lower cs

-- The token of the two parts.
abbrev pub bearer_token : List Text → Option Text
bearer_token (scheme ∷ token ∷ []) =
    if not (same_text (lower scheme) (codes "bearer")) || is_blank token then none else some token
bearer_token parts = none

abbrev pub verify_found : (Text → Result ℕ) → Option Text → Result ℕ
verify_found verify none = err (app (unauthorized_error token_missing))
verify_found verify (some token) = verify token

-- The id of the user, or the error that is handed to `next`.
unfoldable pub authenticate : (Text → Result ℕ) → Option Text → Result ℕ
authenticate verify none = err (app (unauthorized_error token_missing))
authenticate verify (some header) =
    if is_blank header
    then err (app (unauthorized_error token_missing))
    else verify_found verify (bearer_token (split_spaces false [] (trim header)))

abbrev pub no_space : Text → Bool
no_space [] = true
no_space (c ∷ cs) = not (is_space c) && no_space cs

no_space_head : (c : ℕ) (cs : Text) → no_space (c ∷ cs) ≡ true → is_space c ≡ false
no_space_head c cs h = ground arith

no_space_tail : (c : ℕ) (cs : Text) → no_space (c ∷ cs) ≡ true → no_space cs ≡ true
no_space_tail c cs h = ground arith

split_char :
    (in_run : Bool) (part : Text) (c : ℕ) (cs : Text)
    → is_space c ≡ false
    → split_spaces in_run part (c ∷ cs) ≡ split_spaces false (part ++ c ∷ []) cs
split_char true part c cs h =
    ap (λ b. if b then split_spaces true part cs else split_spaces false (part ++ c ∷ []) cs) h
split_char false part c cs h =
    ap (λ b. if b then part ∷ split_spaces true [] cs else split_spaces false (part ++ c ∷ []) cs) h

split_word :
    (part word rest : Text)
    → no_space word ≡ true
    → split_spaces false part (word ++ rest) ≡ split_spaces false (part ++ word) rest
split_word part [] rest h = ap (λ (p : Text). split_spaces false p rest) (sym (append-nil part))
split_word part (c ∷ cs) rest h =
    split_char false part c (cs ++ rest) (no_space_head c cs h)
    ∙ split_word (part ++ c ∷ []) cs rest (no_space_tail c cs h)
    ∙ ap (λ (p : Text). split_spaces false p rest) (append_assoc part (c ∷ []) cs)

-- A space ends the part, and a word is the rest.
split_last :
    (part : Text) (t : ℕ) (ts : Text)
    → no_space (t ∷ ts) ≡ true
    → split_spaces false part (32 ∷ t ∷ ts) ≡ part ∷ (t ∷ ts) ∷ []
unfolding is_space
split_last part t ts h =
    let first = split_char true [] t ts (no_space_head t ts h) in
    let rest = split_word (t ∷ []) ts [] (no_space_tail t ts h) in
    ap (λ ps. part ∷ ps) (first ∙ ap (split_spaces false (t ∷ [])) (sym (append-nil ts)) ∙ rest)

-- The last word of a text stays when the end is trimmed.
trim_end_word : (word : Text) → no_space word ≡ true → trim_end word ≡ word
trim_end_word [] h = refl
trim_end_word (c ∷ []) h = ground arith
trim_end_word (c ∷ d ∷ ds) h =
    ap (λ t. elim t [ [] ↦ if is_space c then [] else c ∷ [] | ◌∷◌ e es ↦ c ∷ e ∷ es ])
      (trim_end_word (d ∷ ds) (ground arith))

trim_end_append :
    (a word : Text)
    → no_space word ≡ true
    → is_blank word ≡ false
    → trim_end (a ++ word) ≡ a ++ word
trim_end_append [] word h full = trim_end_word word h
trim_end_append (c ∷ cs) word h full =
    ap (λ t. elim t [ [] ↦ if is_space c then [] else c ∷ [] | ◌∷◌ e es ↦ c ∷ e ∷ es ])
      (trim_end_append cs word h full)
    ∙ not_alone c (cs ++ word) (append_full cs word full)
  where
    append_full : (b w : Text) → is_blank w ≡ false → is_blank (b ++ w) ≡ false
    append_full [] w e = e
    append_full (x ∷ xs) w e = refl

    not_alone :
        (x : ℕ) (t : Text)
        → is_blank t ≡ false
        → (elim t [ [] ↦ if is_space x then [] else x ∷ [] | ◌∷◌ e es ↦ x ∷ e ∷ es ]) ≡ x ∷ t
    not_alone x [] e = absurd (ground arith)
    not_alone x (y ∷ ys) e = refl

-- A header of the scheme `bearer`, in any case, one space and a token without white space is
-- answered with what `verifyToken` says of that token.
pub authenticate-bearer :
    (verify : Text → Result ℕ) (scheme token : Text)
    → lower scheme ≡ codes "bearer"
    → no_space scheme ≡ true
    → no_space token ≡ true
    → is_blank token ≡ false
    → authenticate verify (some (scheme ++ 32 ∷ token)) ≡ verify token
unfolding authenticate
authenticate-bearer verify [] token bearer plain whole full = absurd (ground arith)
authenticate-bearer verify (c ∷ cs) [] bearer plain whole full = absurd (ground arith)
authenticate-bearer verify (c ∷ cs) (t ∷ ts) bearer plain whole full =
    let start : trim_start (c ∷ (cs ++ 32 ∷ t ∷ ts)) ≡ c ∷ (cs ++ 32 ∷ t ∷ ts) =
      ap (λ b. if b then trim_start (cs ++ 32 ∷ t ∷ ts) else c ∷ (cs ++ 32 ∷ t ∷ ts))
        (no_space_head c cs plain) in
    let trimmed : trim ((c ∷ cs) ++ 32 ∷ t ∷ ts) ≡ (c ∷ cs) ++ 32 ∷ t ∷ ts =
      ap trim_end start
      ∙ ap trim_end (sym (append_assoc (c ∷ cs) (32 ∷ []) (t ∷ ts)))
      ∙ trim_end_append ((c ∷ cs) ++ 32 ∷ []) (t ∷ ts) whole refl
      ∙ append_assoc (c ∷ cs) (32 ∷ []) (t ∷ ts) in
    let scheme_known : same_text (lower (c ∷ cs)) (codes "bearer") ≡ true =
      ap (λ (s : Text). same_text s (codes "bearer")) bearer in
    let parts : split_spaces false [] ((c ∷ cs) ++ 32 ∷ t ∷ ts) ≡ (c ∷ cs) ∷ (t ∷ ts) ∷ [] =
      split_word [] (c ∷ cs) (32 ∷ t ∷ ts) plain ∙ split_last (c ∷ cs) t ts whole in
    let found : bearer_token ((c ∷ cs) ∷ (t ∷ ts) ∷ []) ≡ some (t ∷ ts) =
      ap (λ b. if not b || false then none else some (t ∷ ts)) scheme_known in
    ap (λ (h : Text). verify_found verify (bearer_token (split_spaces false [] h))) trimmed
    ∙ ap (λ (ps : List Text). verify_found verify (bearer_token ps)) parts
    ∙ ap (verify_found verify) found
