-- ===== src/Http.antt =====
-- What the handlers of internal/inventory/http, internal/ordering/http, internal/production/http and
-- internal/storefront/http use of net/http. The decoder of a request's JSON and the text of an error are
-- arguments; the value that goes to the JSON encoder stands for its text. Headers and the newline
-- after the text of an error are left out.
use Prim.Native.String.{◌++◌ as ◌<>◌}
use florist_core.Prelude.{ℕ, String}
use florist_core.Kernel.Errors.{Error, Result, ok, err}
use florist_core.Db.{Session}

pub data Content (A : Type 0) : Type 0 where
  nothing : Content A
  plain : String → Content A
  json : A → Content A

pub record Response (A : Type 0) : Type 0 where
  pub status : ℕ
  pub content : Content A

-- A handler of requests, on the session of the database.
abbrev pub Serving : Type 0 → Type 0 → Type 0 → Type 0
Serving T X A = Session T X → Response A × Session T X

abbrev pub http_error : {A : Type 0} → String → ℕ → Response A
http_error text status = record { status = status; content = plain text }

abbrev pub no_content : {A : Type 0} → ℕ → Response A
no_content status = record { status = status; content = nothing }

-- `{"error":"…"}`, put together as a text: what stands in the error is not escaped.
abbrev pub error_json : String → String
error_json text = "{\"error\":\"" <> (text <> "\"}")

abbrev pub refuse : {T X A : Type 0} → String → Serving T X A
refuse text s = (http_error (error_json text) 400, s)

-- What a handler writes after the call of the application.
abbrev pub answered :
    {T X A B : Type 0}
    → (Error → String)
    → (A → Response B)
    → Result A × Session T X
    → Response B × Session T X
answered text_of f (ok a, s) = (f a, s)
answered text_of f (err e, s) = (http_error (error_json (text_of e)) 500, s)

-- `json.NewDecoder(r.Body).Decode(&req)` and what follows if it succeeds.
abbrev pub decoded : {T X A B : Type 0} → Result A → (A → Serving T X B) → Serving T X B
decoded (ok a) f = f a
decoded (err _) f = refuse "invalid request body"
