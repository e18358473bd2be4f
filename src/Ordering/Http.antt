-- ===== src/Ordering/Http.antt =====
-- internal/ordering/http/handlers.go.
pub mod Reports
use florist_core.Prelude.{String, str_eq, if◌then◌else◌}
use florist_core.Kernel.Errors.{Error, Result}
use florist_core.Kernel.Types.{Time}
use florist_core.Ordering.Confirm.{ConfirmOrderHandler, confirm_order}
use florist_core.Http.{Serving, http_error, no_content, refuse, answered, decoded}

-- `createOrder`, a stub.
unfoldable pub create_order : {T X : Type 0} → Serving T X String
create_order s = (http_error "{\"error\":\"not implemented yet\"}" 501, s)

-- `confirmOrder`: the identifier of the path stands in for what the body says.
unfoldable pub confirm_order_handler :
    {T X : Type 0}
    → ConfirmOrderHandler T X
    → (Error → String)
    → (String → Result String)
    → Time
    → String
    → String
    → Serving T X String
confirm_order_handler h text_of decode now order_id body =
    if str_eq order_id ""
    then refuse "missing order id"
    else decoded (decode body)
        (λ _ s. answered text_of (λ _. no_content 200) (confirm_order h now order_id s))
