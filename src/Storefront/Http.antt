-- ===== src/Storefront/Http.antt =====
-- internal/storefront/http/handlers.go.
pub mod Reports
use florist_core.Prelude.{String, List, map, str_eq, if◌then◌else◌}
use florist_core.Prelude.Int.{ℤ}
use florist_core.Kernel.Errors.{Error, Result, ok, err}
use florist_core.Kernel.Types.{Time}
use florist_core.Storefront.Catalog.{BatchCatalogReader, CatalogItem, get_catalog}
use florist_core.Storefront.Orders.{
  PlaceOrderCommand, PlaceOrderItem, PlaceOrderHandler, place_order,
}
use florist_core.Http.{Response, Serving, json, http_error, error_json, refuse, answered, decoded}

abbrev listed : (Error → String) → Result (List CatalogItem) → Response (List CatalogItem)
listed text_of (ok items) = record { status = 200; content = json items }
listed text_of (err e) = http_error (error_json (text_of e)) 500

-- `GetCatalog`, with the two values of the query.
unfoldable pub get_catalog_handler :
    BatchCatalogReader → (Error → String) → String → String → Response (List CatalogItem)
unfolding get_catalog
get_catalog_handler reader text_of store_id ingredient_id =
    if str_eq store_id ""
    then http_error (error_json "store_id is required") 400
    else listed text_of
        (get_catalog reader (record { store_id = store_id; ingredient_id = ingredient_id }))

-- The request's struct.
pub record RequestItem : Type 0 where
  pub product_id : String
  pub qty : ℤ

pub record Request : Type 0 where
  pub store_id : String
  pub items : List RequestItem

-- The body of the loop over the request's items.
abbrev pub item_of : RequestItem → PlaceOrderItem
item_of it = record { product_id = it.product_id; qty = it.qty }

abbrev pub command_of : Request → PlaceOrderCommand
command_of req = record { store_id = req.store_id; items = map item_of req.items }

-- `PlaceOrder`
unfoldable pub place_order_handler :
    {T X : Type 0}
    → PlaceOrderHandler T X
    → (Error → String)
    → (String → Result Request)
    → Time
    → String
    → Serving T X String
place_order_handler h text_of decode now body = decoded (decode body) λ req.
    if str_eq req.store_id "" then refuse "store_id is required" else λ s.
    answered text_of (λ id. record { status = 201; content = json (h.text_of_id id) })
      (place_order h now (command_of req) s)
