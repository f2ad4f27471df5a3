-- ===== src/Oidc/Codes.antt =====
-- The authorization-code store (createInMemoryAuthorizationCodeStore of src/oidc/inMemoryStores.ts).
-- A method takes the store's `Map` and returns it beside the method's result.
pub mod Laws
use absolute_auth.Prelude.{ℕ, String, Bool, ◌&&◌, Option, ◌==◌, string_eq}
use absolute_auth.JsMap.{JsMap, get, set, delete, delete_where, count_where}
use absolute_auth.Oidc.Types.{AuthorizationCode}

abbrev pub Store : Type 0
Store = JsMap AuthorizationCode

unfoldable pub consume_code : String → Store → Option AuthorizationCode × Store
consume_code code_hash codes = (get code_hash codes, delete code_hash codes)

unfoldable pub of_client : String → AuthorizationCode → Bool
of_client client_id code = code.client_id == client_id

unfoldable pub of_user_client : String → String → AuthorizationCode → Bool
of_user_client user_id client_id code = code.user_id == user_id && code.client_id == client_id

unfoldable pub delete_for_client : String → Store → ℕ × Store
delete_for_client client_id codes =
    (count_where (of_client client_id) codes, delete_where (of_client client_id) codes)

unfoldable pub delete_for_user_client : String → String → Store → ℕ × Store
delete_for_user_client user_id client_id codes = (
  count_where (of_user_client user_id client_id) codes,
  delete_where (of_user_client user_id client_id) codes,
)

unfoldable pub save_code : AuthorizationCode → Store → Store
save_code code codes = set code.code_hash code codes
