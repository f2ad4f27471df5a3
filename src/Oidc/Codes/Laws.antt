-- ===== src/Oidc/Codes/Laws.antt =====
-- Authorization codes are single-use, and the operator's deletions remove the client's codes only.
use absolute_auth.Prelude.{◌+◌, String, ◌≡◌, ◌≢◌, some, none, string_eq, arith, eq_iff, length}
use absolute_auth.JsMap.{get}
use absolute_auth.JsMap.Laws.{
  get-set, get-delete, get-delete_where, unless, IsMap, length-delete_where,
}
use absolute_auth.Oidc.Types.{AuthorizationCode}
use absolute_auth.Oidc.Codes.{
  Store, consume_code, save_code, of_user_client, delete_for_user_client,
}

-- A saved code is consumed once: the first consumption returns it, the second finds nothing, and
-- a code under another hash stays as it was through both calls.
pub consume_code-save_code :
    (code : AuthorizationCode) (codes : Store) (other : String)
    → code.code_hash ≢ other
    → ((consume_code code.code_hash (save_code code codes)).0 ≡ some code)
      × ((consume_code code.code_hash (consume_code code.code_hash (save_code code codes)).1).0
          ≡ none)
      × (get other (consume_code code.code_hash (save_code code codes)).1 ≡ get other codes)
unfolding consume_code save_code
consume_code-save_code code codes other h = (
  ground (arith, get-set h' h' code codes, eq_iff h' h'),
  ground (arith, get-delete h' h' (save_code code codes), eq_iff h' h'),
  ground (
    arith,
    get-delete h' other (save_code code codes),
    get-set h' other code codes,
    eq_iff h' other,
  ),
)
  where
    h' : String
    h' = code.code_hash

-- Deleting a user's codes for a client removes exactly the codes of that pair, keeps every other
-- code, and returns the number of codes that went.
pub delete_for_user_client_lem :
    (user_id client_id : String) (codes : Store) (h : String)
    → IsMap codes
    → (get h (delete_for_user_client user_id client_id codes).1
        ≡ unless (of_user_client user_id client_id) (get h codes))
      × (length (delete_for_user_client user_id client_id codes).1
            + (delete_for_user_client user_id client_id codes).0
          ≡ length codes)
unfolding delete_for_user_client
delete_for_user_client_lem user_id client_id codes h v = (
  get-delete_where (of_user_client user_id client_id) h codes v,
  length-delete_where (of_user_client user_id client_id) codes,
)
