-- ===== src/Oidc/Stores.antt =====
-- The stores that the token endpoint writes; a store that is not configured is `none`.
use absolute_auth.Prelude.{Option}
use absolute_auth.JsMap.{JsMap}
use absolute_auth.Oidc.Types.{DeviceAuthorization, BackchannelAuthRequest}
use absolute_auth.Oidc.Codes
use absolute_auth.Oidc.Refresh

pub record Stores : Type 0 where
  pub codes : Codes.Store
  pub refresh : Refresh.Store
  pub devices : Option (JsMap DeviceAuthorization)
  pub backchannel : Option (JsMap BackchannelAuthRequest)
