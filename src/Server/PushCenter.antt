-- ===== src/Server/PushCenter.antt =====
-- CPushCenter, Src/TransmitServer/PushCenter/PushCenter.cpp: the messages to the phones, by way of the
-- service "bmob".
pub mod Missing
use shuchuang.Shared.{
  String, Bool, true, false, Option, none, some, List, [], ◌∷◌, ◌++◌, not, ◌||◌, ◌==◌, string_key,
  if◌then◌else◌,
}
use shuchuang.Shared.Outcome.{Action, pure, throw, get, modify, or_throw, ◌>>=◌, ◌>>◌}
use shuchuang.Shared.Poco.{Json}

-- A request to the service, with the body before it is printed.
pub record PushRequest (O : Type 0) : Type 0 where
  pub host : String
  pub uri : String
  pub app_id : String
  pub app_key : String
  pub body : O

-- What becomes of a request: sending it throws, or it was sent and reading the response throws, or
-- the response was read to its end.
pub data Reply : Type 0 where
  not_sent no_response response : Reply

-- `bmob_info` is `none` for the null pointer, and `tried` are the requests that
-- were made, whether they could be sent or not.
pub record PushCenter (O : Type 0) : Type 0 where
  pub bmob_info : Option O
  pub tried : List (PushRequest O)

module _ {O : Type 0} ⦃j : Json O⦄ where
  abbrev lacks_info : Option O → Bool
  lacks_info none = true
  lacks_info (some o) =
      not (j.has o "Host")
      || (not (j.has o "URI") || (not (j.has o "APPID") || not (j.has o "APPKey")))

  -- The entry of "bmob"; one that lacks a field is put back to null.
  unfoldable pub take_info : O → Action (PushCenter O) Bool
  take_info apns =
      if lacks_info (j.get_object apns "bmob")
      then (do modify (λ c. record c { bmob_info = none }); pure false)
      else (do modify (λ c. record c { bmob_info = j.get_object apns "bmob" }); pure true)

  -- The loop of `init` over the array "Proxy", an element of which may be no text.
  unfoldable pub take_proxies : O → List (Option String) → Action (PushCenter O) Bool
  take_proxies apns [] = pure true
  take_proxies apns (element ∷ rest) = do
    proxy ← or_throw element
    taken ← (if proxy == "bmob" then take_info apns else pure true)
    if taken then take_proxies apns rest else pure false

  -- `proxies` is the array "Proxy", `none` for a null pointer.
  unfoldable pub init : (O → Option (List (Option String))) → Option O → Action (PushCenter O) Bool
  init proxies none = pure false
  init proxies (some apns) = do array ← or_throw (proxies apns); take_proxies apns array

  abbrev ios_body : String → String → O
  ios_body device_token content =
      j.set_object (j.set_object j.empty "where" (j.set_string j.empty "deviceToken" device_token))
        "data" (j.set_string (j.set_string j.empty "alert" content) "sound" "default")

  abbrev android_body : String → String → O
  android_body installation_id content =
      j.set_object
        (j.set_object j.empty "where" (j.set_string j.empty "installationId" installation_id))
        "data" (j.set_string j.empty "alert" content)

  -- Only the exceptions of the response are caught.
  unfoldable pub receive : Reply → Action (PushCenter O) Bool
  receive not_sent = throw
  receive no_response = pure false
  receive response = pure true

  unfoldable pub send : (PushRequest O → Reply) → O → Action (PushCenter O) Bool
  unfolding receive
  send service body = do
    c ← get
    info ← or_throw c.bmob_info
    host ← or_throw (j.get_string info "Host")
    uri ← or_throw (j.get_string info "URI")
    app_id ← or_throw (j.get_string info "APPID")
    app_key ← or_throw (j.get_string info "APPKey")
    let request : PushRequest O = record {
      host = host;
      uri = uri;
      app_id = app_id;
      app_key = app_key;
      body = body;
    }
    modify (λ c. record c { tried = c.tried ++ request ∷ [] })
    receive (service request)

  unfoldable pub push_bmob_ios :
      (PushRequest O → Reply) → String → String → Action (PushCenter O) Bool
  push_bmob_ios service device_token content = send service (ios_body device_token content)

  unfoldable pub push_bmob_android :
      (PushRequest O → Reply) → String → String → Action (PushCenter O) Bool
  push_bmob_android service installation_id content =
      send service (android_body installation_id content)
