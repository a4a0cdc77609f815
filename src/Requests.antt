-- ===== src/Requests.antt =====
-- The requests and the messages that web/src sends: postJson, putJson, patchJson and del of
-- web/src/api.js, the calls of them, and the calls of `ws.send`.
pub mod Laws
pub mod Stream
use claude_docker.Common.{Bool, true, false, Option, none, some, List, [], ◌∷◌, if◌then◌else◌}
use mathlib.Core.Option
use claude_docker.Text.{Text, codes, concat}
use claude_docker.Json.{Object, words, number, stringify}
use claude_docker.Terminal.State.{Sent, input, resize}
use claude_docker.Files.Actions.{Rename}
use claude_docker.App.Tables.{Account}
use claude_docker.App.Accounts.{suspend_path, delete_path}
use claude_docker.Url.{file_url, deleting, downloading, session_url}
use claude_docker.Files.FilePath.{join}

pub data Method : Type 0 where
  get post put patch delete : Method

-- A call of `fetch`.
pub record Request : Type 0 where
  pub method : Method
  pub url : Text
  pub content_type : Option Text
  pub body : Option Text

-- `JSON.stringify(body || {})`
abbrev pub body_text : Option Object → Text
body_text none = stringify []
body_text (some o) = stringify o

abbrev with_json : Method → Text → Option Object → Request
with_json method url body = record {
  method = method;
  url = url;
  content_type = some (codes "application/json");
  body = some (body_text body);
}

unfoldable pub post_json : Text → Option Object → Request
post_json url body = with_json post url body

unfoldable pub put_json : Text → Option Object → Request
put_json url body = with_json put url body

unfoldable pub patch_json : Text → Option Object → Request
patch_json url body = with_json patch url body

unfoldable pub del : Text → Request
del url = record { method = delete; url = url; content_type = none; body = none }

-- The address of openWs, given whether the page came over https, and the host.
unfoldable pub open_ws_url : Bool → Text → Text → Text
open_ws_url secure host path =
    concat ((if secure then codes "wss" else codes "ws") ∷ codes "://" ∷ host ∷ path ∷ [])

unfoldable pub sign_in_request : Text → Text → Request
unfolding post_json
sign_in_request username password =
    post_json (codes "/auth")
      (some ((codes "username", words username) ∷ (codes "password", words password) ∷ []))

unfoldable pub change_password_request : Text → Request
unfolding post_json
change_password_request new_password =
    post_json (codes "/auth/change-password")
      (some ((codes "newPassword", words new_password) ∷ []))

unfoldable pub sign_out_request : Request
unfolding post_json
sign_out_request = post_json (codes "/auth/logout") none

unfoldable pub create_user_request : Text → Text → Text → Request
unfolding post_json
create_user_request username password role = post_json (codes "/api/admin/users") (
    some (
      (codes "username", words username)
      ∷ (codes "password", words password)
      ∷ (codes "role", words role)
      ∷ []))

-- The request of loadAnthropic, which calls `fetch` itself.
unfoldable pub token_request : Text → Request
token_request token =
    with_json put (codes "/api/admin/settings/auth-token")
      (some ((codes "auth_token", words token) ∷ []))

unfoldable pub suspend_request : Account → Request
unfolding post_json
suspend_request u = post_json (suspend_path u) none

unfoldable pub delete_user_request : Bool → Account → Option Request
unfolding del
delete_user_request confirmed u = Option.map del (delete_path confirmed u)

unfoldable pub mkdir_request : Text → Request
unfolding post_json
mkdir_request path = post_json (codes "/api/files/mkdir") (some ((codes "path", words path) ∷ []))

unfoldable pub rename_request : Rename → Request
unfolding post_json
rename_request r =
    post_json (codes "/api/files/rename")
      (some ((codes "from", words r.source) ∷ (codes "to", words r.target) ∷ []))

-- The request of a round of deleteSelected(); `none` where encodeURIComponent throws.
unfoldable pub delete_request : Text → Option Request
unfolding del
delete_request path = Option.map del (file_url deleting path)

-- The request of the restart button.
unfoldable pub kill_request : Text → Option Request
unfolding del
kill_request sid = Option.map del (session_url sid)

-- The text that `ws.send` gets.
abbrev pub sent_fields : Sent → Object
sent_fields (input d) = (codes "type", words (codes "input")) ∷ (codes "data", words d) ∷ []
sent_fields (resize cols rows) =
    (codes "type", words (codes "resize"))
    ∷ (codes "cols", number cols)
    ∷ (codes "rows", number rows)
    ∷ []

unfoldable pub sent_text : Sent → Text
sent_text m = stringify (sent_fields m)

-- A link that download clicks.
pub record Link : Type 0 where
  pub href : Text
  pub download : Text

-- The links that are clicked, and whether encodeURIComponent threw, which ends the loop.
pub record Downloads : Type 0 where
  pub clicked : List Link
  pub threw : Bool

-- download(names)
unfoldable pub download : Text → List Text → Downloads
download cwd [] = record { clicked = []; threw = false }
download cwd (n ∷ names) =
    let rest = download cwd names in
    elim (file_url downloading (join cwd n)) [
      | none ↦ record { clicked = []; threw = true }
      | some url ↦ record {
        clicked = record { href = url; download = n } ∷ rest.clicked;
        threw = rest.threw;
      }
    ]
