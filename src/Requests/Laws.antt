-- ===== src/Requests/Laws.antt =====
-- What a server reads in the requests and the messages.
use claude_docker.Common.{
  ◌^◌, ◌<◌, Option, none, some, [], ◌∷◌, ◌≡◌, refl, arith, All, ap, ◌∙◌, sym,
}
use mathlib.Core.Option.{some-injective}
use claude_docker.Text.{Text, codes}
use claude_docker.Json.{words, number, Object}
use claude_docker.Json.Reader.{read_object}
use claude_docker.Json.Laws.{read_object-stringify, IsField}
use claude_docker.Terminal.State.{Sent, input, resize}
use claude_docker.Files.Actions.{Rename}
use claude_docker.Url.Decode.{IsUnit}
use claude_docker.Requests.{sent_text, sent_fields, rename_request, post_json, mkdir_request}

-- The typed text consists of 16-bit code units, and the size of the screen is below 10^20.
abbrev pub IsMessage : Sent → Type 0
IsMessage (input d) = All IsUnit d
IsMessage (resize cols rows) = (cols < 10 ^ 20) × (rows < 10 ^ 20)

small_fields : (m : Sent) → IsMessage m → All IsField (sent_fields m)
small_fields (input d) h = ((ground arith, ground arith), ((ground arith, h), tt))
small_fields (resize cols rows) (c, r) =
    ((ground arith, ground arith), ((ground arith, c), ((ground arith, r), tt)))

-- The message that a list of fields tells.
message_of : Object → Option Sent
message_of ((_, _) ∷ (_, words d) ∷ []) = some (input d)
message_of ((_, _) ∷ (_, number c) ∷ (_, number r) ∷ []) = some (resize c r)
message_of _ = none

message_of-sent_fields : (m : Sent) → message_of (sent_fields m) ≡ some m
unfolding message_of
message_of-sent_fields (input d) = refl
message_of-sent_fields (resize c r) = refl

-- A server that reads a message of the page finds its fields, the typed text or the size among them,
-- unchanged; and no two messages are sent as the same text. (Typed text consists of 16-bit code
-- units, sizes are below 10^20.)
pub sent_text-injective :
    (m n : Sent)
    → IsMessage m
    → IsMessage n
    → (read_object (sent_text m) ≡ some (sent_fields m)) × (sent_text m ≡ sent_text n → m ≡ n)
unfolding sent_text
sent_text-injective m n h k =
    let reads : (m : Sent) → IsMessage m → read_object (sent_text m) ≡ some (sent_fields m) =
      λ m h. read_object-stringify (sent_fields m) (small_fields m h) in
    (
      reads m h,
      λ e.
          let same = some-injective _ _ (sym (reads m h) ∙ ap read_object e ∙ reads n k) in
          some-injective _ _
            (sym (message_of-sent_fields m) ∙ ap message_of same ∙ message_of-sent_fields n),
    )

abbrev body_fields : Option Text → Option Object
body_fields none = none
body_fields (some s) = read_object s

-- The server that reads the body of a rename finds the two paths, in their order, if both consist of
-- 16-bit code units; and that of a new folder its path.
pub rename_read :
    (r : Rename)
    → All IsUnit r.source
    → All IsUnit r.target
    → (body_fields (rename_request r).body
        ≡ some ((codes "from", words r.source) ∷ (codes "to", words r.target) ∷ []))
      × (body_fields (mkdir_request r.target).body ≡ some ((codes "path", words r.target) ∷ []))
unfolding rename_request mkdir_request post_json
rename_read r h k = (
  read_object-stringify _ ((ground arith, h), ((ground arith, k), tt)),
  read_object-stringify _ ((ground arith, k), tt),
)
