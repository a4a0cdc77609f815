-- ===== src/Server/Input/Typed.antt =====
-- What is typed on a connected page arrives in the PTY, in order, and the PTY has the size of the window.
use claude_docker.Common.{
  ℕ, Bool, true, false, ◌&&◌, List, [], ◌∷◌, ◌++◌, All, if◌then◌else◌, ltb, ◌≡◌, refl,
}
use claude_docker.Text.{Text, truthy}
use claude_docker.Terminal.State.{Sent, input, resize, Event, typed, pasted, resized}
use claude_docker.Server.Input.{Desk, fits, data_bytes, read_message, read_messages, is_uint16}

-- The event is typing, pasting or a new size of the window, and its message is not too large.
abbrev pub IsInput : ℕ → Event → Type 0
IsInput limit (typed d) = fits limit (input d) ≡ true
IsInput limit (pasted d) = fits limit (input d) ≡ true
IsInput limit (resized c r) = fits limit (resize c r) ≡ true
IsInput limit _ = ⊥

-- The bytes of the texts that are typed and pasted.
abbrev pub bytes_of : List Event → List ℕ
bytes_of [] = []
bytes_of (typed d ∷ es) = data_bytes d ++ bytes_of es
bytes_of (pasted d ∷ es) = data_bytes d ++ bytes_of es
bytes_of (_ ∷ es) = bytes_of es

abbrev pub has_size : ℕ → ℕ → Bool
has_size c r = is_uint16 c && is_uint16 r && ltb 0 c && ltb 0 r

-- The last size that a PTY can have, or the one that it has.
abbrev pub size_of : List Event → ℕ × ℕ → ℕ × ℕ
size_of [] size = size
size_of (resized c r ∷ es) size = size_of es (if has_size c r then (c, r) else size)
size_of (_ ∷ es) size = size_of es size

-- What the page sends on an event.
abbrev message_of : Event → List Sent
message_of (typed d) = input d ∷ []
message_of (pasted d) = if truthy d then input d ∷ [] else []
message_of (resized c r) = resize c r ∷ []
message_of _ = []

-- The messages of the events, in order.
abbrev pub messages_of : List Event → List Sent
messages_of [] = []
messages_of (e ∷ es) = message_of e ++ messages_of es

-- What the server makes of the messages of the events.
pub record HasRead (es : List Event) (d t : Desk) : Type 0 where
  pub bytes : t.written ≡ d.written ++ bytes_of es
  pub size : t.size ≡ size_of es d.size
  pub reading : t.reading ≡ d.reading

-- A message with more bytes than that, such as a long paste, ends the loop: neither it nor what comes
-- after it is written.
long_message_disconnects :
    (limit now : ℕ) (ms rest : List Sent) (m : Sent) (d : Desk)
    → All (λ m. fits limit m ≡ true) ms
    → fits limit m ≡ false
    → read_messages limit now (ms ++ (m ∷ rest)) d
      ≡ record (read_messages limit now ms d) { reading = false }
long_message_disconnects limit now [] rest m d h long = rw long refl
long_message_disconnects limit now (x ∷ ms) rest m d (i, h) long =
    rw i (long_message_disconnects limit now ms rest m (read_message now x d) h long)
