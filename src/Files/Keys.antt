-- ===== src/Files/Keys.antt =====
-- The keys of class FileView (web/src/files.js, bindKeys).
use claude_docker.Common.{String, Bool, true, false, not, ◌&&◌, Option, none, some, if◌then◌else◌}
use claude_docker.Text.{Text, codes, text_eq}
use claude_docker.Files.View.{View}
use claude_docker.Files.Session.{
  Action, go_back, go_forward, go_up, choose_all, clear_selection, toggle_mode, step,
}

-- A keydown event, with the element that it comes from.
pub record KeyDown : Type 0 where
  pub tag_name : Text
  pub target_type : Text
  pub alt : Bool
  pub ctrl : Bool
  pub meta : Bool
  pub key : Text

-- What a key starts: an action at once, or a command that asks the user first.
pub data Command : Type 0 where
  act : Action → Command
  ask_delete ask_rename : Command

abbrev pub in_text_field : KeyDown → Bool
in_text_field e =
    text_eq e.tag_name (codes "INPUT") && not (text_eq e.target_type (codes "checkbox"))

abbrev pub is_key : String → KeyDown → Bool
is_key name e = text_eq e.key (codes name)

-- The command of a key, in the order of the tests, and whether preventDefault() is called.
unfoldable pub command_of : KeyDown → Option (Command × Bool)
command_of e =
    if in_text_field e
    then none
    else if e.alt && is_key "ArrowLeft" e
    then some (act go_back, true)
    else if e.alt && is_key "ArrowRight" e
    then some (act go_forward, true)
    else if is_key "Backspace" e
    then some (act go_up, true)
    else if is_key "Delete" e
    then some (ask_delete, true)
    else if is_key "F2" e
    then some (ask_rename, true)
    else if e.ctrl && is_key "a" e
    then some (act choose_all, true)
    else if is_key "v" e && (not e.ctrl && not e.meta)
    then some (act toggle_mode, true)
    else if is_key "Escape" e
    then some (act clear_selection, false)
    else none

-- What a key does to the object at once.
unfoldable pub on_key_down : (Text → Text) → KeyDown → View → View
unfolding command_of
on_key_down to_lower e s = elim (command_of e) [ some (act a, _) ↦ step to_lower a s | _ ↦ s ]
