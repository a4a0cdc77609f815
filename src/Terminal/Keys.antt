-- ===== src/Terminal/Keys.antt =====
-- The keys and the mouse button of the terminal that copy and paste (attachCustomKeyEventHandler and
-- contextmenu of web/src/terminal.js). Copying is done by the browser.
use claude_docker.Common.{Bool, false, not, ◌&&◌, ◌||◌, ◌≡◌, arith, if◌then◌else◌}
use claude_docker.Text.{Text, codes, text_eq}

-- A keyboard event.
pub record Press : Type 0 where
  pub type : Text
  pub ctrl : Bool
  pub shift : Bool
  pub key : Text
  pub code : Text

pub data Reaction : Type 0 where
  copies pastes : Reaction
  left_to_terminal : Reaction

abbrev pub is_copy : Press → Bool
is_copy ev = ev.ctrl && (ev.shift && (text_eq ev.key (codes "C") || text_eq ev.code (codes "KeyC")))

abbrev pub is_paste : Press → Bool
is_paste ev =
    (ev.ctrl && (ev.shift && (text_eq ev.key (codes "V") || text_eq ev.code (codes "KeyV"))))
    || (ev.shift && text_eq ev.key (codes "Insert"))

-- The key handler, given whether the terminal has a selection.
unfoldable pub on_key : Bool → Press → Reaction
on_key selection ev =
    if not (text_eq ev.type (codes "keydown"))
    then left_to_terminal
    else if is_copy ev && selection
    then copies
    else if is_paste ev
    then pastes
    else left_to_terminal

-- The right mouse button.
unfoldable pub on_context_menu : Bool → Reaction
on_context_menu selection = if selection then copies else pastes

-- A key that is pressed without Shift is left to the terminal.
plain_key :
    (selection : Bool) (ev : Press) → ev.shift ≡ false → on_key selection ev ≡ left_to_terminal
unfolding on_key
plain_key selection ev h = ground arith
