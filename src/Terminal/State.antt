-- ===== src/Terminal/State.antt =====
-- The state of a terminal page and what can happen to it (mountTerminal of web/src/terminal.js).
use claude_docker.Common.{ℕ, Bool, false, Option, none, List, []}
use claude_docker.Text.{Text}

pub data Phase : Type 0 where
  opening live closed : Phase

-- The socket in `ws`, with the variable `sessionConfirmed` of the call of `attach` that made it. An
-- older socket is out of use: `attach` takes its close handler off and closes it, after which a
-- browser delivers no message of it.
pub record Socket : Type 0 where
  pub requested : Text
  pub confirmed : Bool
  pub phase : Phase

-- A timeout that has neither fired nor been cleared: it will call attach(sid).
pub record Timer : Type 0 where
  pub id : ℕ
  pub sid : Text
  pub delay : ℕ

-- What `status` was last told.
pub data Status : Type 0 where
  blank connecting_status giving_up expired : Status
  reconnecting_in : ℕ → Status
  disconnected : ℕ → Status
  in_session : Text → Status
  ended : Text → Status

-- A message to the server.
pub data Sent : Type 0 where
  input : Text → Sent
  resize : ℕ → ℕ → Sent

-- A call of term.write or of term.reset.
pub data ScreenCall : Type 0 where
  wrote : List ℕ → ScreenCall
  was_reset : ScreenCall

pub record Term : Type 0 where
  pub current_sid : Option Text
  pub ws : Option Socket
  pub reconnect_attempts : ℕ
  pub reconnect_timer : Option ℕ
  pub intentional_close : Bool
  pub status : Status
  pub timers : List Timer
  pub next_timer : ℕ
  pub kills : ℕ  -- the requests of the restart button that have no answer yet
  pub cols : ℕ
  pub rows : ℕ
  pub sent : List Sent
  pub written : List ScreenCall

unfoldable pub new : ℕ → ℕ → Term
new cols rows = record {
  current_sid = none;
  ws = none;
  reconnect_attempts = 0;
  reconnect_timer = none;
  intentional_close = false;
  status = blank;
  timers = [];
  next_timer = 0;
  kills = 0;
  cols = cols;
  rows = rows;
  sent = [];
  written = [];
}

-- The fields that a control message of the server can have; the exit code as its digits.
pub record Message : Type 0 where
  pub type : Text
  pub id : Text
  pub exit_code : Option Text

pub data Frame : Type 0 where
  binary : List ℕ → Frame
  json : Message → Frame
  not_json : Frame

-- An element of the answer of /api/sessions.
pub record Session : Type 0 where
  pub id : Text
  pub alive : Bool

-- What can happen to the page.
pub data Event : Type 0 where
  sessions_listed : Option (List Session) → Event
  opened : Event
  received : Frame → Event
  closed_with : ℕ → Event
  timer_fires : Timer → Event
  kill_clicked : Event
  kill_returns : Bool → Event
  typed : Text → Event
  pasted : Text → Event
  resized : ℕ → ℕ → Event
