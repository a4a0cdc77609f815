-- ===== src/App/Mounted.antt =====
-- The objects that the views of web/src/main.js make in the element `view`: viewTerminal calls
-- mountTerminal, viewFiles calls mountFiles once the module of files is loaded. nav only empties the
-- element: what was made before lives on, and so do the listeners on the element itself.
pub mod Keys
use claude_docker.Common.{
  ℕ, suc, pred, Bool, true, false, ◌||◌, Option, none, some, List, [], ◌∷◌, ◌++◌,
}
use claude_docker.Terminal.State.{Term}
use claude_docker.Terminal.State
use claude_docker.Files.Sort.{SortKey}
use claude_docker.Files.View.{View, ViewMode}
use claude_docker.Files.Session.{mount}
use claude_docker.Files.Keys.{KeyDown, Command, command_of}
use claude_docker.App.{Page, terminal, files, traffic, users, audit}

pub record Mounted : Type 0 where
  pub content : Option Page  -- whose HTML is in the element
  pub loading : ℕ  -- the calls of viewFiles whose module is not there yet
  pub terminals : List Term
  pub views : List View  -- each has a keydown listener on the element

unfoldable pub fresh : Mounted
fresh = record { content = none; loading = 0; terminals = []; views = [] }

pub data MountEvent : Type 0 where
  visited : Page → MountEvent
  files_loaded : MountEvent

-- The size of a new terminal, and what localStorage holds for the files.
module _ (cols rows : ℕ) (mode : ViewMode) (key : SortKey) where
  -- `VIEWS[view](v)` of nav, after `v.innerHTML = ""`, and the callback of viewFiles.
  unfoldable pub mount_step : MountEvent → Mounted → Mounted
  mount_step (visited terminal) m = record m {
    content = some terminal;
    terminals = m.terminals ++ (State.new cols rows ∷ []);
  }
  mount_step (visited files) m = record m { content = none; loading = suc m.loading }
  mount_step (visited traffic) m = record m { content = some traffic }
  mount_step (visited users) m = record m { content = some users }
  mount_step (visited audit) m = record m { content = some audit }
  mount_step files_loaded m = record m {
    content = some files;
    loading = pred m.loading;
    views = m.views ++ (mount mode key ∷ []);
  }

  abbrev pub mount_run : List MountEvent → Mounted → Mounted
  mount_run [] m = m
  mount_run (e ∷ es) m = mount_run es (mount_step e m)

-- What a keydown event that reaches the element starts, and whether its default is prevented.
pub record Pressed : Type 0 where
  pub commands : List Command
  pub prevented : Bool

abbrev heard : Option (Command × Bool) → Pressed → Pressed
heard none rest = rest
heard (some (c, prevent)) rest = record {
  commands = c ∷ rest.commands;
  prevented = prevent || rest.prevented;
}

-- The listeners, in the order in which they were added.
unfoldable pub press : KeyDown → List View → Pressed
press e [] = record { commands = []; prevented = false }
press e (s ∷ views) = heard (command_of e) (press e views)
