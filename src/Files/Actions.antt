-- ===== src/Files/Actions.antt =====
-- The commands of class FileView that change files: delete, rename, new folder, upload, drop and
-- move (web/src/files.js). While a loop waits for an answer the user may go on, so what a loop reads
-- of the object in its k-th round, `this.cwd`, is given by a function of k, as the answer is.
pub mod Laws
use claude_docker.Common.{
  ℕ, suc, ◌+◌, ◌≤◌, Bool, true, false, not, ◌&&◌, ◌||◌, Option, none, some, List, [], ◌∷◌, ◌++◌,
  if◌then◌else◌, leb, ltb,
}
use claude_docker.Text.{Text, truthy, text_eq, split, pop}
use claude_docker.Api.{is_ok}
use claude_docker.Files.FilePath.{join}
use claude_docker.Files.Kind.{Entry}
use claude_docker.Files.View.{View, go}

-- A round of a loop: the directory that it reads, and the status of the answer to its request, or
-- `none` where fetch throws.
pub record Round : Type 0 where
  pub cwd : Text
  pub status : Option ℕ

-- How a loop ends: with its last element, by an answer that is no success (for an element, with a
-- status), or by an exception.
pub data Ending : Type 0 where
  finished : Ending
  refused : Text → ℕ → Ending
  threw : Ending

-- The paths of the requests in order, and the end.
pub record Loop : Type 0 where
  pub requests : List Text
  pub ending : Ending

abbrev pub after_answer : Text → Text → Option ℕ → Loop → Loop
after_answer path n none rest = record { requests = path ∷ []; ending = threw }
after_answer path n (some status) rest =
    if is_ok status
    then record { requests = path ∷ rest.requests; ending = rest.ending }
    else record { requests = path ∷ []; ending = refused n status }

-- The loop of deleteSelected().
unfoldable pub delete_loop : (ℕ → Round) → ℕ → List Text → Loop
delete_loop rounds k [] = record { requests = []; ending = finished }
delete_loop rounds k (n ∷ names) =
    let rest = delete_loop rounds (suc k) names in
    after_answer (join (rounds k).cwd n) n (rounds k).status rest

-- The end of deleteSelected(), unless an exception has left it.
unfoldable pub delete_done : View → View
delete_done s = go s.cwd false (record s { selected = [] })

-- deleteSelected(), the requests: nothing happens without a selection or if the user says no.
unfoldable pub delete_selected : Bool → (ℕ → Round) → View → Loop
unfolding delete_loop
delete_selected confirmed rounds s = elim s.selected [
  | [] ↦ record { requests = []; ending = finished }
  | n ∷ names ↦
      if confirmed
      then delete_loop rounds 0 (n ∷ names)
      else record { requests = []; ending = finished }
]

-- A request to rename a path.
pub record Rename : Type 0 where
  pub source : Text
  pub target : Text

-- renameSelected() up to its request, given the answer of the prompt and the selection.
unfoldable pub rename_first : Text → Option Text → List Text → Option Rename
rename_first cwd answer [] = none
rename_first cwd none (name ∷ _) = none
rename_first cwd (some to) (name ∷ _) =
    if not (truthy name) || not (truthy to) || text_eq to name
    then none
    else some (record { source = join cwd name; target = join cwd to })

unfoldable pub rename_selected : Option Text → View → Option Rename
rename_selected answer s = rename_first s.cwd answer s.selected

-- The end of renameSelected(), after any answer.
unfoldable pub rename_done : Text → View → View
rename_done to s = go s.cwd false (record s { selected = to ∷ [] })

-- onclick of fm-mkdir: the path that is sent.
unfoldable pub mkdir : Option Text → View → Option Text
mkdir none s = none
mkdir (some name) s = if truthy name then some (join s.cwd name) else none

-- The end of it, if the answer is a success.
unfoldable pub mkdir_done : View → View
mkdir_done s = go s.cwd false s

-- The drop of the path `src` on the entry `e` of the directory `cwd`.
unfoldable pub move_onto : Text → Entry → Text → Option Rename
move_onto cwd e src =
    if truthy src
    then some (record { source = src; target = join (join cwd e.name) (pop (split b'/' src)) })
    else none

-- The text that `dragstart` puts into the transfer.
abbrev pub dragged : Text → Entry → Text
dragged cwd e = join cwd e.name

-- uploadFile resolves in any case: with status 0 where the request fails.
pub record Upload : Type 0 where
  pub cwd : Text
  pub status : ℕ

-- An upload that was sent: the file and the directory.
pub record Sent : Type 0 where
  pub file : Text
  pub dir : Text

pub record Uploads : Type 0 where
  pub sent : List Sent
  pub alerts : List Text  -- the files whose failure was shown
  pub refreshed : Bool  -- whether the list was loaded again at the end

-- `upload(files)` of the toolbar: the first failure ends it.
unfoldable pub upload_loop : (ℕ → Upload) → ℕ → List Text → Uploads
upload_loop rounds k [] = record { sent = []; alerts = []; refreshed = true }
upload_loop rounds k (f ∷ files) =
    let rest = upload_loop rounds (suc k) files in
    let here : Sent = record { file = f; dir = (rounds k).cwd } in
    if is_ok (rounds k).status
    then record { sent = here ∷ rest.sent; alerts = rest.alerts; refreshed = rest.refreshed }
    else record { sent = here ∷ []; alerts = f ∷ []; refreshed = false }

-- The loop of `drop.ondrop`: a failure is shown, and the loop goes on.
unfoldable pub drop_loop : (ℕ → Upload) → ℕ → List Text → Uploads
drop_loop rounds k [] = record { sent = []; alerts = []; refreshed = true }
drop_loop rounds k (f ∷ files) =
    let rest = drop_loop rounds (suc k) files in
    record {
      sent = record { file = f; dir = (rounds k).cwd } ∷ rest.sent;
      alerts = if is_ok (rounds k).status then rest.alerts else f ∷ rest.alerts;
      refreshed = rest.refreshed;
    }

-- drop.ondrop: an empty list of files is passed over.
unfoldable pub drop_files : (ℕ → Upload) → List Text → Uploads
unfolding drop_loop
drop_files rounds [] = record { sent = []; alerts = []; refreshed = false }
drop_files rounds (f ∷ files) = drop_loop rounds 0 (f ∷ files)
