-- ===== src/Terminal/Clipboard.antt =====
-- Copying the selection in web/src/terminal.js: copySelection and fallbackCopy, and what the keys and
-- the context menu make of a selection.
use claude_docker.Common.{
  Bool, true, false, Option, none, some, List, ◌∷◌, if◌then◌else◌, ◌≡◌, refl,
}
use claude_docker.Text.{Text}

-- How the browser takes the copy: writeText is there and succeeds or fails, or is not there; and
-- execCommand("copy") does its work, or does nothing or throws.
pub data WriteText : Type 0 where
  succeeds fails missing : WriteText

pub record Browser : Type 0 where
  pub write_text : WriteText
  pub exec_copies : Bool

-- The selection, the clipboard, and the textareas of fallbackCopy that are in the document.
pub record Copying : Type 0 where
  pub selection : Option Text
  pub clipboard : Text
  pub textareas : List Text

-- fallbackCopy(text)
unfoldable pub fallback_copy : Bool → Text → Copying → Copying
fallback_copy exec_copies text c =
    let with_area = record c { textareas = text ∷ c.textareas } in
    let after_copy = if exec_copies then record with_area { clipboard = text } else with_area in
    record after_copy { textareas = c.textareas }

-- The copy of copySelection, when the promise of writeText has settled.
unfoldable pub write_out : Browser → Text → Copying → Copying
unfolding fallback_copy
write_out b text c = elim b.write_text [
  | succeeds ↦ record c { clipboard = text }
  | fails ↦ fallback_copy b.exec_copies text c
  | missing ↦ fallback_copy b.exec_copies text c
]

-- copySelection()
unfoldable pub copy_selection : Browser → Copying → Copying
unfolding write_out
copy_selection b c = elim c.selection [
  | none ↦ c
  | some text ↦ record (write_out b text c) { selection = none }
]

-- The browser can copy by one of the two ways.
abbrev pub can_copy : Browser → Bool
can_copy b = elim b.write_text [ succeeds ↦ true | fails ↦ b.exec_copies | missing ↦ b.exec_copies ]

abbrev clipboard_after : Browser → Option Text → Text → Text
clipboard_after b none before = before
clipboard_after b (some text) before = if can_copy b then text else before

-- Case by case, on the selection and on how the browser copies.
copied :
    (w : WriteText) (exec : Bool) (selection : Option Text) (clipboard : Text) (areas : List Text)
    → let b : Browser = record { write_text = w; exec_copies = exec } in
      let d =
        copy_selection b
          (record { selection = selection; clipboard = clipboard; textareas = areas }) in
      (d.selection ≡ none)
      × (d.textareas ≡ areas)
      × (d.clipboard ≡ clipboard_after b selection clipboard)
unfolding copy_selection
copied w exec none clipboard areas = (refl, refl, refl)
copied succeeds exec (some text) clipboard areas = (refl, refl, refl)
copied fails true (some text) clipboard areas = (refl, refl, refl)
copied fails false (some text) clipboard areas = (refl, refl, refl)
copied missing true (some text) clipboard areas = (refl, refl, refl)
copied missing false (some text) clipboard areas = (refl, refl, refl)

-- Copying puts the selection into the clipboard if the browser has a way that works, and leaves the
-- clipboard as it is if not, or if nothing is selected; in every case nothing is selected afterwards
-- and no textarea is left in the document.
pub copy_selection_lem :
    (b : Browser) (c : Copying)
    → let d = copy_selection b c in
      (d.selection ≡ none)
      × (d.textareas ≡ c.textareas)
      × (d.clipboard ≡ clipboard_after b c.selection c.clipboard)
copy_selection_lem b c = copied b.write_text b.exec_copies c.selection c.clipboard c.textareas
