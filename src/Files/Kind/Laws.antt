-- ===== src/Files/Kind/Laws.antt =====
-- How an entry is classified, and that icon, double click and menu agree.
use claude_docker.Common.{
  ℕ, Bool, true, false, List, [], ◌∷◌, ◌++◌, ◌≡◌, refl, ◌↔◌, arith, ==_refl, if◌then◌else◌, ◌||◌,
}
use claude_docker.Text.{Text, split, pop, includes_unit, has}
use claude_docker.Text.Laws.{split_of_free, split-append, pop-append}
use claude_docker.Files.Kind.{
  Entry, text_ext, img_ext, text_names, Icon, folder, image_icon, text_icon, Opening, go_to,
  preview, Item, open_item, preview_item, download_item, rename_item, delete_item, is_text,
  is_image, icon_for, open_entry, menu_items,
}

-- The part behind the last dot.
pub pop-split_last :
    (sep : ℕ) (stem ext : Text)
    → includes_unit sep ext ≡ false
    → pop (split sep (stem ++ (sep ∷ ext))) ≡ ext
pop-split_last sep stem ext h =
    rw (split-append sep stem ext, split_of_free sep ext h) (pop-append (split sep stem) ext)

includes_unit-append_sep : (sep : ℕ) (s t : Text) → includes_unit sep (s ++ (sep ∷ t)) ≡ true
unfolding includes_unit
includes_unit-append_sep sep [] t = rw (==_refl sep)
includes_unit-append_sep sep (c ∷ s) t = ground (arith, includes_unit-append_sep sep s t)

includes_unit-append :
    (sep : ℕ) (s t : Text)
    → includes_unit sep (s ++ t) ≡ (includes_unit sep s || includes_unit sep t)
unfolding includes_unit
includes_unit-append sep [] t = refl
includes_unit-append sep (c ∷ s) t = ground (arith, includes_unit-append sep s t)

module _ (to_lower : Text → Text) where
  -- A name `stem.ext`, with no slash and no dot in `ext`, is an image or a text by the lower-cased
  -- extension alone, whatever the stem.
  pub classify_by_extension :
      (stem ext : Text)
      → includes_unit b'.' ext ≡ false
      → includes_unit b'/' (stem ++ (b'.' ∷ ext)) ≡ false
      → (is_image to_lower (stem ++ (b'.' ∷ ext)) ≡ has img_ext (to_lower ext))
        × (is_text to_lower (stem ++ (b'.' ∷ ext)) ≡ has text_ext (to_lower ext))
  unfolding is_image is_text
  classify_by_extension stem ext dot slash = (
    rw (pop-split_last b'.' stem ext dot),
    rw (split_of_free b'/' (stem ++ (b'.' ∷ ext)) slash) (
        unfold pop in
        rw (includes_unit-append_sep b'.' stem ext, pop-split_last b'.' stem ext dot)),
  )

  -- A name with no dot and no slash is a text if it is, lower-cased, one of the four names of text
  -- files; but it is an image if it is one of the image extensions, although it has no extension.
  pub classify_of_no_dot :
      (name : Text)
      → includes_unit b'.' name ≡ false
      → includes_unit b'/' name ≡ false
      → (is_text to_lower name ≡ has text_names (to_lower name))
        × (is_image to_lower name ≡ has img_ext (to_lower name))
  unfolding is_text is_image
  classify_of_no_dot name dot slash = (
    rw (split_of_free b'/' name slash) (unfold pop in rw dot),
    rw (split_of_free b'.' name dot) (unfold pop in refl),
  )

-- The icons of entries that a double click previews.
abbrev pub is_preview_icon : Icon → Bool
is_preview_icon image_icon = true
is_preview_icon text_icon = true
is_preview_icon _ = false

abbrev pub item_eq : Item → Item → Bool
item_eq open_item open_item = true
item_eq preview_item preview_item = true
item_eq download_item download_item = true
item_eq rename_item rename_item = true
item_eq delete_item delete_item = true
item_eq _ _ = false

abbrev pub offers : Item → List Item → Bool
offers i [] = false
offers i (j ∷ items) = item_eq i j || offers i items

abbrev pub is_go_to : Opening → Bool
is_go_to (go_to _) = true
is_go_to _ = false

abbrev pub is_preview : Opening → Bool
is_preview (preview _) = true
is_preview _ = false

-- Icon, double click and context menu agree on every entry: the menu offers Open exactly where a
-- double click enters the directory, and there the icon is the folder; it offers Preview exactly
-- where a double click previews, and there the icon is that of an image or a text; it offers
-- Download exactly for what is no directory, and Rename and Delete always.
pub menu-agrees :
    (to_lower : Text → Text) (join_cwd : Text → Text) (e : Entry)
    → let items = menu_items to_lower e in
      let opening = open_entry to_lower join_cwd e in
      (offers open_item items ≡ is_go_to opening)
      × (is_go_to opening ≡ e.is_dir)
      × ((icon_for to_lower e ≡ folder) ↔ (e.is_dir ≡ true))
      × (offers preview_item items ≡ is_preview opening)
      × (is_preview opening ≡ is_preview_icon (icon_for to_lower e))
      × (offers download_item items ≡ (if e.is_dir then false else true))
      × (offers rename_item items ≡ true)
      × (offers delete_item items ≡ true)
unfolding menu_items open_entry icon_for
menu-agrees to_lower join_cwd e = ground arith
