-- ===== src/Files/Menu/Closing.antt =====
-- The menu of openMenu of web/src/files.js, and the listener that closes it.
use claude_docker.Common.{
  ℕ, true, false, not, Option, none, List, [], ◌∷◌, length, ◌≤◌, ◌==◌, ==_iff, ◌≡◌, ◌≢◌, ◌⊎◌, inl,
  inr, refl, ap, ◌∙◌, arith, Bool-cases, if_ind,
}
use mathlib.Core.List.{Memᴰ}
use mathlib.Core.List.Memᴰ
use claude_docker.Text.{Text}
use claude_docker.Files.Kind.{Item}
use claude_docker.Files.Menu.{
  Menu, Screen, MenuEvent, asked, timeout, mouse, clicked, drop_id, remove_menu, open_menu, listen,
  close_menu, contains, on_down, on_downs, mouse_down, item_click, menu_step, menu_run,
}

-- Its timeout waits, or its listener is there.
abbrev pub IsGuarded : ℕ → Screen → Type 0
IsGuarded k s = Memᴰ k s.waiting ⊎ Memᴰ k s.listening

-- No menu is shown, or one, which is going to be closed.
abbrev pub IsTidy : Screen → Type 0
IsTidy s = (s.menus ≡ []) ⊎ ((m : Menu) × (s.menus ≡ m ∷ []) × IsGuarded m.id s)

clash : (i j k : ℕ) → i ≡ j → (i == k) ≡ false → not (j == k) ≡ false → ⊥
clash i j k = ground arith

differs : (i j k : ℕ) → i ≡ j → (j == k) ≡ false → i ≢ k
differs i j k = ground arith

kept_in : (i k : ℕ) (ids : List ℕ) → (i == k) ≡ false → Memᴰ i ids → Memᴰ i (drop_id k ids)
kept_in i k [] e m = elim m [ ]
kept_in i k (j ∷ ids) e (Memᴰ.head same) =
    if_ind (λ l. Memᴰ i l) (not (j == k)) (λ _. Memᴰ.head same) (λ t. absurd (clash i j k same e t))
kept_in i k (j ∷ ids) e (Memᴰ.tail m) =
    if_ind (λ l. Memᴰ i l) (not (j == k)) (λ _. Memᴰ.tail (kept_in i k ids e m))
      (λ _. kept_in i k ids e m)

-- What is left was there, and is not the id dropped.
left_in : (i k : ℕ) (ids : List ℕ) → Memᴰ i (drop_id k ids) → Memᴰ i ids × (i ≢ k)
left_in i k [] m = elim m [ ]
left_in i k (j ∷ ids) m = elim (Bool-cases (j == k)) [
  | inl same ↦ let (old, ne) = left_in i k ids (rw same at m) in (Memᴰ.tail old, ne)
  | inr other ↦ elim (rw other at m) [
    | Memᴰ.head e ↦ (Memᴰ.head e, differs i j k e other)
    | Memᴰ.tail n ↦ let (old, ne) = left_in i k ids n in (Memᴰ.tail old, ne)
  ]
]

remove_one :
    (k : ℕ) (m : Menu)
    → ((m.id == k) ≡ true) × (remove_menu k (m ∷ []) ≡ [])
      ⊎ ((m.id == k) ≡ false) × (remove_menu k (m ∷ []) ≡ m ∷ [])
remove_one k m = elim (Bool-cases (m.id == k)) [
  | inl e ↦ inl (e, rw e refl)
  | inr e ↦ inr (e, rw e refl)
]

close-IsTidy : (k : ℕ) (s : Screen) → IsTidy s → IsTidy (close_menu k s)
unfolding close_menu
close-IsTidy k s (inl e) = inl (ap (remove_menu k) e)
close-IsTidy k s (inr (m, e, g)) = elim (remove_one k m) [
  | inl (_, gone) ↦ inl (ap (remove_menu k) e ∙ gone)
  | inr (ne, here) ↦ inr (
    m,
    ap (remove_menu k) e ∙ here,
    elim g [ inl w ↦ inl w | inr l ↦ inr (kept_in m.id k s.listening ne l) ],
  )
]

on_down-IsTidy : (target : Option ℕ) (k : ℕ) (s : Screen) → IsTidy s → IsTidy (on_down target k s)
unfolding on_down
on_down-IsTidy target k s v = if_ind IsTidy (contains target k) (λ _. v) (λ _. close-IsTidy k s v)

on_downs-IsTidy :
    (target : Option ℕ) (ks : List ℕ) (s : Screen) → IsTidy s → IsTidy (on_downs target ks s)
on_downs-IsTidy target [] s v = v
on_downs-IsTidy target (k ∷ ks) s v =
    on_downs-IsTidy target ks (on_down target k s) (on_down-IsTidy target k s v)

listen-IsTidy : (k : ℕ) (s : Screen) → IsTidy s → IsTidy (listen k s)
unfolding listen
listen-IsTidy k s (inl e) = inl e
listen-IsTidy k s (inr (m, e, inr l)) = inr (m, e, inr (Memᴰ.append_left (k ∷ []) l))
listen-IsTidy k s (inr (m, e, inl w)) = elim (Bool-cases (m.id == k)) [
  | inl same ↦ inr (m, e, inr (Memᴰ.append_right s.listening (Memᴰ.head ((==_iff m.id k).0 same))))
  | inr other ↦ inr (m, e, inl (kept_in m.id k s.waiting other w))
]

item_click-IsTidy : (m : Menu) (i : Item) (s : Screen) → IsTidy s → IsTidy (item_click m i s)
unfolding item_click
item_click-IsTidy m i s (inl e) = inl (ap (remove_menu m.id) e)
item_click-IsTidy m i s (inr (n, e, g)) = elim (remove_one m.id n) [
  | inl (_, gone) ↦ inl (ap (remove_menu m.id) e ∙ gone)
  | inr (_, here) ↦ inr (n, ap (remove_menu m.id) e ∙ here, g)
]

menu_run-IsTidy :
    (to_lower : Text → Text) (es : List MenuEvent) (s : Screen)
    → IsTidy s
    → IsTidy (menu_run to_lower es s)
unfolding menu_step open_menu
menu_run-IsTidy to_lower [] s v = v
menu_run-IsTidy to_lower (asked e x y width height ∷ es) s v =
    menu_run-IsTidy to_lower es _
      (inr (_, refl, inl (Memᴰ.append_right s.waiting (Memᴰ.head refl))))
menu_run-IsTidy to_lower (timeout k ∷ es) s v = menu_run-IsTidy to_lower es _ (listen-IsTidy k s v)
menu_run-IsTidy to_lower (mouse target ∷ es) s v =
    menu_run-IsTidy to_lower es _ (on_downs-IsTidy target s.listening s v)
menu_run-IsTidy to_lower (clicked m i ∷ es) s v =
    menu_run-IsTidy to_lower es _ (item_click-IsTidy m i s v)

-- A mouse-down outside of every menu leaves no listener of those called.
left_after :
    (ks : List ℕ) (i : ℕ) (s : Screen)
    → Memᴰ i (on_downs none ks s).listening
    → Memᴰ i s.listening × ¬ Memᴰ i ks
unfolding on_down close_menu
left_after [] i s m = (m, λ n. elim n [ ])
left_after (k ∷ ks) i s m =
    let (below, not_later) = left_after ks i (close_menu k s) m in
    let (old, ne) = left_in i k s.listening below in
    (old, λ n. elim n [ Memᴰ.head e ↦ ne e | Memᴰ.tail l ↦ not_later l ])

no_members : (ids : List ℕ) → ((i : ℕ) → ¬ Memᴰ i ids) → ids ≡ []
no_members [] h = refl
no_members (i ∷ ids) h = absurd (h i (Memᴰ.head refl))

same_waiting : (ks : List ℕ) (s : Screen) → (on_downs none ks s).waiting ≡ s.waiting
unfolding on_down close_menu
same_waiting [] s = refl
same_waiting (k ∷ ks) s = same_waiting ks (close_menu k s)

nothing_listens : (s : Screen) → (mouse_down none s).listening ≡ []
nothing_listens s =
    no_members _ (λ i m. let (old, not_called) = left_after s.listening i s m in not_called old)

some_member : (k : ℕ) (ids : List ℕ) → Memᴰ k ids → 1 ≤ length ids
some_member k [] m = elim m [ ]
some_member k (i ∷ ids) m = omega arith

-- A menu without a listener is one whose timeout waits.
unheard_few : (s : Screen) → IsTidy s → s.listening ≡ [] → length s.menus ≤ length s.waiting
unheard_few s (inl e) l = rw e (omega arith)
unheard_few s (inr (m, e, inl g)) l = rw e (some_member m.id s.waiting g)
unheard_few s (inr (m, _, inr g)) l = elim (rw l at g) [ ]

menus_few : (s : Screen) → IsTidy s → length s.menus ≤ 1
menus_few s (inl e) = rw e (omega arith)
menus_few s (inr (m, e, _)) = rw e (omega arith)

-- From a page without a menu, after any events in any order: at most one menu is shown; and a
-- mouse-down outside of it leaves no listener, and a menu only if the timeout of one still waits.
pub one_menu :
    (to_lower : Text → Text) (es : List MenuEvent) (s : Screen)
    → s.menus ≡ []
    → let t = menu_run to_lower es s in
      (length t.menus ≤ 1)
      × ((mouse_down none t).listening ≡ [])
      × (length (mouse_down none t).menus ≤ length t.waiting)
one_menu to_lower es s e =
    let t = menu_run to_lower es s in
    let v : IsTidy t = menu_run-IsTidy to_lower es s (inl e) in
    let after =
      unheard_few (mouse_down none t) (on_downs-IsTidy none t.listening t v) (nothing_listens t) in
    (menus_few t v, nothing_listens t, omega (arith, after, ap length (same_waiting t.listening t)))
