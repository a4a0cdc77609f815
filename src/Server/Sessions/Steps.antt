-- ===== src/Server/Sessions/Steps.antt =====
-- Every operation of backend/internal/sessions/manager.go keeps the map and the table together.
use claude_docker.Common.{
  ℕ, Bool, true, false, ◌&&◌, Option, none, some, List, [], ◌∷◌, All, if◌then◌else◌, if_ind, ◌==◌,
  ltb, leb, ◌≡◌, refl, sym, ◌∙◌, subst, arith,
}
use mathlib.Core.List.{Memᴰ}
use claude_docker.Server.Sessions.{
  Row, Pty, Pool, get_live, owns, count_alive, create, attach, attach_found, delete_found,
  delete_session, restart, restart_found, kill_all, is_stale, kill_or_mark, reap_row, reap_rows,
  reap_idle, process_exits, reboot, Event, connects, attaches, deletes, restarts, suspends, reaps,
  touches, exits, reboots, step, all_exited,
}
use claude_docker.Server.Sessions.Views.{
  live_has, live_has-drop, owns-exited, get_live-found, get_live-missing, row_on-owns,
  row_on-all_exited, owns-all_exited,
}
use claude_docker.Server.Sessions.Owners.{IsOwner}
use claude_docker.Server.Sessions.Matched.{
  Fits, drop_exit-Fits, drop_delete-Fits, exit-Fits, touch-Fits, reboot-Fits, kill_all-Fits,
  revive-Fits, create-Fits,
}

-- The map and the table of a pool say the same.
abbrev pub IsMatched : Pool → Type 0
IsMatched s = Fits s.rows s.live s.ptys

-- What can happen while no account is deleted: a new id is new, the reaper finds the user of every row,
-- and a process belongs to a PTY.
abbrev pub Possible : Event → Pool → Type 0
Possible (connects v fresh now) s =
    ((u : ℕ) → owns u fresh s.rows ≡ false) × All (λ (p : Pty). (p.id == fresh) ≡ false) s.ptys
Possible (attaches v j now) s = Unit
Possible (deletes v j) s = Unit
Possible (restarts v j) s = Unit
Possible (suspends v) s = Unit
Possible (reaps known idle age now) s = (v : ℕ) → known v ≡ true
Possible (touches j now) s = Unit
Possible (exits p current) s = Memᴰ p s.ptys
Possible reboots s = Unit

-- Rows of the id of a row of the user are the user's.
pub owns-IsOwner : (s : Pool) (v j : ℕ) → IsMatched s → owns v j s.rows ≡ true → IsOwner v j s.rows
owns-IsOwner s v j m o u h = m.unique u v j h o

live-IsOwner :
    (s : Pool) (v j k : ℕ) → IsMatched s → get_live v j s.live ≡ some k → IsOwner v j s.rows
live-IsOwner s v j k m e =
    owns-IsOwner s v j m
      (row_on-owns v j s.rows (sym (m.matched v j) ∙ get_live-found v j s.live k e))

pub create-IsMatched :
    (cap v fresh now : ℕ) (s : Pool)
    → Possible (connects v fresh now) s
    → IsMatched s
    → IsMatched (create cap v fresh now s).1
unfolding create
create-IsMatched cap v fresh now s (new, apart) m =
    if_ind {A = ℕ × Pool} (λ x. IsMatched x.1) (ltb 0 cap && leb cap (count_alive v s.rows))
      (λ _. m) (λ _. create-Fits v fresh s.next_key now new apart m)

pub attach-IsMatched :
    (v j now : ℕ) (s : Pool) (o : Option ℕ) → IsMatched s → IsMatched (attach_found o v j now s).1
attach-IsMatched v j now s (some k) m = record {
  matched = m.matched;
  unique = m.unique;
  reapers = m.reapers;
}
attach-IsMatched v j now s none m =
    if_ind {A = ℕ × Pool} (λ x. IsMatched x.1) (owns v j s.rows)
      (λ o. revive-Fits v j s.next_key now o m) (λ _. m)

pub delete-IsMatched :
    (v j : ℕ) (s : Pool) (o : Option ℕ)
    → get_live v j s.live ≡ o
    → IsMatched s
    → IsMatched (delete_found o v j s).1
delete-IsMatched v j s (some k) e m = drop_exit-Fits v j (live-IsOwner s v j k m e) m
delete-IsMatched v j s none e m =
    if_ind {A = ℕ × Pool} (λ x. IsMatched x.1) (owns v j s.rows)
      (λ o. drop_delete-Fits v j (owns-IsOwner s v j m o) m) (λ _. m)

restart-IsMatched : (s : Pool) (o : Option ℕ) → IsMatched s → IsMatched (restart_found o s)
restart-IsMatched s none m = m
restart-IsMatched s (some k) m = record {
  matched = m.matched;
  unique = m.unique;
  reapers = m.reapers;
}

-- What a round of the reaper keeps.
abbrev Kept : Pool → Pool → Type 0
Kept s t =
    IsMatched t
    × ((u i : ℕ) → owns u i t.rows ≡ owns u i s.rows)
    × ((u i : ℕ) → live_has u i s.live ≡ false → live_has u i t.live ≡ false)

kill_or_mark-Kept :
    (v j : ℕ) (s : Pool) (o : Option ℕ)
    → get_live v j s.live ≡ o
    → owns v j s.rows ≡ true
    → IsMatched s
    → Kept s (kill_or_mark o v j s)
kill_or_mark-Kept v j s (some k) e o m = (
  drop_exit-Fits v j (owns-IsOwner s v j m o) m,
  (λ u i. owns-exited u i j s.rows),
  (λ u i gone. rw (live_has-drop u i v j s.live, gone) refl),
)
kill_or_mark-Kept v j s none e o m = (
  exit-Fits v j (owns-IsOwner s v j m o) (get_live-missing v j s.live e) m,
  (λ u i. owns-exited u i j s.rows),
  (λ u i gone. gone),
)

reap_row-Kept :
    (known : ℕ → Bool) (r : Row) (s : Pool)
    → owns r.user r.id s.rows ≡ true
    → ((v i : ℕ) → known v ≡ false → live_has v i s.live ≡ false)
    → IsMatched s
    → Kept s (reap_row known r s)
reap_row-Kept known r s o gone m =
    if_ind {A = Pool} (λ t. Kept s t) (known r.user)
      (λ _. kill_or_mark-Kept r.user r.id s (get_live r.user r.id s.live) refl o m)
      (λ unknown. (
        exit-Fits r.user r.id (owns-IsOwner s r.user r.id m o) (gone r.user r.id unknown) m,
        (λ u i. owns-exited u i r.id s.rows),
        (λ u i g. g),
      ))

reap_rows-IsMatched :
    (known : ℕ → Bool) (idle age now : ℕ) (snapshot : List Row) (s : Pool)
    → All (λ (r : Row). owns r.user r.id s.rows ≡ true) snapshot
    → ((v i : ℕ) → known v ≡ false → live_has v i s.live ≡ false)
    → IsMatched s
    → IsMatched (reap_rows known idle age now snapshot s)
reap_rows-IsMatched known idle age now [] s o gone m = m
reap_rows-IsMatched known idle age now (r ∷ snapshot) s (o, os) gone m =
    let t = if r.alive && is_stale idle age now r then reap_row known r s else s in
    let (m', same, fewer) : Kept s t =
      if_ind {A = Pool} (λ t. Kept s t) (r.alive && is_stale idle age now r)
        (λ _. reap_row-Kept known r s o gone m) (λ _. (m, (λ u i. refl), (λ u i g. g))) in
    reap_rows-IsMatched known idle age now snapshot t (still s t same snapshot os)
      (λ v i unknown. fewer v i (gone v i unknown)) m'
  where
    still :
        (s t : Pool)
        → ((u i : ℕ) → owns u i t.rows ≡ owns u i s.rows)
        → (snapshot : List Row) → All (λ (r : Row). owns r.user r.id s.rows ≡ true) snapshot
        → All (λ (r : Row). owns r.user r.id t.rows ≡ true) snapshot
    still s t same [] h = tt
    still s t same (r ∷ rs) (o, h) = (same r.user r.id ∙ o, still s t same rs h)

weaker :
    (x : Row) (rows snapshot : List Row)
    → All (λ (r : Row). owns r.user r.id rows ≡ true) snapshot
    → All (λ (r : Row). owns r.user r.id (x ∷ rows) ≡ true) snapshot
unfolding owns
weaker x rows [] h = tt
weaker x rows (r ∷ snapshot) (o, h) = (ground arith, weaker x rows snapshot h)

owns-All : (rows : List Row) → All (λ (r : Row). owns r.user r.id rows ≡ true) rows
unfolding owns
owns-All [] = tt
owns-All (r ∷ rows) = (ground arith, weaker r rows rows (owns-All rows))

reaper_of :
    (p : Pty) (rows : List Row) (ptys : List Pty)
    → All (λ (q : Pty). IsOwner q.user q.id rows) ptys
    → Memᴰ p ptys
    → IsOwner p.user p.id rows
reaper_of p rows [] h m = elim m [ ]
reaper_of p rows (q ∷ ptys) (o, h) (Memᴰ.head e) = subst (λ x. IsOwner x.user x.id rows) (sym e) o
reaper_of p rows (q ∷ ptys) (o, h) (Memᴰ.tail m) = reaper_of p rows ptys h m

pub step-IsMatched :
    (cap : ℕ → ℕ) (e : Event) (s : Pool) → Possible e s → IsMatched s → IsMatched (step cap e s)
unfolding step attach delete_session restart kill_all reap_idle process_exits reboot
step-IsMatched cap (connects v fresh now) s p m = create-IsMatched (cap v) v fresh now s p m
step-IsMatched cap (attaches v j now) s p m = attach-IsMatched v j now s (get_live v j s.live) m
step-IsMatched cap (deletes v j) s p m = delete-IsMatched v j s (get_live v j s.live) refl m
step-IsMatched cap (restarts v j) s p m = restart-IsMatched s (get_live v j s.live) m
step-IsMatched cap (suspends v) s p m = kill_all-Fits v m
step-IsMatched cap (reaps known idle age now) s p m =
    reap_rows-IsMatched known idle age now s.rows s (owns-All s.rows) (λ v i unknown. cc (p v)) m
step-IsMatched cap (touches j now) s p m = touch-Fits j now m
step-IsMatched cap (exits q current) s p m =
    drop_exit-Fits q.user q.id (reaper_of q s.rows s.ptys m.reapers p) m
step-IsMatched cap reboots s p m = reboot-Fits m

pub data Reach (cap : ℕ → ℕ) (s : Pool) : Pool → Type 0 where
  here : Reach cap s s
  next : {t : Pool} → Reach cap s t → (e : Event) → Possible e t → Reach cap s (step cap e t)

Reach-IsMatched_from : (cap : ℕ → ℕ) {s t : Pool} → Reach cap s t → IsMatched s → IsMatched t
Reach-IsMatched_from cap here m = m
Reach-IsMatched_from cap (next {t} r e p) m =
    step-IsMatched cap e t p (Reach-IsMatched_from cap r m)

-- The server has just started on this table.
abbrev pub started : List Row → Pool
started rows = record { rows = all_exited rows; live = []; ptys = []; running = []; next_key = 0 }

-- Let a server start on a table in which an id belongs to one user, let its operations and the ends of
-- processes happen in any order, but each as a whole before the next begins, and let no account be
-- deleted. Then always: a user has a PTY in the map for an id exactly if the table has a row of that id
-- that is the user's and alive; an id belongs to one user; and a reaper acts for the user to whom the
-- rows of its id belong.
pub Reach-IsMatched :
    (cap : ℕ → ℕ) (rows : List Row) {t : Pool}
    → ((u v i : ℕ) → owns u i rows ≡ true → owns v i rows ≡ true → u ≡ v)
    → Reach cap (started rows) t
    → IsMatched t
Reach-IsMatched cap rows unique r = Reach-IsMatched_from cap r (record {
  matched = λ u i. sym (row_on-all_exited u i rows);
  unique = λ u v i h k.
      unique u v i (sym (owns-all_exited u i rows) ∙ h) (sym (owns-all_exited v i rows) ∙ k);
  reapers = tt;
})
