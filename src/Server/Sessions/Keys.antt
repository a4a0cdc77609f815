-- ===== src/Server/Sessions/Keys.antt =====
-- No two users have the same PTY in the map of backend/internal/sessions/manager.go.
use claude_docker.Common.{
  ℕ, suc, ◌<◌, Bool, true, false, not, ◌||◌, ◌&&◌, Option, none, some, List, [], ◌∷◌, filter,
  if_ind, ◌==◌, ==_iff, Bool-cases, inl, inr, ◌∙◌, ltb, leb, ◌≡◌, refl, arith,
}
use claude_docker.Server.Sessions.{
  Row, Entry, Pool, drop_live, set_live, get_live, owns, count_alive, create, attach, attach_found,
  delete_found, delete_session, restart, restart_found, kill_all, is_stale, kill_or_mark, reap_row,
  reap_rows, reap_idle, process_exits, reboot, Event, connects, attaches, deletes, restarts,
  suspends, reaps, touches, exits, reboots, step, runs, stop, start, stop_all,
}

-- The user has this PTY in the map.
abbrev pub has_key : ℕ → ℕ → List Entry → Bool
has_key u k [] = false
has_key u k (e ∷ es) = (e.user == u && e.key == k) || has_key u k es

-- A PTY is in the map for one user, and was made before the next one.
pub record IsKeyed (live : List Entry) (next : ℕ) : Type 0 where
  pub one_user : (u v k : ℕ) → has_key u k live ≡ true → has_key v k live ≡ true → u ≡ v
  pub made : (u k : ℕ) → has_key u k live ≡ true → k < next

abbrev pub Keyed : Pool → Type 0
Keyed s = IsKeyed s.live s.next_key

pub get_live-has_key :
    (u i k : ℕ) (es : List Entry) → get_live u i es ≡ some k → has_key u k es ≡ true
unfolding get_live
get_live-has_key u i k [] h = cc
get_live-has_key u i k (e ∷ es) h = ground (arith, get_live-has_key u i k es)

has_key-filter :
    (f : Entry → Bool) (u k : ℕ) (es : List Entry)
    → has_key u k (filter f es) ≡ true
    → has_key u k es ≡ true
has_key-filter f u k [] h = h
has_key-filter f u k (e ∷ es) h = ground (arith, has_key-filter f u k es)

filter-IsKeyed :
    (f : Entry → Bool) (es : List Entry) (next : ℕ) → IsKeyed es next → IsKeyed (filter f es) next
filter-IsKeyed f es next m = record {
  one_user = λ u v k h g. m.one_user u v k (has_key-filter f u k es h) (has_key-filter f v k es g);
  made = λ u k h. m.made u k (has_key-filter f u k es h);
}

cons-IsKeyed :
    (v j : ℕ) (es : List Entry) (next : ℕ)
    → IsKeyed es next
    → IsKeyed (record { user = v; id = j; key = next } ∷ es) (suc next)
cons-IsKeyed v j es next m = record {
  one_user = λ u w k h g. ground (arith, m.one_user u w k, m.made u k, m.made w k);
  made = λ u k h. ground (arith, m.made u k);
}

set-IsKeyed :
    (v j : ℕ) (es : List Entry) (next : ℕ)
    → IsKeyed es next
    → IsKeyed (set_live v j next es) (suc next)
set-IsKeyed v j es next m = cons-IsKeyed v j _ next (filter-IsKeyed _ es next m)

create-Keyed : (cap v fresh now : ℕ) (s : Pool) → Keyed s → Keyed (create cap v fresh now s).1
unfolding create
create-Keyed cap v fresh now s m =
    if_ind {A = ℕ × Pool} (λ x. Keyed x.1) (ltb 0 cap && leb cap (count_alive v s.rows)) (λ _. m)
      (λ _. set-IsKeyed v fresh s.live s.next_key m)

attach-Keyed :
    (v j now : ℕ) (s : Pool) (o : Option ℕ) → Keyed s → Keyed (attach_found o v j now s).1
attach-Keyed v j now s (some k) m = m
attach-Keyed v j now s none m =
    if_ind {A = ℕ × Pool} (λ x. Keyed x.1) (owns v j s.rows)
      (λ _. set-IsKeyed v j s.live s.next_key m) (λ _. m)

delete-Keyed : (v j : ℕ) (s : Pool) (o : Option ℕ) → Keyed s → Keyed (delete_found o v j s).1
delete-Keyed v j s (some k) m = filter-IsKeyed _ s.live s.next_key m
delete-Keyed v j s none m =
    if_ind {A = ℕ × Pool} (λ x. Keyed x.1) (owns v j s.rows)
      (λ _. filter-IsKeyed _ s.live s.next_key m) (λ _. m)

restart-Keyed : (s : Pool) (o : Option ℕ) → Keyed s → Keyed (restart_found o s)
restart-Keyed s none m = m
restart-Keyed s (some k) m = m

pub kill_or_mark-Keyed :
    (v j : ℕ) (s : Pool) (o : Option ℕ) → Keyed s → Keyed (kill_or_mark o v j s)
kill_or_mark-Keyed v j s none m = m
kill_or_mark-Keyed v j s (some k) m = filter-IsKeyed _ s.live s.next_key m

reap_row-Keyed : (known : ℕ → Bool) (r : Row) (s : Pool) → Keyed s → Keyed (reap_row known r s)
reap_row-Keyed known r s m =
    if_ind {A = Pool} Keyed (known r.user)
      (λ _. kill_or_mark-Keyed r.user r.id s (get_live r.user r.id s.live) m) (λ _. m)

reap_rows-Keyed :
    (known : ℕ → Bool) (idle age now : ℕ) (snapshot : List Row) (s : Pool)
    → Keyed s
    → Keyed (reap_rows known idle age now snapshot s)
reap_rows-Keyed known idle age now [] s m = m
reap_rows-Keyed known idle age now (r ∷ snapshot) s m =
    reap_rows-Keyed known idle age now snapshot _ (
      if_ind {A = Pool} Keyed (r.alive && is_stale idle age now r) (λ _. reap_row-Keyed known r s m)
        (λ _. m))

-- Every step keeps that, whatever happens.
pub step-Keyed : (cap : ℕ → ℕ) (e : Event) (s : Pool) → Keyed s → Keyed (step cap e s)
unfolding step attach delete_session restart kill_all reap_idle process_exits reboot
step-Keyed cap (connects v fresh now) s m = create-Keyed (cap v) v fresh now s m
step-Keyed cap (attaches v j now) s m = attach-Keyed v j now s (get_live v j s.live) m
step-Keyed cap (deletes v j) s m = delete-Keyed v j s (get_live v j s.live) m
step-Keyed cap (restarts v j) s m = restart-Keyed s (get_live v j s.live) m
step-Keyed cap (suspends v) s m = filter-IsKeyed _ s.live s.next_key m
step-Keyed cap (reaps known idle age now) s m = reap_rows-Keyed known idle age now s.rows s m
step-Keyed cap (touches j now) s m = m
step-Keyed cap (exits p current) s m = filter-IsKeyed _ s.live s.next_key m
step-Keyed cap reboots s m = record { one_user = λ u v k h g. cc; made = λ u k h. cc }

module _ (u v : ℕ) (other : (u == v) ≡ false) where
  pub get_live-drop_user :
      (i j : ℕ) (es : List Entry) → get_live u i (drop_live v j es) ≡ get_live u i es
  unfolding get_live
  get_live-drop_user i j [] = refl
  get_live-drop_user i j (e ∷ es) = ground (arith, other, get_live-drop_user i j es)

  pub get_live-set_user :
      (i j k : ℕ) (es : List Entry) → get_live u i (set_live v j k es) ≡ get_live u i es
  unfolding get_live
  get_live-set_user i j k es = ground (arith, other, get_live-drop_user i j es)

  pub get_live-filter_user :
      (i : ℕ) (es : List Entry)
      → get_live u i (filter (λ (e : Entry). not (e.user == v)) es) ≡ get_live u i es
  unfolding get_live
  get_live-filter_user i [] = refl
  get_live-filter_user i (e ∷ es) = ground (arith, other, get_live-filter_user i es)

  -- A PTY of the one is no PTY of the other.
  pub has_key-other :
      (es : List Entry) (next k : ℕ)
      → IsKeyed es next
      → has_key u k es ≡ true
      → has_key v k es ≡ false
  has_key-other es next k m h = elim (Bool-cases (has_key v k es)) [
    | inr foreign ↦ foreign
    | inl too ↦ let e : u ≡ v = m.one_user u v k h too in ground (arith, other, e)
  ]

  pub key-other :
      (es : List Entry) (next i k k' : ℕ)
      → IsKeyed es next
      → has_key u k es ≡ true
      → get_live v i es ≡ some k'
      → (k == k') ≡ false
  key-other es next i k k' m h found = elim (Bool-cases (k == k')) [
    | inr apart ↦ apart
    | inl same ↦
        let e : k ≡ k' = (==_iff k k').0 same in
        let mine : has_key v k' es ≡ true = get_live-has_key v i k' es found in
        let foreign : has_key v k es ≡ false = has_key-other es next k m h in cc
  ]

pub runs-stop_other : (k k' : ℕ) (ks : List ℕ) → (k == k') ≡ false → runs k (stop k' ks) ≡ runs k ks
runs-stop_other k k' [] h = refl
runs-stop_other k k' (j ∷ ks) h = ground (arith, h, runs-stop_other k k' ks h)

pub runs-start_other :
    (k k' : ℕ) (ks : List ℕ) → (k == k') ≡ false → runs k (start k' ks) ≡ runs k ks
runs-start_other k k' ks h = ground (arith, h)

pub runs-stop_all_other :
    (v k : ℕ) (es : List Entry) (ks : List ℕ)
    → has_key v k es ≡ false
    → runs k (stop_all v es ks) ≡ runs k ks
runs-stop_all_other v k [] ks h = refl
runs-stop_all_other v k (e ∷ es) ks h = elim (Bool-cases (e.user == v)) [
  | inl mine ↦ rw mine (
      runs-stop_all_other v k es (stop e.key ks) (ground (arith, h))
      ∙ runs-stop_other k e.key ks (ground (arith, h, mine)))
  | inr foreign ↦ rw foreign (runs-stop_all_other v k es ks (ground (arith, h)))
]
