-- ===== src/Server/Terminals/Served.antt =====
-- The outcomes of ensureSession of backend/internal/server/server.go: a session that is served, or a pool
-- that is as it was.
use claude_docker.Common.{
  ℕ, ◌*◌, ◌/◌, ◌%◌, ◌≤◌, ◌<◌, true, false, ◌&&◌, Option, none, some, List, [], ◌∷◌, ◌++◌, ◌==◌,
  ==_refl, ltb, leb, ◌≡◌, ◌⊎◌, inl, inr, refl, sym, ◌∙◌, subst, arith, Bool-cases,
}
use claude_docker.Text.{Text, truthy, text_eq}
use claude_docker.Terminal.Connection.{is_ping, is_session}
use claude_docker.Server.Sessions.{
  Row, Entry, Pool, create, attach_found, get_live, set_live, drop_live, owns, runs, start,
  connects, count_alive, add_pty, revive, mark_alive,
}
use claude_docker.Server.Sessions.Views.{row_on, get_live-found}
use claude_docker.Server.Sessions.Steps.{IsMatched, Possible, create-IsMatched, attach-IsMatched}
use claude_docker.Server.Sessions.Orphans.{runs-start}
use claude_docker.Server.Terminals.{
  base64_unit, base64_units, id_text, find_id, known_ids, Ensured, ensured, ensure_named,
  ensure_session, session_message,
}

truthy_snoc : (s : Text) (c : ℕ) → truthy (s ++ (c ∷ [])) ≡ true
truthy_snoc [] c = refl
truthy_snoc (d ∷ s) c = refl

pub id_text-truthy : (j : ℕ) → truthy (id_text j) ≡ true
unfolding id_text
id_text-truthy j = truthy_snoc (base64_units 21 (j * 16 / 64)) (base64_unit (j * 16 % 64))

pub message_names : (j : ℕ) → is_session (session_message j) ≡ true
unfolding text_eq
message_names j = id_text-truthy j

pub message_not_ping : (j : ℕ) → is_ping (session_message j) ≡ false
unfolding text_eq
message_not_ping j = refl

-- The session of this id has a PTY in the map, its process runs, and its row is alive.
pub record IsServed (v id : ℕ) (s : Pool) : Type 0 where
  pub key : ℕ
  pub found : get_live v id s.live ≡ some key
  pub running : runs key s.running ≡ true
  pub on : row_on v id s.rows ≡ true

-- The limit of the user is reached.
abbrev pub IsFull : ℕ → ℕ → Pool → Type 0
IsFull cap v s = (0 < cap) × (cap ≤ count_alive v s.rows)

get_live-set : (v j k : ℕ) (es : List Entry) → get_live v j (set_live v j k es) ≡ some k
unfolding get_live
get_live-set v j k es = rw (==_refl v, ==_refl j) refl

pub add_pty-IsServed :
    (v j : ℕ) (s : Pool) → IsMatched (add_pty v j s) → IsServed v j (add_pty v j s)
add_pty-IsServed v j s m =
    let found = get_live-set v j s.next_key s.live in
    record {
      key = s.next_key;
      found = found;
      running = runs-start s.next_key s.running;
      on = sym (m.matched v j) ∙ get_live-found v j (add_pty v j s).live s.next_key found;
    }

-- Whether the request of a session succeeds; if not, the pool is as it was, and either an id was asked
-- for or the limit is reached.
abbrev pub Outcome : ℕ → ℕ → Text → Pool → Ensured → Type 0
Outcome cap v sid s r =
    ((r.status ≡ 200) × IsServed v r.id r.pool)
    ⊎ (((r.status == 200) ≡ false) × (r.pool ≡ s) × ((truthy sid ≡ true) ⊎ IsFull cap v s))

abbrev pub new_row : ℕ → ℕ → ℕ → Row
new_row v fresh now = record { id = fresh; user = v; started = now; last_seen = now; alive = true }

abbrev pub with_row : ℕ → ℕ → ℕ → Pool → Pool
with_row v fresh now s = record s { rows = new_row v fresh now ∷ s.rows }

pub create_refused :
    (cap v fresh now : ℕ) (s : Pool)
    → (ltb 0 cap && leb cap (count_alive v s.rows)) ≡ true
    → create cap v fresh now s ≡ (409, s)
unfolding create
create_refused cap v fresh now s full = rw full refl

pub create_made :
    (cap v fresh now : ℕ) (s : Pool)
    → (ltb 0 cap && leb cap (count_alive v s.rows)) ≡ false
    → create cap v fresh now s ≡ (200, add_pty v fresh (with_row v fresh now s))
unfolding create
create_made cap v fresh now s room = rw room refl

create-Outcome :
    (cap v fresh now : ℕ) (sid : Text) (s : Pool)
    → Possible (connects v fresh now) s
    → IsMatched s
    → Outcome cap v sid s (ensured fresh (create cap v fresh now s))
create-Outcome cap v fresh now sid s p m =
    elim (Bool-cases (ltb 0 cap && leb cap (count_alive v s.rows))) [
      | inl full ↦
          rw (create_refused cap v fresh now s full)
            (inr (refl, refl, inr (ground arith, ground arith)))
      | inr room ↦
          let made = create_made cap v fresh now s room in
          let matched : IsMatched (add_pty v fresh (with_row v fresh now s)) =
            subst (λ (x : ℕ × Pool). IsMatched x.1) made (create-IsMatched cap v fresh now s p m) in
          rw made (inl (refl, add_pty-IsServed v fresh (with_row v fresh now s) matched))
    ]

attach_revives :
    (v j now : ℕ) (s : Pool)
    → owns v j s.rows ≡ true
    → attach_found none v j now s ≡ (200, revive v j now s)
attach_revives v j now s mine = rw mine refl

attach-Outcome :
    (cap v j now : ℕ) (sid : Text) (s : Pool) (o : Option ℕ)
    → get_live v j s.live ≡ o
    → truthy sid ≡ true
    → IsMatched s
    → Outcome cap v sid s (ensured j (attach_found o v j now s))
attach-Outcome cap v j now sid s (some k) e named m = inl (
  refl,
  record {
    key = k;
    found = e;
    running = runs-start k s.running;
    on = sym (m.matched v j) ∙ get_live-found v j s.live k e;
  },
)
attach-Outcome cap v j now sid s none e named m = elim (Bool-cases (owns v j s.rows)) [
  | inl mine ↦
      let revived = attach_revives v j now s mine in
      let matched : IsMatched (revive v j now s) =
        subst (λ (x : ℕ × Pool). IsMatched x.1) revived (attach-IsMatched v j now s none m) in
      rw mine
        (inl (refl, add_pty-IsServed v j (record s { rows = mark_alive j now s.rows }) matched))
  | inr foreign ↦ rw foreign (inr (refl, refl, inl named))
]

pub ensure-Outcome :
    (cap v fresh now : ℕ) (sid : Text) (s : Pool)
    → Possible (connects v fresh now) s
    → IsMatched s
    → Outcome cap v sid s (ensure_session cap v fresh now sid s)
unfolding ensure_session claude_docker.Server.Sessions.attach
ensure-Outcome cap v fresh now [] s p m = create-Outcome cap v fresh now [] s p m
ensure-Outcome cap v fresh now (c ∷ sid) s p m = named (find_id (c ∷ sid) (known_ids s))
  where
    named : (o : Option ℕ) → Outcome cap v (c ∷ sid) s (ensure_named o v now s)
    named none = inr (refl, refl, inl refl)
    named (some j) = attach-Outcome cap v j now (c ∷ sid) s (get_live v j s.live) refl refl m
