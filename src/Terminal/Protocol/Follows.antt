-- ===== src/Terminal/Protocol/Follows.antt =====
-- The handlers of web/src/terminal.js follow the state machine of a connection.
use claude_docker.Common.{
  [], ◌∷◌, ℕ, true, false, ◌≡◌, ◌⊎◌, inl, inr, refl, arith, if_ind, ◌==◌, sym, ◌∙◌, subst,
}
use claude_docker.Text.{Text, truthy}
use claude_docker.Terminal.State.{
  Term, Event, sessions_listed, opened, received, closed_with, timer_fires, kill_clicked,
  kill_returns, typed, pasted, resized, binary, json, not_json, Message, closed, live, disconnected,
  ended, resize, new,
}
use claude_docker.Terminal.Connection.{
  paste, handle, attach, on_open, on_message, on_close, on_json, on_timer, kill, kill_answered,
  exit_text, is_ping, is_session, is_exit, is_stale, sid_text, set_phase,
}
use claude_docker.Terminal.Invariant.{
  HasPhase, Possible, IsCoherent, Reach, Reach-IsCoherent, new-IsCoherent,
}
use claude_docker.Terminal.Protocol.{
  Link, lost, link, AsksFor, LeavesLink, Transition, attaches, keeps, IsFresh, stale_at, IsUp,
}
use claude_docker.Terminal.Protocol.Sockets.{
  schedule-link, send-link, opens-Transition, session-Transition, lost-Transition, retry-Transition,
  stale_at-set_phase, up-closed,
}
use claude_docker.Terminal.Protocol.Fresh.{Reach-IsFresh, new-IsFresh}

kept : (l : Link) (e : Event) {k : Link} → LeavesLink e → k ≡ l → Transition l e k
kept l e {k} h same = subst (λ j. Transition l e j) (sym same) (keeps l e h)

attached :
    (e : Event) (s t : Term) (sid : Text)
    → AsksFor e sid
    → Transition (link s) e (link (attach sid t))
unfolding attach
attached e s t sid a = attaches (link s) e sid a

module _ (s : Term) (v : IsCoherent s) (f : IsFresh s.ws) where
  on_json-Transition :
      (m : Message)
      → HasPhase live s.ws
      → Transition (link s) (received (json m)) (link (on_json m s))
  unfolding on_json
  on_json-Transition m h =
      if_ind (λ t. Transition (link s) (received (json m)) (link t)) (is_ping m)
        (λ ping. keeps (link s) (received (json m)) (inl ping))
        λ _.
          if_ind (λ t. Transition (link s) (received (json m)) (link t)) (is_session m)
            (λ ok. session-Transition s.ws s.current_sid m h ok)
            λ other.
              if_ind (λ t. Transition (link s) (received (json m)) (link t)) (is_exit m)
                (λ _.
                  kept (link s) _ (inr other)
                    (schedule-link [] (record s { status = ended (exit_text m.exit_code) })))
                (λ _. keeps (link s) (received (json m)) (inr other))

  on_close-Transition :
      (code : ℕ) → IsUp s.ws → Transition (link s) (closed_with code) (link (on_close code s))
  unfolding on_close attach
  on_close-Transition code up =
      let t = record s { ws = set_phase closed s.ws; status = disconnected code } in
      let gone = up-closed s.ws s.current_sid up in
      let ends : (code ≡ 1008) ⊎ (stale_at s.ws s.current_sid ≡ false)
          → Transition (link s) (closed_with code) lost =
        lost-Transition s.ws s.current_sid code v.sid f up in
      let same = stale_at-set_phase closed s.ws s.current_sid in
      if_ind (λ u. Transition (link s) (closed_with code) (link u)) (code == 1008)
        (λ bad. rw gone (ends (inl (ground arith))))
        λ other.
          if_ind (λ u. Transition (link s) (closed_with code) (link u)) (is_stale t)
            (λ st. retry-Transition s.ws s.current_sid code v.sid up (ground arith) (sym same ∙ st))
            (λ st. rw (schedule-link (sid_text s.current_sid) t, gone) (ends (inr (sym same ∙ st))))

  kill-Transition : Transition (link s) kill_clicked (link (kill s))
  unfolding kill
  kill-Transition =
      if_ind (λ t. Transition (link s) kill_clicked (link t)) (truthy (sid_text s.current_sid))
        (λ _. keeps (link s) kill_clicked tt) (λ _. attached kill_clicked s s [] refl)

  handle-Transition : (e : Event) → Possible e s → Transition (link s) e (link (handle e s))
  unfolding handle on_open on_message on_timer kill_answered paste
  handle-Transition (sessions_listed answer) p = attached _ s s _ refl
  handle-Transition opened p =
      subst (λ k. Transition (link s) opened k)
        (sym (
          send-link (resize s.cols s.rows)
            (record s { reconnect_attempts = 0; ws = set_phase live s.ws })))
        (opens-Transition s.ws s.current_sid f p)
  handle-Transition (received (binary bytes)) p = keeps (link s) _ tt
  handle-Transition (received (json m)) p = on_json-Transition m p
  handle-Transition (received not_json) p = keeps (link s) _ tt
  handle-Transition (closed_with code) p = on_close-Transition code p
  handle-Transition (timer_fires t) p = attached _ s _ t.sid refl
  handle-Transition kill_clicked p = kill-Transition
  handle-Transition (kill_returns false) p = keeps (link s) _ tt
  handle-Transition (kill_returns true) p = attached _ s _ [] refl
  handle-Transition (typed d) p = kept (link s) _ tt (send-link _ s)
  handle-Transition (pasted []) p = keeps (link s) _ tt
  handle-Transition (pasted (c ∷ d)) p = kept (link s) _ tt (send-link _ s)
  handle-Transition (resized c r) p = kept (link s) _ tt (send-link _ _)

-- In every state that a new page reaches, each event that the browser can deliver takes the
-- connection along a transition of the protocol.
pub Reach-Transition :
    (cols rows : ℕ) {s : Term} (e : Event)
    → Reach (new cols rows) s
    → Possible e s
    → Transition (link s) e (link (handle e s))
Reach-Transition cols rows {s} e r p =
    handle-Transition s (Reach-IsCoherent (new-IsCoherent cols rows) r)
      (Reach-IsFresh (new-IsFresh cols rows) r) e p
