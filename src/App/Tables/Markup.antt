-- ===== src/App/Tables/Markup.antt =====
-- What the data of a row can do to its markup.
use claude_docker.Common.{
  ℕ, Bool, true, false, [], ◌∷◌, if◌then◌else◌, take, ◌≡◌, refl, arith, All, Bool-cases, inl, inr,
}
use claude_docker.Text.{Text, codes, text_eq}
use claude_docker.Escape.Markup.{count, count-concat, count-esc, count_of_IsInert, decimal-IsInert}
use claude_docker.Size.{decimal}
use claude_docker.Escape.Laws.{IsInert}
use claude_docker.App.Tables.{
  Account, user_parts, user_row, id_cell, status_pill, or_dash, LoginEvent, audit_parts, audit_row,
}

-- Whatever a login event holds, its row has the fourteen tags and the eight quotes of the template:
-- no date, name, address or user agent adds a tag to the table or ends an attribute.
pub audit_row-markup :
    (when : Text) (e : LoginEvent)
    → (count b'<' (audit_row when e) ≡ 14) × (count b'"' (audit_row when e) ≡ 8)
unfolding audit_row
audit_row-markup when e =
    let (w1, w2) = count-esc when in
    let (u1, u2) = count-esc e.username in
    let (i1, i2) = count-esc (or_dash e.ip) in
    let (a1, a2) = count-esc (take 60 (or_dash e.user_agent)) in
    elim (Bool-cases e.success) [
      | inl accepted ↦ (
        rw (count-concat b'<' (audit_parts when e), w1, u1, i1, a1, accepted) refl,
        rw (count-concat b'"' (audit_parts when e), w2, u2, i2, a2, accepted) refl,
      )
      | inr refused ↦ (
        rw (count-concat b'<' (audit_parts when e), w1, u1, i1, a1, refused) refl,
        rw (count-concat b'"' (audit_parts when e), w2, u2, i2, a2, refused) refl,
      )
    ]

-- An id cell has two tags and four quotes.
id_cell-count :
    (letter : Text) (id : ℕ)
    → (count b'<' letter ≡ 0)
    → (count b'"' letter ≡ 0)
    → (count b'<' (id_cell letter id) ≡ 2) × (count b'"' (id_cell letter id) ≡ 4)
id_cell-count letter id h k =
    let (d1, d2) = count_of_IsInert (decimal id) (decimal-IsInert id) in
    let parts =
      codes "<td class=\"muted\" id=\""
      ∷ letter
      ∷ codes "-"
      ∷ decimal id
      ∷ codes "\">—</td>"
      ∷ [] in
    (omega (arith, count-concat b'<' parts, d1, h), omega (arith, count-concat b'"' parts, d2, k))

-- If the role of a user has no angle bracket and no double quote, the row of the user has the twenty
-- tags and the twenty quotes of the template, whatever the name and the number of the user.
pub user_row-markup :
    (u : Account)
    → All IsInert u.role
    → (count b'<' (user_row u) ≡ 20) × (count b'"' (user_row u) ≡ 20)
unfolding user_row
user_row-markup u inert =
    let (n1, n2) = count-esc u.username in
    let (r1, r2) = count_of_IsInert u.role inert in
    let (d1, d2) = id_cell-count (codes "d") u.id refl refl in
    let (t1, t2) = id_cell-count (codes "t") u.id refl refl in
    let (s1, s2) = id_cell-count (codes "s") u.id refl refl in
    let (l1, l2) = id_cell-count (codes "ll") u.id refl refl in
    let (a1, a2) = admin_class (text_eq u.role (codes "admin")) in
    let (p1, p2) = status_pill-count u.suspended in
    (
      omega (arith, count-concat b'<' (user_parts u), n1, r1, d1, t1, s1, l1, a1, p1),
      omega (arith, count-concat b'"' (user_parts u), n2, r2, d2, t2, s2, l2, a2, p2),
    )
  where
    admin_class :
        (b : Bool)
        → let s = if b then codes "admin" else [] in (count b'<' s ≡ 0) × (count b'"' s ≡ 0)
    admin_class true = (refl, refl)
    admin_class false = (refl, refl)

    status_pill-count :
        (b : Bool) → (count b'<' (status_pill b) ≡ 2) × (count b'"' (status_pill b) ≡ 2)
    status_pill-count true = (refl, refl)
    status_pill-count false = (refl, refl)
