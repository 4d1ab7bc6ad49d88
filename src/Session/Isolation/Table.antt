-- ===== src/Session/Isolation/Table.antt =====
-- What the changes of one session leave of the table of IMServer/IMServer/IMSer.cpp.
use aim_server.Common.{
  ◌≡◌, refl, sym, ◌∙◌, subst, some, inl, inr, true, false, List, [], ◌∷◌, arith, Bytes, bytes_eq,
  bytes_eq_iff, bytes_lt, bytes_lt_trans, bytes_lt_total, Bool-cases, if-elim,
}
use aim_server.Session.State.{
  ClientSession, session_at, insert_session, erase_session, update_session,
}
use aim_server.Session.Isolation.Pushes.{Touches, same, changed}

-- Each session stands under its own id, the address of its connection.
abbrev pub IsKeyed : List (Bytes × ClientSession) → Type 0
IsKeyed [] = Unit
IsKeyed ((j, t) ∷ m) = (t.sessionid ≡ j) × IsKeyed m

-- A key before every key of a table.
abbrev Above : Bytes → List (Bytes × ClientSession) → Type 0
Above j [] = Unit
Above j ((k, t) ∷ m) = (bytes_lt j k ≡ true) × Above j m

-- The keys ascend.
abbrev IsAscending : List (Bytes × ClientSession) → Type 0
IsAscending [] = Unit
IsAscending ((j, t) ∷ m) = Above j m × IsAscending m

-- The table of sessions: its keys ascend, so that none stands twice, and each session stands
-- under its own id.
abbrev pub IsTable : List (Bytes × ClientSession) → Type 0
IsTable m = IsAscending m × IsKeyed m

Above-trans :
    (i j : Bytes) (m : List (Bytes × ClientSession)) → bytes_lt i j ≡ true → Above j m → Above i m
Above-trans i j [] below h = tt
Above-trans i j ((k, t) ∷ m) below h = (bytes_lt_trans i j k below h.0, Above-trans i j m below h.1)

update_session-Above :
    (j : Bytes) (s : ClientSession) (m : List (Bytes × ClientSession))
    → Above j m
    → Above j (update_session s m)
unfolding update_session
update_session-Above j s [] h = tt
update_session-Above j s ((k, t) ∷ m) h = elim (Bool-cases (bytes_eq k s.sessionid)) [
  | inl this ↦ rw this h
  | inr other ↦ rw other (h.0, update_session-Above j s m h.1)
]

update_session-IsAscending :
    (s : ClientSession) (m : List (Bytes × ClientSession))
    → IsAscending m
    → IsAscending (update_session s m)
unfolding update_session
update_session-IsAscending s [] h = tt
update_session-IsAscending s ((j, t) ∷ m) h = elim (Bool-cases (bytes_eq j s.sessionid)) [
  | inl this ↦ rw this h
  | inr other ↦ rw other (update_session-Above j s m h.0, update_session-IsAscending s m h.1)
]

update_session-IsKeyed :
    (s : ClientSession) (m : List (Bytes × ClientSession))
    → IsKeyed m
    → IsKeyed (update_session s m)
unfolding update_session
update_session-IsKeyed s [] h = tt
update_session-IsKeyed s ((j, t) ∷ m) h = elim (Bool-cases (bytes_eq j s.sessionid)) [
  | inl this ↦ rw this (sym ((bytes_eq_iff j s.sessionid).0 this), h.1)
  | inr other ↦ rw other (h.0, update_session-IsKeyed s m h.1)
]

session_at-update_other :
    (k : Bytes) (s : ClientSession) (m : List (Bytes × ClientSession))
    → bytes_eq s.sessionid k ≡ false
    → session_at k (update_session s m) ≡ session_at k m
unfolding session_at update_session
session_at-update_other k s [] apart = refl
session_at-update_other k s ((j, t) ∷ m) apart = elim (Bool-cases (bytes_eq j s.sessionid)) [
  | inl this ↦ rw this (
      let off : bytes_eq j k ≡ false =
        subst (λ i. bytes_eq i k ≡ false) (sym ((bytes_eq_iff j s.sessionid).0 this)) apart in
      rw off refl)
  | inr other ↦ rw other (ground (arith, session_at-update_other k s m apart))
]

pub session_at-IsKeyed :
    (k : Bytes) (s : ClientSession) (m : List (Bytes × ClientSession))
    → IsKeyed m
    → session_at k m ≡ some s
    → s.sessionid ≡ k
unfolding session_at
session_at-IsKeyed k s [] h found = absurd (ground arith)
session_at-IsKeyed k s ((j, t) ∷ m) h found = elim (Bool-cases (bytes_eq j k)) [
  | inl this ↦ let at_j : t.sessionid ≡ k = h.0 ∙ (bytes_eq_iff j k).0 this in ground arith
  | inr other ↦ session_at-IsKeyed k s m h.1 (ground arith)
]

pub Touches-IsTable :
    (id : Bytes) (m m' : List (Bytes × ClientSession)) → Touches id m m' → IsTable m → IsTable m'
Touches-IsTable id m m' same h = h
Touches-IsTable id m m' (changed s own before) h =
    let (d, k) = Touches-IsTable id m _ before h in
    (update_session-IsAscending s _ d, update_session-IsKeyed s _ k)

pub session_at-Touches :
    (id k : Bytes) (m m' : List (Bytes × ClientSession))
    → Touches id m m'
    → bytes_eq id k ≡ false
    → session_at k m' ≡ session_at k m
session_at-Touches id k m m' same apart = refl
session_at-Touches id k m m' (changed s own before) apart =
    session_at-update_other k s _ (subst (λ i. bytes_eq i k ≡ false) (sym own) apart)
    ∙ session_at-Touches id k m _ before apart

session_at-insert_other :
    (k id : Bytes) (s : ClientSession) (m : List (Bytes × ClientSession))
    → bytes_eq id k ≡ false
    → session_at k (insert_session id s m) ≡ session_at k m
unfolding session_at insert_session
session_at-insert_other k id s [] apart = ground arith
session_at-insert_other k id s ((j, t) ∷ m) apart =
    ground (arith, session_at-insert_other k id s m apart)

insert_session-Above :
    (j k : Bytes) (s : ClientSession) (m : List (Bytes × ClientSession))
    → bytes_lt j k ≡ true
    → Above j m
    → Above j (insert_session k s m)
unfolding insert_session
insert_session-Above j k s [] below h = (below, tt)
insert_session-Above j k s ((i, t) ∷ m) below h =
    if-elim (Above j) (bytes_eq i k) _ _ (λ _. h)
      (λ _.
        if-elim (Above j) (bytes_lt k i) _ _ (λ _. (below, h))
          (λ _. (h.0, insert_session-Above j k s m below h.1)))

insert_session-IsAscending :
    (k : Bytes) (s : ClientSession) (m : List (Bytes × ClientSession))
    → IsAscending m
    → IsAscending (insert_session k s m)
unfolding insert_session
insert_session-IsAscending k s [] h = (tt, tt)
insert_session-IsAscending k s ((i, t) ∷ m) h =
    if-elim IsAscending (bytes_eq i k) _ _ (λ _. h)
      (λ apart.
        if-elim IsAscending (bytes_lt k i) _ _ (λ below. ((below, Above-trans k i m below h.0), h))
          (λ not_below. (
            insert_session-Above i k s m (bytes_lt_total i k apart not_below) h.0,
            insert_session-IsAscending k s m h.1,
          )))

insert_session-IsKeyed :
    (k : Bytes) (s : ClientSession) (m : List (Bytes × ClientSession))
    → s.sessionid ≡ k
    → IsKeyed m
    → IsKeyed (insert_session k s m)
unfolding insert_session
insert_session-IsKeyed k s [] own h = (own, tt)
insert_session-IsKeyed k s ((i, t) ∷ m) own h =
    if-elim IsKeyed (bytes_eq i k) _ _ (λ _. h)
      (λ _.
        if-elim IsKeyed (bytes_lt k i) _ _ (λ _. (own, h))
          (λ _. (h.0, insert_session-IsKeyed k s m own h.1)))

pub insert_session-IsTable :
    (k : Bytes) (s : ClientSession) (m : List (Bytes × ClientSession))
    → s.sessionid ≡ k
    → IsTable m
    → IsTable (insert_session k s m)
insert_session-IsTable k s m own h =
    (insert_session-IsAscending k s m h.0, insert_session-IsKeyed k s m own h.1)

erase_session-Above :
    (j k : Bytes) (m : List (Bytes × ClientSession)) → Above j m → Above j (erase_session k m)
unfolding erase_session
erase_session-Above j k [] h = tt
erase_session-Above j k ((i, t) ∷ m) h =
    if-elim (Above j) (bytes_eq i k) _ _ (λ _. h.1) (λ _. (h.0, erase_session-Above j k m h.1))

erase_session-IsAscending :
    (k : Bytes) (m : List (Bytes × ClientSession)) → IsAscending m → IsAscending (erase_session k m)
unfolding erase_session
erase_session-IsAscending k [] h = tt
erase_session-IsAscending k ((i, t) ∷ m) h =
    if-elim IsAscending (bytes_eq i k) _ _ (λ _. h.1)
      (λ _. (erase_session-Above i k m h.0, erase_session-IsAscending k m h.1))

erase_session-IsKeyed :
    (k : Bytes) (m : List (Bytes × ClientSession)) → IsKeyed m → IsKeyed (erase_session k m)
unfolding erase_session
erase_session-IsKeyed k [] h = tt
erase_session-IsKeyed k ((i, t) ∷ m) h =
    if-elim IsKeyed (bytes_eq i k) _ _ (λ _. h.1) (λ _. (h.0, erase_session-IsKeyed k m h.1))

pub erase_session-IsTable :
    (k : Bytes) (m : List (Bytes × ClientSession)) → IsTable m → IsTable (erase_session k m)
erase_session-IsTable k m h = (erase_session-IsAscending k m h.0, erase_session-IsKeyed k m h.1)
