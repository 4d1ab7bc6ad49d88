-- ===== src/Session/State/Keys.antt =====
-- The session table as a std::map (IMServer/IMServer/IMSer.h), and its keys.
use aim_server.Common.{
  ◌≡◌, refl, subst, inl, inr, none, List, [], ◌∷◌, arith, Bytes, bytes_eq, bytes_eq_iff, Bool-cases,
}
use aim_server.Session.State.{ClientSession, session_at, erase_session, update_session}

-- No key stands twice in the table.
abbrev pub Distinct : List (Bytes × ClientSession) → Type 0
Distinct [] = Unit
Distinct ((j, t) ∷ m) = (session_at j m ≡ none) × Distinct m

session_at-update_none :
    (k : Bytes) (s : ClientSession) (m : List (Bytes × ClientSession))
    → session_at k m ≡ none
    → session_at k (update_session s m) ≡ none
unfolding session_at update_session
session_at-update_none k s [] h = refl
session_at-update_none k s ((j, t) ∷ m) h = ground (arith, session_at-update_none k s m)

pub update_session-Distinct :
    (s : ClientSession) (m : List (Bytes × ClientSession))
    → Distinct m
    → Distinct (update_session s m)
unfolding update_session
update_session-Distinct s [] h = tt
update_session-Distinct s ((j, t) ∷ m) h = elim (Bool-cases (bytes_eq j s.sessionid)) [
  | inl this ↦ rw this h
  | inr other ↦ rw other (session_at-update_none j s m h.0, update_session-Distinct s m h.1)
]

pub session_at-erase_session :
    (k : Bytes) (m : List (Bytes × ClientSession))
    → Distinct m
    → session_at k (erase_session k m) ≡ none
unfolding session_at erase_session
session_at-erase_session k [] h = refl
session_at-erase_session k ((j, t) ∷ m) h = elim (Bool-cases (bytes_eq j k)) [
  | inl this ↦ rw this (subst (λ i. session_at i m ≡ none) ((bytes_eq_iff j k).0 this) h.0)
  | inr other ↦ rw other (rw other (session_at-erase_session k m h.1))
]
