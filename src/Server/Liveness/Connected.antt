-- ===== src/Server/Liveness/Connected.antt =====
-- What `attached` collects from the live connections.
use sandpolis.Prelude.{
  ℕ, ◌≡◌, inl, inr, true, false, Option, none, some, List, [], ◌∷◌, arith, ◌==◌, if◌then◌else◌,
  Bool-cases, eqb_true,
}
use sandpolis.Prelude.Maps.{get, store, get-store, Ascending, store-Ascending}
use sandpolis.Instance.Id.{is_type, client}
use sandpolis.Server.Liveness.{Attached, attached}
use sandpolis.Server.Liveness.Schedule.{PollAnnouncement}

-- What the last connection of `s`, if it has one, announced.
unfoldable pub announced :
    ℕ
    → List (ℕ × Option PollAnnouncement)
    → Option (Option PollAnnouncement)
    → Option (Option PollAnnouncement)
announced s [] o = o
announced s ((id, poll) ∷ cs) o = announced s cs (if id == s then some poll else o)

attached_from :
    (cs : List (ℕ × Option PollAnnouncement)) (m : Attached) (s : ℕ)
    → Ascending m
    → Ascending (attached cs m)
      × (is_type s client ≡ false → get s (attached cs m) ≡ announced s cs (get s m))
      × (is_type s client ≡ true → get s (attached cs m) ≡ get s m)
unfolding attached announced
attached_from [] m s a = ground arith
attached_from ((id, poll) ∷ cs) m s a = elim (Bool-cases (is_type id client)) [
  | inl t ↦ let (x, y, z) = attached_from cs m s a in ground (arith, t, x, y, z, eqb_true id s)
  | inr f ↦
      let (x, y, z) = attached_from cs (store id poll m) s (store-Ascending id poll m a) in
      ground (arith, f, x, y, z, eqb_true id s, get-store id s poll m)
]

-- The map of the attached instances ascends, leaves clients out, and has of every other instance
-- what its last live connection announced.
pub attached_lookup :
    (cs : List (ℕ × Option PollAnnouncement)) (s : ℕ)
    → Ascending (attached cs [])
      × (is_type s client ≡ false → get s (attached cs []) ≡ announced s cs none)
      × (is_type s client ≡ true → get s (attached cs []) ≡ none)
unfolding get
attached_lookup cs s = attached_from cs [] s tt
