-- ===== src/Server/Liveness/Marks.antt =====
-- What `mark_online` and `mark_offline` make of the rows, read as opinions.
use sandpolis.Prelude.{
  ℕ, ◌≡◌, ◌≢◌, refl, sym, ap, subst, ◌∙◌, ◌⊎◌, inl, inr, Bool, true, false, ◌&&◌, Option, none,
  some, List, [], ◌∷◌, ok, arith, ◌==◌, Bool-cases, eqb_self, eqb_true,
}
use sandpolis.Prelude.Maps.{Ascending, get, get-store}
use sandpolis.Database.Scope.{WriteAuthority, permits, of_instance}
use sandpolis.Database.Resident.{Row, Write, update_inner}
use sandpolis.Database.Resident.Vec.{Outcome, update_at}
use sandpolis.Database.Resident.Vec.Search.{
  Cache, find_row, search, Single, Touches, Apart, Touches-Ascending, Touches-Single, Touches-Apart,
  find_row-some,
}
use sandpolis.Database.Resident.Vec.Leaves.{Leaves, IsOpen, update_at-Leaves, update_at-ok}
use sandpolis.Network.Liveness.{LivenessData}
use sandpolis.Server.Liveness.{
  is_about, refreshed, first_seen, liveness_env, same_data, same_text, same_option,
}
use sandpolis.Server.Liveness.Schedule.{PollAnnouncement}

-- What `observer` says of `subject`.
abbrev pub opinion : ℕ → ℕ → Cache LivenessData → Option LivenessData
opinion observer subject g = search (is_about observer subject) g

-- The keys ascend, and each observer has at most one row about each subject.
abbrev pub IsValid : Cache LivenessData → Type 0
IsValid g = Ascending g × ((o s : ℕ) → Single (is_about o s) g)

-- Every write of the observer's rows is permitted and committed.
abbrev pub CanWrite : WriteAuthority → (List (Write LivenessData) → Bool) → ℕ → Type 0
CanWrite a commits observer =
    ((ws : List (Write LivenessData)) → commits ws ≡ true)
    × (permits a (of_instance observer) ≡ true)

-- An opinion comes from `old` and is meant to be `want`; under `P` it is.
abbrev pub Nears : Type 0 → (old want new : Option LivenessData) → Type 0
Nears P old want new = ((new ≡ old) ⊎ (new ≡ want)) × (P → new ≡ want)

-- Where a pass leads: only the observer's opinions change, each toward what `want` says.
abbrev pub Leads :
    ℕ
    → Type 0
    → (ℕ → Option LivenessData → Option LivenessData)
    → Cache LivenessData
    → Cache LivenessData
    → Type 0
Leads observer P want g h =
    IsValid h
    × ((o s : ℕ) → observer ≢ o → opinion o s h ≡ opinion o s g)
    × ((s : ℕ)
        → Nears P (opinion observer s g) (want s (opinion observer s g)) (opinion observer s h))

same_text-eq : (xs ys : List ℕ) → same_text xs ys ≡ true → xs ≡ ys
same_text-eq [] [] h = refl
same_text-eq [] (y ∷ ys) h = cc
same_text-eq (x ∷ xs) [] h = cc
same_text-eq (x ∷ xs) (y ∷ ys) h = ground (arith, same_text-eq xs ys, eqb_true x y)

same_schedule-eq : (a b : Option (List ℕ)) → same_option same_text a b ≡ true → a ≡ b
same_schedule-eq none none h = refl
same_schedule-eq none (some y) h = cc
same_schedule-eq (some x) none h = cc
same_schedule-eq (some x) (some y) h = ap some (same_text-eq x y h)

same_data-eq : (a b : LivenessData) → same_data a b ≡ true → a ≡ b
unfolding same_data
same_data-eq a b h =
    ground (
      arith,
      same_schedule-eq a.poll_schedule b.poll_schedule,
      eqb_true a.instance_id b.instance_id,
    )

about-Apart : (o s p t : ℕ) → (o ≡ p → s ≢ t) → Apart (is_about o s) (is_about p t)
about-Apart o s p t n d e = ground (
  arith,
  n,
  eqb_true d.instance_id o,
  eqb_true d.instance_id p,
  eqb_true d.subject s,
  eqb_true d.subject t,
)

-- What `mark_online` means to leave.
abbrev pub present :
    ℕ → ℕ → ℕ → Option PollAnnouncement → Option ℕ → Option LivenessData → LivenessData
present observer subject now poll next none = first_seen observer subject now poll next
present observer subject now poll next (some d) = refreshed now poll next d

module _ (a : WriteAuthority) (commits : List (Write LivenessData) → Bool) (observer : ℕ) where
  -- A mark of `subject`, meant to leave `want` there and to use no new key but `key`: every other
  -- opinion, of whatever observer, is as it was.
  abbrev pub Marks :
      Type 0 → ℕ → ℕ → Option LivenessData → Cache LivenessData → Cache LivenessData → Type 0
  Marks P key subject want g h =
      IsValid h
      × ((o s : ℕ) → (observer ≡ o → subject ≢ s) → opinion o s h ≡ opinion o s g)
      × ((k : ℕ) → key ≢ k → get k g ≡ none → get k h ≡ none)
      × Nears P (opinion observer subject g) want (opinion observer subject h)

  touches-IsValid :
      (subject : ℕ) (g h : Cache LivenessData)
      → IsValid g
      → Touches (is_about observer subject) g h
      → IsValid h × ((o s : ℕ) → (observer ≡ o → subject ≢ s) → opinion o s h ≡ opinion o s g)
  touches-IsValid subject g h (asc, one) t = (
    (Touches-Ascending (is_about observer subject) g h asc t, single),
    λ o s n.
        (Touches-Apart (is_about observer subject) g h (is_about o s) asc
          (about-Apart observer subject o s n) t).0,
  )
    where
      single : (o s : ℕ) → Single (is_about o s) h
      single o s = elim (Bool-cases (observer == o && subject == s)) [
        | inl e ↦
            subst (λ p. Single (is_about p s) h) (eqb_true observer o (ground arith))
              (subst (λ q. Single (is_about observer q) h) (eqb_true subject s (ground arith))
                (Touches-Single (is_about observer subject) g h asc (one observer subject) t))
        | inr f ↦
            (Touches-Apart (is_about observer subject) g h (is_about o s) asc
                (about-Apart observer subject o s (λ e n. ground (arith, eqb_self o, eqb_self s)))
                t).1
              (one o s)
      ]

  pub Leaves-Marks :
      (P : Type 0) (key subject : ℕ) (want : LivenessData) (g : Cache LivenessData)
      (o : Outcome LivenessData)
      → IsValid g
      → ((k : ℕ) → key ≢ k → get k g ≡ none → get k o.rows ≡ none)
      → Leaves (is_about observer subject) want g o
      → (P → o.result ≡ ok tt)
      → Marks P key subject (some want) g o.rows
  Leaves-Marks P key subject want g o w free (t, c, r) good =
      let (w', others) = touches-IsValid subject g o.rows w t in
      (w', others, free, (c, λ p. r (good p)))

  pub IsOpen-env :
      (s : ℕ) → CanWrite a commits observer → IsOpen (liveness_env a commits) (is_about observer s)
  IsOpen-env s (c, p) = (
    c,
    λ d e.
        subst (λ i. permits a (of_instance i) ≡ true)
          (sym (eqb_true d.instance_id observer (ground arith))) p,
  )

  update_at-get :
      (k : ℕ) (row : Row LivenessData) (m : Row LivenessData → Option (Row LivenessData))
      (g : Cache LivenessData) (j : ℕ)
      → get k g ≡ some row
      → get j g ≡ none
      → get j (update_at (liveness_env a commits) m false k row g).rows ≡ none
  unfolding update_at
  update_at-get k row m g j p n =
      let r = update_inner (liveness_env a commits) m false row in
      ground (arith, get-store k j r.cached g, eqb_true k j)

  -- What an update of the row found leaves, by a function that keeps what the row is about.
  pub update-Marks :
      (f : LivenessData → LivenessData) (subject k : ℕ) (row : Row LivenessData)
      (g : Cache LivenessData)
      → ((d : LivenessData) → is_about observer subject (f d) ≡ is_about observer subject d)
      → IsValid g
      → find_row (is_about observer subject) g ≡ some (k, row)
      → let o =
          update_at
            (liveness_env a commits)
            (λ r. some (record r { content = f r.content }))
            false
            k
            row
            g in
        (key : ℕ) → Marks (CanWrite a commits observer) key subject (some (f row.content)) g o.rows
  update-Marks f subject k row g keeps w found key =
      let v = liveness_env a commits in
      let is : LivenessData → Bool = is_about observer subject in
      let m : Row LivenessData → Option (Row LivenessData) =
        λ r. some (record r { content = f r.content }) in
      let (p, t) = find_row-some is k row g w.0 found in
      let kept = keeps row.content ∙ t in
      Leaves-Marks (CanWrite a commits observer) key subject (f row.content) g
        (update_at v m false k row g) w (λ j x n. update_at-get k row m g j p n)
        (update_at-Leaves v is g f false k row same_data-eq w.0 (w.1 observer subject) found kept)
        λ c. update_at-ok v is g f false k row (IsOpen-env subject c) kept
