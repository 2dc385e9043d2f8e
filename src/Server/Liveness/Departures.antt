-- ===== src/Server/Liveness/Departures.antt =====
-- The second loop of `reconcile`, opinion by opinion.
use sandpolis.Prelude.{
  ℕ, ◌≡◌, ◌≢◌, refl, sym, ap, subst, ◌∙◌, inl, inr, Bool, true, false, ◌&&◌, Option, none, some,
  List, [], ◌∷◌, any, arith, ◌==◌, if◌then◌else◌, Bool-cases, eqb_self, eqb_true, eqb_false,
}
use sandpolis.Prelude.Maps.{get, Ascending, get-Above}
use sandpolis.Database.Scope.{WriteAuthority}
use sandpolis.Database.Resident.{Row, Write}
use sandpolis.Database.Resident.Vec.Search.{
  Cache, find_row, search, content_of, find_row-some, find_row-get,
}
use sandpolis.Network.Liveness.{LivenessData}
use sandpolis.Server.Liveness.{
  Attached, is_about, gone, liveness_env, mark_offline, is_some, passed, is_overdue, overdue,
  mark_overdue,
}
use sandpolis.Server.Liveness.Marks.{opinion, IsValid, CanWrite, Nears, Leads}
use sandpolis.Server.Liveness.Calls.{gone_if, mark_offline-Marks}

listed : ℕ → List ℕ → Bool
listed s xs = any (λ x. x == s) xs

gone_when : Bool → Option LivenessData → Option LivenessData
gone_when true old = gone_if old
gone_when false old = old

gone_twice : (o : Option LivenessData) → gone_if (gone_if o) ≡ gone_if o
unfolding gone
gone_twice none = refl
gone_twice (some d) = refl

-- What the server is to say of an instance that is not attached.
unfoldable pub absent_view : ℕ → Option LivenessData → Option LivenessData
unfolding gone
absent_view now none = none
absent_view now (some d) = if d.online && passed now d.expected_next then some (gone d) else some d

abbrev pub overdue_view : Attached → ℕ → ℕ → Option LivenessData → Option LivenessData
overdue_view seen now s old = if is_some (get s seen) then old else absent_view now old

module _ (observer : ℕ) (seen : Attached) (now : ℕ) where
  overdue_row :
      (s : ℕ) (g : Cache LivenessData)
      → Ascending g
      → listed s (overdue observer seen now g) ≡ true
      → (k : ℕ) × (r : Row LivenessData) × (get k g ≡ some r)
        × (is_overdue observer seen now r.content ≡ true)
        × (r.content.subject ≡ s)
  unfolding overdue get listed any
  overdue_row s [] a h = cc
  overdue_row s ((j, x) ∷ g) (b, a) h =
      elim (Bool-cases (is_overdue observer seen now x.content && x.content.subject == s)) [
        | inl t ↦ (
          j,
          x,
          ground (arith, eqb_self j),
          ground arith,
          eqb_true x.content.subject s (ground arith),
        )
        | inr f ↦
            let (k, r, p, d, e) = overdue_row s g a (ground arith) in
            (k, r, ground (arith, p, get-Above j g k {v = r} b p), d, e)
      ]

  row_overdue :
      (s k : ℕ) (r : Row LivenessData) (g : Cache LivenessData)
      → get k g ≡ some r
      → is_overdue observer seen now r.content ≡ true
      → r.content.subject ≡ s
      → listed s (overdue observer seen now g) ≡ true
  unfolding overdue get listed any
  row_overdue s k r [] p d e = cc
  row_overdue s k r ((j, x) ∷ g) p d e =
      ground (arith, row_overdue s k r g, eqb_self s, eqb_true j k)

none_when : (b : Bool) → gone_when b none ≡ none
unfolding gone_when
none_when true = refl
none_when false = refl

Nears-hit :
    (b : Bool) (P : Type 0) (old mid new : Option LivenessData)
    → Nears P old (gone_if old) mid
    → Nears P mid (gone_when b mid) new
    → Nears P old (gone_if old) new
unfolding gone_when
Nears-hit true P old mid new (e, d) (f, q) =
    (ground (arith, gone_twice old), λ p. ground (arith, d p, q p, gone_twice old))
Nears-hit false P old mid new (e, d) (f, q) = (ground arith, λ p. ground (arith, d p, q p))

module _ (a : WriteAuthority) (commits : List (Write LivenessData) → Bool) (observer : ℕ) where
  gone_want : List ℕ → ℕ → Option LivenessData → Option LivenessData
  gone_want xs s old = gone_when (listed s xs) old

  Nears-gone :
      (s x : ℕ) (xs : List ℕ) (P : Type 0) (old mid new : Option LivenessData)
      → (x ≢ s → mid ≡ old)
      → (x ≡ s → Nears P old (gone_if old) mid)
      → Nears P mid (gone_want xs s mid) new
      → Nears P old (gone_want (x ∷ xs) s old) new
  unfolding gone_want gone_when listed any
  Nears-gone s x xs P old mid new miss hit rest = elim (Bool-cases (x == s)) [
    | inl t ↦ rw t (Nears-hit (listed s xs) P old mid new (hit (eqb_true x s t)) rest)
    | inr f ↦ rw f (subst (λ o. Nears P o (gone_want xs s o) new) (miss (eqb_false x s f)) rest)
  ]

  mark_overdue-Leads :
      (xs : List ℕ) (g : Cache LivenessData)
      → IsValid g
      → Leads observer
          (CanWrite a commits observer)
          (gone_want xs)
          g
          (mark_overdue (liveness_env a commits) observer xs g).0
  unfolding mark_overdue gone_want listed any gone_when
  mark_overdue-Leads [] g w = (w, λ o s n. refl, λ s. (inl refl, λ p. refl))
  mark_overdue-Leads (x ∷ xs) g w =
      let m = (mark_offline (liveness_env a commits) observer x g).0 in
      let h = (mark_overdue (liveness_env a commits) observer xs m).0 in
      let (wm, others, free, near) = mark_offline-Marks a commits (λ s. s) observer x g w in
      let (wh, foreign, rest) = mark_overdue-Leads xs m wm in
      (
        wh,
        λ o s n. foreign o s n ∙ others o s (λ e. absurd (n e)),
        λ s.
            Nears-gone s x xs (CanWrite a commits observer) (opinion observer s g)
              (opinion observer s m) (opinion observer s h) (λ n. others observer s (λ e. n))
              (λ e.
                subst
                  (λ t.
                    Nears (CanWrite a commits observer) (opinion observer t g)
                      (gone_if (opinion observer t g)) (opinion observer t m))
                  e near)
              (rest s),
      )

  overdue_about :
      (seen : Attached) (now s : ℕ) (d : LivenessData)
      → is_overdue observer seen now d ≡ true
      → d.subject ≡ s
      → is_about observer s d ≡ true
  unfolding is_overdue
  overdue_about seen now s d h e = ground (arith, eqb_self s)

  about_subject : (s : ℕ) (d : LivenessData) → is_about observer s d ≡ true → d.subject ≡ s
  about_subject s d h = eqb_true d.subject s (ground arith)

  overdue_when :
      (seen : Attached) (now s : ℕ) (d : LivenessData)
      → is_about observer s d ≡ true
      → gone_when (is_overdue observer seen now d) (some d) ≡ overdue_view seen now s (some d)
  unfolding is_overdue absent_view gone_when
  overdue_when seen now s d t = ground (arith, ap (λ x. get x seen) (about_subject s d t))

  listed_when :
      (seen : Attached) (now s k : ℕ) (r : Row LivenessData) (g : Cache LivenessData)
      → IsValid g
      → find_row (is_about observer s) g ≡ some (k, r)
      → listed s (overdue observer seen now g) ≡ is_overdue observer seen now r.content
  listed_when seen now s k r g w e =
      let (p, t) = find_row-some (is_about observer s) k r g w.0 e in
      elim (Bool-cases (listed s (overdue observer seen now g))) [
        | inl y ↦
            let (k', r', p', d, q) = overdue_row observer seen now s g w.0 y in
            let e' =
              find_row-get (is_about observer s) k' r' g w.0 (w.1 observer s) p'
                (overdue_about seen now s r'.content d q) in
            y ∙ sym d ∙ ap (is_overdue observer seen now) (cc (e, e'))
        | inr n ↦ elim (Bool-cases (is_overdue observer seen now r.content)) [
          | inl d ↦
              absurd
                (cc (n, row_overdue observer seen now s k r g p d (about_subject s r.content t)))
          | inr d ↦ n ∙ sym d
        ]
      ]

  -- The row that the server has about `s` is overdue exactly when `s` is listed.
  found_want :
      (seen : Attached) (now s : ℕ) (g : Cache LivenessData) (found : Option (ℕ × Row LivenessData))
      → IsValid g
      → find_row (is_about observer s) g ≡ found
      → gone_want (overdue observer seen now g) s (content_of found)
        ≡ overdue_view seen now s (content_of found)
  unfolding gone_want absent_view
  found_want seen now s g none w e =
      none_when (listed s (overdue observer seen now g)) ∙ ground arith
  found_want seen now s g (some (k, r)) w e =
      let (p, t) = find_row-some (is_about observer s) k r g w.0 e in
      ap (λ b. gone_when b (some r.content)) (listed_when seen now s k r g w e)
      ∙ overdue_when seen now s r.content t

  pub departures-Leads :
      (seen : Attached) (now : ℕ) (g : Cache LivenessData)
      → IsValid g
      → Leads observer
          (CanWrite a commits observer)
          (overdue_view seen now)
          g
          (mark_overdue (liveness_env a commits) observer (overdue observer seen now g) g).0
  unfolding search
  departures-Leads seen now g w =
      let xs = overdue observer seen now g in
      let (wh, foreign, near) = mark_overdue-Leads xs g w in
      (
        wh,
        foreign,
        λ s.
            subst
              (λ want.
                Nears (CanWrite a commits observer) (opinion observer s g) want
                  (opinion observer s (mark_overdue (liveness_env a commits) observer xs g).0))
              (found_want seen now s g (find_row (is_about observer s) g) w refl) (near s),
      )
